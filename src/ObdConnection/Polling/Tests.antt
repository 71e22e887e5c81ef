-- ===== src/ObdConnection/Polling/Tests.antt =====
-- Sessions of polling and of the hybrid mode with the drivers of internal/obd, and the theorem at one.
use cantou.Common.{
  ◌+◌, ◌*◌, ◌≡◌, ◌≢◌, ◌⊎◌, refl, true, none, some, List, [], ◌∷◌, ◌++◌, Bytes, codes, length, map,
  contains, equal,
}
use Prim.Native.Nat.{min}
use cantou.Common.Split.{split_on}
use cantou.Common.HexUint.{format_upper_hex}
use cantou.Common.Decimal.{format_uint, decimal_from}
use cantou.Obd.{protocol_can11_500, is_status_token, is_token, parse_line, parse_clean}
use cantou.Obd.Device.{
  Device, chunk, carriage_return, split_at, clean_response, read_loop, read_pending,
  read_until_prompt, write_line, command, expect_ok, monitor, monitor_loop, feed_monitor, feed_byte,
  stop_monitor, finish,
}
use cantou.Obd.Elm327.{
  request, monitor_all, expect_all, parse_parts, parse_response_frames, padded_hex,
}
use cantou.Obd.Stn.{
  monitor_stn, start_periodic, stop_periodic, add_periodic, periodic_message, is_error_response,
  obd_single_frame,
}
use cantou.ObdConnection.{mode_hybrid}
use cantou.ObdConnection.Polling.{
  Poll, Driver, running, failed, run_poll, run_once, poll_once, emit_all, run_hybrid, run_periodic,
  monitor_frames,
}
use cantou.ObdConnection.Polling.Sequence.{IsAsked, rounds_of}
use cantou.ObdConnection.Polling.Requests.{run_poll-asked}

abbrev elm : Driver Device
elm = record {
  request = request protocol_can11_500;
  monitor = monitor_all protocol_can11_500 [];
  periodic = none;
}

abbrev stn : Driver Device
stn = record {
  request = request protocol_can11_500;
  monitor = monitor_stn protocol_can11_500 [];
  periodic =
      some (record { start_periodic = start_periodic; stop_periodic = λ d. (stop_periodic d).1 });
}

-- A device that answers each request in one piece; it has no answer to a fourth one.
abbrev adapter : Device
adapter = record {
  pending = [];
  reads =
      map (λ s. chunk (s ++ (carriage_return ∷ codes ">")))
        (codes "7E804410C1AF8" ∷ (codes "NO DATA" ∷ (codes "7E804410C1B00" ∷ [])));
  writes = [];
  written = [];
}

abbrev wanted : List Bytes
wanted = codes "010C" ∷ (codes "010D" ∷ [])

abbrev at_once : Poll
at_once = record { sends = λ i j. some (10 * i + j); ticked = true }

-- The stop comes before the fourth request.
cut_short :
    (run_poll elm 3 wanted (at_once ∷ (at_once ∷ [])) 3 adapter).3.written
    ≡ map (λ s. s ++ (carriage_return ∷ [])) (codes "010C" ∷ (codes "010D" ∷ (codes "010C" ∷ [])))
unfolding run_poll poll_once emit_all request command write_line read_until_prompt read_pending
    read_loop split_at clean_response contains parse_response_frames parse_parts is_status_token
    is_token equal split_on parse_line parse_clean
cut_short = refl

unanswered : (run_poll elm 3 wanted (at_once ∷ (at_once ∷ [])) 9 adapter).0 ≡ failed
unfolding run_poll poll_once emit_all request command write_line read_until_prompt read_pending
    read_loop split_at clean_response contains parse_response_frames parse_parts is_status_token
    is_token equal split_on parse_line parse_clean
unanswered = refl

-- The polling of the adapter is started before the monitor, and cleared behind it.
hybrid_written :
    (run_once stn 3 mode_hybrid wanted 500 [] 9
      (λ i. none)
      (record adapter {
        reads =
            map
              (λ s. chunk (s ++ codes ">"))
              (codes "OK"
                ∷ (codes "OK" ∷ (codes "OK" ∷ (codes "OK" ∷ (codes "OK" ∷ (codes "OK" ∷ []))))));
      })).2.written
    ≡ map
        (λ s. s ++ (carriage_return ∷ []))
        (codes "STCMM 1"
          ∷ (codes "STPPMA 500, 7DF, 02010C"
              ∷ (codes "STPPMA 500, 7DF, 02010D"
                  ∷ (codes "STM" ∷ ([] ∷ (codes "STPPMC" ∷ (codes "STCMM 0" ∷ [])))))))
unfolding format_upper_hex run_poll run_once run_hybrid run_periodic monitor_frames start_periodic
    stop_periodic add_periodic periodic_message is_error_response obd_single_frame monitor_stn
    monitor monitor_loop feed_monitor feed_byte stop_monitor finish expect_ok expect_all padded_hex
    format_uint decimal_from command write_line read_until_prompt read_pending read_loop split_at
    clean_response contains equal
hybrid_written = refl

run_poll-asked_example :
    let (ending, messages, life', d') =
      run_poll elm 3 wanted (at_once ∷ (at_once ∷ [])) 3 adapter in
    let list = rounds_of 2 wanted in
    (a : IsAsked elm 3 list 3 adapter life' d' messages) × ((ending ≢ running)
      ⊎ (a.asked ≡ min 3 (length list)))
run_poll-asked_example =
    run_poll-asked elm 3 wanted (at_once ∷ (at_once ∷ [])) 3 adapter
      ((λ i j e. cc e), ((λ i j e. cc e), tt))
