-- ===== src/Obd/Device/Tests.antt =====
-- A device at concrete reads, and the theorems about it.
use cantou.Common.{
  ◌≡◌, refl, some, true, false, List, [], ◌∷◌, ◌++◌, Bytes, codes, map, arith, equal, has_prefix,
}
use cantou.Obd.{Frame, is_status_token, is_token}
use cantou.Obd.Device.{
  Device, chunk, carriage_return, split_at, clean_response, read_loop, read_pending,
  read_until_prompt, monitor,
}
use cantou.Obd.Device.Responses.{IsCleaned, stream, read_until_prompt-stream}
use cantou.Obd.Device.Lines.{framed, remark}
use cantou.Obd.Device.Monitoring.{monitor-wire}

-- The prompt is in the second piece, with the beginning of the next line behind it.
abbrev pieces : List Bytes
pieces = codes "K" ∷ ((carriage_return ∷ codes ">7E") ∷ (codes "8" ∷ []))

abbrev device : Device
device = record { pending = codes "O"; reads = map chunk pieces; writes = []; written = [] }

answered_ok : (read_until_prompt device).0 ≡ some (codes "OK")
unfolding read_until_prompt read_pending read_loop split_at clean_response
answered_ok = refl

read_until_prompt-stream_example :
    ((response : Bytes) × ((read_until_prompt device).0 ≡ some response)
      × IsCleaned (codes "OK" ++ (carriage_return ∷ [])) response)
    × ((later : List Bytes) × ((read_until_prompt device).1.reads ≡ map chunk later)
        × ((read_until_prompt device).1.pending ++ stream later ≡ codes "7E8"))
read_until_prompt-stream_example =
    read_until_prompt-stream device pieces (codes "OK" ++ (carriage_return ∷ [])) (codes "7E8") refl
      (refl, (refl, (refl, (refl, tt))))

abbrev engine : Frame
engine = record { id = 0x7E8; extended = false; bytes = 4 ∷ (0x41 ∷ []) }

abbrev cut_lines : List Bytes
cut_lines =
    codes "E8"
    ∷ ((codes "0441" ++ (carriage_return ∷ codes "NO D"))
        ∷ ((codes "ATA" ++ (carriage_return ∷ [])) ∷ []))

abbrev left_over : Device
left_over = record { pending = codes "7"; reads = []; writes = []; written = [] }

monitor-wire_example :
    ((monitor (codes "ATMA") false (map chunk cut_lines) left_over).0 ≡ true)
    × ((monitor (codes "ATMA") false (map chunk cut_lines) left_over).1 ≡ engine ∷ [])
unfolding is_status_token is_token equal has_prefix
monitor-wire_example =
    monitor-wire (codes "ATMA") false (framed engine ∷ (remark (codes "NO DATA") ∷ [])) cut_lines
      left_over
      (
        (refl, omega arith, (omega arith, (omega arith, tt))),
        ((refl, (refl, (refl, (refl, (refl, (refl, (refl, (refl, tt)))))))), tt),
      )
      refl refl
