-- ===== src/Mf4Client/Recording.antt =====
-- What is read back from the file that the goroutine for frames leaves: the recording of a session,
-- from the channel to the playback.
use cantou.Common.{
  ℕ, suc, ◌^◌, ◌≤◌, ◌<◌, ◌≡◌, refl, ap, ◌∙◌, Bool, true, false, Option, none, some, List, [], ◌∷◌,
  ◌&&◌, ◌≢◌, map, arith, Bytes, length, All, leb, leb→le, if◌then◌else◌, Bool-cases, inl, inr,
  ◌>>=◌, equal_iff,
}
use cantou.Models.{CanMessageTimestamped}
use cantou.Client.Filters.{FilterSet, should_filter}
use cantou.Mf4.Outcome.{ok}
use cantou.Mf4.Metadata.{layout_can}
use cantou.Mf4.Writer.{Writer, new_writer, append_can, close_unfinalized}
use cantou.Mf4.Reader.{parse, rebase}
use cantou.Mf4.Stream.{Frame, IsRecordable, append_all, stream, append_can_lem}
use cantou.Mf4.Decode.{entry}
use cantou.Mf4.RoundTrip.{parse-append_all, parse-close, vlsd_total-le}
use cantou.Mf4Client.{
  Mf4LogConfig, Client, created, new_client, close_can, handle_can_message, handle_can_messages,
  handle_can_message_channel, closed_by,
}

abbrev passes : Option (Option Bytes) → Bool
passes (some none) = true
passes _ = false

-- The frames that no filter rejects and that fit the format.
abbrev pub kept : FilterSet → List CanMessageTimestamped → List CanMessageTimestamped
kept filters [] = []
kept filters (m ∷ ms) =
    let rest = kept filters ms in
    if passes (should_filter filters m) && leb (length m.bytes) 64 then m ∷ rest else rest

abbrev pub NoPanic : FilterSet → CanMessageTimestamped → Type 0
NoPanic filters m = should_filter filters m ≢ none

close_unfinalized-file : (w : Writer) → (close_unfinalized w).file ≡ w.file
unfolding close_unfinalized
close_unfinalized-file w = ground arith

-- What NewClient starts with when a file for frames is named.
new_client-ready :
    (opens : Bytes → Bool) (cfg : Mf4LogConfig) (c : Client)
    → new_client opens cfg ≡ created c
    → cfg.can_output_file ≢ []
    → c.can_writer ≡ some (new_writer layout_can)
unfolding new_client
new_client-ready opens cfg c h named = ground (arith, h, named, equal_iff cfg.can_output_file [])

module _ (float_bits : ℕ → ℕ) where
  abbrev pub frame_of : CanMessageTimestamped → Frame
  frame_of m = record {
    ts_bits = float_bits m.timestamp;
    id = m.id;
    tx = m.transmit;
    payload = m.bytes;
  }

  append_can_too_long :
      (w : Writer) (m : CanMessageTimestamped)
      → w.scheme ≡ layout_can
      → leb (length m.bytes) 64 ≡ false
      → (append_can w (float_bits m.timestamp) m.id m.transmit m.bytes).0 ≡ w
  unfolding append_can
  append_can_too_long w m s h = ground (arith, s, h)

  module _ (signals : Option Writer) (finalize : Bool) (filters : FilterSet) where
    abbrev recording : Writer → Client
    recording w = record {
      can_writer = some w;
      signal_writer = signals;
      finalize = finalize;
      filters = filters;
    }

    -- A frame that is not kept leaves the file as it is.
    handle_skipped :
        (w : Writer) (m : CanMessageTimestamped) (o : Option (Option Bytes))
        → should_filter filters m ≡ o
        → NoPanic filters m
        → w.scheme ≡ layout_can
        → (passes o && leb (length m.bytes) 64) ≡ false
        → handle_can_message float_bits (recording w) m ≡ some (recording w)
    unfolding handle_can_message
    handle_skipped w m none e h s k = absurd (h e)
    handle_skipped w m (some (some name)) e h s k = rw e
    handle_skipped w m (some none) e h s k =
        rw e (ap (λ x. some (recording x)) (append_can_too_long w m s k))

    handle_recorded :
        (w : Writer) (m : CanMessageTimestamped) (o : Option (Option Bytes))
        → should_filter filters m ≡ o
        → passes o ≡ true
        → handle_can_message float_bits (recording w) m
          ≡ some (recording (append_can w (float_bits m.timestamp) m.id m.transmit m.bytes).0)
    unfolding handle_can_message
    handle_recorded w m none e k = cc
    handle_recorded w m (some (some name)) e k = cc
    handle_recorded w m (some none) e k = rw e

    handle-kept :
        (w : Writer) (ms : List CanMessageTimestamped)
        → All (NoPanic filters) ms
        → w.scheme ≡ layout_can
        → w.opened ≡ true
        → handle_can_messages float_bits (recording w) ms
          ≡ some (recording (append_all w (map frame_of (kept filters ms))))
    unfolding handle_can_messages
    handle-kept w [] h s o = refl
    handle-kept w (m ∷ ms) h s o =
        elim (Bool-cases (passes (should_filter filters m) && leb (length m.bytes) 64)) [
          | inr skipped ↦
              rw (skipped, handle_skipped w m (should_filter filters m) refl h.0 s skipped)
                (handle-kept w ms h.1 s o)
          | inl recorded ↦
              let fits : leb (length m.bytes) 64 ≡ true = ground (arith, recorded) in
              let step = append_can_lem w (frame_of m) s o (leb→le _ _ fits) in
              rw
                (
                  recorded,
                  handle_recorded w m (should_filter filters m) refl (ground (arith, recorded)),
                )
                (handle-kept (append_can w (float_bits m.timestamp) m.id m.transmit m.bytes).0 ms
                  h.1 (ground (arith, step, s)) (ground (arith, step, o)))
        ]

  kept-IsRecordable :
      ((n : ℕ) → float_bits n < 2 ^ 64)
      → (filters : FilterSet) (ms : List CanMessageTimestamped) → All (λ m. m.id < 2 ^ 29) ms
      → All IsRecordable (map frame_of (kept filters ms))
  kept-IsRecordable bits filters [] h = tt
  kept-IsRecordable bits filters (m ∷ ms) h =
      elim (Bool-cases (passes (should_filter filters m) && leb (length m.bytes) 64)) [
        | inr skipped ↦ rw skipped (kept-IsRecordable bits filters ms h.1)
        | inl recorded ↦ rw recorded (
          record {
            ts_fits = bits m.timestamp;
            id_fits = h.0;
            payload_fits = leb→le _ _ (ground (arith, recorded));
          },
          kept-IsRecordable bits filters ms h.1,
        )
      ]

  module _ (to_int64 : ℕ → ℕ) where
    parse-closed_by :
        (fuel : ℕ) (finalize : Bool) (fs : List Frame)
        → All IsRecordable fs
        → length (stream 0 fs) ≤ 2 ^ 48
        → parse to_int64
            (suc (suc fuel))
            (closed_by finalize (append_all (new_writer layout_can) fs)).file
          ≡ ok (rebase (map (entry to_int64) fs))
    parse-closed_by fuel true fs h room = parse-close to_int64 fuel fs h room
    parse-closed_by fuel false fs h room =
        ap (parse to_int64 (suc (suc fuel)))
          (close_unfinalized-file (append_all (new_writer layout_can) fs))
        ∙ parse-append_all to_int64 fuel fs h (omega (arith, vlsd_total-le fs 0))

    -- A session from the start: take the client that NewClient makes for a configuration with a
    -- file for frames, with any filters that keep no state, and any frames with identifiers of at
    -- most 29 bits, on which no filter panics, and whose records take at most 2^48 bytes. When the
    -- channel is closed, the client is left without its writer, and the file it leaves, finalized or
    -- not, is played back as one entry for each frame that no filter rejects and that has at most 64
    -- bytes of data, in order: a data frame with the identifier and the direction of the frame, with
    -- all the bytes of its data, their number as its length, and with its time, as a float64 keeps
    -- it, counted from the first. Whether the frame was a remote one, its own length, where the data
    -- is padded, its interface and the time of the first frame are not played back.
    pub handle_can_message_channel-parse :
        (opens : Bytes → Bool) (cfg : Mf4LogConfig) (c : Client) (filters : FilterSet)
        → (fuel : ℕ) (ms : List CanMessageTimestamped) → new_client opens cfg ≡ created c
        → cfg.can_output_file ≢ []
        → ((n : ℕ) → float_bits n < 2 ^ 64)
        → All (λ m. m.id < 2 ^ 29) ms
        → All (NoPanic filters) ms
        → length (stream 0 (map frame_of (kept filters ms))) ≤ 2 ^ 48
        → (w : Writer) × (handle_can_message_channel float_bits (record c { filters = filters }) ms
            ≡ some (record c { filters = filters; can_writer = none }, some w))
          × (parse to_int64 (suc (suc fuel)) w.file
              ≡ ok (rebase (map (entry to_int64) (map frame_of (kept filters ms)))))
    unfolding handle_can_message_channel
    handle_can_message_channel-parse opens cfg c filters fuel ms made named bits ids calm room =
        let w = append_all (new_writer layout_can) (map frame_of (kept filters ms)) in
        let ready = new_client-ready opens cfg c made named in
        (
          closed_by c.finalize w,
          ap
                (λ (o : Option Writer).
                  handle_can_messages float_bits (record c { filters = filters; can_writer = o }) ms
                  >>= λ d. some (close_can d))
                ready
              ∙ ap (λ (o : Option Client). o >>= λ d. some (close_can d))
                  (handle-kept c.signal_writer c.finalize filters (new_writer layout_can) ms calm
                    (unfold new_writer in refl) (unfold new_writer in refl)),
          parse-closed_by fuel c.finalize (map frame_of (kept filters ms))
              (kept-IsRecordable bits filters ms ids) room,
        )
