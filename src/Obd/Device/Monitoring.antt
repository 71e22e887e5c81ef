-- ===== src/Obd/Device/Monitoring.antt =====
-- What the monitor of internal/obd/device.go makes of a stream of lines.
use cantou.Obd.Device.Lines.{
  Line, framed, remark, text, frames_of, wire, IsLine, feed_monitor-append, monitor_loop-stream,
  feed_monitor-IsUnbroken, hex-IsUnbroken, printed-IsUpperHex, length-printed, equal_nil,
}
use cantou.Common.{
  ◌≡◌, refl, sym, ap, ◌∙◌, Bool, true, false, some, List, [], ◌∷◌, ◌++◌, append-nil, append_assoc,
  Bytes, map, inl, inr, Bool-cases, equal, All,
}
use cantou.Obd.{Frame, parse_line, is_status_token, trim_space}
use cantou.Obd.Lines.{printed, parse_line-printed, trim_space-IsUpperHex, is_status_token-hex}
use cantou.Obd.Device.{
  carriage_return, chunk, Device, Feed, emit, feed_byte, feed_monitor, monitor_loop, monitor,
  stop_monitor, write_line, finish, sent,
}
use cantou.Obd.Device.Responses.{stream}

emit-framed :
    (extended : Bool) (f : Frame) (frames : List Frame)
    → IsLine extended (framed f)
    → emit extended (printed f, frames) ≡ ([], frames ++ (f ∷ []))
unfolding emit
emit-framed extended f frames (same, fits, bytes) =
    let hex = printed-IsUpperHex f bytes in
    let nonempty : equal (trim_space (printed f)) [] ≡ false =
      ap (λ s. equal s []) (trim_space-IsUpperHex (printed f) hex)
      ∙ equal_nil (printed f) (length-printed f) in
    let parsed : parse_line (printed f) extended ≡ some f =
      ap (parse_line (printed f)) (sym same) ∙ parse_line-printed f fits bytes in
    rw nonempty (rw (is_status_token-hex (printed f) (length-printed f) hex) (rw parsed refl))

emit-remark :
    (extended : Bool) (s : Bytes) (frames : List Frame)
    → is_status_token s ≡ true
    → emit extended (s, frames) ≡ ([], frames)
unfolding emit
emit-remark extended s frames h = elim (Bool-cases (equal (trim_space s) [])) [
  | inl empty ↦ rw empty refl
  | inr other ↦ rw other (rw h refl)
]

feed_line :
    (extended : Bool) (l : Line) (s : Bytes) (frames : List Frame)
    → IsLine extended l
    → feed_monitor extended (text l ++ (carriage_return ∷ s)) ([], frames)
      ≡ feed_monitor extended s ([], frames ++ frames_of (l ∷ []))
unfolding feed_monitor feed_byte
feed_line extended (framed f) s frames (same, fits, bytes) =
    let whole = hex-IsUnbroken (printed f) (printed-IsUpperHex f bytes) in
    feed_monitor-append extended (printed f) (carriage_return ∷ s) ([], frames)
    ∙ ap (λ feed. feed_monitor extended (carriage_return ∷ s) feed)
        (feed_monitor-IsUnbroken extended (printed f) [] frames whole)
    ∙ ap (λ feed. feed_monitor extended s feed) (emit-framed extended f frames (same, fits, bytes))
feed_line extended (remark t) s frames (status, whole) =
    feed_monitor-append extended t (carriage_return ∷ s) ([], frames)
    ∙ ap (λ feed. feed_monitor extended (carriage_return ∷ s) feed)
        (feed_monitor-IsUnbroken extended t [] frames whole)
    ∙ ap (λ feed. feed_monitor extended s feed)
        (emit-remark extended t frames status ∙ ap (λ fs. ([], fs)) (sym (append-nil frames)))

frames_of_cons :
    (l : Line) (ls : List Line) → frames_of (l ∷ ls) ≡ frames_of (l ∷ []) ++ frames_of ls
frames_of_cons (framed f) ls = refl
frames_of_cons (remark s) ls = refl

feed_wire :
    (extended : Bool) (ls : List Line) (frames : List Frame)
    → All (IsLine extended) ls
    → feed_monitor extended (wire ls) ([], frames) ≡ ([], frames ++ frames_of ls)
unfolding feed_monitor
feed_wire extended [] frames h = ap (λ fs. ([], fs)) (sym (append-nil frames))
feed_wire extended (l ∷ ls) frames (h, hs) =
    feed_line extended l (wire ls) frames h
    ∙ feed_wire extended ls (frames ++ frames_of (l ∷ [])) hs
    ∙ ap (λ fs. ([], fs))
        (append_assoc frames (frames_of (l ∷ [])) (frames_of ls)
          ∙ ap (λ fs. frames ++ fs) (sym (frames_of_cons l ls)))

fed :
    (extended : Bool) (ls : List Line) (cs : List Bytes) (pending : Bytes)
    → All (IsLine extended) ls
    → pending ++ stream cs ≡ wire ls
    → monitor_loop extended (map chunk cs) (feed_monitor extended pending ([], []))
      ≡ (true, ([], frames_of ls))
fed extended ls cs pending h e =
    monitor_loop-stream extended cs (feed_monitor extended pending ([], []))
    ∙ ap (λ f. (true, f))
        (sym (feed_monitor-append extended pending (stream cs) ([], []))
          ∙ ap (λ s. feed_monitor extended s ([], [])) e
          ∙ feed_wire extended ls [] h)

sent_all :
    (writes : List Bool) (t : Bytes) (d : Device)
    → writes ≡ []
    → d.writes ≡ []
    → ((sent writes t d).0 ≡ true)
      × ((sent writes t d).1.pending ≡ d.pending)
      × ((sent writes t d).1.writes ≡ [])
sent_all [] t d e h = (refl, refl, h)
sent_all (w ∷ writes) t d e h = absurd (cc e)

stop_monitor-succeeds : (d : Device) → d.writes ≡ [] → (stop_monitor d).0 ≡ true
unfolding stop_monitor
stop_monitor-succeeds d h = (sent_all d.writes (carriage_return ∷ []) d h h).0

finish-succeeds :
    (frames : List Frame) (result : Bool × Feed) (d : Device)
    → result ≡ (true, ([], frames))
    → d.writes ≡ []
    → ((finish result d).0 ≡ true) × ((finish result d).1 ≡ frames)
unfolding finish
finish-succeeds frames (true, (line, frames')) d e h =
    (stop_monitor-succeeds d h, ap (λ r. r.1.1) e)
finish-succeeds frames (false, (line, frames')) d e h = absurd (cc (ap (λ r. r.0) e))

-- An adapter's lines of frames and status messages, each ended by a carriage return, in whatever
-- pieces they are read and with a part left from before: until it is stopped, and when the writes
-- succeed, the monitor hands on exactly those frames in order, without an error.
pub monitor-wire :
    (cmd : Bytes) (extended : Bool) (ls : List Line) (cs : List Bytes) (d : Device)
    → All (IsLine extended) ls
    → d.writes ≡ []
    → d.pending ++ stream cs ≡ wire ls
    → ((monitor cmd extended (map chunk cs) d).0 ≡ true)
      × ((monitor cmd extended (map chunk cs) d).1 ≡ frames_of ls)
unfolding monitor write_line
monitor-wire cmd extended ls cs d h writes e =
    let (ok, same, writes') = sent_all d.writes (cmd ++ (carriage_return ∷ [])) d writes writes in
    let d' = (write_line cmd d).1 in
    let whole = fed extended ls cs d'.pending h (ap (λ p. p ++ stream cs) same ∙ e) in
    let fine = finish-succeeds (frames_of ls) _ (record d' { pending = [] }) whole writes' in
    rw ok fine
