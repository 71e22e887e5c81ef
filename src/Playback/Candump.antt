-- ===== src/Playback/Candump.antt =====
-- A log as candump writes it with absolute times (internal/connection/playback/candump.go), read
-- back.
use cantou.Common.{
  ℕ, ◌+◌, ◌-◌, ◌%◌, ◌^◌, ◌≡◌, refl, ap, ◌∙◌, Bool, true, false, Option, some, List, [], ◌∷◌, ◌++◌,
  map, Bytes, arith, All, equal, ltb,
}
use cantou.Obd.{trim_space}
use cantou.Mf4.Reader.{LogEntry}
use cantou.Playback.{
  line_entry, int_min, parse_candump_line, parse_candump, parse_lines, rebased, placed,
}
use cantou.Playback.Words.{IsWord, EndsPlain, EndsPlain-append, trim_space-EndsPlain}
use cantou.Playback.CandumpLine.{
  Stamped, time_text, frame_text, flag_text, line_text, time_of, entry_of, IsStamped,
  parse_candump_line-line_text,
}

flag_text-EndsPlain : (transmit : Bool) → EndsPlain (flag_text transmit)
flag_text-EndsPlain true = ([], b'T', refl, refl)
flag_text-EndsPlain false = ([], b'R', refl, refl)

trim_space-line_text :
    (interface : Bytes) (f : Stamped) → trim_space (line_text interface f) ≡ line_text interface f
trim_space-line_text interface f = trim_space-EndsPlain b'(' _ refl (
    EndsPlain-append (b'(' ∷ (time_text f ++ (b')' ∷ []))) _ (
      EndsPlain-append (32 ∷ []) _ (
        EndsPlain-append interface _ (
          EndsPlain-append (32 ∷ []) _ (
            EndsPlain-append (frame_text f) _
              (EndsPlain-append (32 ∷ []) _ (flag_text-EndsPlain f.transmit)))))))

-- The entry of a frame when the first one was seen at `base`.
abbrev pub entry_at : ℕ → Stamped → LogEntry
entry_at base f = entry_of ((time_of f + 2 ^ 64 - base) % 2 ^ 64) f

line_entry-line_text :
    (interface : Bytes) (f : Stamped)
    → IsWord interface
    → IsStamped f
    → line_entry (λ line. equal line []) parse_candump_line (line_text interface f)
      ≡ some (entry_of 0 f, time_of f)
unfolding equal
line_entry-line_text interface f word h =
    rw (trim_space-line_text interface f) (parse_candump_line-line_text interface f word h)

parse_lines-line_text :
    (interface : Bytes) (base : ℕ) (fs : List Stamped)
    → IsWord interface
    → ltb base int_min ≡ true
    → All IsStamped fs
    → parse_lines (λ line. equal line []) parse_candump_line base (map (line_text interface) fs)
      ≡ map (entry_at base) fs
unfolding parse_lines
parse_lines-line_text interface base [] word h hs = refl
parse_lines-line_text interface base (f ∷ fs) word h (k, ks) =
    let after = λ (o : Option (LogEntry × ℕ)) (b : ℕ).
      placed b o
      ++ parse_lines (λ line. equal line []) parse_candump_line b (map (line_text interface) fs) in
    let seen : Option (LogEntry × ℕ) = some (entry_of 0 f, time_of f) in
    let kept : rebased base seen ≡ base = rw h refl in
    ap (λ o. after o (rebased base o)) (line_entry-line_text interface f word k)
    ∙ ap (after seen) kept
    ∙ ap (λ es. entry_at base f ∷ es) (parse_lines-line_text interface base fs word h ks)

-- The lines of a log whose frames have times before 2^33 seconds, identifiers of 11 or 29 bits and
-- at most 64 bytes are read back: each frame with its identifier, direction and bytes, and with its
-- time counted from that of the first one, as an int64.
pub parse_candump-line_text :
    (interface : Bytes) (f : Stamped) (fs : List Stamped)
    → IsWord interface
    → IsStamped f
    → All IsStamped fs
    → parse_candump (map (line_text interface) (f ∷ fs)) ≡ map (entry_at (time_of f)) (f ∷ fs)
unfolding parse_candump parse_lines
parse_candump-line_text interface f fs word h hs =
    let after = λ (o : Option (LogEntry × ℕ)) (b : ℕ).
      placed b o
      ++ parse_lines (λ line. equal line []) parse_candump_line b (map (line_text interface) fs) in
    let early : ltb (time_of f) int_min ≡ true = ground (arith, h.0, h.1) in
    ap (λ o. after o (rebased (2 ^ 64 - 1) o)) (line_entry-line_text interface f word h)
    ∙ ap (λ es. entry_at (time_of f) f ∷ es)
        (parse_lines-line_text interface (time_of f) fs word early hs)
