-- ===== src/Obd/Device.antt =====
-- internal/obd/device.go: commands, responses up to the prompt, and the monitor. What the transport
-- reads, and whether its writes succeed, are inputs.
use mathlib.Core.List.{reverse}
use cantou.Common.{
  ℕ, Bool, true, false, ◌||◌, Option, none, some, List, [], ◌∷◌, ◌++◌, Bytes, codes, map,
  if◌then◌else◌, ◌==◌, equal, contains, to_upper,
}
use cantou.Obd.{Frame, parse_line, is_status_token, trim_space}
pub mod Responses
pub mod Lines
pub mod Monitoring
mod Tests

abbrev pub prompt : ℕ
prompt = b'>'

abbrev pub carriage_return : ℕ
carriage_return = 13

-- A read comes back with bytes, perhaps none, or fails; `late` is a deadline that has passed. The
-- reads that are not listed wait.
pub data Read : Type 0 where
  chunk : Bytes → Read
  failed : Read
  late : Read

-- `writes` says which of the next writes succeed in full; those not listed do. `written` is what
-- has been sent in full.
pub record Device : Type 0 where
  pub pending : Bytes
  pub reads : List Read
  pub writes : List Bool
  pub written : List Bytes

abbrev prepend : ℕ → Option (Bytes × Bytes) → Option (Bytes × Bytes)
prepend b none = none
prepend b (some (before, after)) = some (b ∷ before, after)

-- indexByte, and the slices before and behind the place.
unfoldable pub split_at : ℕ → Bytes → Option (Bytes × Bytes)
split_at c [] = none
split_at c (b ∷ s) = let rest = split_at c s in if b == c then some ([], s) else prepend b rest

-- strings.ReplaceAll(s, "\r", " ")
abbrev pub without_returns : Bytes → Bytes
without_returns = map (λ b. if b == carriage_return then 32 else b)

abbrev pub is_blank : ℕ → Bool
is_blank b = b == 32 || (b == carriage_return || b == 10)

abbrev pub skip_blanks : Bytes → Bytes
skip_blanks [] = []
skip_blanks (b ∷ s) = let rest = skip_blanks s in if is_blank b then rest else b ∷ s

unfoldable pub clean_response : Bytes → Bytes
clean_response s = reverse (skip_blanks (reverse (skip_blanks (without_returns s))))

abbrev pub Response : Type 0
Response = Option Bytes × Bytes × List Read

-- What is done when the prompt is in the bytes at hand, and the rest when it is not.
abbrev pub or_found : Option (Bytes × Bytes) → Bytes → List Read → Response → Response
or_found none sb rs rest = rest
or_found (some (before, after)) sb rs rest = (some (clean_response (sb ++ before)), after, rs)

-- The loop of readUntilPrompt: the response, what is pending, and the reads left.
unfoldable pub read_loop : Bytes → List Read → Response
read_loop sb [] = (none, [], [])
read_loop sb (late ∷ rs) = (none, [], rs)
read_loop sb (failed ∷ rs) = (none, [], rs)
read_loop sb (chunk c ∷ rs) = or_found (split_at prompt c) sb rs (read_loop (sb ++ c) rs)

-- The bytes left from before come first.
unfoldable pub read_pending : Bytes → List Read → Response
read_pending [] rs = read_loop [] rs
read_pending (b ∷ pending) rs =
    or_found (split_at prompt (b ∷ pending)) [] rs (read_loop (b ∷ pending) rs)

unfoldable pub read_until_prompt : Device → Option Bytes × Device
read_until_prompt d =
    let (response, pending, reads) = read_pending d.pending d.reads in
    (response, record d { pending = pending; reads = reads })

abbrev pub sent : List Bool → Bytes → Device → Bool × Device
sent [] text d = (true, record d { written = d.written ++ (text ∷ []) })
sent (ok ∷ writes) text d = (
  ok,
  record d { writes = writes; written = (if ok then d.written ++ (text ∷ []) else d.written) },
)

unfoldable pub write_line : Bytes → Device → Bool × Device
write_line cmd d = sent d.writes (cmd ++ (carriage_return ∷ [])) d

unfoldable pub command : Bytes → Device → Option Bytes × Device
command cmd d = let (ok, d') = write_line cmd d in if ok then read_until_prompt d' else (none, d')

abbrev acknowledged : Option Bytes → Bool
acknowledged none = false
acknowledged (some response) = contains (to_upper response) (codes "OK")

unfoldable pub expect_ok : Bytes → Device → Bool × Device
expect_ok cmd d = let (response, d') = command cmd d in (acknowledged response, d')

-- The line in the making and the frames so far; a line that cannot be parsed is only reported.
abbrev pub Feed : Type 0
Feed = Bytes × List Frame

abbrev add_parsed : Option Frame → List Frame → List Frame
add_parsed none frames = frames
add_parsed (some f) frames = frames ++ (f ∷ [])

unfoldable pub emit : Bool → Feed → Feed
emit extended (line, frames) =
    if equal (trim_space line) []
    then ([], frames)
    else if is_status_token line
    then ([], frames)
    else ([], add_parsed (parse_line line extended) frames)

unfoldable pub feed_byte : Bool → ℕ → Feed → Feed
feed_byte extended b feed =
    if b == carriage_return || b == prompt
    then emit extended feed
    else if b == 10
    then feed
    else (feed.0 ++ (b ∷ []), feed.1)

unfoldable pub feed_monitor : Bool → Bytes → Feed → Feed
feed_monitor extended [] feed = feed
feed_monitor extended (b ∷ bs) feed = feed_monitor extended bs (feed_byte extended b feed)

-- The loop of Monitor over the reads before the stop: whether none fails, and what was fed.
unfoldable pub monitor_loop : Bool → List Read → Feed → Bool × Feed
monitor_loop extended [] feed = (true, feed)
monitor_loop extended (late ∷ rs) feed = monitor_loop extended rs feed
monitor_loop extended (failed ∷ rs) feed = (false, feed)
monitor_loop extended (chunk c ∷ rs) feed = monitor_loop extended rs (feed_monitor extended c feed)

unfoldable pub stop_monitor : Device → Bool × Device
stop_monitor d =
    let (ok, d') = sent d.writes (carriage_return ∷ []) d in
    (ok, if ok then (read_until_prompt d').1 else d')

-- Whether Monitor returns no error, the frames it has given to onFrame, and the device. A failed
-- read ends it; at a stop the device is brought back to its prompt.
unfoldable pub finish : Bool × Feed → Device → Bool × List Frame × Device
finish (false, (line, frames)) d = (false, frames, d)
finish (true, (line, frames)) d = let (stopped, d') = stop_monitor d in (stopped, frames, d')

unfoldable pub monitor : Bytes → Bool → List Read → Device → Bool × List Frame × Device
monitor cmd extended reads d =
    let (ok, d') = write_line cmd d in
    if ok
    then finish (monitor_loop extended reads (feed_monitor extended d'.pending ([], [])))
        (record d' { pending = [] })
    else (false, [], d')
