-- ===== src/Obd/Device/Lines.antt =====
-- internal/obd/device.go: the lines of an adapter as a stream of bytes.
use cantou.Common.{
  ℕ, ◌<◌, ◌^◌, ◌≡◌, refl, sym, ap, ◌∙◌, Bool, true, false, ◌||◌, List, [], ◌∷◌, ◌++◌, append-nil,
  append_assoc, Bytes, map, ◌==◌, equal, arith, All, All-append, length, length-append,
}
use cantou.Common.Hex.{
  fixed_hex, encode_hex, upper_hex, IsUpperHex, fixed_hex-IsUpperHex, encode_hex-IsUpperHex,
  length-fixed_hex,
}
use cantou.Obd.{Frame, is_status_token}
use cantou.Obd.Lines.{header_digits, printed}
use cantou.Obd.Device.{prompt, carriage_return, chunk, Feed, feed_byte, feed_monitor, monitor_loop}
use cantou.Obd.Device.Responses.{stream}

-- A line of the adapter: a frame, or a message such as NO DATA.
pub data Line : Type 0 where
  framed : Frame → Line
  remark : Bytes → Line

abbrev pub text : Line → Bytes
text (framed f) = printed f
text (remark s) = s

abbrev pub frames_of : List Line → List Frame
frames_of [] = []
frames_of (framed f ∷ ls) = f ∷ frames_of ls
frames_of (remark s ∷ ls) = frames_of ls

abbrev pub wire : List Line → Bytes
wire [] = []
wire (l ∷ ls) = text l ++ (carriage_return ∷ wire ls)

abbrev pub ends_line : ℕ → Bool
ends_line b = b == carriage_return || (b == prompt || b == 10)

abbrev pub IsUnbroken : Bytes → Type 0
IsUnbroken = All (λ b. ends_line b ≡ false)

abbrev pub IsLine : Bool → Line → Type 0
IsLine extended (framed f) =
    (f.extended ≡ extended) × (f.id < 16 ^ header_digits f.extended) × All (λ b. b < 256) f.bytes
IsLine extended (remark s) = (is_status_token s ≡ true) × IsUnbroken s

pub feed_monitor-append :
    (extended : Bool) (xs ys : Bytes) (feed : Feed)
    → feed_monitor extended (xs ++ ys) feed
      ≡ feed_monitor extended ys (feed_monitor extended xs feed)
unfolding feed_monitor
feed_monitor-append extended [] ys feed = refl
feed_monitor-append extended (x ∷ xs) ys feed =
    feed_monitor-append extended xs ys (feed_byte extended x feed)

-- The reads may cut the lines anywhere.
pub monitor_loop-stream :
    (extended : Bool) (cs : List Bytes) (feed : Feed)
    → monitor_loop extended (map chunk cs) feed ≡ (true, feed_monitor extended (stream cs) feed)
unfolding monitor_loop feed_monitor
monitor_loop-stream extended [] feed = refl
monitor_loop-stream extended (c ∷ cs) feed =
    monitor_loop-stream extended cs (feed_monitor extended c feed)
    ∙ ap (λ f. (true, f)) (sym (feed_monitor-append extended c (stream cs) feed))

pub feed_monitor-IsUnbroken :
    (extended : Bool) (s : Bytes) (line : Bytes) (frames : List Frame)
    → IsUnbroken s
    → feed_monitor extended s (line, frames) ≡ (line ++ s, frames)
unfolding feed_monitor feed_byte
feed_monitor-IsUnbroken extended [] line frames h = ap (λ l. (l, frames)) (sym (append-nil line))
feed_monitor-IsUnbroken extended (b ∷ s) line frames (h, hs) =
    let inside : (b == carriage_return || b == prompt) ≡ false = ground (arith, h) in
    let kept : (b == 10) ≡ false = ground (arith, h) in
    rw inside (
      rw kept (
        feed_monitor-IsUnbroken extended s (line ++ (b ∷ [])) frames hs
        ∙ ap (λ l. (l, frames)) (append_assoc line (b ∷ []) s)))

pub hex-IsUnbroken : (s : Bytes) → IsUpperHex s → IsUnbroken s
hex-IsUnbroken [] h = tt
hex-IsUnbroken (c ∷ s) (h, hs) = (ground (arith, h), hex-IsUnbroken s hs)

pub printed-IsUpperHex : (f : Frame) → All (λ b. b < 256) f.bytes → IsUpperHex (printed f)
printed-IsUpperHex f h =
    All-append (λ c. upper_hex c ≡ true) (fixed_hex (header_digits f.extended) f.id)
      (encode_hex f.bytes) (fixed_hex-IsUpperHex (header_digits f.extended) f.id)
      (encode_hex-IsUpperHex f.bytes h)

pub length-printed : (f : Frame) → 0 < length (printed f)
length-printed f = omega (
  arith,
  positive f.extended,
  length-append (fixed_hex (header_digits f.extended) f.id) (encode_hex f.bytes),
  length-fixed_hex (header_digits f.extended) f.id,
)
  where
    positive : (extended : Bool) → 0 < header_digits extended
    positive true = omega arith
    positive false = omega arith

pub equal_nil : (s : Bytes) → 0 < length s → equal s [] ≡ false
unfolding equal
equal_nil [] h = absurd (omega arith)
equal_nil (c ∷ s) h = refl
