-- ===== src/Client/Dedupe/Key.antt =====
-- What the hash is taken of determines the frame.
use cantou.Common.{
  ℕ, ◌^◌, ◌<◌, ◌≡◌, ap, ◌∙◌, sym, Bool, ◌++◌, Bytes, take, drop, take-append_of_length,
  drop-append_of_length, arith,
}
use cantou.Common.Words.{put_le, get_le, length-put_le, get_le-put_le}
use cantou.Models.{CanMessageTimestamped}
use cantou.Client.Dedupe.{key, flag}

flag-injective : (a b : Bool) → flag a ≡ flag b → a ≡ b
flag-injective a b h = ground (arith, h)

word-append_injective :
    (n x y : ℕ) {r s : Bytes}
    → x < 256 ^ n
    → y < 256 ^ n
    → put_le n x ++ r ≡ put_le n y ++ s
    → (x ≡ y) × (r ≡ s)
word-append_injective n x y {r} {s} hx hy e =
    let left = ap (take n) e in
    let words : put_le n x ≡ put_le n y =
      sym (take-append_of_length n (put_le n x) r (length-put_le n x))
      ∙ ap (take n) e
      ∙ take-append_of_length n (put_le n y) s (length-put_le n y) in
    (
      sym (get_le-put_le n x hx) ∙ ap get_le words ∙ get_le-put_le n y hy,
      sym (drop-append_of_length n (put_le n x) r (length-put_le n x))
          ∙ ap (drop n) e
          ∙ drop-append_of_length n (put_le n y) s (length-put_le n y),
    )

-- Two frames whose interface numbers and identifiers are below 2^32 and whose hashed bytes are
-- the same agree in interface, identifier, both flags, length and data.
pub key-injective :
    (m n : CanMessageTimestamped)
    → m.interface < 2 ^ 32
    → n.interface < 2 ^ 32
    → m.id < 2 ^ 32
    → n.id < 2 ^ 32
    → key m ≡ key n
    → (m.interface ≡ n.interface)
      × ((m.id ≡ n.id)
          × ((m.transmit ≡ n.transmit)
              × ((m.remote ≡ n.remote) × ((m.length ≡ n.length) × (m.bytes ≡ n.bytes)))))
unfolding key
key-injective m n i j k l h =
    let (same_interface, e) = word-append_injective 4 m.interface n.interface i j h in
    let (same_id, d) = word-append_injective 4 m.id n.id k l e in
    (same_interface, (same_id, ground (arith, d)))
