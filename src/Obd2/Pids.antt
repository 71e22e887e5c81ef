-- ===== src/Obd2/Pids.antt =====
-- Which PIDs a bitmask stands for.
use cantou.Common.{
  ℕ, zero, suc, ◌+◌, ◌-◌, ◌/◌, ◌%◌, ◌^◌, ◌≤◌, ◌<◌, ◌≡◌, refl, ap, ◌∙◌, false, Bool, arith, any,
  ◌==◌, inl, inr, ==_iff, ◌≢◌, Bool-cases,
}
use cantou.Obd2.{decode_from, decode_pids_supported}

-- The bit that stands for a PID at the position `p` behind the base.
abbrev bit_set : ℕ → ℕ → Bool
bit_set bitmask e = bitmask / 2 ^ e % 2 == 1

decode_from-none :
    (left i bitmask base pid : ℕ)
    → base + i + left < 256
    → pid ≤ base + i
    → any (λ q. q == pid) (decode_from left i bitmask base) ≡ false
unfolding decode_from
decode_from-none zero i bitmask base pid h k = refl
decode_from-none (suc left) i bitmask base pid h k =
    ground (arith, decode_from-none left (i + 1) bitmask base pid (omega arith) (omega arith))

decode_from_lem :
    (left i bitmask base pid : ℕ)
    → base + i + left < 256
    → base + i < pid
    → pid ≤ base + i + left
    → any (λ q. q == pid) (decode_from left i bitmask base)
      ≡ bit_set bitmask (base + i + left - pid)
unfolding decode_from
decode_from_lem zero i bitmask base pid h k l = absurd (omega arith)
decode_from_lem (suc left) i bitmask base pid h k l = elim (Bool-cases (pid == base + i + 1)) [
  | inl here ↦
      let met : pid ≡ base + i + 1 = (==_iff _ _).0 here in
      let e : base + i + suc left - pid ≡ left = omega arith in
      let bit = ap (λ n. bitmask / 2 ^ n % 2) e in
      let gone = decode_from-none left (i + 1) bitmask base pid (omega arith) (omega arith) in
      ground (arith, here, bit, gone)
  | inr there ↦
      let unmet : pid ≢ base + i + 1 = ground (arith, there) in
      let e : base + (i + 1) + left - pid ≡ base + i + suc left - pid = omega arith in
      let bit = ap (λ n. bitmask / 2 ^ n % 2) e in
      let later =
        decode_from_lem left (i + 1) bitmask base pid (omega arith) (omega arith) (omega arith) in
      ground (arith, there, bit, later)
]

-- For a base below 224 and each of the 32 PIDs behind it, the list has the PID exactly if its
-- bit is set: bit 31 for the first, bit 0 for the last.
pub decode_pids_supported_lem :
    (bitmask base pid : ℕ)
    → base + 32 < 256
    → base < pid
    → pid ≤ base + 32
    → any (λ q. q == pid) (decode_pids_supported bitmask base)
      ≡ (bitmask / 2 ^ (base + 32 - pid) % 2 == 1)
unfolding decode_pids_supported
decode_pids_supported_lem bitmask base pid h k l =
    decode_from_lem 32 0 bitmask base pid (omega arith) (omega arith) (omega arith)
    ∙ ap (bit_set bitmask) (omega arith)
