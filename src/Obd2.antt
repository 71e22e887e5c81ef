-- ===== src/Obd2.antt =====
-- internal/parser/obd2/pids_supported.go: the OBD-II bitmasks of supported PIDs.
use cantou.Common.{
  ℕ, zero, suc, ◌+◌, ◌-◌, ◌/◌, ◌%◌, ◌^◌, Bool, List, [], ◌∷◌, ◌++◌, if◌then◌else◌, ltb, ◌==◌, Bytes,
  codes, equal, Option, some, none, map,
}
use cantou.Models.{CanSignalTimestamped}
pub mod Pids
mod Tests

-- One round per bit, from bit 31 down: `i` counts up, `left` is 32 - i. The test
-- bitmask&(1<<(31-i)) != 0 asks for this bit.
unfoldable pub decode_from : ℕ → ℕ → ℕ → ℕ → List ℕ
decode_from zero i bitmask base = []
decode_from (suc left) i bitmask base =
    let later = decode_from left (i + 1) bitmask base in
    if bitmask / 2 ^ left % 2 == 1 then ((base + i + 1) % 256) ∷ later else later

unfoldable pub decode_pids_supported : ℕ → ℕ → List ℕ
decode_pids_supported bitmask base = decode_from 32 0 bitmask base

unfoldable pub is_pids_supported_signal : Bytes → Option ℕ
is_pids_supported_signal signal =
    if equal signal (codes "S01PID00_PIDsSupported_01_20")
    then some 0x00
    else if equal signal (codes "S01PID20_PIDsSupported_21_40")
    then some 0x20
    else if equal signal (codes "S01PID40_PIDsSupported_41_60")
    then some 0x40
    else if equal signal (codes "S01PID60_PIDsSupported_61_80")
    then some 0x60
    else if equal signal (codes "S01PID80_PIDsSupported_81_A0")
    then some 0x80
    else if equal signal (codes "S01PIDA0_PIDsSupported_A1_C0")
    then some 0xA0
    else if equal signal (codes "S01PIDC0_PIDsSupported_C1_E0")
    then some 0xC0
    else none

-- %02X of a byte
abbrev hex_digit : ℕ → ℕ
hex_digit d = if ltb d 10 then b'0' + d else b'A' + (d - 10)

abbrev pub hex_byte : ℕ → Bytes
hex_byte b = hex_digit (b / 16) ∷ (hex_digit (b % 16) ∷ [])

-- the float64 1
abbrev float_one : ℕ
float_one = 0x3FF0000000000000

abbrev supported_signal : CanSignalTimestamped → ℕ → CanSignalTimestamped
supported_signal sig pid = record sig {
  signal = codes "S01PID_Supported_" ++ hex_byte pid;
  value = float_one;
}

-- `to_uint32` is uint32(…) of a float64.
module _ (to_uint32 : ℕ → ℕ) where
  abbrev pub expand_base : Option ℕ → CanSignalTimestamped → List CanSignalTimestamped
  expand_base none sig = sig ∷ []
  expand_base (some base) sig =
      map (supported_signal sig) (decode_pids_supported (to_uint32 sig.value) base)

  unfoldable pub expand_pids_supported : CanSignalTimestamped → List CanSignalTimestamped
  expand_pids_supported sig = expand_base (is_pids_supported_signal sig.signal) sig
