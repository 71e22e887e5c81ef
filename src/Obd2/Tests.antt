-- ===== src/Obd2/Tests.antt =====
-- Bitmasks that a vehicle sends.
use cantou.Common.{◌≡◌, refl, true, ◌==◌, any, arith, [], ◌∷◌}
use cantou.Obd2.{decode_from, decode_pids_supported}
use cantou.Obd2.Pids.{decode_pids_supported_lem}

first_and_last : decode_pids_supported 0x80000001 0x20 ≡ 0x21 ∷ (0x40 ∷ [])
unfolding decode_pids_supported decode_from
first_and_last = refl

decode_pids_supported_lem_example : any (λ q. q == 0x0C) (decode_pids_supported 0xBE3EB811 0) ≡ true
decode_pids_supported_lem_example =
    decode_pids_supported_lem 0xBE3EB811 0 0x0C (omega arith) (omega arith) (omega arith)
