-- ===== src/Obd/Tests.antt =====
-- Lines of an adapter and identifiers of a configuration.
use cantou.Common.{◌≡◌, ℕ, refl, false, List, [], ◌∷◌, arith, codes, has_prefix, equal, some}
use cantou.Common.Hex.{hex_value, digits_from, parse_uint32_hex}
use cantou.Obd.{Frame, parse_line, parse_can_id, obd_response_ids, protocol_for, protocol_can11_500}
use cantou.Obd.Elm327.{combined_filter, combine, padded_hex}
use cantou.Obd.Stn.{pass_filter}
use cantou.Common.HexUint.{format_upper_hex}
use cantou.Obd.Lines.{printed, parse_line-printed}

abbrev reply : Frame
reply = record { id = 0x7E8; extended = false; bytes = 4 ∷ (0x41 ∷ (0x0C ∷ (0x1A ∷ (0xF8 ∷ [])))) }

reply_on_the_wire : printed reply ≡ codes "7E804410C1AF8"
reply_on_the_wire = refl

parse_line-printed_example : parse_line (codes "7E804410C1AF8") false ≡ some reply
parse_line-printed_example = parse_line-printed reply (omega arith) (omega arith)

prefixed_id : parse_can_id (codes " 0x18daF110 ") ≡ some 0x18DAF110
unfolding parse_can_id has_prefix parse_uint32_hex digits_from hex_value
prefixed_id = refl

empty_selector : protocol_for (codes " ") ≡ protocol_can11_500
unfolding protocol_for equal
empty_selector = refl

abbrev configured : List (List ℕ)
configured = (0x244 ∷ (0x7E8 ∷ [])) ∷ (obd_response_ids false ∷ [])

-- The two identifiers differ in the lowest bit.
two_ids_filter : combined_filter (0x7E8 ∷ (0x7E9 ∷ [])) ≡ (0x7E8, 0x7FE)
unfolding combined_filter combine
two_ids_filter = refl

broadcast_filter : pass_filter false 0x244 ≡ codes "STFPA 0244,07FF"
unfolding pass_filter padded_hex format_upper_hex
broadcast_filter = refl
