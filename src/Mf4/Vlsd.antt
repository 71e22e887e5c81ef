-- ===== src/Mf4/Vlsd.antt =====
-- internal/connection/playback/mf4.go: channel groups, and the index of the payloads of variable
-- length. `running` stands for a loop whose fuel is used up.
use cantou.Common.{
  ℕ, zero, suc, ◌+◌, ◌%◌, ◌^◌, Bool, ◌||◌, Option, none, some, List, [], ◌∷◌, ◌++◌, Bytes, ltb,
  ◌==◌, if◌then◌else◌, length, take, drop,
}
use cantou.Common.Words.{get_le}
use cantou.Mf4.Outcome.{Outcome, ok, running}
use cantou.Common.Maps.{find}
use cantou.Mf4.FileBlocks.{read_record_id}

pub record CgInfo : Type 0 where
  pub record_id : ℕ
  pub data_bytes : ℕ
  pub acq_name : Bytes
  pub is_vlsd : Bool

-- The map from record ids to channel groups; a later entry hides an earlier one.
abbrev pub CgMap : Type 0
CgMap = List (ℕ × CgInfo)

-- `rawOffset` is a local of collectVLSD.
pub record VlsdIndex : Type 0 where
  pub buf : Bytes
  pub offsets : List (ℕ × ℕ)
  pub raw_offset : ℕ

abbrev pub no_vlsd : VlsdIndex
no_vlsd = record { buf = []; offsets = []; raw_offset = 0 }

-- One round for a VLSD record, at its length prefix; `none` leaves the loop.
collect_vlsd_record : Bytes → VlsdIndex → VlsdIndex × Option Bytes
unfolding get_le
collect_vlsd_record rest v =
    if ltb (length rest) 4
    then (v, none)
    else let vlsd_len = get_le (take 4 rest) in
      let marked = record v {
        offsets = (v.raw_offset, length v.buf) ∷ v.offsets;
        raw_offset = (v.raw_offset + (4 + vlsd_len)) % 2 ^ 64;
      } in
      let rest' = drop 4 rest in
      if ltb (length rest') vlsd_len
      then (marked, none)
      else (record marked { buf = v.buf ++ take vlsd_len rest' }, some (drop vlsd_len rest'))

collect_record : Option CgInfo → Bytes → VlsdIndex → VlsdIndex × Option Bytes
collect_record none rest v = (v, none)
collect_record (some cg) rest v =
    if cg.is_vlsd then collect_vlsd_record rest v else (v, some (drop cg.data_bytes rest))

-- one round of the loop of collectVLSD
unfoldable pub collect_step : ℕ → CgMap → Bytes → VlsdIndex → VlsdIndex × Option Bytes
unfolding collect_record collect_vlsd_record read_record_id find
collect_step rec_id_size cg_map rest v =
    if rec_id_size == 0 || ltb (length rest) rec_id_size
    then (v, none)
    else collect_record (find (read_record_id rest rec_id_size) cg_map) (drop rec_id_size rest) v

unfoldable pub collect_vlsd : ℕ → ℕ → CgMap → Bytes → VlsdIndex → Outcome VlsdIndex
collect_vlsd fuel rec_id_size cg_map [] v = ok v
collect_vlsd zero rec_id_size cg_map (b ∷ rest) v = running
collect_vlsd (suc fuel) rec_id_size cg_map (b ∷ rest) v =
    let (v', next) = collect_step rec_id_size cg_map (b ∷ rest) v in
    elim next [ none ↦ ok v' | some rest' ↦ collect_vlsd fuel rec_id_size cg_map rest' v' ]

unfoldable pub lookup_at : Option ℕ → VlsdIndex → ℕ → Bytes
lookup_at none v data_length = []
lookup_at (some payload_pos) v data_length =
    if ltb (length v.buf) (payload_pos + data_length)
    then []
    else take data_length (drop payload_pos v.buf)

unfoldable pub lookup : VlsdIndex → ℕ → ℕ → Bytes
unfolding lookup_at find
lookup v raw_offset data_length = lookup_at (find raw_offset v.offsets) v data_length
