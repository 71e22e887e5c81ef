-- ===== src/Mf4/Reader.antt =====
-- internal/connection/playback/mf4.go: from a file to its log entries. A loop of the source takes
-- fuel and is `running` when the fuel is used up.
use cantou.Common.{
  ℕ, zero, suc, ◌/◌, ◌%◌, Bool, false, ◌||◌, Option, none, some, List, [], ◌∷◌, ◌++◌, map, Bytes,
  ltb, ◌==◌, if◌then◌else◌, equal, length, take, drop,
}
use cantou.Common.Words.{get_le}
use cantou.Mf4.Outcome.{Outcome, ok, err, panic, running, ◌>>=◌, index, slice, or_error}
use cantou.Mf4.Blocks.{id_block_size, can_record_size, acq_name_can_data_frame}
use cantou.Mf4.Record.{read_id}
use cantou.Common.Maps.{find}
use cantou.Mf4.FileBlocks.{sub64, read_full, read_block, read_dt_data, read_text, read_record_id}
use cantou.Mf4.Vlsd.{CgInfo, CgMap, VlsdIndex, no_vlsd, collect_vlsd, lookup}

pub record LogEntry : Type 0 where
  pub offset_ns : ℕ
  pub id : ℕ
  pub transmit : Bool
  pub remote : Bool
  pub length : ℕ
  pub bytes : Bytes

-- `to_int64` is int64(math.Float64frombits(…)), as 64 bits.
module _ (to_int64 : ℕ → ℕ) where
  unfoldable pub parse_can_record : Bytes → VlsdIndex → Option LogEntry
  parse_can_record rec vlsd =
      let can = drop 8 rec in
      let fifth = get_le (take 1 (drop 4 can)) in
      let data_length = fifth / 2 % 128 in
      if ltb (length rec) can_record_size
      then none
      else some (record {
        offset_ns = to_int64 (get_le (take 8 rec));
        id = read_id (take 4 can);
        transmit = fifth % 2 == 1;
        remote = false;
        length = data_length;
        bytes = lookup vlsd (get_le (take 8 (drop 6 can))) data_length;
      })

  -- A fixed-size record: the entry, if it parses, and the rest.
  read_fixed : ℕ → Bytes → VlsdIndex → Option (Option LogEntry × Bytes)
  unfolding parse_can_record
  read_fixed rec_size rest vlsd =
      if ltb (length rest) rec_size
      then none
      else some (parse_can_record (take rec_size rest) vlsd, drop rec_size rest)

  read_in_group : CgInfo → Bytes → VlsdIndex → Option (Option LogEntry × Bytes)
  unfolding read_fixed
  read_in_group cg rest vlsd =
      if cg.is_vlsd
      then (if ltb (length rest) 4
          then none
          else some (none, drop (get_le (take 4 rest)) (drop 4 rest)))
      else if equal cg.acq_name acq_name_can_data_frame
      then read_fixed cg.data_bytes rest vlsd
      else if ltb (length rest) cg.data_bytes
      then none
      else some (none, drop cg.data_bytes rest)

  -- One round of the second pass; `none` leaves the loop.
  unfoldable pub read_step :
      ℕ → CgMap → CgInfo → VlsdIndex → Bytes → Option (Option LogEntry × Bytes)
  unfolding read_in_group read_record_id find equal
  read_step rec_id_size cg_map can_cg vlsd rest =
      if rec_id_size == 0
      then read_fixed can_cg.data_bytes rest vlsd
      else if ltb (length rest) rec_id_size
      then none
      else elim (find (read_record_id rest rec_id_size) cg_map) [
        | none ↦ none
        | some cg ↦ read_in_group cg (drop rec_id_size rest) vlsd
      ]

  abbrev pub with_entry : Option LogEntry → Outcome (List LogEntry) → Outcome (List LogEntry)
  with_entry none entries = entries
  with_entry (some e) entries = do es ← entries; ok (e ∷ es)

  unfoldable pub read_records : ℕ → ℕ → CgMap → CgInfo → VlsdIndex → Bytes → Outcome (List LogEntry)
  read_records fuel rec_id_size cg_map can_cg vlsd [] = ok []
  read_records zero rec_id_size cg_map can_cg vlsd (b ∷ rest) = running
  read_records (suc fuel) rec_id_size cg_map can_cg vlsd (b ∷ rest) =
      elim (read_step rec_id_size cg_map can_cg vlsd (b ∷ rest)) [
        | none ↦ ok []
        | some (e, rest') ↦ with_entry e (read_records fuel rec_id_size cg_map can_cg vlsd rest')
      ]

-- The channel groups found so far, and the last one that is named CAN_DataFrame.
pub record Groups : Type 0 where
  pub cg_map : CgMap
  pub can_cg : Option CgInfo

-- one round of the walk along the CG chain: the groups and the address of the next
read_group : Bytes → ℕ → Groups → Outcome (Groups × ℕ)
unfolding read_block read_text equal
read_group file cg_addr g = do
  (links, content) ← read_block file cg_addr
  record_id ← slice content 0 8
  flags ← slice content 16 18
  data_bytes ← slice content 24 28
  name_addr ← index links 2
  acq_name ← read_text file name_addr
  next ← index links 0
  let info : CgInfo = record {
    record_id = get_le record_id;
    data_bytes = get_le data_bytes;
    acq_name = acq_name;
    is_vlsd = get_le flags % 2 == 1;
  }
  ok (
    record {
      cg_map = (info.record_id, info) ∷ g.cg_map;
      can_cg = if equal acq_name acq_name_can_data_frame then some info else g.can_cg;
    },
    next,
  )

unfoldable pub walk_groups : ℕ → Bytes → ℕ → Groups → Outcome Groups
unfolding read_group
walk_groups fuel file zero g = ok g
walk_groups zero file (suc cg_addr) g = running
walk_groups (suc fuel) file (suc cg_addr) g = elim (read_group file (suc cg_addr) g) [
  | ok (g', next) ↦ walk_groups fuel file next g'
  | err ↦ err
  | panic ↦ panic
  | running ↦ running
]

-- Absolute timestamps become offsets from the first frame.
abbrev pub rebase : List LogEntry → List LogEntry
rebase [] = []
rebase (e ∷ es) =
    map (λ (x : LogEntry). record x { offset_ns = sub64 x.offset_ns e.offset_ns }) (e ∷ es)

module _ (to_int64 : ℕ → ℕ) where
  -- Both passes over the bytes of the DT block.
  unfoldable pub read_data : ℕ → CgMap → CgInfo → Bytes → Outcome (List LogEntry)
  read_data rec_id_size cg_map can_cg dt_data = do
    vlsd ← collect_vlsd (length dt_data) rec_id_size cg_map dt_data no_vlsd
    read_records to_int64 (length dt_data) rec_id_size cg_map can_cg vlsd dt_data

  read_with : Bytes → ℕ → ℕ → Groups → Outcome (List LogEntry)
  unfolding read_data read_dt_data
  read_with file rec_id_size dt_addr g = elim g.can_cg [
    | none ↦ ok []
    | some can_cg ↦ do
      dt_data ← read_dt_data file dt_addr
      read_data rec_id_size g.cg_map can_cg dt_data
  ]

  -- The entries of one data group, and the address of the next.
  unfoldable pub parse_dg : ℕ → Bytes → ℕ → Outcome (List LogEntry × ℕ)
  unfolding read_block walk_groups read_with
  parse_dg fuel file addr = do
    (links, content) ← read_block file addr
    next_dg ← index links 0
    cg_first_addr ← index links 1
    dt_addr ← index links 2
    rec_id_size ← index content 0
    if dt_addr == 0 || cg_first_addr == 0 then ok ([], next_dg) else do
      g ← walk_groups fuel file cg_first_addr (record { cg_map = []; can_cg = none })
      entries ← read_with file rec_id_size dt_addr g
      ok (entries, next_dg)

  unfoldable pub walk_data_groups : ℕ → ℕ → Bytes → ℕ → List LogEntry → Outcome (List LogEntry)
  walk_data_groups fuel cg_fuel file zero all = ok all
  walk_data_groups zero cg_fuel file (suc dg_addr) all = running
  walk_data_groups (suc fuel) cg_fuel file (suc dg_addr) all =
      elim (parse_dg cg_fuel file (suc dg_addr)) [
        | ok (entries, next_dg) ↦ walk_data_groups fuel cg_fuel file next_dg (all ++ entries)
        | err ↦ err
        | panic ↦ panic
        | running ↦ running
      ]

  unfoldable pub parse : ℕ → Bytes → Outcome (List LogEntry)
  unfolding walk_data_groups read_block read_full
  parse fuel file = do
    (_, _) ← or_error (read_full id_block_size file)
    (hd_links, _) ← read_block file id_block_size
    dg_addr ← index hd_links 0
    entries ← walk_data_groups fuel fuel file dg_addr []
    ok (rebase entries)
