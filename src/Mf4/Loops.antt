-- ===== src/Mf4/Loops.antt =====
-- Termination of the two passes over the records of a data group.
use cantou.Common.{
  ℕ, zero, suc, ◌≤◌, ◌<◌, ◌≡◌, ◌≢◌, refl, List, [], ◌∷◌, arith, Bytes, Option, some, none, length,
  length-drop, inl, inr, Option-cases,
}
use cantou.Mf4.Outcome.{Outcome, ok, running, ◌>>=◌}
use cantou.Mf4.Vlsd.{CgMap, CgInfo, VlsdIndex, no_vlsd, collect_step, collect_vlsd}
use cantou.Mf4.Reader.{LogEntry, read_step, read_records, read_data, with_entry, parse_can_record}

-- A round that goes on has taken at least the record id.
collect_step_shrinks :
    (n : ℕ) (cg_map : CgMap) (rest : Bytes) (v : VlsdIndex) {rest' : Bytes}
    → (collect_step n cg_map rest v).1 ≡ some rest'
    → length rest' < length rest
unfolding collect_step
collect_step_shrinks n cg_map rest v h = grind (arith, length-drop)

collect_vlsd_total :
    (fuel n : ℕ) (cg_map : CgMap) (rest : Bytes) (v : VlsdIndex)
    → length rest ≤ fuel
    → collect_vlsd fuel n cg_map rest v ≢ running
unfolding collect_vlsd
collect_vlsd_total fuel n cg_map [] v h = cc
collect_vlsd_total zero n cg_map (b ∷ rest) v h = absurd (omega arith)
collect_vlsd_total (suc fuel) n cg_map (b ∷ rest) v h =
    let (v', next) = collect_step n cg_map (b ∷ rest) v in
    elim (Option-cases next) [
      | inl e ↦ ground (arith, e)
      | inr (rest', e) ↦
          let shorter = collect_step_shrinks n cg_map (b ∷ rest) v e in
          ground (arith, e, collect_vlsd_total fuel n cg_map rest' v' (omega arith))
    ]

bind-running :
    {A B : Type 0} (m : Outcome A) (f : A → Outcome B)
    → m ≢ running
    → ((a : A) → f a ≢ running)
    → (m >>= f) ≢ running
bind-running (ok a) f h k = k a
bind-running running f h k = absurd (h refl)
bind-running _ f h k = cc

module _ (to_int64 : ℕ → ℕ) where
  read_step_shrinks :
      (n : ℕ) (cg_map : CgMap) (can_cg : CgInfo) (v : VlsdIndex) (rest : Bytes)
      {e : Option LogEntry} {rest' : Bytes}
      → 0 < n
      → read_step to_int64 n cg_map can_cg v rest ≡ some (e, rest')
      → length rest' < length rest
  unfolding read_step
  read_step_shrinks n cg_map can_cg v rest pos h = grind (arith, length-drop)

  with_entry-running :
      (e : Option LogEntry) (r : Outcome (List LogEntry))
      → r ≢ running
      → with_entry to_int64 e r ≢ running
  with_entry-running none r h = h
  with_entry-running (some e) r h = ground (arith, h)

  empty_record_is_skipped :
      (cg_map : CgMap) (can_cg : CgInfo) (v : VlsdIndex) (rest : Bytes)
      → can_cg.data_bytes ≡ 0
      → read_step to_int64 0 cg_map can_cg v rest ≡ some (none, rest)
  unfolding read_step parse_can_record
  empty_record_is_skipped cg_map can_cg v rest h = ground (arith, h)

  read_records_total :
      (fuel n : ℕ) (cg_map : CgMap) (can_cg : CgInfo) (v : VlsdIndex) (rest : Bytes)
      → 0 < n
      → length rest ≤ fuel
      → read_records to_int64 fuel n cg_map can_cg v rest ≢ running
  unfolding read_records
  read_records_total fuel n cg_map can_cg v [] pos h = cc
  read_records_total zero n cg_map can_cg v (b ∷ rest) pos h = absurd (omega arith)
  read_records_total (suc fuel) n cg_map can_cg v (b ∷ rest) pos h =
      elim (Option-cases (read_step to_int64 n cg_map can_cg v (b ∷ rest))) [
        | inl e ↦ ground (arith, e)
        | inr ((entry, rest'), e) ↦
            let shorter = read_step_shrinks n cg_map can_cg v (b ∷ rest) pos e in
            let later = read_records_total fuel n cg_map can_cg v rest' pos (omega arith) in
            ground (arith, e, with_entry-running entry _ later)
      ]

  -- With record ids of a positive size in front of the records, both passes over the bytes of a
  -- data group end, whatever the bytes and the channel groups are.
  pub read_data_total :
      (n : ℕ) (cg_map : CgMap) (can_cg : CgInfo) (dt_data : Bytes)
      → 0 < n
      → read_data to_int64 n cg_map can_cg dt_data ≢ running
  unfolding read_data
  read_data_total n cg_map can_cg dt_data pos =
      bind-running (collect_vlsd (length dt_data) n cg_map dt_data no_vlsd) _
        (collect_vlsd_total (length dt_data) n cg_map dt_data no_vlsd (omega arith))
        (λ v. read_records_total (length dt_data) n cg_map can_cg v dt_data pos (omega arith))

  -- Without record ids, a channel group whose records are stated to have no bytes is never
  -- finished: no number of rounds is enough.
  pub read_records-running :
      (fuel : ℕ) (cg_map : CgMap) (can_cg : CgInfo) (v : VlsdIndex) (b : ℕ) (rest : Bytes)
      → can_cg.data_bytes ≡ 0
      → read_records to_int64 fuel 0 cg_map can_cg v (b ∷ rest) ≡ running
  unfolding read_records
  read_records-running zero cg_map can_cg v b rest h = refl
  read_records-running (suc fuel) cg_map can_cg v b rest h = ground (
    arith,
    empty_record_is_skipped cg_map can_cg v (b ∷ rest) h,
    read_records-running fuel cg_map can_cg v b rest h,
  )
