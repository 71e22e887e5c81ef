-- ===== src/ObdConnection/Options.antt =====
-- What New in internal/connection/obdconn/connection.go makes of the options.
use cantou.Common.{
  ℕ, suc, ◌≡◌, ◌≢◌, refl, ◌∙◌, ◌⊎◌, inl, inr, Bool, true, false, ◌&&◌, ◌||◌, Option, some, none,
  List, [], ◌∷◌, arith, if◌then◌else◌, ltb, length, Bool-cases, if_elim, equal, Bytes,
}
use cantou.Obd.{parse_can_ids, obd_response_ids, merge_unique_ids}
use cantou.Obd.Ids.{contains_id, merge_unique_ids-Unique}
use cantou.ObdConnection.{
  CanInterfaceOption, new_base, fall_back, with_responses, polls, or_nil, mode_hybrid, mode_monitor,
  mode_poll, network_stn,
}

-- Hybrid mode is left only to adapters that have it.
fall_back_lem :
    (mode : Bytes) (pids : List Bytes) → equal (fall_back mode false pids) mode_hybrid ≡ false
unfolding fall_back equal
fall_back_lem mode pids = elim (Bool-cases (equal mode mode_hybrid)) [
  | inl hybrid ↦ rw hybrid (either pids)
  | inr other ↦ rw other other
]
  where
    either :
        (pids : List Bytes)
        → equal (if ltb 0 (length pids) then mode_poll else mode_monitor) mode_hybrid ≡ false
    either [] = refl
    either (p ∷ pids) = ground arith

abbrev on_by_default : Option Bool → Bool
on_by_default none = true
on_by_default (some b) = b

-- The identifiers that a filter has to let through: those of the options and, for replies to the
-- requests of poll and hybrid mode, the response identifiers.
abbrev pub IsWanted : Option Bool → Bytes → Bool → List ℕ → ℕ → Type 0
IsWanted response_filter mode extended filters x =
    (contains_id x filters ≡ true)
    ⊎ ((response_filter ≢ some false)
        × (polls mode ≡ true)
        × (contains_id x (obd_response_ids extended) ≡ true))

merged :
    (filters responses : List ℕ) (x : ℕ)
    → (contains_id x filters ≡ true) ⊎ (contains_id x responses ≡ true)
    → contains_id x (merge_unique_ids (filters ∷ (responses ∷ []))) ≡ true
merged filters responses x h =
    let e = (merge_unique_ids-Unique (filters ∷ (responses ∷ []))).1 x in
    e ∙ either (contains_id x filters) (contains_id x responses) h
  where
    either : (a b : Bool) → (a ≡ true) ⊎ (b ≡ true) → (a || (b || false)) ≡ true
    either true b h = refl
    either false true h = refl
    either false false (inl h) = h
    either false false (inr h) = h

applied :
    {response_filter : Option Bool} (mode : Bytes) (extended : Bool) (filters : List ℕ) (x : ℕ)
    → IsWanted response_filter mode extended filters x
    → contains_id x (
        if polls mode
        then merge_unique_ids (filters ∷ (obd_response_ids extended ∷ []))
        else filters)
      ≡ true
applied mode extended filters x (inl own) =
    if_elim (λ s. contains_id x s ≡ true) (polls mode) _ _
      (λ on. merged filters (obd_response_ids extended) x (inl own)) (λ off. own)
applied mode extended filters x (inr (_, on, reply)) =
    rw on (merged filters (obd_response_ids extended) x (inr reply))

positive : (n : ℕ) → ltb 0 (suc n) ≡ true
positive n = ground arith

with_responses-wanted :
    (response_filter : Option Bool) (mode : Bytes) (extended : Bool) (filters : List ℕ) (x : ℕ)
    → IsWanted response_filter mode extended filters x
    → (with_responses response_filter mode extended filters ≡ [])
      ⊎ (contains_id x (with_responses response_filter mode extended filters) ≡ true)
unfolding with_responses
with_responses-wanted response_filter mode extended [] x h =
    inl (empty (on_by_default response_filter) (polls mode) _)
  where
    empty : (a b : Bool) (ids : List ℕ) → (if a && (false && b) then ids else []) ≡ []
    empty true b ids = refl
    empty false b ids = refl
with_responses-wanted (some false) mode extended (f ∷ filters) x (inl own) = inr own
with_responses-wanted (some false) mode extended (f ∷ filters) x (inr (on, _, _)) = absurd (on refl)
with_responses-wanted (some true) mode extended (f ∷ filters) x h =
    inr (rw (positive (length filters)) (applied mode extended (f ∷ filters) x h))
with_responses-wanted none mode extended (f ∷ filters) x h =
    inr (rw (positive (length filters)) (applied mode extended (f ∷ filters) x h))

-- Only an STN adapter gets hybrid mode; and unless the hardware filter is empty, so that everything
-- passes, it has every identifier that the options ask for and, in poll and hybrid mode, every
-- response identifier of the protocol, when that is not switched off.
pub new_base-wanted :
    (opt : CanInterfaceOption) (kind : Bytes) (x : ℕ)
    → IsWanted opt.response_filter
        (new_base opt kind).mode
        (new_base opt kind).proto.extended
        (or_nil (parse_can_ids opt.hw_filters))
        x
    → ((equal kind network_stn ≡ true) ⊎ (equal (new_base opt kind).mode mode_hybrid ≡ false))
      × (((new_base opt kind).filters ≡ []) ⊎ (contains_id x (new_base opt kind).filters ≡ true))
unfolding new_base
new_base-wanted opt kind x h = (
  elim (Bool-cases (equal kind network_stn)) [
    | inl stn ↦ inl stn
    | inr other ↦ inr (rw other (fall_back_lem _ _))
  ],
  with_responses-wanted opt.response_filter (new_base opt kind).mode
      (new_base opt kind).proto.extended (or_nil (parse_can_ids opt.hw_filters)) x h,
)
