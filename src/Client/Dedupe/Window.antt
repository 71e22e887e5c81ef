-- ===== src/Client/Dedupe/Window.antt =====
-- Which frames are dropped, over any sequence of calls.
use cantou.Common.{
  ◌*◌, not, ℕ, ◌+◌, ◌<◌, ◌≡◌, ◌≢◌, refl, ap, ◌∙◌, sym, true, false, List, [], ◌∷◌, some, none, inl,
  inr, Bool-cases, Option-cases, All, arith, leb,
}
use cantou.Common.Maps.{find, insert, find-delete_if_kept, find-insert_same, find-insert_other}
use cantou.Models.{CanMessageTimestamped}
use cantou.Client.Dedupe.{
  DedupeFilterClient, Clock, window, selects, swept, filter_hash, filter, hash_can_message_data,
  key, fnv,
}

-- The calls to come all happen before a time.
abbrev pub Before : ℕ → ℕ → Clock → Type 0
Before h deadline clock = (clock.check < deadline) × (clock.sweep h < deadline)

different_keys : (m : List (ℕ × ℕ)) (h j t : ℕ) → find h m ≡ some t → find j m ≡ none → j ≢ h
different_keys m h j t e fresh same =
    absurd (ground (arith, sym e ∙ ap (λ k. find k m) (sym same) ∙ fresh))

swept_keeps :
    (w h t : ℕ) (sweep : ℕ → ℕ) (m : List (ℕ × ℕ))
    → find h m ≡ some t
    → sweep h < t + w
    → find h (swept w sweep m) ≡ some t
unfolding swept
swept_keeps w h t sweep m e early =
    find-delete_if_kept (λ k u. leb (u + w) (sweep k)) h t m e (ground arith)

-- A stored hash outlives every call before its window ends.
filter_hash_keeps :
    (dc : DedupeFilterClient) (clock : Clock) (h j t : ℕ)
    → find h dc.storage ≡ some t
    → Before h (t + window dc) clock
    → find h (filter_hash dc clock j (find j dc.storage)).0.storage ≡ some t
unfolding filter_hash
filter_hash_keeps dc clock h j t e (checked, sweeps) = elim (Option-cases (find j dc.storage)) [
  | inl fresh ↦
      let other : j ≢ h = different_keys dc.storage h j t e fresh in
      let added = find-insert_other h j clock.store dc.storage {u = t} other e in
      rw fresh
        (swept_keeps (window dc) h t clock.sweep (insert j clock.store dc.storage) added sweeps)
  | inr (u, known) ↦ elim (Bool-cases (leb (u + window dc) clock.check)) [
    | inl expired ↦
        let other : j ≢ h = λ same.
          let u-eq : u ≡ t = ground (arith, sym known ∙ ap (λ k. find k dc.storage) same ∙ e) in
          ground (arith, expired, u-eq, checked) in
        rw known (rw expired (find-insert_other h j clock.store dc.storage {u = t} other e))
    | inr recent ↦ rw known (rw recent e)
  ]
]

filter_keeps :
    (dc : DedupeFilterClient) (clock : Clock) (m : CanMessageTimestamped) (h t : ℕ)
    → find h dc.storage ≡ some t
    → Before h (t + window dc) clock
    → find h (filter dc clock m).0.storage ≡ some t
unfolding filter
filter_keeps dc clock m h t e b = elim (Bool-cases (selects dc m)) [
  | inl s ↦ rw s (filter_hash_keeps dc clock h (hash_can_message_data m) t e b)
  | inr s ↦ rw s e
]

-- The settings never change.
filter-timeout :
    (dc : DedupeFilterClient) (clock : Clock) (m : CanMessageTimestamped)
    → ((filter dc clock m).0.timeout ≡ dc.timeout) × ((filter dc clock m).0.ids ≡ dc.ids)
unfolding filter filter_hash
filter-timeout dc clock m = elim (Option-cases (find (hash_can_message_data m) dc.storage)) [
  | inl fresh ↦ (ground (arith, fresh), ground (arith, fresh))
  | inr (t, known) ↦ (ground (arith, known), ground (arith, known))
]

abbrev pub run : DedupeFilterClient → List (Clock × CanMessageTimestamped) → DedupeFilterClient
run dc [] = dc
run dc ((clock, m) ∷ calls) = run (filter dc clock m).0 calls

run_keeps :
    (calls : List (Clock × CanMessageTimestamped)) (dc : DedupeFilterClient) (w h t : ℕ)
    → dc.timeout * 1000000 ≡ w
    → find h dc.storage ≡ some t
    → All (λ c. Before h (t + w) c.0) calls
    → (find h (run dc calls).storage ≡ some t)
      × (((run dc calls).timeout ≡ dc.timeout) × ((run dc calls).ids ≡ dc.ids))
run_keeps [] dc w h t same e b = (e, (refl, refl))
run_keeps ((clock, m) ∷ calls) dc w h t same e (b, bs) =
    let (timeout, ids) = filter-timeout dc clock m in
    let kept = filter_keeps dc clock m h t e (rw same b) in
    let (found, (timeout', ids')) =
      run_keeps calls (filter dc clock m).0 w h t (ap (λ n. n * 1000000) timeout ∙ same) kept bs in
    (found, (timeout' ∙ timeout, ids' ∙ ids))

-- A frame that passes is stored with the time at which it did.
filter_stores :
    (dc : DedupeFilterClient) (clock : Clock) (m : CanMessageTimestamped)
    → selects dc m ≡ true
    → (filter dc clock m).1 ≡ false
    → clock.sweep (hash_can_message_data m) < clock.store + window dc
    → find (hash_can_message_data m) (filter dc clock m).0.storage ≡ some clock.store
unfolding filter filter_hash
filter_stores dc clock m s passed early =
    let h = hash_can_message_data m in
    let stored = find-insert_same h clock.store dc.storage in
    elim (Option-cases (find h dc.storage)) [
      | inl fresh ↦ rw s (
          rw fresh (
            swept_keeps (window dc) h clock.store clock.sweep (insert h clock.store dc.storage)
              stored early))
      | inr (t, known) ↦ elim (Bool-cases (leb (t + window dc) clock.check)) [
        | inl expired ↦ rw s (rw known (rw expired stored))
        | inr recent ↦ absurd (ground (arith, s, known, recent, passed))
      ]
    ]

-- A known hash is dropped exactly within its window.
filter-known :
    (dc : DedupeFilterClient) (clock : Clock) (m : CanMessageTimestamped) (t : ℕ)
    → selects dc m ≡ true
    → find (hash_can_message_data m) dc.storage ≡ some t
    → (filter dc clock m).1 ≡ not (leb (t + window dc) clock.check)
unfolding filter filter_hash
filter-known dc clock m t s known = ground (arith, s, known)

selects-same :
    (dc dc' : DedupeFilterClient) (m m' : CanMessageTimestamped)
    → dc'.ids ≡ dc.ids
    → m'.id ≡ m.id
    → selects dc m ≡ true
    → selects dc' m' ≡ true
selects-same dc dc' m m' ids id s = rw ids (rw id s)

same_hash :
    (m m' : CanMessageTimestamped)
    → key m' ≡ key m
    → hash_can_message_data m' ≡ hash_can_message_data m
unfolding hash_can_message_data
same_hash m m' e = ap (fnv 14695981039346656037) e

-- Take a frame that the filter selects and lets pass, and any further calls whose clock
-- readings, the sweep of the first call included, lie before the end of its window. After them
-- a frame with the same hashed bytes and identifier is dropped exactly if its own check reads
-- the clock before the end of the window.
pub filter_window :
    (dc : DedupeFilterClient) (clock clock' : Clock) (m m' : CanMessageTimestamped)
    (calls : List (Clock × CanMessageTimestamped))
    → selects dc m ≡ true
    → (filter dc clock m).1 ≡ false
    → clock.sweep (hash_can_message_data m) < clock.store + window dc
    → All (λ c. Before (hash_can_message_data m) (clock.store + window dc) c.0) calls
    → key m' ≡ key m
    → m'.id ≡ m.id
    → (filter (run (filter dc clock m).0 calls) clock' m').1
      ≡ not (leb (clock.store + window dc) clock'.check)
filter_window dc clock clock' m m' calls s passed early b same same_id =
    let h = hash_can_message_data m in
    let (timeout, ids) = filter-timeout dc clock m in
    let passed_dc = (filter dc clock m).0 in
    let (found, (timeout', ids')) =
      run_keeps calls passed_dc (window dc) h clock.store (ap (λ n. n * 1000000) timeout)
        (filter_stores dc clock m s passed early) b in
    let dc' = run passed_dc calls in
    filter-known dc' clock' m' clock.store (selects-same dc dc' m m' (ids' ∙ ids) same_id s)
      (ap (λ k. find k dc'.storage) (same_hash m m' same) ∙ found)
    ∙ ap (λ n. not (leb (clock.store + n * 1000000) clock'.check)) (timeout' ∙ timeout)
