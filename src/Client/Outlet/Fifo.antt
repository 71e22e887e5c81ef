-- ===== src/Client/Outlet/Fifo.antt =====
-- A listener's channel over any interleaving of sends and receives.
use cantou.Common.{
  ◌+◌, ◌%◌, ◌^◌, ◌≡◌, refl, ap, ◌∙◌, sym, ◌⊎◌, inl, inr, Bool-cases, true, false, List, [], ◌∷◌,
  ◌++◌, append-nil, append_assoc, arith, length, length-append, ltb,
}
use cantou.Client.Outlet.{Outlet, send}

pub data Event {ℓ} (A : Type ℓ) : Type ℓ where
  sending : A → Event A
  receiving : Event A

module _ {A : Type 0} where
  -- The channel at the end, and what its reader has got in the meantime; a receive that finds the
  -- channel empty waits.
  abbrev after_receive : Outlet A → List A → Outlet A × List A
  after_receive o [] = (o, [])
  after_receive o (a ∷ queue) = (record o { queue = queue }, a ∷ [])

  abbrev step : Outlet A → Event A → Outlet A × List A
  step o (sending a) = (send o a, [])
  step o receiving = after_receive o o.queue

  abbrev pub run : Outlet A → List (Event A) → Outlet A × List A
  run o [] = (o, [])
  run o (e ∷ es) = let (o', got) = step o e in let (o'', later) = run o' es in (o'', got ++ later)

  abbrev pub sent : List (Event A) → List A
  sent [] = []
  sent (sending a ∷ es) = a ∷ sent es
  sent (receiving ∷ es) = sent es

  -- The first list is the second with some elements left out.
  abbrev pub IsSubsequence : List A → List A → Type 0
  IsSubsequence [] ys = Unit
  IsSubsequence (x ∷ xs) [] = ⊥
  IsSubsequence (x ∷ xs) (y ∷ ys) = ((x ≡ y) × IsSubsequence xs ys) ⊎ IsSubsequence (x ∷ xs) ys

  IsSubsequence-refl : (xs : List A) → IsSubsequence xs xs
  IsSubsequence-refl [] = tt
  IsSubsequence-refl (x ∷ xs) = inl (refl, IsSubsequence-refl xs)

  IsSubsequence-insert :
      (xs ys : List A) (a : A) (zs : List A)
      → IsSubsequence xs (ys ++ zs)
      → IsSubsequence xs (ys ++ (a ∷ zs))
  IsSubsequence-insert [] ys a zs h = tt
  IsSubsequence-insert (x ∷ xs) [] a zs h = inr h
  IsSubsequence-insert (x ∷ xs) (y ∷ ys) a zs (inl (e, h)) =
      inl (e, IsSubsequence-insert xs ys a zs h)
  IsSubsequence-insert (x ∷ xs) (y ∷ ys) a zs (inr h) =
      inr (IsSubsequence-insert (x ∷ xs) ys a zs h)

  -- What holds of a run: order and at-most-once, and the account of what is missing.
  abbrev pub IsAccounted : Outlet A → List A → Outlet A → List A → Type 0
  IsAccounted o offered o' got =
      IsSubsequence (got ++ o'.queue) (o.queue ++ offered)
      × ((o.dropped + length (o.queue ++ offered)) % 2 ^ 64
          ≡ (o'.dropped + length (got ++ o'.queue)) % 2 ^ 64)

  run-received :
      (o : Outlet A) (es : List (Event A)) (queue : List A)
      → o.queue ≡ queue
      → IsAccounted
          (after_receive o queue).0
          (sent es)
          (run (after_receive o queue).0 es).0
          (run (after_receive o queue).0 es).1
      → IsAccounted o
          (sent es)
          (run (after_receive o queue).0 es).0
          ((after_receive o queue).1 ++ (run (after_receive o queue).0 es).1)
  run-received o es [] e h = h
  run-received o es (a ∷ queue) e (order, count) =
      (rw e (inl (refl, order)), rw e (omega (arith, count)))

  send-room :
      (o : Outlet A) (a : A)
      → ltb (length o.queue) o.capacity ≡ true
      → ((send o a).queue ≡ o.queue ++ (a ∷ [])) × ((send o a).dropped ≡ o.dropped)
  unfolding send
  send-room o a room = (rw room refl, rw room refl)

  send-full :
      (o : Outlet A) (a : A)
      → ltb (length o.queue) o.capacity ≡ false
      → ((send o a).queue ≡ o.queue) × ((send o a).dropped ≡ (o.dropped + 1) % 2 ^ 64)
  unfolding send
  send-full o a full = (rw full refl, rw full refl)

  run-queued :
      (a : A) (es : List (Event A)) (o : Outlet A)
      → ltb (length o.queue) o.capacity ≡ true
      → IsAccounted (send o a) (sent es) (run (send o a) es).0 (run (send o a) es).1
      → IsAccounted o (a ∷ sent es) (run (send o a) es).0 (run (send o a) es).1
  run-queued a es o room (order, count) =
      let (queue, same) = send-room o a room in
      let queued : (send o a).queue ++ sent es ≡ o.queue ++ (a ∷ sent es) =
        ap (λ q. q ++ sent es) queue ∙ append_assoc o.queue (a ∷ []) (sent es) in
      (rw (sym queued) order, omega (arith, count, same, ap length queued))

  run-dropped :
      (a : A) (es : List (Event A)) (o : Outlet A)
      → ltb (length o.queue) o.capacity ≡ false
      → IsAccounted (send o a) (sent es) (run (send o a) es).0 (run (send o a) es).1
      → IsAccounted o (a ∷ sent es) (run (send o a) es).0 (run (send o a) es).1
  run-dropped a es o full (order, count) =
      let (kept, more) = send-full o a full in
      let offered : (send o a).queue ++ sent es ≡ o.queue ++ sent es =
        ap (λ q. q ++ sent es) kept in
      (
        IsSubsequence-insert _ o.queue a (sent es) (rw⁻¹ offered order),
        omega (
          arith,
          count,
          more,
          ap length offered,
          length-append o.queue (sent es),
          length-append o.queue (a ∷ sent es),
        ),
      )

  -- Whatever the order of sends and receives, what the reader got and what still waits is a
  -- subsequence of what waited at first and was sent, in order and each value at most once, and
  -- the counter has grown by the number of values that are missing, modulo 2^64.
  pub run-IsAccounted :
      (es : List (Event A)) (o : Outlet A) → IsAccounted o (sent es) (run o es).0 (run o es).1
  run-IsAccounted [] o =
      (rw (append-nil o.queue) (IsSubsequence-refl o.queue), rw (append-nil o.queue) refl)
  run-IsAccounted (sending a ∷ es) o = elim (Bool-cases (ltb (length o.queue) o.capacity)) [
    | inl room ↦ run-queued a es o room (run-IsAccounted es (send o a))
    | inr full ↦ run-dropped a es o full (run-IsAccounted es (send o a))
  ]
  run-IsAccounted (receiving ∷ es) o =
      run-received o es o.queue refl (run-IsAccounted es (after_receive o o.queue).0)
