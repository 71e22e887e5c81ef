-- ===== src/Connections/Identity.antt =====
-- The numbers of connections in internal/connection/connection_manager.go are not used again.
use cantou.Common.{
  ℕ, ◌<◌, ◌≡◌, refl, ◌⊎◌, inl, inr, Bool, true, false, Option, none, some, List, [], ◌∷◌, map,
  Bytes, All, if_elim, ◌==◌, ==_iff, equal, equal_iff, arith,
}
use cantou.Common.Maps.{find, insert, delete_if, find-insert_same}
use cantou.Connections.{
  CanConnectionManager, Methods, connection_by_id, all_until, add, delete_named, delete_connection,
  open_all, close_all, receive_all,
}

pub data Call (C : Type 0) : Type 0 where
  adding : Option C → Call C
  deleting : Bytes → Call C
  opening : Call C
  closing : Call C
  receiving : Call C

module _ {C : Type 0} (methods : Methods C) where
  abbrev pub perform : Call C → CanConnectionManager C → CanConnectionManager C
  perform (adding c) cm = (add methods c cm).1
  perform (deleting name) cm = (delete_connection methods name cm).1
  perform opening cm = (open_all methods cm).1
  perform closing cm = (close_all methods cm).1
  perform receiving cm = receive_all methods cm

  abbrev pub perform_all : List (Call C) → CanConnectionManager C → CanConnectionManager C
  perform_all [] cm = cm
  perform_all (call ∷ calls) cm = perform_all calls (perform call cm)

  -- What the methods that the manager calls make of a connection.
  pub data Became (c : C) : C → Type 0 where
    unchanged : Became c c
    opened : (d : C) → Became c d → Became c (methods.open_it d).1
    closed : (d : C) → Became c d → Became c (methods.close_it d).1
    received : (d : C) → Became c d → Became c (methods.receive_it d)

  -- One of the calls deletes the name that the connection has by then.
  abbrev pub Deleted : C → List (Call C) → Type 0
  Deleted c [] = ⊥
  Deleted c (deleting name ∷ calls) =
      ((d : C) × Became c d × (methods.get_name d ≡ name)) ⊎ Deleted c calls
  Deleted c (adding other ∷ calls) = Deleted c calls
  Deleted c (opening ∷ calls) = Deleted c calls
  Deleted c (closing ∷ calls) = Deleted c calls
  Deleted c (receiving ∷ calls) = Deleted c calls

  abbrev Absent : ℕ → List (ℕ × C) → Type 0
  Absent id = All (λ e. (e.0 == id) ≡ false)

  -- One entry has the number, and it is what the connection has become.
  abbrev Holds : ℕ → C → List (ℕ × C) → Type 0
  Holds id c [] = ⊥
  Holds id c ((j, u) ∷ cs) =
      (((j == id) ≡ true) × Became c u × Absent id cs) ⊎ (((j == id) ≡ false) × Holds id c cs)

  Absent-delete_if :
      (id : ℕ) (p : ℕ → C → Bool) (cs : List (ℕ × C)) → Absent id cs → Absent id (delete_if p cs)
  unfolding delete_if
  Absent-delete_if id p [] h = tt
  Absent-delete_if id p ((j, u) ∷ cs) (h, hs) =
      if_elim (Absent id) (p j u) _ _ (λ yes. Absent-delete_if id p cs hs)
        (λ no. (h, Absent-delete_if id p cs hs))

  Absent-delete_named :
      (id : ℕ) (name : Bytes) (cs : List (ℕ × C))
      → Absent id cs
      → Absent id (delete_named methods name cs).1
  Absent-delete_named id name [] h = tt
  Absent-delete_named id name ((j, u) ∷ cs) (h, hs) =
      if_elim (λ (r : Option C × List (ℕ × C)). Absent id r.1) (equal (methods.get_name u) name) _ _
        (λ yes. hs) (λ no. (h, Absent-delete_named id name cs hs))

  Absent-all_until :
      (id : ℕ) (f : C → Bool × C) (cs : List (ℕ × C)) → Absent id cs → Absent id (all_until f cs).1
  unfolding all_until
  Absent-all_until id f [] h = tt
  Absent-all_until id f ((j, u) ∷ cs) (h, hs) =
      if_elim (λ (r : Bool × List (ℕ × C)). Absent id r.1) (f u).0 _ _
        (λ yes. (h, Absent-all_until id f cs hs)) (λ no. (h, hs))

  Absent-receive :
      (id : ℕ) (cs : List (ℕ × C))
      → Absent id cs
      → Absent id (map (λ e. (e.0, methods.receive_it e.1)) cs)
  Absent-receive id [] h = tt
  Absent-receive id ((j, u) ∷ cs) (h, hs) = (h, Absent-receive id cs hs)

  Holds-delete_if :
      (id other : ℕ) (c : C) (cs : List (ℕ × C))
      → (id == other) ≡ false
      → Holds id c cs
      → Holds id c (delete_if (λ j u. j == other) cs)
  unfolding delete_if
  Holds-delete_if id other c [] e h = absurd h
  Holds-delete_if id other c ((j, u) ∷ cs) e (inl (same, became, rest)) =
      let kept : (j == other) ≡ false = rw ((==_iff j id).0 same) e in
      rw kept (inl (same, became, Absent-delete_if id (λ k v. k == other) cs rest))
  Holds-delete_if id other c ((j, u) ∷ cs) e (inr (different, rest)) =
      if_elim (Holds id c) (j == other) _ _ (λ yes. Holds-delete_if id other c cs e rest)
        (λ no. inr (different, Holds-delete_if id other c cs e rest))

  Holds-delete_named :
      (id : ℕ) (c : C) (name : Bytes) (cs : List (ℕ × C))
      → Holds id c cs
      → Holds id c (delete_named methods name cs).1
        ⊎ (Absent id (delete_named methods name cs).1
            × ((d : C) × Became c d × (methods.get_name d ≡ name)))
  Holds-delete_named id c name [] h = absurd h
  Holds-delete_named id c name ((j, u) ∷ cs) (inl (same, became, rest)) =
      if_elim
        (λ (r : Option C × List (ℕ × C)).
          Holds id c r.1 ⊎ (Absent id r.1 × ((d : C) × Became c d × (methods.get_name d ≡ name))))
        (equal (methods.get_name u) name) _ _
        (λ yes. inr (rest, (u, became, (equal_iff (methods.get_name u) name).0 yes)))
        (λ no. inl (inl (same, became, Absent-delete_named id name cs rest)))
  Holds-delete_named id c name ((j, u) ∷ cs) (inr (different, rest)) =
      if_elim
        (λ (r : Option C × List (ℕ × C)).
          Holds id c r.1 ⊎ (Absent id r.1 × ((d : C) × Became c d × (methods.get_name d ≡ name))))
        (equal (methods.get_name u) name) _ _ (λ yes. inl rest)
        (λ no. elim (Holds-delete_named id c name cs rest) [
          | inl held ↦ inl (inr (different, held))
          | inr (gone, named) ↦ inr ((different, gone), named)
        ])

  Holds-all_until :
      (id : ℕ) (c : C) (f : C → Bool × C) (cs : List (ℕ × C))
      → ((d : C) → Became c d → Became c (f d).1)
      → Holds id c cs
      → Holds id c (all_until f cs).1
  unfolding all_until
  Holds-all_until id c f [] goes h = absurd h
  Holds-all_until id c f ((j, u) ∷ cs) goes (inl (same, became, rest)) =
      if_elim (λ (r : Bool × List (ℕ × C)). Holds id c r.1) (f u).0 _ _
        (λ yes. inl (same, goes u became, Absent-all_until id f cs rest))
        (λ no. inl (same, goes u became, rest))
  Holds-all_until id c f ((j, u) ∷ cs) goes (inr (different, rest)) =
      if_elim (λ (r : Bool × List (ℕ × C)). Holds id c r.1) (f u).0 _ _
        (λ yes. inr (different, Holds-all_until id c f cs goes rest)) (λ no. inr (different, rest))

  Holds-receive :
      (id : ℕ) (c : C) (cs : List (ℕ × C))
      → Holds id c cs
      → Holds id c (map (λ e. (e.0, methods.receive_it e.1)) cs)
  Holds-receive id c [] h = absurd h
  Holds-receive id c ((j, u) ∷ cs) (inl (same, became, rest)) =
      inl (same, received u became, Absent-receive id cs rest)
  Holds-receive id c ((j, u) ∷ cs) (inr (different, rest)) =
      inr (different, Holds-receive id c cs rest)

  -- A number that has been given, and is not held any more, is not given again.
  perform-Absent :
      (id : ℕ) (call : Call C) (cm : CanConnectionManager C)
      → id < cm.next_id
      → Absent id cm.connections
      → (id < (perform call cm).next_id) × Absent id (perform call cm).connections
  unfolding add insert delete_connection open_all close_all receive_all
  perform-Absent id (adding none) cm l h = (l, h)
  perform-Absent id (adding (some c)) cm l h = (
    omega arith,
    (ground (arith, l), Absent-delete_if id (λ j u. j == cm.next_id) cm.connections h),
  )
  perform-Absent id (deleting name) cm l h = (l, Absent-delete_named id name cm.connections h)
  perform-Absent id opening cm l h = (l, Absent-all_until id methods.open_it cm.connections h)
  perform-Absent id closing cm l h = (l, Absent-all_until id methods.close_it cm.connections h)
  perform-Absent id receiving cm l h = (l, Absent-receive id cm.connections h)

  perform_all-Absent :
      (id : ℕ) (calls : List (Call C)) (cm : CanConnectionManager C)
      → id < cm.next_id
      → Absent id cm.connections
      → Absent id (perform_all calls cm).connections
  perform_all-Absent id [] cm l h = h
  perform_all-Absent id (call ∷ calls) cm l h =
      let (l', h') = perform-Absent id call cm l h in
      perform_all-Absent id calls (perform call cm) l' h'

  -- What becomes of the entry over some calls.
  abbrev IsHeld : ℕ → C → List (Call C) → CanConnectionManager C → Type 0
  IsHeld id c calls cm =
      Holds id c (perform_all calls cm).connections
      ⊎ (Absent id (perform_all calls cm).connections × Deleted c calls)

  perform_all-IsHeld :
      (id : ℕ) (c : C) (calls : List (Call C)) (cm : CanConnectionManager C)
      → id < cm.next_id
      → Holds id c cm.connections
      → IsHeld id c calls cm
  unfolding add insert delete_connection open_all close_all receive_all
  perform_all-IsHeld id c [] cm l h = inl h
  perform_all-IsHeld id c (adding none ∷ calls) cm l h = perform_all-IsHeld id c calls cm l h
  perform_all-IsHeld id c (adding (some other) ∷ calls) cm l h =
      let fresh : (id == cm.next_id) ≡ false = ground (arith, l) in
      perform_all-IsHeld id c calls (perform (adding (some other)) cm) (omega arith)
        (inr (ground (arith, l), Holds-delete_if id cm.next_id c cm.connections fresh h))
  perform_all-IsHeld id c (deleting name ∷ calls) cm l h =
      elim (Holds-delete_named id c name cm.connections h) [
        | inl held ↦ elim (perform_all-IsHeld id c calls (perform (deleting name) cm) l held) [
          | inl still ↦ inl still
          | inr (gone, later) ↦ inr (gone, inr later)
        ]
        | inr (gone, named) ↦
            inr (perform_all-Absent id calls (perform (deleting name) cm) l gone, inl named)
      ]
  perform_all-IsHeld id c (opening ∷ calls) cm l h =
      perform_all-IsHeld id c calls (perform opening cm) l
        (Holds-all_until id c methods.open_it cm.connections opened h)
  perform_all-IsHeld id c (closing ∷ calls) cm l h =
      perform_all-IsHeld id c calls (perform closing cm) l
        (Holds-all_until id c methods.close_it cm.connections closed h)
  perform_all-IsHeld id c (receiving ∷ calls) cm l h =
      perform_all-IsHeld id c calls (perform receiving cm) l (Holds-receive id c cm.connections h)

  absent : (id : ℕ) (cs : List (ℕ × C)) → Absent id (delete_if (λ j u. j == id) cs)
  unfolding delete_if
  absent id [] = tt
  absent id ((j, u) ∷ cs) =
      if_elim (Absent id) (j == id) _ _ (λ same. absent id cs) (λ other. (other, absent id cs))

  find-Absent : (id : ℕ) (cs : List (ℕ × C)) → Absent id cs → find id cs ≡ none
  unfolding find
  find-Absent id [] h = refl
  find-Absent id ((j, u) ∷ cs) (h, hs) = rw h (find-Absent id cs hs)

  find-Holds :
      (id : ℕ) (c : C) (cs : List (ℕ × C))
      → Holds id c cs
      → (d : C) × (find id cs ≡ some d) × Became c d
  unfolding find
  find-Holds id c [] h = absurd h
  find-Holds id c ((j, u) ∷ cs) (inl (same, became, rest)) = (u, rw same refl, became)
  find-Holds id c ((j, u) ∷ cs) (inr (different, rest)) =
      let (d, e, became) = find-Holds id c cs rest in (d, rw different e, became)

  -- A number that Add has given to a connection is found at once, and whatever calls follow, it
  -- leads to that connection, as opening, closing and receiving have left it. It leads to none only if
  -- one of the calls deletes the name that the connection has by then, and to no other connection:
  -- it is not given again.
  pub add-connection_by_id :
      (cm : CanConnectionManager C) (c : C) (calls : List (Call C))
      → let (given, added) = add methods (some c) cm in
        let id = cm.next_id in
        let numbered = methods.set_id id c in
        (given ≡ some id)
        × (connection_by_id id added ≡ some numbered)
        × (((d : C) × (connection_by_id id (perform_all calls added) ≡ some d) × Became numbered d)
            ⊎ ((connection_by_id id (perform_all calls added) ≡ none) × Deleted numbered calls))
  unfolding add insert connection_by_id
  add-connection_by_id cm c calls =
      let id = cm.next_id in
      let numbered = methods.set_id id c in
      let added = (add methods (some c) cm).1 in
      let held : Holds id numbered added.connections =
        inl ((==_iff id id).1 refl, unchanged, absent id cm.connections) in
      (
        refl,
        find-insert_same id numbered cm.connections,
        elim (perform_all-IsHeld id numbered calls added (omega arith) held) [
          | inl still ↦ inl (find-Holds id numbered (perform_all calls added).connections still)
          | inr (gone, deleted) ↦
              inr (find-Absent id (perform_all calls added).connections gone, deleted)
        ],
      )
