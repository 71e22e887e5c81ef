-- ===== src/Client/MessageDispatch/Reachable.antt =====
-- The states a dispatcher can reach by any sequence of its operations and of receives.
use cantou.Common.{
  ◌≡◌, ◌≤◌, refl, sym, ap, ◌∙◌, true, false, List, [], ◌∷◌, ◌++◌, arith, Bytes, equal, some, inl,
  inr, Bool-cases, Option-cases, if◌then◌else◌, All, All-append, length, length-append,
}
use cantou.Models.{CanMessageTimestamped}
use cantou.Client.Outlet.{Outlet, send}
use cantou.Client.MessageDispatch.{
  RegisteredListener, MessageDispatcher, add, remove, deliver, broadcast, wants,
}
use cantou.Client.MessageDispatch.Registry.{
  has_name, Distinct, add_lem, add-Distinct, remove-Distinct, remove_cases,
}

abbrev take_one :
    Outlet CanMessageTimestamped → List CanMessageTimestamped → Outlet CanMessageTimestamped
take_one o [] = o
take_one o (m ∷ queue) = record o { queue = queue }

-- A listener's client takes a frame from its channel.
abbrev pub receive : Bytes → MessageDispatcher → MessageDispatcher
receive name [] = []
receive name (c ∷ cs) =
    (if equal c.name name then record c { outlet = take_one c.outlet c.outlet.queue } else c)
    ∷ receive name cs

pub data Step : MessageDispatcher → MessageDispatcher → Type 0 where
  adding :
      (l : RegisteredListener) {cs cs' : MessageDispatcher}
      → l.outlet.queue ≡ []
      → add l cs ≡ some cs'
      → Step cs cs'
  removing : (name : Bytes) {cs cs' : MessageDispatcher} → remove name cs ≡ some cs' → Step cs cs'
  broadcasting :
      (m : CanMessageTimestamped) {cs cs' : MessageDispatcher}
      → broadcast cs m ≡ some cs'
      → Step cs cs'
  receiving : (name : Bytes) {cs cs' : MessageDispatcher} → receive name cs ≡ cs' → Step cs cs'

pub data Reachable : MessageDispatcher → Type 0 where
  start : {cs : MessageDispatcher} → cs ≡ [] → Reachable cs
  next : {cs cs' : MessageDispatcher} → Reachable cs → Step cs cs' → Reachable cs'

abbrev pub IsBounded : RegisteredListener → Type 0
IsBounded c = length c.outlet.queue ≤ c.outlet.capacity

-- One listener becomes another with its name, within its capacity.
abbrev Evolves : RegisteredListener → RegisteredListener → Type 0
Evolves c c' = (c'.name ≡ c.name) × (IsBounded c → IsBounded c')

send_bounded :
    (c : RegisteredListener) (m : CanMessageTimestamped)
    → Evolves c (record c { outlet = send c.outlet m })
unfolding send
send_bounded c m =
    let grown = length-append c.outlet.queue (m ∷ []) in (refl, λ h. ground (arith, h, grown))

deliver-Evolves :
    (c c' : RegisteredListener) (m : CanMessageTimestamped) → deliver c m ≡ some c' → Evolves c c'
unfolding deliver
deliver-Evolves c c' m h = elim (Option-cases (wants c.filter m)) [
  | inl e ↦ absurd (ground (arith, e, h))
  | inr (true, e) ↦
      let same : record c { outlet = send c.outlet m } ≡ c' = ground (arith, e, h) in
      rw (sym same) (send_bounded c m)
  | inr (false, e) ↦ let same : c ≡ c' = ground (arith, e, h) in rw (sym same) (refl, λ k. k)
]

take_one-Evolves :
    (c : RegisteredListener) (queue : List CanMessageTimestamped)
    → c.outlet.queue ≡ queue
    → Evolves c (record c { outlet = take_one c.outlet queue })
take_one-Evolves c [] e = (refl, λ k. k)
take_one-Evolves c (m ∷ queue) e = (refl, λ k. omega (arith, k, ap length e))

abbrev AllEvolve : MessageDispatcher → MessageDispatcher → Type 0
AllEvolve [] [] = Unit
AllEvolve (c ∷ cs) (c' ∷ cs') = Evolves c c' × AllEvolve cs cs'
AllEvolve _ _ = ⊥

broadcast-AllEvolve :
    (cs cs' : MessageDispatcher) (m : CanMessageTimestamped)
    → broadcast cs m ≡ some cs'
    → AllEvolve cs cs'
unfolding broadcast
broadcast-AllEvolve [] [] m h = tt
broadcast-AllEvolve [] (c ∷ cs') m h = absurd (ground (arith, h))
broadcast-AllEvolve (c ∷ cs) cs' m h = elim (Option-cases (deliver c m)) [
  | inl e ↦ absurd (ground (arith, e, h))
  | inr (c', e) ↦ elim (Option-cases (broadcast cs m)) [
    | inl k ↦ absurd (ground (arith, e, k, h))
    | inr (rest, k) ↦
        let same : c' ∷ rest ≡ cs' = ground (arith, e, k, h) in
        rw (sym same) (deliver-Evolves c c' m e, broadcast-AllEvolve cs rest m k)
  ]
]

receive-AllEvolve : (name : Bytes) (cs : MessageDispatcher) → AllEvolve cs (receive name cs)
receive-AllEvolve name [] = tt
receive-AllEvolve name (c ∷ cs) = elim (Bool-cases (equal c.name name)) [
  | inl e ↦ rw e (take_one-Evolves c c.outlet.queue refl, receive-AllEvolve name cs)
  | inr e ↦ rw e ((refl, λ k. k), receive-AllEvolve name cs)
]

has_name-Evolve :
    (n : Bytes) (cs cs' : MessageDispatcher) → AllEvolve cs cs' → has_name n cs' ≡ has_name n cs
has_name-Evolve n [] [] h = refl
has_name-Evolve n [] (c ∷ cs') h = absurd h
has_name-Evolve n (c ∷ cs) [] h = absurd h
has_name-Evolve n (c ∷ cs) (c' ∷ cs') ((e, b), h) = rw (e, has_name-Evolve n cs cs' h) refl

abbrev pub WellFormed : MessageDispatcher → Type 0
WellFormed cs = Distinct cs × All IsBounded cs

evolve-WellFormed : (cs cs' : MessageDispatcher) → AllEvolve cs cs' → WellFormed cs → WellFormed cs'
evolve-WellFormed [] [] h w = w
evolve-WellFormed [] (c ∷ cs') h w = absurd h
evolve-WellFormed (c ∷ cs) [] h w = absurd h
evolve-WellFormed (c ∷ cs) (c' ∷ cs') ((e, b), h) ((free, d), (k, ks)) =
    let (d', ks') = evolve-WellFormed cs cs' h (d, ks) in
    ((has_name-Evolve c'.name cs cs' h ∙ ap (λ n. has_name n cs) e ∙ free, d'), (b k, ks'))

remove-IsBounded :
    (name : Bytes) (cs cs' : MessageDispatcher)
    → remove name cs ≡ some cs'
    → All IsBounded cs
    → All IsBounded cs'
unfolding remove
remove-IsBounded name [] cs' e h = absurd (ground (arith, e))
remove-IsBounded name (c ∷ cs) cs' e (h, hs) = elim (remove_cases name c cs cs' e) [
  | inl same ↦ rw (sym same) hs
  | inr (rest, (found, same)) ↦ rw (sym same) (h, remove-IsBounded name cs rest found hs)
]

add-IsBounded :
    (l : RegisteredListener) (cs cs' : MessageDispatcher)
    → l.outlet.queue ≡ []
    → add l cs ≡ some cs'
    → All IsBounded cs
    → All IsBounded cs'
add-IsBounded l cs cs' empty h b = elim (Bool-cases (has_name l.name cs)) [
  | inl taken ↦ absurd (ground (arith, add_lem l cs, taken, h))
  | inr free ↦
      let added : cs ++ (l ∷ []) ≡ cs' = ground (arith, add_lem l cs, free, h) in
      rw (sym added) (All-append IsBounded cs (l ∷ []) b (omega (arith, ap length empty), tt))
]

Step-WellFormed : {cs cs' : MessageDispatcher} → Step cs cs' → WellFormed cs → WellFormed cs'
Step-WellFormed {cs} {cs'} (adding l empty h) (d, b) =
    (add-Distinct l cs cs' h d, add-IsBounded l cs cs' empty h b)
Step-WellFormed {cs} {cs'} (removing name h) (d, b) =
    (remove-Distinct name cs cs' h d, remove-IsBounded name cs cs' h b)
Step-WellFormed {cs} {cs'} (broadcasting m h) w =
    evolve-WellFormed cs cs' (broadcast-AllEvolve cs cs' m h) w
Step-WellFormed {cs} {cs'} (receiving name h) w =
    rw (sym h) (evolve-WellFormed cs (receive name cs) (receive-AllEvolve name cs) w)

-- In every state that is reached from a dispatcher without listeners by Add with an empty
-- channel, Remove, broadcasts and receives in any order, no two listeners have the same name
-- and no channel holds more than its capacity.
pub Reachable-WellFormed : {cs : MessageDispatcher} → Reachable cs → WellFormed cs
Reachable-WellFormed (start e) = rw e (tt, tt)
Reachable-WellFormed (next r s) = Step-WellFormed s (Reachable-WellFormed r)
