-- ===== src/Connections/Tests.antt =====
-- A registry of connections that have a name, a number and a state, and the theorem about it.
use cantou.Common.{
  ℕ, List, ◌≡◌, ◌⊎◌, refl, none, some, true, false, Bool, [], ◌∷◌, Bytes, codes, equal,
}
use cantou.Connections.{
  Methods, new_manager, kind_of, stn, add, connection_by_id, open_all, all_until, delete_connection,
}
use cantou.Common.Maps.{find, insert, delete_if}
use cantou.Connections.Identity.{
  Call, Became, Deleted, adding, deleting, opening, perform_all, add-connection_by_id,
}

record Named : Type 0 where
  name : Bytes
  id : ℕ
  opened : Bool

abbrev methods : Methods Named
methods = record {
  get_name = λ c. c.name;
  set_id = λ id c. record c { id = id };
  open_it = λ c. (true, record c { opened = true });
  close_it = λ c. (true, record c { opened = false });
  receive_it = λ c. c;
}

abbrev car : Named
car = record { name = codes "car"; id = 0; opened = false }

abbrev bus : Named
bus = record { name = codes "bus"; id = 0; opened = false }

stn_network : kind_of (codes "stn") ≡ stn
unfolding kind_of equal
stn_network = refl

abbrev calls : List (Call Named)
calls = adding (some bus) ∷ (opening ∷ (deleting (codes "bus") ∷ []))

still_there :
    connection_by_id 0 (perform_all methods calls (add methods (some car) new_manager).1)
    ≡ some (record car { opened = true })
unfolding connection_by_id find add insert delete_if open_all all_until delete_connection equal
still_there = refl

add-connection_by_id_example :
    let (given, added) = add methods (some car) new_manager in
    (given ≡ some 0)
    × (connection_by_id 0 added ≡ some car)
    × (((d : Named) × (connection_by_id 0 (perform_all methods calls added) ≡ some d)
          × Became methods car d)
        ⊎ ((connection_by_id 0 (perform_all methods calls added) ≡ none)
            × Deleted methods car calls))
add-connection_by_id_example = add-connection_by_id methods new_manager car calls
