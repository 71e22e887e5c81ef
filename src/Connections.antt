-- ===== src/Connections.antt =====
-- internal/connection/connection_manager.go: the registry of connections. A connection is an
-- interface there, so its type and what its methods do are parameters. The order of the entries
-- stands for the order of Go's range loop over the map.
use cantou.Common.{
  ℕ, ◌+◌, Bool, true, false, Option, none, some, List, [], ◌∷◌, map, Bytes, codes, if◌then◌else◌,
  ◌==◌, equal,
}
use cantou.Common.Maps.{find, insert}
pub mod Identity
mod Tests

pub record CanConnectionManager (C : Type 0) : Type 0 where
  pub connections : List (ℕ × C)
  pub next_id : ℕ

-- The constructor that Connect calls for a network.
pub data Kind : Type 0 where
  simulate : Kind
  slcan : Kind
  elm327 : Kind
  stn : Kind
  playback : Kind
  socketcan : Kind

unfoldable pub kind_of : Bytes → Kind
kind_of network =
    if equal network (codes "sim")
    then simulate
    else if equal network (codes "slcan")
    then slcan
    else if equal network (codes "elm327")
    then elm327
    else if equal network (codes "stn")
    then stn
    else if equal network (codes "playback")
    then playback
    else socketcan

-- The methods of a connection: SetID, Open, Close and Receive, with whether they return no error,
-- and GetName.
pub record Methods (C : Type 0) : Type 0 where
  pub get_name : C → Bytes
  pub set_id : ℕ → C → C
  pub open_it : C → Bool × C
  pub close_it : C → Bool × C
  pub receive_it : C → C

module _ {C : Type 0} where
  abbrev pub new_manager : CanConnectionManager C
  new_manager = record { connections = []; next_id = 0 }

  unfoldable pub connection_by_id : ℕ → CanConnectionManager C → Option C
  connection_by_id id cm = find id cm.connections

  unfoldable pub connections : CanConnectionManager C → List C
  connections cm = map (λ e. e.1) cm.connections

  -- The loop of OpenAll and CloseAll: up to the first error.
  unfoldable pub all_until : (C → Bool × C) → List (ℕ × C) → Bool × List (ℕ × C)
  all_until f [] = (true, [])
  all_until f ((id, c) ∷ cs) =
      let (ok, c') = f c in
      let (fine, rest) = all_until f cs in
      if ok then (fine, (id, c') ∷ rest) else (false, (id, c') ∷ cs)

  module _ (methods : Methods C) where
    -- The id is -1, here none, for a connection that is nil.
    unfoldable pub add : Option C → CanConnectionManager C → Option ℕ × CanConnectionManager C
    add none cm = (none, cm)
    add (some conn) cm = (
      some cm.next_id,
      record {
        connections = insert cm.next_id (methods.set_id cm.next_id conn) cm.connections;
        next_id = cm.next_id + 1;
      },
    )

    -- `make` stands for the constructors, which are given the options.
    unfoldable pub connect :
        {O : Type 0}
        → (Kind → O → C)
        → (O → Bytes)
        → O
        → CanConnectionManager C
        → CanConnectionManager C
    connect make network options cm = (add (some (make (kind_of (network options)) options)) cm).1

    unfoldable pub connect_multiple :
        {O : Type 0}
        → (Kind → O → C)
        → (O → Bytes)
        → List O
        → CanConnectionManager C
        → CanConnectionManager C
    connect_multiple make network [] cm = cm
    connect_multiple make network (options ∷ more) cm =
        connect_multiple make network more (connect make network options cm)

    abbrev pub by_name : Bytes → List (ℕ × C) → Option C
    by_name name [] = none
    by_name name ((id, c) ∷ cs) =
        let rest = by_name name cs in if equal (methods.get_name c) name then some c else rest

    unfoldable pub connection_by_name : Bytes → CanConnectionManager C → Option C
    connection_by_name name cm = by_name name cm.connections

    -- The connection that is closed, and the entries left.
    abbrev pub delete_named : Bytes → List (ℕ × C) → Option C × List (ℕ × C)
    delete_named name [] = (none, [])
    delete_named name ((id, c) ∷ cs) =
        let (closed, rest) = delete_named name cs in
        if equal (methods.get_name c) name
        then (some (methods.close_it c).1, cs)
        else (closed, (id, c) ∷ rest)

    unfoldable pub delete_connection :
        Bytes → CanConnectionManager C → Option C × CanConnectionManager C
    delete_connection name cm =
        let (closed, rest) = delete_named name cm.connections in
        (closed, record cm { connections = rest })

    unfoldable pub open_all : CanConnectionManager C → Bool × CanConnectionManager C
    open_all cm =
        let (fine, cs) = all_until methods.open_it cm.connections in
        (fine, record cm { connections = cs })

    unfoldable pub close_all : CanConnectionManager C → Bool × CanConnectionManager C
    close_all cm =
        let (fine, cs) = all_until methods.close_it cm.connections in
        (fine, record cm { connections = cs })

    unfoldable pub receive_all : CanConnectionManager C → CanConnectionManager C
    receive_all cm = record cm {
      connections = map (λ e. (e.0, methods.receive_it e.1)) cm.connections;
    }
