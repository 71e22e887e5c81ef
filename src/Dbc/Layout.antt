-- ===== src/Dbc/Layout.antt =====
-- What `compile` keeps of the definitions: the messages and the layout of their signals.
use cantou.Dbc.Signals.{layout, outline, map-modify, AllLaidOut, layouts-AllLaidOut}
use mathlib.Core.List.{Perm}
use mathlib.Core.List.Perm as Perm
use cantou.Common.{
  ℕ, ◌≡◌, refl, ap, ◌∙◌, sym, Bool, true, false, ◌==◌, Option, none, some, List, [], ◌∷◌, ◌++◌, map,
  arith, Bytes, if◌then◌else◌, Bool-cases, inl, inr, append-nil, append_assoc,
}
use cantou.Dbc.{Signal, Message, Database}
use cantou.Dbc.Definitions.{Libraries, Def, MessageDef, SignalDef, ObjectType, ObjectRef}
use cantou.Dbc.Compile.{
  new_signal, new_message, modify, modify_found, modify_signal, with_message, with_signal, comment,
  describe_values, set_attribute, set_message_attribute, set_signal_attribute, set_float, collect,
  collect_all, annotate, annotate_all, sort_descriptions, sort_signals, sorted, compile, empty,
  signal_less,
}

module _ (libs : Libraries) where
  abbrev outlines : Database → List (Bytes × ℕ × List Signal)
  outlines db = map outline db.messages

  with_message-outlines :
      (db : Database) (message_id : ℕ) (f : Message → Message)
      → ((m : Message) → outline (f m) ≡ outline m)
      → outlines (with_message libs db message_id f) ≡ outlines db
  with_message-outlines db message_id f h =
      found (libs.message_at db.messages (libs.to_can message_id))
    where
      found : (o : Option ℕ) → map outline (modify_found libs o f db.messages) ≡ outlines db
      found none = refl
      found (some n) = map-modify outline f n db.messages h

  with_signal-outlines :
      (db : Database) (message_id : ℕ) (name : Bytes) (f : Signal → Signal)
      → ((s : Signal) → layout (f s) ≡ layout s)
      → outlines (with_signal libs db message_id name f) ≡ outlines db
  with_signal-outlines db message_id name f h =
      found (libs.signal_at db.messages (libs.to_can message_id) name)
    where
      found : (o : Option (ℕ × ℕ)) → map outline (modify_signal libs o f db.messages) ≡ outlines db
      found none = refl
      found (some (i, j)) =
          map-modify outline (λ m. record m { signals = modify j f m.signals }) i db.messages
            (λ m. ap (λ (ss : List Signal). (m.name, m.id, ss)) (map-modify layout f j m.signals h))

  set_message_attribute-outline :
      (name text : Bytes) (value : ℕ) (m : Message)
      → outline (set_message_attribute libs name text value m) ≡ outline m
  set_message_attribute-outline name text value m = ground arith

  set_signal_attribute-layout :
      (name : Bytes) (value : ℕ) (s : Signal)
      → layout (set_signal_attribute libs name value s) ≡ layout s
  set_signal_attribute-layout name value s = ground arith

  set_float-layout : (b : Bool) (s : Signal) → layout (set_float libs b s) ≡ layout s
  set_float-layout b s = ground arith

  comment-outlines :
      (db : Database) (t : ObjectType) (o : ObjectRef) (text : Bytes)
      → outlines (comment libs db t o text) ≡ outlines db
  comment-outlines db ObjectType.object_message o text = ground (
    arith,
    with_message-outlines db o.message_id (λ (m : Message). record m { description = text })
        (λ m. refl),
  )
  comment-outlines db ObjectType.object_signal o text = ground (
    arith,
    with_signal-outlines db o.message_id o.signal_name
        (λ (s : Signal). record s { description = text }) (λ s. refl),
  )
  comment-outlines db ObjectType.object_network_node o text = refl
  comment-outlines db ObjectType.object_other o text = refl

  describe_values-outlines :
      (db : Database) (t : ObjectType) (o : ObjectRef) (vs : List (ℕ × Bytes))
      → outlines (describe_values libs db t o vs) ≡ outlines db
  describe_values-outlines db ObjectType.object_signal o vs =
      with_signal-outlines db o.message_id o.signal_name _ (λ s. refl)
  describe_values-outlines db ObjectType.object_message o vs = refl
  describe_values-outlines db ObjectType.object_network_node o vs = refl
  describe_values-outlines db ObjectType.object_other o vs = refl

  set_attribute-outlines :
      (db : Database) (t : ObjectType) (o : ObjectRef) (name text : Bytes) (value : ℕ)
      → outlines (set_attribute libs db t o name text value) ≡ outlines db
  set_attribute-outlines db ObjectType.object_message o name text value =
      with_message-outlines db o.message_id (set_message_attribute libs name text value)
        (set_message_attribute-outline name text value)
  set_attribute-outlines db ObjectType.object_signal o name text value =
      with_signal-outlines db o.message_id o.signal_name (set_signal_attribute libs name value)
        (set_signal_attribute-layout name value)
  set_attribute-outlines db ObjectType.object_network_node o name text value = refl
  set_attribute-outlines db ObjectType.object_other o name text value = refl

  annotate-outlines : (db : Database) (d : Def) → outlines (annotate libs db d) ≡ outlines db
  unfolding annotate
  annotate-outlines db (Def.version_def version) = refl
  annotate-outlines db (Def.message_def d) = refl
  annotate-outlines db (Def.nodes_def names) = refl
  annotate-outlines db (Def.comment_def o text) = comment-outlines db o.object_type o text
  annotate-outlines db (Def.value_descriptions_def o vs) =
      ground (arith, describe_values-outlines db o.object_type o vs)
  annotate-outlines db (Def.signal_value_type_def message_id name b) =
      with_signal-outlines db message_id name (set_float libs b) (set_float-layout b)
  annotate-outlines db (Def.attribute_value_def o name text value) =
      set_attribute-outlines db o.object_type o name text value
  annotate-outlines db Def.other_def = refl

  annotate_all-outlines :
      (db : Database) (ds : List Def) → outlines (annotate_all libs db ds) ≡ outlines db
  unfolding annotate_all
  annotate_all-outlines db [] = refl
  annotate_all-outlines db (d ∷ ds) =
      annotate_all-outlines (annotate libs db d) ds ∙ annotate-outlines db d

  -- The messages that the definitions declare, in order.
  abbrev pub declared : List Def → List MessageDef
  declared [] = []
  declared (Def.message_def d ∷ ds) =
      let rest = declared ds in
      if d.message_id == libs.independent_signals_message_id then rest else d ∷ rest
  declared (_ ∷ ds) = declared ds

  collect-message_def :
      (db : Database) (d : MessageDef) (b : Bool)
      → (d.message_id == libs.independent_signals_message_id) ≡ b
      → collect libs db (Def.message_def d)
        ≡ (if b then db else record db { messages = db.messages ++ (new_message libs d ∷ []) })
  unfolding collect
  collect-message_def db d b e = rw (sym e)

  collect_all-messages :
      (db : Database) (ds : List Def)
      → (collect_all libs db ds).messages ≡ db.messages ++ map (new_message libs) (declared ds)
  unfolding collect collect_all
  collect_all-messages db [] = sym (append-nil db.messages)
  collect_all-messages db (Def.message_def d ∷ ds) =
      elim (Bool-cases (d.message_id == libs.independent_signals_message_id)) [
        | inl e ↦
            ap (λ (x : Database). (collect_all libs x ds).messages)
              (collect-message_def db d true e)
            ∙ rw e (collect_all-messages db ds)
        | inr e ↦
            ap (λ (x : Database). (collect_all libs x ds).messages)
              (collect-message_def db d false e)
            ∙ rw e (
                collect_all-messages
                  (record db { messages = db.messages ++ (new_message libs d ∷ []) }) ds
                ∙ append_assoc db.messages (new_message libs d ∷ [])
                    (map (new_message libs) (declared ds)))
      ]
  collect_all-messages db (Def.version_def v ∷ ds) =
      collect_all-messages (record db { version = v }) ds
  collect_all-messages db (Def.nodes_def names ∷ ds) = collect_all-messages _ ds
  collect_all-messages db (Def.comment_def o text ∷ ds) = collect_all-messages db ds
  collect_all-messages db (Def.value_descriptions_def o vs ∷ ds) = collect_all-messages db ds
  collect_all-messages db (Def.signal_value_type_def i name b ∷ ds) = collect_all-messages db ds
  collect_all-messages db (Def.attribute_value_def o name text value ∷ ds) =
      collect_all-messages db ds
  collect_all-messages db (Def.other_def ∷ ds) = collect_all-messages db ds

  -- A message is as declared: its name, its identifier and its signals, in some order, as
  -- the definitions have them one by one.
  pub record IsAsDeclared (d : MessageDef) (m : Message) : Type 0 where
    pub same_name : m.name ≡ d.name
    pub same_id : m.id ≡ libs.to_can d.message_id
    pub in_order : List Signal
    pub same_signals : Perm m.signals in_order
    pub laid_out : AllLaidOut d.signals in_order

  abbrev pub AllAsDeclared : List MessageDef → List Message → Type 0
  AllAsDeclared [] [] = Unit
  AllAsDeclared (d ∷ ds) (m ∷ ms) = IsAsDeclared d m × AllAsDeclared ds ms
  AllAsDeclared _ _ = ⊥

  -- What sort.Slice promises, whatever order it is given.
  abbrev pub SortPermutes : Type 1
  SortPermutes = (A : Type 0) (less : A → A → Bool) (xs : List A) → Perm (libs.sort A less xs) xs

  map-layout-sort_descriptions :
      (ss : List Signal) → map layout (map (sort_descriptions libs) ss) ≡ map layout ss
  map-layout-sort_descriptions [] = refl
  map-layout-sort_descriptions (s ∷ ss) = ap (◌∷◌ (layout s)) (map-layout-sort_descriptions ss)

  module _ (permutes : SortPermutes) where
    sort_signals-AllLaidOut :
        (ds : List SignalDef) (m : Message)
        → map layout m.signals ≡ map layout (map new_signal ds)
        → Perm (sort_signals libs m).signals (map (sort_descriptions libs) m.signals)
          × AllLaidOut ds (map (sort_descriptions libs) m.signals)
    sort_signals-AllLaidOut ds m e = (
      Perm.map (sort_descriptions libs) (permutes Signal signal_less m.signals),
      layouts-AllLaidOut ds (map (sort_descriptions libs) m.signals)
          (map-layout-sort_descriptions m.signals ∙ e),
    )

    sorted-AllAsDeclared :
        (ds : List MessageDef) (ms : List Message)
        → map outline ms ≡ map outline (map (new_message libs) ds)
        → AllAsDeclared ds (map (sort_signals libs) ms)
    sorted-AllAsDeclared [] [] e = tt
    sorted-AllAsDeclared [] (m ∷ ms) e = cc
    sorted-AllAsDeclared (d ∷ ds) [] e = cc
    sorted-AllAsDeclared (d ∷ ds) (m ∷ ms) e =
        let head : outline m ≡ outline (new_message libs d) = ground (arith, e) in
        let (reordered, laid_out) =
          sort_signals-AllLaidOut d.signals m (ap (λ (o : Bytes × ℕ × List Signal). o.2) head) in
        (
          record {
            same_name = ap (λ (o : Bytes × ℕ × List Signal). o.0) head;
            same_id = ap (λ (o : Bytes × ℕ × List Signal). o.1) head;
            in_order = map (sort_descriptions libs) m.signals;
            same_signals = reordered;
            laid_out = laid_out;
          },
          sorted-AllAsDeclared ds ms (ground (arith, e)),
        )

    -- If sorting only reorders, a compiled database has exactly the messages that the definitions
    -- declare, but for the one that holds independent signals, in some order: each with its name,
    -- its identifier and exactly its signals, in some order: each with its name, its first bit and its
    -- size modulo 256, its byte order and sign, its multiplexing, scale, offset, bounds, unit and
    -- receivers, whatever comments, described values and attributes are applied and whatever they are found
    -- to be about.
    pub compile-declared :
        (source_file : Bytes) (ds : List Def)
        → (ms : List Message) × Perm (compile libs source_file ds).messages ms
          × AllAsDeclared (declared ds) ms
    unfolding compile sorted
    compile-declared source_file ds =
        let db = annotate_all libs (collect_all libs (empty libs source_file) ds) ds in
        (
          map (sort_signals libs) db.messages,
          Perm.map (sort_signals libs) (permutes Message _ db.messages),
          sorted-AllAsDeclared (declared ds) db.messages (
              annotate_all-outlines (collect_all libs (empty libs source_file) ds) ds
              ∙ ap (map outline) (collect_all-messages (empty libs source_file) ds)),
        )
