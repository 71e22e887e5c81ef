-- ===== src/Dbc/Tests.antt =====
-- A message with a switch, compiled and decoded, and the theorems at it.
use mathlib.Core.List.{Perm}
use mathlib.Core.List.Perm as Perm
use cantou.Common.{
  ℕ, ◌<◌, ◌≡◌, refl, Bool, true, false, ◌==◌, Option, none, some, List, [], ◌∷◌, map, arith, Bytes,
  codes, equal, if◌then◌else◌, get_elem?, ltb, ◌%◌, ◌/◌, ◌^◌, Bool-cases, inl, inr,
}
use cantou.Models.{CanMessageTimestamped, CanSignalTimestamped}
use cantou.Dbc.{Signal, Message, parse_message, parse_signals}
use cantou.Dbc.Order.{parse_message-Perm}
use cantou.Dbc.Definitions.{Libraries, Def, SignalDef, MessageDef, ObjectRef, ObjectType}
use cantou.Dbc.Compile.{compile, new_signal, collect, annotate, signal_less}
use cantou.Dbc.Layout.{declared, AllAsDeclared, compile-declared}

-- Stand-ins for the libraries: a byte for the bits of a signal, the first message that fits, and a
-- sort by insertion.
abbrev byte_or_zero : Option ℕ → ℕ
byte_or_zero none = 0
byte_or_zero (some b) = b

abbrev read_byte : Signal → Bytes → ℕ
read_byte s bs = byte_or_zero (get_elem? bs (s.start / 8))

abbrev first_message : List Message → ℕ → Option Message
first_message [] id = none
first_message (m ∷ ms) id = if m.id == id then some m else first_message ms id

insert_by {ℓ} : {A : Type ℓ} → (A → A → Bool) → A → List A → List A
insert_by less x [] = x ∷ []
insert_by less x (y ∷ ys) = if less x y then x ∷ (y ∷ ys) else y ∷ insert_by less x ys

sort_by {ℓ} : {A : Type ℓ} → (A → A → Bool) → List A → List A
sort_by less [] = []
sort_by less (x ∷ xs) = insert_by less x (sort_by less xs)

insert_by-Perm {ℓ} :
    {A : Type ℓ} (less : A → A → Bool) (x : A) (xs : List A) → Perm (insert_by less x xs) (x ∷ xs)
unfolding insert_by
insert_by-Perm less x [] = Perm.refl (x ∷ [])
insert_by-Perm less x (y ∷ ys) = elim (Bool-cases (less x y)) [
  | inl e ↦ rw e (Perm.refl (x ∷ (y ∷ ys)))
  | inr e ↦ rw e (Perm.trans (Perm.cons y (insert_by-Perm less x ys)) (Perm.swap x y ys))
]

sort_by-Perm {ℓ} : {A : Type ℓ} (less : A → A → Bool) (xs : List A) → Perm (sort_by less xs) xs
unfolding sort_by
sort_by-Perm less [] = Perm.nil
sort_by-Perm less (x ∷ xs) =
    Perm.trans (insert_by-Perm less x (sort_by less xs)) (Perm.cons x (sort_by-Perm less xs))

abbrev libs : Libraries
libs = record {
  independent_signals_message_id = 0xC0000000;
  to_can = λ id. id % 2 ^ 31;
  is_extended = λ id. ltb 0x7FFFFFFF id;
  message_at = λ ms id. some 0;
  signal_at = λ ms id name. some (0, 1);
  node_at = λ ns name. none;
  unmarshal_send_type = λ text old. 1;
  float_to_int64 = λ x. x;
  text_less = λ s t. false;
  sort = λ A less xs. sort_by less xs;
}

abbrev signal_def : Bytes → ℕ → Bool → Bool → ℕ → SignalDef
signal_def name start switch multiplexed value = record {
  name = name;
  start_bit = start;
  size = 8;
  is_big_endian = false;
  is_signed = false;
  is_multiplexer_switch = switch;
  is_multiplexed = multiplexed;
  multiplexer_switch = value;
  factor = 1;
  offset = 0;
  minimum = 0;
  maximum = 255;
  unit = codes "rpm";
  receivers = [];
}

abbrev engine : MessageDef
engine = record {
  name = codes "ENGINE";
  message_id = 0x123;
  size = 8;
  transmitter = codes "ECU";
  signals =
      signal_def (codes "B") 8 false true 1
      ∷ (signal_def (codes "A") 8 false true 0 ∷ (signal_def (codes "MODE") 0 true false 0 ∷ []));
}

abbrev about : ObjectType → ObjectRef
about t = record { object_type = t; message_id = 0x123; signal_name = codes "A"; node_name = [] }

abbrev defs : List Def
defs =
    Def.message_def engine
    ∷ (Def.message_def (record engine { message_id = 0xC0000000 })
        ∷ (Def.comment_def (about ObjectType.object_signal) (codes "speed")
            ∷ (Def.attribute_value_def (about ObjectType.object_message) (codes "GenMsgCycleTime")
                  [] 10
                ∷ [])))

abbrev frame : ℕ → CanMessageTimestamped
frame mode = record {
  timestamp = 5;
  interface = 1;
  id = 0x123;
  transmit = false;
  remote = false;
  length = 2;
  bytes = mode ∷ 42 ∷ [];
}

abbrev names : List CanSignalTimestamped → List Bytes
names = map (λ s. s.signal)

-- The switch selects the signal; without a database there is none.
decoded_one :
    names (parse_signals first_message read_byte read_byte (some (compile libs [] defs)) (frame 1))
    ≡ codes "MODE" ∷ (codes "B" ∷ [])
unfolding parse_signals compile parse_message sort_by insert_by signal_less collect annotate equal
decoded_one = refl

decoded_by_none : parse_signals first_message read_byte read_byte none (frame 1) ≡ []
unfolding parse_signals
decoded_by_none = refl

-- A signal of a larger value of the switch that starts earlier stands before another and behind it.
signal_less-both :
    (s t : Signal)
    → t.multiplexer_value < s.multiplexer_value
    → s.start < t.start
    → (signal_less s t ≡ true) × (signal_less t s ≡ true)
unfolding signal_less
signal_less-both s t h k = ground arith

abbrev message : Message
message = record {
  name = codes "ENGINE";
  id = 0x123;
  is_extended = false;
  length = 8;
  sender_node = [];
  signals = map new_signal engine.signals;
  description = [];
  send_type = 0;
  cycle_time = 0;
  delay_time = 0;
}

abbrev swapped : List Signal
swapped =
    new_signal (signal_def (codes "A") 8 false true 0)
    ∷ (new_signal (signal_def (codes "B") 8 false true 1)
        ∷ (new_signal (signal_def (codes "MODE") 0 true false 0) ∷ []))

parse_message-Perm_example :
    Perm (parse_message first_message read_byte read_byte message (frame 1)) (
      parse_message first_message read_byte read_byte
        (record message { signals = swapped })
        (frame 1))
parse_message-Perm_example =
    parse_message-Perm first_message read_byte read_byte message swapped (frame 1) (Perm.swap _ _ _)
      (record { one_top = omega arith; one_nested = λ value. ground arith })

compile-declared_example :
    (ms : List Message) × Perm (compile libs [] defs).messages ms
    × AllAsDeclared libs (declared libs defs) ms
compile-declared_example = compile-declared libs (λ A less xs. sort_by-Perm less xs) [] defs
