-- ===== src/Dbc/Signals.antt =====
-- internal/parser/dbc/dbc.go: what a signal keeps of its definition.
use cantou.Common.{ℕ, zero, suc, ◌%◌, ◌≡◌, refl, ap, false, List, [], ◌∷◌, map, arith, Bytes}
use cantou.Dbc.{Signal, Message}
use cantou.Dbc.Definitions.{SignalDef}
use cantou.Dbc.Compile.{new_signal, modify}

-- A signal without what the second pass may set.
abbrev pub layout : Signal → Signal
layout s = record s {
  is_float = false;
  description = [];
  value_descriptions = [];
  default_value = 0;
}

abbrev pub outline : Message → Bytes × ℕ × List Signal
outline m = (m.name, m.id, map layout m.signals)

pub map-modify {ℓ κ} :
    {A : Type ℓ} {B : Type κ} (g : A → B) (f : A → A) (n : ℕ) (xs : List A)
    → ((x : A) → g (f x) ≡ g x)
    → map g (modify n f xs) ≡ map g xs
map-modify g f n [] h = refl
map-modify g f zero (x ∷ xs) h = ap (λ y. y ∷ map g xs) (h x)
map-modify g f (suc n) (x ∷ xs) h = ap (◌∷◌ (g x)) (map-modify g f n xs h)

-- What a signal keeps of its definition. The place of its first bit and its size are bytes.
pub record IsLaidOut (d : SignalDef) (s : Signal) : Type 0 where
  pub same_name : s.name ≡ d.name
  pub same_start : s.start ≡ d.start_bit % 256
  pub same_length : s.length ≡ d.size % 256
  pub same_order : s.is_big_endian ≡ d.is_big_endian
  pub same_sign : s.is_signed ≡ d.is_signed
  pub same_switch : s.is_multiplexer ≡ d.is_multiplexer_switch
  pub same_multiplexed : s.is_multiplexed ≡ d.is_multiplexed
  pub same_value : s.multiplexer_value ≡ d.multiplexer_switch
  pub same_scale : s.scale ≡ d.factor
  pub same_offset : s.offset ≡ d.offset
  pub same_min : s.min ≡ d.minimum
  pub same_max : s.max ≡ d.maximum
  pub same_unit : s.unit ≡ d.unit
  pub same_receivers : s.receiver_nodes ≡ d.receivers

abbrev pub AllLaidOut : List SignalDef → List Signal → Type 0
AllLaidOut [] [] = Unit
AllLaidOut (d ∷ ds) (s ∷ ss) = IsLaidOut d s × AllLaidOut ds ss
AllLaidOut _ _ = ⊥

new_signal-IsLaidOut :
    (d : SignalDef) (s : Signal) → layout s ≡ layout (new_signal d) → IsLaidOut d s
new_signal-IsLaidOut d s e = record {
  same_name = ap (λ (x : Signal). x.name) e;
  same_start = ap (λ (x : Signal). x.start) e;
  same_length = ap (λ (x : Signal). x.length) e;
  same_order = ap (λ (x : Signal). x.is_big_endian) e;
  same_sign = ap (λ (x : Signal). x.is_signed) e;
  same_switch = ap (λ (x : Signal). x.is_multiplexer) e;
  same_multiplexed = ap (λ (x : Signal). x.is_multiplexed) e;
  same_value = ap (λ (x : Signal). x.multiplexer_value) e;
  same_scale = ap (λ (x : Signal). x.scale) e;
  same_offset = ap (λ (x : Signal). x.offset) e;
  same_min = ap (λ (x : Signal). x.min) e;
  same_max = ap (λ (x : Signal). x.max) e;
  same_unit = ap (λ (x : Signal). x.unit) e;
  same_receivers = ap (λ (x : Signal). x.receiver_nodes) e;
}

pub layouts-AllLaidOut :
    (ds : List SignalDef) (ss : List Signal)
    → map layout ss ≡ map layout (map new_signal ds)
    → AllLaidOut ds ss
layouts-AllLaidOut [] [] e = tt
layouts-AllLaidOut [] (s ∷ ss) e = cc
layouts-AllLaidOut (d ∷ ds) [] e = cc
layouts-AllLaidOut (d ∷ ds) (s ∷ ss) e =
    (new_signal-IsLaidOut d s (ground (arith, e)), layouts-AllLaidOut ds ss (ground (arith, e)))
