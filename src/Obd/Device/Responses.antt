-- ===== src/Obd/Device/Responses.antt =====
-- A response of internal/obd/device.go does not depend on how the reads cut the stream.
use mathlib.Core.Path.{subst}
use mathlib.Core.List.{reverse, reverse-reverse, reverse-append}
use cantou.Common.{
  ℕ, ◌≡◌, refl, sym, ap, ◌∙◌, ◌⊎◌, inl, inr, none, some, List, [], ◌∷◌, ◌++◌, append_assoc, Bytes,
  map, Bool-cases, ◌==◌, ==_iff, arith, All, All-reverse, if◌then◌else◌,
}
use cantou.Common.Split.{IsFreeOf}
use cantou.Obd.Device.{
  prompt, Response, or_found, chunk, Device, split_at, clean_response, read_loop, read_pending,
  read_until_prompt, is_blank, skip_blanks, without_returns,
}

-- The byte that stands for one of a response: a blank for a carriage return.
abbrev pub blanked : ℕ → ℕ
blanked b = if b == 13 then 32 else b

abbrev pub IsBlank : ℕ → Type 0
IsBlank b = (b ≡ 32) ⊎ ((b ≡ 13) ⊎ (b ≡ 10))

abbrev pub StartsPlain : Bytes → Type 0
StartsPlain [] = Unit
StartsPlain (b ∷ s) = ¬ IsBlank b

-- A text with blanks for its carriage returns, and without the blanks and line ends around it.
pub record IsCleaned (text response : Bytes) : Type 0 where
  pub front : Bytes
  pub back : Bytes
  pub whole : map blanked text ≡ front ++ (response ++ back)
  pub blank_front : All IsBlank front
  pub blank_back : All IsBlank back
  pub starts : StartsPlain response
  pub ends : StartsPlain (reverse response)

skip_blanks_lem :
    (s : Bytes)
    → (front : Bytes) × (s ≡ front ++ skip_blanks s)
      × All IsBlank front
      × StartsPlain (skip_blanks s)
skip_blanks_lem [] = ([], refl, tt, tt)
skip_blanks_lem (b ∷ s) = elim (Bool-cases (is_blank b)) [
  | inl blank ↦
      let (front, e, all, plain) = skip_blanks_lem s in
      rw blank (b ∷ front, ap (◌∷◌ b) e, (ground (arith, blank), all), plain)
  | inr other ↦ rw other ([], refl, tt, λ h. absurd (ground (arith, h, other)))
]

StartsPlain-prefix : (x y : Bytes) → StartsPlain (x ++ y) → StartsPlain x
StartsPlain-prefix [] y h = tt
StartsPlain-prefix (b ∷ x) y h = h

clean_response-IsCleaned : (s : Bytes) → IsCleaned s (clean_response s)
unfolding clean_response
clean_response-IsCleaned s =
    let (front, e, blank_front, plain) = skip_blanks_lem (without_returns s) in
    let inner = skip_blanks (without_returns s) in
    let (tail, e', blank_tail, plain') = skip_blanks_lem (reverse inner) in
    let kept = skip_blanks (reverse inner) in
    let split : inner ≡ reverse kept ++ reverse tail =
      sym (reverse-reverse inner) ∙ ap reverse e' ∙ reverse-append tail kept in
    record {
      front = front;
      back = reverse tail;
      whole = e ∙ ap (λ r. front ++ r) split;
      blank_front = blank_front;
      blank_back = All-reverse IsBlank tail blank_tail;
      starts = StartsPlain-prefix (reverse kept) (reverse tail) (subst StartsPlain split plain);
      ends = subst StartsPlain (sym (reverse-reverse kept)) plain';
    }

-- All the bytes of a list of reads.
abbrev pub stream : List Bytes → Bytes
stream [] = []
stream (c ∷ cs) = c ++ stream cs

-- A text with its first `c` taken out.
abbrev pub IsCutAt : ℕ → Bytes → Bytes → Bytes → Type 0
IsCutAt c text before after = (text ≡ before ++ (c ∷ after)) × IsFreeOf c before

split_at-cases :
    (c : ℕ) (s : Bytes)
    → ((split_at c s ≡ none) × IsFreeOf c s)
      ⊎ ((x : Bytes) × (y : Bytes) × (split_at c s ≡ some (x, y)) × IsCutAt c s x y)
unfolding split_at
split_at-cases c [] = inl (refl, tt)
split_at-cases c (b ∷ s) = elim (Bool-cases (b == c)) [
  | inl here ↦ inr ([], s, rw here refl, (ap (λ a. a ∷ s) ((==_iff b c).0 here), tt))
  | inr other ↦ elim (split_at-cases c s) [
    | inl (missing, free) ↦ inl (rw other (rw missing refl), (other, free))
    | inr (x, y, found, (e, free)) ↦
        inr (b ∷ x, y, rw other (rw found refl), (ap (◌∷◌ b) e, (other, free)))
  ]
]

cons-injective : {x y : ℕ} {xs ys : Bytes} → (x ∷ xs) ≡ (y ∷ ys) → (x ≡ y) × (xs ≡ ys)
cons-injective e = (cc e, cc e)

-- A text can be cut in one way.
IsCutAt-unique :
    (c : ℕ) (x y before after : Bytes)
    → IsFreeOf c x
    → IsFreeOf c before
    → x ++ (c ∷ y) ≡ before ++ (c ∷ after)
    → (x ≡ before) × (y ≡ after)
IsCutAt-unique c [] y [] after h k e = (refl, (cons-injective e).1)
IsCutAt-unique c [] y (b ∷ before) after h (k, ks) e =
    absurd (ground (arith, k, (cons-injective e).0))
IsCutAt-unique c (b ∷ x) y [] after (h, hs) k e = absurd (ground (arith, h, (cons-injective e).0))
IsCutAt-unique c (b ∷ x) y (b' ∷ before) after (h, hs) (k, ks) e =
    let (same, rest) = cons-injective e in
    let (xs, ys) = IsCutAt-unique c x y before after hs ks rest in (cc (same, xs), ys)

-- A piece without `c` is the beginning of what is before the first one.
IsCutAt-behind :
    (c : ℕ) (s t before after : Bytes)
    → IsFreeOf c s
    → IsCutAt c (s ++ t) before after
    → (before' : Bytes) × (before ≡ s ++ before') × IsCutAt c t before' after
IsCutAt-behind c [] t before after h cut = (before, refl, cut)
IsCutAt-behind c (b ∷ s) t [] after (h, hs) (e, free) =
    absurd (ground (arith, h, (cons-injective e).0))
IsCutAt-behind c (b ∷ s) t (b' ∷ before) after (h, hs) (e, (k, free)) =
    let (same, rest) = cons-injective e in
    let (before', e', cut) = IsCutAt-behind c s t before after hs (rest, free) in
    (before', cc (same, e'), cut)

-- The response, and the bytes that are still to be read.
abbrev pub Answers : Response → Bytes → Bytes → Type 0
Answers result before after =
    (result.0 ≡ some (clean_response before))
    × ((later : List Bytes) × (result.2 ≡ map chunk later) × (result.1 ++ stream later ≡ after))

-- The bytes at hand, and the response that the reads behind them give when they have no prompt.
or_found-Answers :
    (c sb : Bytes) (cs : List Bytes) (before after : Bytes) (rest : Response)
    → IsCutAt prompt (c ++ stream cs) before after
    → (IsFreeOf prompt c
        → (before' : Bytes) → IsCutAt prompt (stream cs) before' after
        → before ≡ c ++ before'
        → Answers rest (sb ++ before) after)
    → Answers (or_found (split_at prompt c) sb (map chunk cs) rest) (sb ++ before) after
or_found-Answers c sb cs before after rest cut later = elim (split_at-cases prompt c) [
  | inl (missing, free) ↦
      let (before', e, cut') = IsCutAt-behind prompt c (stream cs) before after free cut in
      subst (λ o. Answers (or_found o sb (map chunk cs) rest) (sb ++ before) after) (sym missing)
        (later free before' cut' e)
  | inr (x, y, found, (e, free)) ↦
      let whole : x ++ (prompt ∷ (y ++ stream cs)) ≡ before ++ (prompt ∷ after) =
        sym (append_assoc x (prompt ∷ y) (stream cs)) ∙ ap (λ s. s ++ stream cs) (sym e) ∙ cut.0 in
      let (same, behind) = IsCutAt-unique prompt x (y ++ stream cs) before after free cut.1 whole in
      subst (λ o. Answers (or_found o sb (map chunk cs) rest) (sb ++ before) after) (sym found)
        (ap (λ s. some (clean_response (sb ++ s))) same, (cs, refl, behind))
]

read_loop-Answers :
    (cs : List Bytes) (sb before after : Bytes)
    → IsCutAt prompt (stream cs) before after
    → Answers (read_loop sb (map chunk cs)) (sb ++ before) after
unfolding read_loop
read_loop-Answers [] sb [] after (e, free) = absurd (cc e)
read_loop-Answers [] sb (b ∷ before) after (e, free) = absurd (cc e)
read_loop-Answers (c ∷ cs) sb before after cut =
    or_found-Answers c sb cs before after (read_loop (sb ++ c) (map chunk cs)) cut
      (λ free before' cut' e.
        subst (λ s. Answers (read_loop (sb ++ c) (map chunk cs)) s after)
          (append_assoc sb c before' ∙ ap (λ s. sb ++ s) (sym e))
          (read_loop-Answers cs (sb ++ c) before' after cut'))

read_pending-Answers :
    (pending : Bytes) (cs : List Bytes) (before after : Bytes)
    → IsCutAt prompt (pending ++ stream cs) before after
    → Answers (read_pending pending (map chunk cs)) before after
unfolding read_pending
read_pending-Answers [] cs before after cut = read_loop-Answers cs [] before after cut
read_pending-Answers (b ∷ pending) cs before after cut =
    or_found-Answers (b ∷ pending) [] cs before after (read_loop (b ∷ pending) (map chunk cs)) cut
      (λ free before' cut' e.
        subst (λ s. Answers (read_loop (b ∷ pending) (map chunk cs)) s after) (sym e)
          (read_loop-Answers cs (b ∷ pending) before' after cut'))

-- Whatever pieces the bytes come in, and however many of them are left from the last time, a
-- response is the text before the first prompt with blanks for its carriage returns and without the
-- blanks and line ends around it, and what is behind that prompt is all still there to be read.
pub read_until_prompt-stream :
    (d : Device) (cs : List Bytes) (before after : Bytes)
    → d.reads ≡ map chunk cs
    → IsCutAt prompt (d.pending ++ stream cs) before after
    → ((response : Bytes) × ((read_until_prompt d).0 ≡ some response) × IsCleaned before response)
      × ((later : List Bytes) × ((read_until_prompt d).1.reads ≡ map chunk later)
          × ((read_until_prompt d).1.pending ++ stream later ≡ after))
unfolding read_until_prompt
read_until_prompt-stream d cs before after e cut =
    let (found, rest) =
      subst (λ rs. Answers (read_pending d.pending rs) before after) (sym e)
        (read_pending-Answers d.pending cs before after cut) in
    ((clean_response before, found, clean_response-IsCleaned before), rest)
