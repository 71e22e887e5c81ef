-- ===== src/Influx/Merge.antt =====
-- Two lists shuffled into one.
use cantou.Common.{◌≡◌, refl, ap, sym, ◌∙◌, List, [], ◌∷◌, ◌++◌, append-nil, append_assoc}

module _ {A : Type 0} where
  abbrev pub concat : List (List A) → List A
  concat [] = []
  concat (xs ∷ xss) = xs ++ concat xss

  concat-append : (xss yss : List (List A)) → concat (xss ++ yss) ≡ concat xss ++ concat yss
  concat-append [] yss = refl
  concat-append (xs ∷ xss) yss =
      ap (λ s. xs ++ s) (concat-append xss yss) ∙ sym (append_assoc xs (concat xss) (concat yss))

  pub concat-snoc :
      (xss : List (List A)) (ys : List A) → concat (xss ++ (ys ∷ [])) ≡ concat xss ++ ys
  concat-snoc xss ys = concat-append xss (ys ∷ []) ∙ ap (λ s. concat xss ++ s) (append-nil ys)

  -- The third list is the first two shuffled, the order of each kept.
  pub data Merge : List A → List A → List A → Type 0 where
    merge_nil : Merge [] [] []
    merge_left : (a : A) {xs ys zs : List A} → Merge xs ys zs → Merge (a ∷ xs) ys (a ∷ zs)
    merge_right : (a : A) {xs ys zs : List A} → Merge xs ys zs → Merge xs (a ∷ ys) (a ∷ zs)

  Merge-left_only : (xs : List A) → Merge xs [] xs
  Merge-left_only [] = merge_nil
  Merge-left_only (x ∷ xs) = merge_left x (Merge-left_only xs)

  Merge-right_only : (xs : List A) → Merge [] xs xs
  Merge-right_only [] = merge_nil
  Merge-right_only (x ∷ xs) = merge_right x (Merge-right_only xs)

  pub Merge-append_left :
      {xs ys zs : List A} (bs : List A) → Merge xs ys zs → Merge (xs ++ bs) ys (zs ++ bs)
  Merge-append_left bs merge_nil = Merge-left_only bs
  Merge-append_left bs (merge_left a m) = merge_left a (Merge-append_left bs m)
  Merge-append_left bs (merge_right a m) = merge_right a (Merge-append_left bs m)

  pub Merge-append_right :
      {xs ys zs : List A} (bs : List A) → Merge xs ys zs → Merge xs (ys ++ bs) (zs ++ bs)
  Merge-append_right bs merge_nil = Merge-right_only bs
  Merge-append_right bs (merge_left a m) = merge_left a (Merge-append_right bs m)
  Merge-append_right bs (merge_right a m) = merge_right a (Merge-append_right bs m)
