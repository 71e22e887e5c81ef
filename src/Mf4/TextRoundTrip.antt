-- ===== src/Mf4/TextRoundTrip.antt =====
-- A ##TX block from `BuildTXBlock` gives its text back through `ReadText`.
use mathlib.Core.List.{reverse, reverse-cons, reverse-append, reverse-reverse}
use cantou.Common.{
  ℕ, zero, suc, ◌+◌, ◌-◌, ◌%◌, ◌^◌, ◌≤◌, ◌<◌, ◌≡◌, ◌≢◌, refl, ap, ◌∙◌, [], ◌∷◌, ◌++◌, arith, Bytes,
  length, replicate, length-append, length-replicate, append_assoc, All, All-reverse,
}
use cantou.Mf4.Outcome.{ok}
use cantou.Mf4.Blocks.{Block, block_id_tx, size, link_bytes, bytes, tx_block_len, build_tx_block}
use cantou.Mf4.FileBlocks.{drop_nuls, trim_right_nul, text_of, read_text}
use cantou.Mf4.BlockRoundTrip.{read_block-bytes}

-- The text, its NUL and the padding.
abbrev tx_payload : Bytes → Bytes
tx_payload text =
    (text ++ (0 ∷ [])) ++ replicate (tx_block_len (length text) - 24 - length (text ++ (0 ∷ []))) 0

abbrev tx_block : Bytes → Block
tx_block text = record { id = block_id_tx; links = []; payload = tx_payload text }

-- The length is a multiple of 8 that holds the header, the text and a NUL, and wastes no word.
tx_block_len_bounds :
    (n : ℕ)
    → (tx_block_len n % 8 ≡ 0) × (24 + n + 1 ≤ tx_block_len n) × (tx_block_len n < 24 + n + 1 + 8)
unfolding tx_block_len
tx_block_len_bounds n = ground arith

size-tx_block : (text : Bytes) → size (tx_block text) ≡ tx_block_len (length text)
unfolding size
size-tx_block text =
    let k = tx_block_len (length text) - 24 - length (text ++ (0 ∷ [])) in
    omega (
      arith,
      length-append (text ++ (0 ∷ [])) (replicate k 0),
      length-append text (0 ∷ []),
      length-replicate {A = ℕ} k 0,
      tx_block_len_bounds (length text),
    )

build_tx_block-bytes : (text : Bytes) → build_tx_block text ≡ bytes (tx_block text)
unfolding build_tx_block bytes link_bytes
build_tx_block-bytes text = rw (size-tx_block text)

drop_nuls-replicate : (k : ℕ) (r : Bytes) → drop_nuls (reverse (replicate k 0) ++ r) ≡ drop_nuls r
drop_nuls-replicate zero r = refl
drop_nuls-replicate (suc k) r =
    rw (reverse-cons {A = ℕ} 0 (replicate k 0))
      (rw (append_assoc (reverse (replicate k 0)) (0 ∷ []) r) (drop_nuls-replicate k (0 ∷ r)))

drop_nuls-nonzero : (s : Bytes) → All (λ b. b ≢ 0) s → drop_nuls s ≡ s
drop_nuls-nonzero [] h = refl
drop_nuls-nonzero (zero ∷ s) h = absurd (h.0 refl)
drop_nuls-nonzero (suc b ∷ s) h = refl

trim_right_nul-tx_payload :
    (text : Bytes) → All (λ b. b ≢ 0) text → trim_right_nul (tx_payload text) ≡ text
trim_right_nul-tx_payload text h =
    let k = tx_block_len (length text) - 24 - length (text ++ (0 ∷ [])) in
    let flipped : reverse (tx_payload text) ≡ reverse (replicate k 0) ++ (0 ∷ reverse text) =
      reverse-append (text ++ (0 ∷ [])) (replicate k 0)
      ∙ ap (◌++◌ (reverse (replicate k 0))) (reverse-append text (0 ∷ [])) in
    ap (λ (s : Bytes). reverse (drop_nuls s)) flipped
    ∙ ap reverse (
        drop_nuls-replicate k (0 ∷ reverse text)
        ∙ drop_nuls-nonzero (reverse text) (All-reverse (λ b. b ≢ 0) text h))
    ∙ reverse-reverse text

-- A text of less than 2^47 bytes without NULs is read back from the block that was built for
-- it, wherever that stands behind the start of a file, at an address below 2^63.
pub read_text-build_tx_block :
    (text before after : Bytes)
    → All (λ b. b ≢ 0) text
    → length text < 2 ^ 47
    → 0 < length before
    → length before < 2 ^ 63
    → read_text (before ++ (build_tx_block text ++ after)) (length before) ≡ ok text
unfolding read_text text_of
read_text-build_tx_block text before after h fits pos near =
    let bounds = tx_block_len_bounds (length text) in
    let block =
      read_block-bytes (tx_block text) before after tt (omega (arith, size-tx_block text)) near in
    rw (build_tx_block-bytes text) (ground (arith, block, trim_right_nul-tx_payload text h))
