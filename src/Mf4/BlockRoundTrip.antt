-- ===== src/Mf4/BlockRoundTrip.antt =====
-- A block that `Bytes` serialised is what `ReadBlock` reads at its address, and a ##TX block gives
-- its text back.
use cantou.Common.{
  ℕ, zero, suc, ◌+◌, ◌*◌, ◌^◌, ◌≤◌, ◌<◌, ◌≡◌, refl, sym, List, [], ◌∷◌, ◌++◌, arith, Bytes, some,
  length, take, drop, replicate, length-append, length-take, append_assoc, take_all,
  take-append_of_length, drop-append_of_length, All,
}
use cantou.Common.Words.{put_le, get_le-put_le, length-put_le}
use cantou.Mf4.Outcome.{ok}
use cantou.Mf4.Blocks.{Block, size, bytes, link_bytes, padded}
use cantou.Mf4.FileBlocks.{read_full, read_links, read_block, read_body, sub64}

pub read_full-append :
    (n : ℕ) (xs ys : Bytes) → length xs ≡ n → read_full n (xs ++ ys) ≡ some (xs, ys)
unfolding read_full
read_full-append zero [] ys h = refl
read_full-append zero (x ∷ xs) ys h = absurd (omega arith)
read_full-append (suc n) [] ys h = absurd (omega arith)
read_full-append (suc n) (x ∷ xs) ys h = rw (read_full-append n xs ys (omega arith))

read_full_exact : (s : Bytes) → read_full (length s) s ≡ some (s, [])
unfolding read_full
read_full_exact [] = refl
read_full_exact (b ∷ s) = rw (read_full_exact s)

read_links-link_bytes :
    (links : List ℕ) (rest : Bytes)
    → All (λ link. link < 2 ^ 64) links
    → read_links (length links) (link_bytes links ++ rest) ≡ some (links, rest)
unfolding read_links link_bytes
read_links-link_bytes [] rest h = refl
read_links-link_bytes (link ∷ links) rest h = ground (
  arith,
  append_assoc (put_le 8 link) (link_bytes links) rest,
  read_full-append 8 (put_le 8 link) (link_bytes links ++ rest) (length-put_le 8 link),
  read_links-link_bytes links rest h.1,
  get_le-put_le 8 link h.0,
)

length-link_bytes : (links : List ℕ) → length (link_bytes links) ≡ length links * 8
unfolding link_bytes
length-link_bytes [] = refl
length-link_bytes (link ∷ links) = omega (
  arith,
  length-append (put_le 8 link) (link_bytes links),
  length-put_le 8 link,
  length-link_bytes links,
)

-- The first 24 bytes of a block.
abbrev header : Block → Bytes
header b = padded 4 b.id ++ (replicate 4 0 ++ (put_le 8 (size b) ++ put_le 8 (length b.links)))

bytes-header :
    (b : Block) (post : Bytes)
    → bytes b ++ post ≡ header b ++ (link_bytes b.links ++ (b.payload ++ post))
unfolding bytes
bytes-header b post = simp append_assoc

read_body-links :
    (links : List ℕ) (payload post : Bytes)
    → All (λ link. link < 2 ^ 64) links
    → 24 + length links * 8 + length payload ≤ 2 ^ 48
    → read_body
        (length links)
        (24 + length links * 8 + length payload)
        (link_bytes links ++ (payload ++ post))
      ≡ ok (links, payload)
unfolding read_body
read_body-links links payload post h fits =
    let n = length links in
    let data_size : sub64 (sub64 (24 + n * 8 + length payload) 24) (n * 8) ≡ length payload =
      omega arith in
    ground (
      arith,
      read_links-link_bytes links (payload ++ post) h,
      data_size,
      read_full-append (length payload) payload post refl,
    )

three_words :
    (a c d : Bytes)
    → length a ≡ 8
    → length c ≡ 8
    → length d ≡ 8
    → (length (a ++ (c ++ d)) ≡ 24)
      × (take 8 (drop 16 (a ++ (c ++ d))) ≡ d)
      × (take 8 (drop 8 (a ++ (c ++ d))) ≡ c)
three_words a c d ha hc hd = (
  omega (arith, length-append a (c ++ d), length-append c d),
  rw (sym (append_assoc a c d)) (
      rw (drop-append_of_length 16 (a ++ c) d (omega (arith, length-append a c)))
        (take_all 8 d (omega arith))),
  rw (drop-append_of_length 8 a (c ++ d) ha) (take-append_of_length 8 c d hc),
)

length-padded : (id : Bytes) → length (padded 4 id ++ replicate 4 0) ≡ 8
length-padded id = omega (
  arith,
  length-append (padded 4 id) (replicate 4 0),
  length-take 4 (id ++ replicate 4 0),
  length-append id (replicate 4 0),
)

header_fields :
    (b : Block)
    → (length (header b) ≡ 24)
      × (take 8 (drop 16 (header b)) ≡ put_le 8 (length b.links))
      × (take 8 (drop 8 (header b)) ≡ put_le 8 (size b))
header_fields b =
    rw
      (sym (
        append_assoc (padded 4 b.id) (replicate 4 0)
          (put_le 8 (size b) ++ put_le 8 (length b.links))))
      (three_words (padded 4 b.id ++ replicate 4 0) (put_le 8 (size b)) (put_le 8 (length b.links))
        (length-padded b.id) (length-put_le 8 (size b)) (length-put_le 8 (length b.links)))

-- Wherever a serialised block stands in a file, at an address below 2^63, reading at its
-- address gives its links and its data, if the links are 64-bit words and the block has at most
-- 2^48 bytes.
pub read_block-bytes :
    (b : Block) (before after : Bytes)
    → All (λ link. link < 2 ^ 64) b.links
    → size b ≤ 2 ^ 48
    → length before < 2 ^ 63
    → read_block (before ++ (bytes b ++ after)) (length before) ≡ ok (b.links, b.payload)
unfolding read_block
read_block-bytes b before after h fits near =
    let body = link_bytes b.links ++ (b.payload ++ after) in
    let (len, links_at, size_at) = header_fields b in
    let block_size : size b ≡ 24 + length b.links * 8 + length b.payload = unfold size in refl in
    ground (
      arith,
      drop-append_of_length (length before) before (bytes b ++ after) refl,
      bytes-header b after,
      read_full-append 24 (header b) body len,
      links_at,
      size_at,
      get_le-put_le 8 (size b) (omega arith),
      get_le-put_le 8 (length b.links) (omega arith),
      block_size,
      read_body-links b.links b.payload after h (omega arith),
    )
