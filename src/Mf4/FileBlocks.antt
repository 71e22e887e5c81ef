-- ===== src/Mf4/FileBlocks.antt =====
-- internal/parser/mf4/mf4.go: reading blocks, texts and record ids out of a file. The file is its
-- bytes; an address is 64 bits.
use mathlib.Core.List.{reverse}
use cantou.Common.{
  ℕ, zero, suc, ◌+◌, ◌-◌, ◌*◌, ◌%◌, ◌^◌, Bool, true, false, ◌||◌, Option, none, some, List, [], ◌∷◌,
  Bytes, ltb, leb, ◌==◌, if◌then◌else◌, equal, has_prefix, codes, take, drop,
}
use cantou.Common.Words.{get_le}
use cantou.Mf4.Outcome.{Outcome, ok, err, panic, running, ◌>>=◌, or_error}
use cantou.Mf4.Blocks.{header_size, block_id_dt}

-- uint64 subtraction; an int64 is held as its 64 bits
abbrev pub sub64 : ℕ → ℕ → ℕ
sub64 a b = (a + 2 ^ 64 - b % 2 ^ 64) % 2 ^ 64

-- `make` panics above the address space of the runtime (linux/amd64).
abbrev pub max_alloc : ℕ
max_alloc = 2 ^ 48

-- io.ReadFull: `n` bytes and what follows them
unfoldable pub read_full : ℕ → Bytes → Option (Bytes × Bytes)
read_full zero bs = some ([], bs)
read_full (suc n) [] = none
read_full (suc n) (b ∷ bs) = elim (read_full n bs) [
  | none ↦ none
  | some (x, rest) ↦ some (b ∷ x, rest)
]

unfoldable pub read_links : ℕ → Bytes → Option (List ℕ × Bytes)
unfolding read_full
read_links zero bs = some ([], bs)
read_links (suc n) bs = elim (read_full 8 bs) [
  | none ↦ none
  | some (x, rest) ↦ elim (read_links n rest) [
    | none ↦ none
    | some (links, rest') ↦ some (get_le x ∷ links, rest')
  ]
]

-- Seek to an address, which is refused if it is negative.
abbrev seek : Bytes → ℕ → Outcome Bytes
seek file addr = if leb (2 ^ 63) addr then err else ok (drop addr file)

-- Behind the header: the links and the data.
unfoldable pub read_body : ℕ → ℕ → Bytes → Outcome (List ℕ × Bytes)
read_body link_count block_len rest = if ltb max_alloc (link_count * 8) then panic else do
  (links, rest') ← or_error (read_links link_count rest)
  let data_size = sub64 (sub64 block_len header_size) (link_count * 8)
  if ltb max_alloc data_size
      then panic
      else do (content, _) ← or_error (read_full data_size rest'); ok (links, content)

unfoldable pub read_block : Bytes → ℕ → Outcome (List ℕ × Bytes)
read_block file addr = do
  from ← seek file addr
  (hdr, rest) ← or_error (read_full header_size from)
  read_body (get_le (take 8 (drop 16 hdr))) (get_le (take 8 (drop 8 hdr))) rest

-- Behind the header of a ##DT block. A length of zero means that the data runs to the end.
unfoldable pub read_dt_body : Bool → ℕ → Bytes → Outcome Bytes
unfolding read_full
read_dt_body false data_size rest = err
read_dt_body true data_size rest =
    if ltb 0 data_size
    then (if ltb max_alloc data_size
        then panic
        else do (content, _) ← or_error (read_full data_size rest); ok content)
    else ok rest

unfoldable pub read_dt_data : Bytes → ℕ → Outcome Bytes
unfolding equal
read_dt_data file addr = do
  from ← seek file addr
  (hdr, rest) ← or_error (read_full header_size from)
  let data_size = sub64 (get_le (take 8 (drop 8 hdr))) header_size
  read_dt_body (equal (take 4 hdr) block_id_dt) data_size rest

-- strings.TrimRight(s, "\x00")
abbrev pub drop_nuls : Bytes → Bytes
drop_nuls [] = []
drop_nuls (b ∷ bs) = elim b [ zero ↦ drop_nuls bs | suc c ↦ suc c ∷ bs ]

abbrev pub trim_right_nul : Bytes → Bytes
trim_right_nul s = reverse (drop_nuls (reverse s))

unfoldable pub text_of : Outcome (List ℕ × Bytes) → Outcome Bytes
text_of (ok (links, content)) = ok (trim_right_nul content)
text_of err = ok []
text_of panic = panic
text_of running = running

unfoldable pub read_text : Bytes → ℕ → Outcome Bytes
unfolding text_of
read_text file addr = if addr == 0 then ok [] else text_of (read_block file addr)

-- `buf` holds at least `size` bytes.
unfoldable pub read_record_id : Bytes → ℕ → ℕ
unfolding get_le
read_record_id buf size =
    if size == 1 || size == 2 || size == 4 || size == 8 then get_le (take size buf) else 0

-- `IsMF4File`, given the bytes of the file
unfoldable pub is_mf4_file : Bytes → Bool
unfolding read_full has_prefix
is_mf4_file file = elim (read_full 8 file) [
  | none ↦ false
  | some (magic, _) ↦ has_prefix magic (codes "MDF") || has_prefix magic (codes "UnFinMF")
]
