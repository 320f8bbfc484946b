-- ===== src/Bytes/Words.antt =====
-- Arrays of `uint64_t`: their bytes in a file, and single words of a file.
use moocbt.Common.{
  ℕ, zero, suc, ◌+◌, ◌*◌, ◌^◌, ◌≤◌, ◌<◌, ◌≡◌, ◌⊎◌, refl, ap, List, [], ◌∷◌, ◌++◌, arith, length,
  All, get_or, take, drop, ◌∙◌, length-append,
}
use moocbt.Bytes.Codec.{le_bytes, le_val, length-le_bytes, le_val-le_bytes, le_val-lt}
use moocbt.Bytes.Store.{
  Content, bytes_at, write_at, length-bytes_at, bytes_at-All, bytes_at_congr, write_at_outside,
  bytes_at-write_at, take-drop-bytes_at, drop-bytes_at,
}

-- The word of 64 bits at an offset.
abbrev pub word_at : Content → ℕ → ℕ
word_at c off = le_val (bytes_at c off 8)

unfoldable pub bytes_of_words : List ℕ → List ℕ
bytes_of_words [] = []
bytes_of_words (w ∷ ws) = le_bytes 8 w ++ bytes_of_words ws

unfoldable pub parse_words : ℕ → List ℕ → List ℕ
parse_words zero bs = []
parse_words (suc n) bs = le_val (take 8 bs) ∷ parse_words n (drop 8 bs)

abbrev pub IsWord : ℕ → Type 0
IsWord w = w < 2 ^ 64

pub length-bytes_of_words : (ws : List ℕ) → length (bytes_of_words ws) ≡ 8 * length ws
unfolding bytes_of_words
length-bytes_of_words [] = omega arith
length-bytes_of_words (w ∷ ws) = omega (
  arith,
  length-append (le_bytes 8 w) (bytes_of_words ws),
  length-le_bytes 8 w,
  length-bytes_of_words ws,
)

pub length-parse_words : (n : ℕ) (bs : List ℕ) → length (parse_words n bs) ≡ n
unfolding parse_words
length-parse_words zero bs = refl
length-parse_words (suc n) bs = ap suc (length-parse_words n (drop 8 bs))

take-le_bytes : (w : ℕ) (bs : List ℕ) → take 8 (le_bytes 8 w ++ bs) ≡ le_bytes 8 w
unfolding le_bytes
take-le_bytes w bs = refl

drop-le_bytes : (w : ℕ) (bs : List ℕ) → drop 8 (le_bytes 8 w ++ bs) ≡ bs
unfolding le_bytes
drop-le_bytes w bs = refl

pub drop-drop : (bs : List ℕ) (m n k : ℕ) → k ≡ m + n → drop n (drop m bs) ≡ drop k bs
drop-drop bs zero n k e = let e' : k ≡ n = omega arith in rw e'
drop-drop [] (suc m) zero k e = rw e (drop_nil (suc m + 0))
  where
    drop_nil : (k : ℕ) → [] ≡ drop {A = ℕ} k []
    drop_nil zero = refl
    drop_nil (suc k) = refl
drop-drop [] (suc m) (suc n) k e = drop_nil k
  where
    drop_nil : (k : ℕ) → [] ≡ drop {A = ℕ} k []
    drop_nil zero = refl
    drop_nil (suc k) = refl
drop-drop (b ∷ bs) (suc m) n zero e = absurd (omega arith)
drop-drop (b ∷ bs) (suc m) n (suc k) e = drop-drop bs m n k (omega arith)

word_of_bytes :
    (ws : List ℕ) (j : ℕ)
    → j < length ws
    → take 8 (drop (8 * j) (bytes_of_words ws)) ≡ le_bytes 8 (get_or ws j 0)
unfolding bytes_of_words
word_of_bytes [] j h = elim h [ ]
word_of_bytes (w ∷ ws) zero h = take-le_bytes w (bytes_of_words ws)
word_of_bytes (w ∷ ws) (suc j) h =
    rw (← drop-drop (le_bytes 8 w ++ bytes_of_words ws) 8 (8 * j) (8 * suc j) (omega arith))
      (rw drop-le_bytes (word_of_bytes ws j (omega arith)))

All-get_or : (ws : List ℕ) (j : ℕ) → All IsWord ws → get_or ws j 0 < 256 ^ 8
All-get_or [] j h = omega arith
All-get_or (w ∷ ws) zero h = omega (arith, h.0)
All-get_or (w ∷ ws) (suc j) h = All-get_or ws j h.1

-- A word of an array that was written is the array's element.
pub word_at-write_at :
    (c : Content) (off : ℕ) (ws : List ℕ) (j : ℕ)
    → All IsWord ws
    → j < length ws
    → word_at (write_at c off (bytes_of_words ws)) (off + 8 * j) ≡ get_or ws j 0
word_at-write_at c off ws j h lt =
    ap le_val (
      bytes_at-write_at c off (bytes_of_words ws) (off + 8 * j) (8 * j) 8 refl
        (omega (arith, length-bytes_of_words ws))
      ∙ word_of_bytes ws j lt)
    ∙ le_val-le_bytes 8 (get_or ws j 0) (All-get_or ws j h)

-- A word that a write does not touch keeps its value.
pub word_at_outside :
    (c : Content) (off : ℕ) (bs : List ℕ) (p : ℕ)
    → (p + 8 ≤ off) ⊎ (off + length bs ≤ p)
    → word_at (write_at c off bs) p ≡ word_at c p
word_at_outside c off bs p h =
    ap le_val (
      bytes_at_congr (write_at c off bs) c p 8 (λ q a b. write_at_outside c off bs q (omega arith)))

pub word_at-IsWord : (c : Content) (off : ℕ) → ((p : ℕ) → c p < 256) → IsWord (word_at c off)
word_at-IsWord c off h =
    let small : le_val (bytes_at c off 8) < 256 ^ length (bytes_at c off 8) =
      le_val-lt (bytes_at c off 8) (bytes_at-All c off 8 h) in
    let same : length (bytes_at c off 8) ≡ 8 = length-bytes_at c off 8 in rw same at small

-- Parsing what was read gives the words of the file.
pub parse_words-bytes_at :
    (c : Content) (off n k : ℕ)
    → k ≡ 8 * n
    → (j : ℕ) → j < n
    → get_or (parse_words n (bytes_at c off k)) j 0 ≡ word_at c (off + 8 * j)
unfolding parse_words
parse_words-bytes_at c off zero k e j h = elim h [ ]
parse_words-bytes_at c off (suc n) k e zero h =
    ap le_val (take-drop-bytes_at c off 0 8 k (omega arith))
parse_words-bytes_at c off (suc n) k e (suc j) h =
    let same : off + 8 * suc j ≡ off + 8 + 8 * j = omega arith in
    rw (drop-bytes_at c off 8 (8 * n) k (omega arith), same)
      (parse_words-bytes_at c (off + 8) n (8 * n) refl j (omega arith))

pub parse_words-All :
    (c : Content) (off n k : ℕ)
    → k ≡ 8 * n
    → ((p : ℕ) → c p < 256)
    → All IsWord (parse_words n (bytes_at c off k))
unfolding parse_words
parse_words-All c off zero k e h = tt
parse_words-All c off (suc n) k e h = (
  rw (take-drop-bytes_at c off 0 8 k (omega arith)) (word_at-IsWord c (off + 0) h),
  rw (drop-bytes_at c off 8 (8 * n) k (omega arith)) (parse_words-All c (off + 8) n (8 * n) refl h),
)
