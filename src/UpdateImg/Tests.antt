-- ===== src/UpdateImg/Tests.antt =====
-- The theorems at an image of two blocks, of which the index marks the second.
use moocbt.Common.{
  ℕ, zero, suc, ◌+◌, ◌-◌, ◌/◌, ◌≡◌, ◌↔◌, refl, subst, Bool, true, false, ◌&&◌, List, [], ◌∷◌, ◌==◌,
  if◌then◌else◌, arith,
}
use moocbt.Cow.Header.{CowHeader}
use moocbt.UpdateImg.{whole, Files, Info, verify_files}
use moocbt.UpdateImg.Verify.{Follows, verify_files-Follows}

abbrev marks : ℕ → ℕ
marks b = if b == 1 then 9 else 0

abbrev words_from : ℕ → ℕ → List ℕ
words_from i zero = []
words_from i (suc n) = marks i ∷ words_from (i + 1) n

abbrev same_bytes : List ℕ → List ℕ → Bool
same_bytes [] [] = true
same_bytes [] (y ∷ ys) = false
same_bytes (x ∷ xs) [] = false
same_bytes (x ∷ xs) (y ∷ ys) = (x == y) && same_bytes xs ys

abbrev Image : Type 0
Image = ℕ → List ℕ

abbrev header : CowHeader
header = record {
  magic = 4776;
  flags = 3;
  fpos = 0;
  fsize = 0;
  seqid = 1;
  uuid = 7 ∷ [];
  version = 1;
  nr_changed_blocks = 1;
}

abbrev info : Info
info = record { info_uuid = 7 ∷ []; info_seqid = 2 }

abbrev files : Files Image
files = record {
  pread_snap = λ b. whole (b ∷ []);
  pwrite_img = λ f b bs. (whole tt, λ p. if p == b then bs else f p);
  pread_index = λ o n. whole (words_from ((o - 4096) / 8) n);
  pread_header = whole header;
  malloc = λ n. true;
  moocbt_info = whole info;
  memcmp = same_bytes;
}

abbrev blank : Image
blank p = []

same_bytes_lem : (a b : List ℕ) → same_bytes a b ≡ true ↔ a ≡ b
same_bytes_lem a b =
    (same_bytes→eq a b, λ e. subst (λ c. same_bytes a c ≡ true) e (same_bytes-refl a))
  where
    same_bytes→eq : (a b : List ℕ) → same_bytes a b ≡ true → a ≡ b
    same_bytes→eq [] [] e = refl
    same_bytes→eq [] (y ∷ ys) e = absurd (cc)
    same_bytes→eq (x ∷ xs) [] e = absurd (cc)
    same_bytes→eq (x ∷ xs) (y ∷ ys) e = ground (arith, same_bytes→eq xs ys)

    same_bytes-refl : (a : List ℕ) → same_bytes a a ≡ true
    same_bytes-refl [] = refl
    same_bytes-refl (x ∷ xs) = ground (arith, same_bytes-refl xs)

verify_files-Follows_example : (verify_files files ≡ 0) ↔ Follows header info
verify_files-Follows_example = verify_files-Follows files header info refl refl refl same_bytes_lem
