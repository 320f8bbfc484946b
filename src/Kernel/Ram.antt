-- ===== src/Kernel/Ram.antt =====
-- A kernel in memory, in which the model is run: one file, and a budget of allocations.
use moocbt.Common.{
  ℕ, zero, suc, ◌+◌, ◌-◌, ◌*◌, ◌/◌, ◌%◌, ◌^◌, ◌≤◌, ◌<◌, ◌≡◌, ◌⊎◌, inl, inr, refl, fun_ext, Bool,
  true, false, List, [], ◌∷◌, none, some, length, get_or, replicate, ltb, leb, ◌&&◌, if◌then◌else◌,
  Bool-cases, arith,
}
use moocbt.Bytes.Store.{Content, bytes_at, write_at, write_at_outside}
use moocbt.Kernel.{Kernel, IsKernel, Reply}

-- the bytes, read modulo 256, and how many allocations will succeed
pub record Ram : Type 0 where
  pub store : Content
  pub budget : ℕ

abbrev pub ram_content : Ram → Content
ram_content r p = r.store p % 256

abbrev all_bytes : List ℕ → Bool
all_bytes [] = true
all_bytes (b ∷ bs) = ltb b 256 && all_bytes bs

abbrev write_ram : Ram → ℕ → List ℕ → Reply ℕ × Ram
write_ram r off bs =
    if all_bytes bs
    then (Reply.value (length bs), record r { store = write_at (ram_content r) off bs })
    else (Reply.errno 14, r)

abbrev spend : {A : Type 0} → A → A → ℕ → Content → A × Ram
spend refused given zero c = (refused, record { store = c; budget = 0 })
spend refused given (suc n) c = (given, record { store = c; budget = n })

-- each round halves the size, so `n` rounds are enough
unfoldable pub order_from : ℕ → ℕ → ℕ
order_from zero n = 0
order_from (suc fuel) n = elim (leb n 4096) [
  | true ↦ 0
  | false ↦ suc (order_from fuel ((n + 1) / 2))
]

abbrev pub ram : Kernel Ram
ram = record {
  kernel_read = λ r off n. (Reply.value (bytes_at (ram_content r) off n), r);
  kernel_write = write_ram;
  truncate = λ r n. (0, r);
  fallocate = λ r off n. (0, r);
  filp_open = λ r create. (0, r);
  filp_close = λ r. r;
  unlink = λ r. record r { store = λ p. 0 };
  get_free_pages = λ r n. spend none (some []) r.budget r.store;
  kzalloc = λ r n. spend false true r.budget r.store;
  random_uuid = λ r. (replicate 16 7, r);
  get_order = λ n. order_from n n;
}

get_or-lt : (xs : List ℕ) (k : ℕ) → all_bytes xs ≡ true → get_or xs k 0 < 256
get_or-lt [] k e = omega arith
get_or-lt (x ∷ xs) zero e = ground arith
get_or-lt (x ∷ xs) (suc k) e = get_or-lt xs k (ground arith)

write_at-lt :
    (c : Content) (off : ℕ) (bs : List ℕ) (p : ℕ)
    → ((p : ℕ) → c p < 256)
    → all_bytes bs ≡ true
    → write_at c off bs p < 256
unfolding write_at
write_at-lt c off bs p h e = ground (arith, h p, get_or-lt bs (p - off) e)

pub write_ram_stored :
    (r : Ram) (off : ℕ) (bs : List ℕ) (n : ℕ)
    → (write_ram r off bs).0 ≡ Reply.value n
    → ram_content (write_ram r off bs).1 ≡ write_at (ram_content r) off bs
write_ram_stored r off bs n e = elim (Bool-cases (all_bytes bs)) [
  | inr bad ↦ absurd (refused bad e)
  | inl good ↦ rw good (
      fun_ext (λ p.
        let small = write_at-lt (ram_content r) off bs p (λ q. omega arith) good in omega arith))
]
  where
    refused : all_bytes bs ≡ false → (write_ram r off bs).0 ≡ Reply.value n → ⊥
    refused bad h = ground arith

pub write_ram_frame :
    (r : Ram) (off : ℕ) (bs : List ℕ) (p : ℕ)
    → (p < off) ⊎ (off + length bs ≤ p)
    → ram_content (write_ram r off bs).1 p ≡ ram_content r p
write_ram_frame r off bs p h = elim (Bool-cases (all_bytes bs)) [
  | inr bad ↦ rw bad refl
  | inl good ↦ rw good (let same = write_at_outside (ram_content r) off bs p h in omega arith)
]

pub spend_frame :
    {A : Type 0} (a b : A) (n : ℕ) (c : Content) → ram_content (spend a b n c).1 ≡ (λ p. c p % 256)
spend_frame a b zero c = refl
spend_frame a b (suc n) c = refl

pub order_from_lem : (fuel n : ℕ) → n ≤ fuel + 4096 → n ≤ 4096 * 2 ^ order_from fuel n
unfolding order_from
order_from_lem zero n h = omega arith
order_from_lem (suc fuel) n h = elim (Bool-cases (leb n 4096)) [
  | inl small ↦ rw (order_from, small) (ground arith)
  | inr large ↦
      let half = order_from_lem fuel ((n + 1) / 2) (ground arith) in
      rw (order_from, large) (omega arith)
]

unfoldable pub ram-IsKernel : IsKernel ram
ram-IsKernel = record {
  content = ram_content;
  content-lt = λ r p. omega arith;
  read_lem = λ r off n bs e h. value_of (bytes_at (ram_content r) off n) bs e;
  read_frame = λ r off n. refl;
  write_lem = λ r off bs n e h. write_ram_stored r off bs n e;
  write_frame = write_ram_frame;
  pages_frame = λ r n. spend_frame none (some []) r.budget r.store;
  kzalloc_frame = λ r n. spend_frame false true r.budget r.store;
  close_frame = λ r. refl;
  open_frame = λ r. refl;
  get_order_lem = λ n. order_from_lem n n (omega arith);
}
  where
    value_of : (a b : List ℕ) → Reply.value a ≡ Reply.value b → b ≡ a
    value_of a b e = cc
