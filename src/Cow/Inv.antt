-- ===== src/Cow/Inv.antt =====
-- What holds of a manager between calls, and what a call may change: the mapping of each block
-- is read through the cache or from the file, whichever holds it.
pub mod Moves
use moocbt.Common.{
  ℕ, zero, suc, ◌+◌, ◌*◌, ◌/◌, ◌%◌, ◌^◌, ◌≤◌, ◌<◌, ◌≡◌, ◌⊎◌, refl, ap, ◌∙◌, Bool, true, false, List,
  [], ◌∷◌, Option, none, some, Result, ok, err, oops, if◌then◌else◌, length, get_elem?, get_or, set,
  All, arith,
}
use moocbt.Bytes.Store.{Content}
use moocbt.Bytes.Words.{word_at, IsWord}
use moocbt.Kernel.{Kernel, IsKernel}
use moocbt.Cow.State.{
  FilePtr, null, opened, err_ptr, Section, Cow, World, M, and_then, recover, cleaned,
}

-- How a call ended: with a result and `P`, with an error and `E`, and never by a fault.
abbrev pub Ends :
    {F A : Type 0} → (World F → Type 0) → (A → World F → Type 0) → Result A × World F → Type 0
Ends E P (ok a, w) = P a w
Ends E P (err e, w) = E w
Ends E P (oops, w) = ⊥

module _ {F A B : Type 0} (E : World F → Type 0) (P : A → World F → Type 0)
    (R : B → World F → Type 0) where
  pub Ends-and_then :
      (x : Result A × World F) (f : A → M F B)
      → Ends E P x
      → ((a : A) (w : World F) → P a w → Ends E R (f a w))
      → Ends E R (and_then x f)
  Ends-and_then (ok a, w) f h k = k a w h
  Ends-and_then (err e, w) f h k = h
  Ends-and_then (oops, w) f h k = h

module _ {F A : Type 0} (E E' : World F → Type 0) (P R : A → World F → Type 0) where
  pub Ends-mono :
      (x : Result A × World F)
      → Ends E P x
      → ((w : World F) → E w → E' w)
      → ((a : A) (w : World F) → P a w → R a w)
      → Ends E' R x
  Ends-mono (ok a, w) h f g = g a w h
  Ends-mono (err e, w) h f g = f w h
  Ends-mono (oops, w) h f g = h

module _ {F A : Type 0} (E E' : World F → Type 0) (P : A → World F → Type 0) where
  pub Ends-recover :
      (h : M F (Unit {0})) (x : Result A × World F)
      → Ends E P x
      → ((w : World F) → E w → Ends E' (λ _ w'. E' w') (h w))
      → Ends E' P (recover h x)
  Ends-recover h (ok a, w) p k = p
  Ends-recover h (err e, w) p k = ended (h w) (k w p)
    where
      ended :
          (y : Result (Unit {0}) × World F) → Ends E' (λ _ w'. E' w') y → Ends E' P (cleaned e y)
      ended (ok _, w') q = q
      ended (err _, w') q = q
      ended (oops, w') q = q
  Ends-recover h (oops, w) p k = p

-- The file pointer is NULL or good; NULL is refused by the file functions.
abbrev pub NotErr : FilePtr → Type 0
NotErr null = Unit
NotErr opened = Unit
NotErr err_ptr = ⊥

-- the byte offset of word `j` of section `i`
abbrev pub index_offset : ℕ → ℕ → ℕ → ℕ
index_offset ss i j = 4096 + ss * i * 8 + 8 * j

abbrev pub value_in : Content → ℕ → ℕ → ℕ → Bool → Option (List ℕ) → ℕ
value_in c ss i j has_data (some ms) = get_or ms j 0
value_in c ss i j true none = word_at c (index_offset ss i j)
value_in c ss i j false none = 0

abbrev pub value_of : Content → ℕ → ℕ → ℕ → Section → ℕ
value_of c ss i j s = value_in c ss i j s.has_data s.mappings

abbrev pub value_at : Content → ℕ → ℕ → ℕ → Option Section → ℕ
value_at c ss i j none = 0
value_at c ss i j (some s) = value_of c ss i j s

abbrev pub MappingsOk : ℕ → Bool → Option (List ℕ) → Type 0
MappingsOk ss has_data none = Unit
MappingsOk ss has_data (some ms) = (has_data ≡ true) × (length ms ≡ ss) × All IsWord ms

abbrev pub SectionOk : ℕ → Section → Type 0
SectionOk ss s = MappingsOk ss s.has_data s.mappings

abbrev pub loaded_count : Option (List ℕ) → ℕ
loaded_count none = 0
loaded_count (some ms) = 1

abbrev pub loaded : List Section → ℕ
loaded [] = 0
loaded (s ∷ ss) = loaded_count s.mappings + loaded ss

pub loaded-set :
    (ss : List Section) (i : ℕ) (s s' : Section)
    → get_elem? ss i ≡ some s
    → loaded (set ss i s') + loaded_count s.mappings ≡ loaded ss + loaded_count s'.mappings
loaded-set [] i s s' h = ground arith
loaded-set (x ∷ ss) zero s s' h = ground arith
loaded-set (x ∷ ss) (suc i) s s' h = omega (arith, loaded-set ss i s s' h)

pub loaded_count-le : (o : Option (List ℕ)) → loaded_count o ≤ 1
loaded_count-le none = omega arith
loaded_count-le (some ms) = omega arith

pub loaded-le : (ss : List Section) → loaded ss ≤ length ss
loaded-le [] = omega arith
loaded-le (s ∷ ss) = omega (arith, loaded_count-le s.mappings, loaded-le ss)

pub loaded_pos :
    (ss : List Section) (i : ℕ) (s : Section) (ms : List ℕ)
    → get_elem? ss i ≡ some s
    → s.mappings ≡ some ms
    → 0 < loaded ss
loaded_pos [] i s ms h e = ground arith
loaded_pos (x ∷ ss) zero s ms h e = ground arith
loaded_pos (x ∷ ss) (suc i) s ms h e = omega (arith, loaded_pos ss i s ms h e)

-- the manager but for the cache
abbrev pub core : Cow → Cow
core cm = record cm { sects = []; allocated_sects = 0 }

module _ {F : Type 0} {K : Kernel F} (L : IsKernel K) where
  abbrev pub entry : World F → ℕ → ℕ → ℕ
  entry w i j = value_at (L.content w.sys) w.cm.sect_size i j (get_elem? w.cm.sects i)

  -- The mapping of a block: 0, or where its data was saved.
  abbrev pub mapping : World F → ℕ → ℕ
  mapping w pos = entry w (pos / w.cm.sect_size) (pos % w.cm.sect_size)

  -- Well-formed: the array has its size, the index is small enough that no offset wraps, a cached
  -- section is whole and marked, and the count of cached sections is right.
  pub record IsValid (w : World F) : Type 0 where
    pub size_pos : 0 < w.cm.sect_size
    pub count : length w.cm.sects ≡ w.cm.total_sects
    pub fits : 4096 + w.cm.sect_size * w.cm.total_sects * 8 ≤ 2 ^ 62
    pub offset : w.cm.data_offset ≡ 4096 + w.cm.sect_size * w.cm.total_sects * 8
    pub sections : All (SectionOk w.cm.sect_size) w.cm.sects
    pub allocated : w.cm.allocated_sects ≡ loaded w.cm.sects
    pub file : NotErr w.cm.dfilp

  -- What a call that only moves mappings between cache and file leaves alone: every mapping, every
  -- byte of the file outside the index, and every other field of the manager.
  pub record Same (w w' : World F) : Type 0 where
    pub view : (i j : ℕ) → j < w.cm.sect_size → entry w' i j ≡ entry w i j
    pub outside :
        (p : ℕ) → (p < 4096) ⊎ (w.cm.data_offset ≤ p) → L.content w'.sys p ≡ L.content w.sys p
    pub fixed : core w'.cm ≡ core w.cm

  pub record Keeps (w w' : World F) : Type 0 where
    pub valid : IsValid w'
    pub same : Same w w'

  pub Same-refl : (w : World F) → Same w w
  Same-refl w = record { view = λ i j h. refl; outside = λ p h. refl; fixed = refl }

  pub Same-trans : {u v w : World F} → Same u v → Same v w → Same u w
  Same-trans {u} {v} {w} a b = record {
    view = λ i j h. b.view i j (rw (ap (λ c. c.sect_size) a.fixed) h) ∙ a.view i j h;
    outside = λ p h. b.outside p (rw (ap (λ c. c.data_offset) a.fixed) h) ∙ a.outside p h;
    fixed = b.fixed ∙ a.fixed;
  }

  pub Keeps-trans : {u v w : World F} → Same u v → Keeps v w → Keeps u w
  Keeps-trans a b = record { valid = b.valid; same = Same-trans a b.same }
