-- ===== src/Cow/Inv/Moves.antt =====
-- The two kinds of step that keep every mapping: a new record for one section that holds the same
-- values, and a change of the file inside the range of a section that is cached.
use moocbt.Common.{
  ℕ, ◌+◌, ◌*◌, ◌≤◌, ◌<◌, ◌≡◌, ◌≢◌, ◌⊎◌, inl, inr, refl, ap, ◌∙◌, Bool, true, false, List, Option,
  none, some, length, get_elem?, set, arith, get_elem?-set_self, get_elem?-set_ne, length-set,
  All-set, lt_of_get_elem?,
}
use moocbt.Bytes.Store.{Content, bytes_at_congr}
use moocbt.Bytes.Codec.{le_val}
use moocbt.Bytes.Words.{word_at}
use moocbt.Word.{mul64}
use moocbt.Kernel.{Kernel, IsKernel}
use moocbt.Cow.State.{Section, World}
use moocbt.Cow.Sections.{sect_offset}
use moocbt.Cow.Inv.{
  value_in, value_of, value_at, index_offset, SectionOk, loaded_count, loaded-set, entry, IsValid,
  Keeps,
}
use native.Mathlib.Decide.{ℕ_discrete, dec_lt}

-- the state with another record for section `i` and another count
abbrev pub with_sect : {F : Type 0} → World F → ℕ → Section → ℕ → World F
with_sect w i s n = record w {
  cm = record (w.cm) { sects = set w.cm.sects i s; allocated_sects = n };
}

value_at-set :
    (c : Content) (ss i k j : ℕ) (xs : List Section) (s s' : Section)
    → get_elem? xs i ≡ some s
    → value_of c ss i j s' ≡ value_of c ss i j s
    → value_at c ss k j (get_elem? (set xs i s') k) ≡ value_at c ss k j (get_elem? xs k)
value_at-set c ss i k j xs s s' at same = elim (ℕ_discrete i k) [
  | yes e ↦ subst_index k e
  | no ne ↦ rw (get_elem?-set_ne xs i k s' ne)
]
  where
    subst_index :
        (k : ℕ)
        → i ≡ k
        → value_at c ss k j (get_elem? (set xs i s') k) ≡ value_at c ss k j (get_elem? xs k)
    subst_index k e = rw (← e, get_elem?-set_self xs i s' (lt_of_get_elem? xs i at), at) same

module _ {F : Type 0} {K : Kernel F} (L : IsKernel K) where
  pub with_sect-Keeps :
      (w : World F) (i : ℕ) (s s' : Section) (n : ℕ)
      → IsValid L w
      → get_elem? w.cm.sects i ≡ some s
      → SectionOk w.cm.sect_size s'
      → ((j : ℕ)
          → j < w.cm.sect_size
          → value_of (L.content w.sys) w.cm.sect_size i j s'
            ≡ value_of (L.content w.sys) w.cm.sect_size i j s)
      → n + loaded_count s.mappings ≡ w.cm.allocated_sects + loaded_count s'.mappings
      → Keeps L w (with_sect w i s' n)
  with_sect-Keeps w i s s' n v at good same total = record {
    valid = record {
      size_pos = v.size_pos;
      count = length-set w.cm.sects i s' ∙ v.count;
      fits = v.fits;
      offset = v.offset;
      sections = All-set (SectionOk w.cm.sect_size) w.cm.sects i s' v.sections good;
      allocated = omega (arith, loaded-set w.cm.sects i s s' at, v.allocated);
      file = v.file;
    };
    same = record {
      view = λ k j h.
          value_at-set (L.content w.sys) w.cm.sect_size i k j w.cm.sects s s' at (same j h);
      outside = λ p h. refl;
      fixed = refl;
    };
  }

-- An index in range gives a section in range: the sections do not overlap and none wraps.
pub sections_apart :
    (ss i k j : ℕ)
    → i ≢ k
    → j < ss
    → (index_offset ss k j + 8 ≤ index_offset ss i 0)
      ⊎ (index_offset ss i 0 + ss * 8 ≤ index_offset ss k j)
sections_apart ss i k j ne h = elim (dec_lt k i) [
  | yes p ↦ inl (before k i p)
  | no p ↦ inr (after i k (omega arith))
]
  where
    step : (a b : ℕ) → a < b → ss * a + ss ≤ ss * b
    step a b p = grind arith

    before : (k i : ℕ) → k < i → index_offset ss k j + 8 ≤ index_offset ss i 0
    before k i p = omega (arith, step k i p)

    after : (i k : ℕ) → i < k → index_offset ss i 0 + ss * 8 ≤ index_offset ss k j
    after i k p = omega (arith, step i k p)

pub section_below : (ss i total : ℕ) → i < total → ss * i + ss ≤ ss * total
section_below ss i total h = grind arith

module _ {F : Type 0} {K : Kernel F} (L : IsKernel K) where
  pub sect_offset_lem :
      (w : World F) (i : ℕ)
      → IsValid L w
      → i < length w.cm.sects
      → (sect_offset w.cm.sect_size i ≡ index_offset w.cm.sect_size i 0)
        × (mul64 w.cm.sect_size 8 ≡ w.cm.sect_size * 8)
        × (index_offset w.cm.sect_size i 0 + w.cm.sect_size * 8 ≤ w.cm.data_offset)
  sect_offset_lem w i v h =
      let below : w.cm.sect_size * i + w.cm.sect_size ≤ w.cm.sect_size * w.cm.total_sects =
        section_below w.cm.sect_size i w.cm.total_sects (omega (arith, v.count)) in
      (omega (arith, v.fits, below), omega (arith, v.fits, below), omega (arith, v.offset, below))

  -- the value of a section is unchanged by what happens outside its words
  value_of_congr :
      (c d : Content) (ss k j : ℕ) (o : Option Section)
      → word_at d (index_offset ss k j) ≡ word_at c (index_offset ss k j)
      → value_at d ss k j o ≡ value_at c ss k j o
  value_of_congr c d ss k j none e = refl
  value_of_congr c d ss k j (some s) e = value_in_congr (s.has_data) (s.mappings)
    where
      value_in_congr :
          (b : Bool) (m : Option (List ℕ)) → value_in d ss k j b m ≡ value_in c ss k j b m
      value_in_congr b (some ms) = refl
      value_in_congr true none = e
      value_in_congr false none = refl

  value_at_loaded :
      (c d : Content) (ss i j : ℕ) (xs : List Section) (s : Section) (ms : List ℕ)
      → get_elem? xs i ≡ some s
      → s.mappings ≡ some ms
      → value_at d ss i j (get_elem? xs i) ≡ value_at c ss i j (get_elem? xs i)
  value_at_loaded c d ss i j xs s ms at e = rw (at, e)

  pub with_sys-Keeps :
      (w : World F) (f : F) (i : ℕ) (s : Section) (ms : List ℕ)
      → IsValid L w
      → get_elem? w.cm.sects i ≡ some s
      → s.mappings ≡ some ms
      → ((p : ℕ)
          → (p < index_offset w.cm.sect_size i 0)
            ⊎ (index_offset w.cm.sect_size i 0 + w.cm.sect_size * 8 ≤ p)
          → L.content f p ≡ L.content w.sys p)
      → Keeps L w (record w { sys = f })
  with_sys-Keeps w f i s ms v at e frame = record {
    valid = record {
      size_pos = v.size_pos;
      count = v.count;
      fits = v.fits;
      offset = v.offset;
      sections = v.sections;
      allocated = v.allocated;
      file = v.file;
    };
    same = record {
      view = λ k j h. kept k j h;
      outside = λ p h. frame p (elim h [
        | inl low ↦ inl (omega arith)
        | inr high ↦
            inr (omega (arith, high, (sect_offset_lem w i v (lt_of_get_elem? w.cm.sects i at)).2))
      ]);
      fixed = refl;
    };
  }
    where
      kept : (k j : ℕ) → j < w.cm.sect_size → entry L (record w { sys = f }) k j ≡ entry L w k j
      kept k j h = elim (ℕ_discrete i k) [
        | yes eq ↦ rw (← eq) (
            value_at_loaded (L.content w.sys) (L.content f) w.cm.sect_size i j w.cm.sects s ms at e)
        | no ne ↦
            value_of_congr (L.content w.sys) (L.content f) w.cm.sect_size k j
              (get_elem? w.cm.sects k)
              (ap le_val (
                bytes_at_congr (L.content f) (L.content w.sys) (index_offset w.cm.sect_size k j) 8
                  (λ p a b. frame p (elim (sections_apart w.cm.sect_size i k j ne h) [
                    | inl low ↦ inl (omega arith)
                    | inr high ↦ inr (omega arith)
                  ]))))
      ]

  -- a change of the kernel's state that touches no byte of the file
  pub quiet-Keeps :
      (w : World F) (f : F)
      → IsValid L w
      → L.content f ≡ L.content w.sys
      → Keeps L w (record w { sys = f })
  quiet-Keeps w f v e = record {
    valid = record {
      size_pos = v.size_pos;
      count = v.count;
      fits = v.fits;
      offset = v.offset;
      sections = v.sections;
      allocated = v.allocated;
      file = v.file;
    };
    same = record {
      view = λ k j h. ap (λ c. value_at c w.cm.sect_size k j (get_elem? w.cm.sects k)) e;
      outside = λ p h. ap (λ c. c p) e;
      fixed = refl;
    };
  }
