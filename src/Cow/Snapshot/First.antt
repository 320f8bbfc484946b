-- ===== src/Cow/Snapshot/First.antt =====
-- `cow_write_current` saves the data of a block that has none, and changes the data of no other:
-- the first data that is written for a block is what the snapshot keeps.
use moocbt.Common.{
  take_whole, ℕ, ◌*◌, ◌+◌, ◌/◌, ◌%◌, ◌≤◌, ◌<◌, ◌≡◌, ◌≢◌, ◌⊎◌, inl, inr, ap, ◌∙◌, sym, false, List,
  some, length, arith, Bool-cases, ◌==◌, ==→eq, if◌then◌else◌,
}
use native.Mathlib.Decide.{ℕ_discrete}
use native.Mathlib.Nat.{div-add-mod}
use moocbt.Bytes.Store.{Content, bytes_at, write_at, bytes_at_congr, bytes_at-write_at}
use moocbt.Kernel.{Kernel, IsKernel}
use moocbt.Cow.State.{World}
use moocbt.Cow.Mapping.Lookup.{section_of_block}
use moocbt.Cow.Mapping.Store.{Sets}
use moocbt.Cow.Inv.{entry, mapping, Keeps}
use moocbt.Cow.Snapshot.{saved_at, first, saved, InRange, IsSnapshot}
use moocbt.Cow.Snapshot.Append.{entry_congr, appended}

-- Two blocks differ in their section or in their place in it.
pub blocks_apart : (ss p q : ℕ) → p ≢ q → (p / ss ≢ q / ss) ⊎ (p % ss ≢ q % ss)
blocks_apart ss p q ne = elim (ℕ_discrete (p / ss) (q / ss)) [
  | no d ↦ inl d
  | yes e ↦ elim (ℕ_discrete (p % ss) (q % ss)) [
    | no d ↦ inr d
    | yes e' ↦
        absurd (ne (omega (arith, div-add-mod p ss, div-add-mod q ss, ap (λ (t : ℕ). ss * t) e)))
  ]
]

-- The data of a block is where its mapping points.
saved_congr :
    (c d : Content) (m n : ℕ)
    → n ≡ m
    → (m ≡ 0) ⊎ ((p : ℕ) → m * 4096 ≤ p → p < m * 4096 + 4096 → d p ≡ c p)
    → saved_at d n ≡ saved_at c m
saved_congr c d m n e h = rw e (elim (Bool-cases (m == 0)) [
  | inl unset ↦ rw unset
  | inr set' ↦ rw set' (
      ap some (
        bytes_at_congr d c (m * 4096) 4096
          (λ p a b. elim h [ inl z ↦ absurd (differ z set') | inr same ↦ same p a b ])))
])
  where
    differ : m ≡ 0 → (m == 0) ≡ false → ⊥
    differ z ne = ground arith

module _ {F : Type 0} {K : Kernel F} (L : IsKernel K) where
  -- the same device, seen after a step
  abbrev pub SameGeometry : World F → World F → Type 0
  SameGeometry w w' = (w'.cm.sect_size ≡ w.cm.sect_size) × (w'.cm.total_sects ≡ w.cm.total_sects)

  -- A step that keeps every mapping keeps all that was saved.
  pub Keeps-saved :
      {w w' : World F} (pos : ℕ)
      → IsSnapshot L w
      → Keeps L w w'
      → InRange L w pos
      → saved L w' pos ≡ saved L w pos
  Keeps-saved {w} {w'} pos s k h =
      let i = pos / w.cm.sect_size in
      let j = pos % w.cm.sect_size in
      let (_, inside) = section_of_block pos w.cm.sect_size w.cm.total_sects s.valid.size_pos h in
      let size : w'.cm.sect_size ≡ w.cm.sect_size = ap (λ c. c.sect_size) k.same.fixed in
      saved_congr (L.content w.sys) (L.content w'.sys) (mapping L w pos) (mapping L w' pos)
        (ap (λ ss. entry L w' (pos / ss) (pos % ss)) size ∙ k.same.view i j inside)
        (elim (s.placed i j inside) [
          | inl z ↦ inl z
          | inr (low, _) ↦ inr (λ p a b. k.same.outside p (inr (omega arith)))
        ])

  pub Keeps-IsSnapshot : {w w' : World F} → IsSnapshot L w → Keeps L w w' → IsSnapshot L w'
  Keeps-IsSnapshot {w} {w'} s k =
      let head : w'.cm.curr_pos ≡ w.cm.curr_pos = ap (λ c. c.curr_pos) k.same.fixed in
      let size : w'.cm.file_size ≡ w.cm.file_size = ap (λ c. c.file_size) k.same.fixed in
      let off : w'.cm.data_offset ≡ w.cm.data_offset = ap (λ c. c.data_offset) k.same.fixed in
      let ss : w'.cm.sect_size ≡ w.cm.sect_size = ap (λ c. c.sect_size) k.same.fixed in
      record {
        valid = k.valid;
        head = omega (arith, s.head);
        head_fits = omega (arith, s.head_fits);
        size_fits = omega (arith, s.size_fits);
        placed = λ i j h.
            let h' : j < w.cm.sect_size = omega arith in
            rw (k.same.view i j h', off, head) (s.placed i j h');
      }

  -- what a block holds after a call that saved `buf` for block `b`
  pub record SavedOne (w : World F) (b : ℕ) (buf : List ℕ) (w' : World F) : Type 0 where
    pub snapshot : IsSnapshot L w'
    pub geometry : SameGeometry w w'
    pub view :
        (pos : ℕ)
        → InRange L w pos
        → saved L w' pos ≡ (if pos == b then first (saved L w b) buf else saved L w pos)

  -- nothing that was saved is lost
  abbrev pub NothingLost : World F → World F → Type 0
  NothingLost w w' =
      (pos : ℕ) (d : List ℕ) → InRange L w pos → saved L w pos ≡ some d → saved L w' pos ≡ some d

  module _ (w : World F) (b : ℕ) (s : IsSnapshot L w) (h : InRange L w b)
      (unset : mapping L w b ≡ 0) (w2 : World F)
      (st : Sets L w (b / w.cm.sect_size) (b % w.cm.sect_size) w.cm.curr_pos w2) (f : F)
      (frame : (p : ℕ)
        → (p < w.cm.curr_pos * 4096) ⊎ (w.cm.curr_pos * 4096 + 4096 ≤ p)
        → L.content f p ≡ L.content w2.sys p) where
    size : w2.cm.sect_size ≡ w.cm.sect_size
    size = ap (λ c. c.sect_size) st.fixed

    total : w2.cm.total_sects ≡ w.cm.total_sects
    total = ap (λ c. c.total_sects) st.fixed

    offset : w2.cm.data_offset ≡ w.cm.data_offset
    offset = ap (λ c. c.data_offset) st.fixed

    head : w2.cm.curr_pos ≡ w.cm.curr_pos
    head = ap (λ c. c.curr_pos) st.fixed

    limit : w2.cm.file_size ≡ w.cm.file_size
    limit = ap (λ c. c.file_size) st.fixed

    -- the index is not touched by the data
    entry_after :
        (i j : ℕ) → j < w.cm.sect_size → entry L (record w2 { sys = f }) i j ≡ entry L w2 i j
    entry_after i j l =
        entry_congr L w2 f st.valid (λ p _ q. frame p (inl (omega (arith, offset, s.head)))) i j
          (rw size l)

    mapping_after :
        (pos : ℕ)
        → mapping L (record w2 { sys = f }) pos
          ≡ entry L (record w2 { sys = f }) (pos / w.cm.sect_size) (pos % w.cm.sect_size)
    mapping_after pos = ap (λ ss. entry L (record w2 { sys = f }) (pos / ss) (pos % ss)) size

    place : (pos : ℕ) → InRange L w pos → pos % w.cm.sect_size < w.cm.sect_size
    place pos q = (section_of_block pos w.cm.sect_size w.cm.total_sects s.valid.size_pos q).1

    -- every other block holds what it held
    other_after :
        (pos : ℕ) → InRange L w pos → pos ≢ b → saved L (record w2 { sys = f }) pos ≡ saved L w pos
    other_after pos q ne =
        let i = pos / w.cm.sect_size in
        let j = pos % w.cm.sect_size in
        saved_congr (L.content w.sys) (L.content f) (mapping L w pos)
          (mapping L (record w2 { sys = f }) pos)
          (mapping_after pos
            ∙ entry_after i j (place pos q)
            ∙ st.miss i j (place pos q) (blocks_apart w.cm.sect_size pos b ne))
          (elim (s.placed i j (place pos q)) [
            | inl z ↦ inl z
            | inr (low, below) ↦
                inr (λ p x y. frame p (inl (omega arith)) ∙ st.outside p (inr (omega arith)))
          ])

    pub nothing_lost : NothingLost w (record w2 { sys = f })
    nothing_lost pos d q e = elim (ℕ_discrete pos b) [
      | no ne ↦ other_after pos q ne ∙ e
      | yes eq ↦ absurd (never (rw eq at e))
    ]
      where
        never : saved L w b ≡ some d → ⊥
        never e = ground (arith, unset)

    -- the block that was saved
    this_after :
        (buf : List ℕ)
        → L.content f ≡ write_at (L.content w2.sys) (w2.cm.curr_pos * 4096) buf
        → length buf ≡ 4096
        → saved L (record w2 { sys = f }) b ≡ some buf
    this_after buf e len =
        let at_head : mapping L (record w2 { sys = f }) b ≡ w.cm.curr_pos =
          mapping_after b
          ∙ entry_after (b / w.cm.sect_size) (b % w.cm.sect_size) (place b h)
          ∙ st.hit in
        let stored : bytes_at (L.content f) (w.cm.curr_pos * 4096) 4096 ≡ buf =
          rw (e, head)
            (bytes_at-write_at (L.content w2.sys) (w.cm.curr_pos * 4096) buf (w.cm.curr_pos * 4096)
                0 4096 (omega arith) (omega (arith, len))
              ∙ take_whole buf 4096 len) in
        let pos_head : (w.cm.curr_pos == 0) ≡ false = ground (arith, s.head, s.valid.offset) in
        rw (at_head, pos_head, stored)

    advanced : (appended L w2 f).cm.curr_pos ≡ w.cm.curr_pos + 1
    advanced = omega (arith, head, s.head_fits)

    placed_after :
        (i j : ℕ)
        → j < w.cm.sect_size
        → (entry L w2 i j ≡ 0)
          ⊎ ((w.cm.data_offset ≤ entry L w2 i j * 4096) × (entry L w2 i j < w.cm.curr_pos + 1))
    placed_after i j l = elim (ℕ_discrete i (b / w.cm.sect_size)) [
      | no ne ↦ old (inl ne)
      | yes e ↦ elim (ℕ_discrete j (b % w.cm.sect_size)) [
        | no ne ↦ old (inr ne)
        | yes e' ↦ inr (rw (e, e', st.hit) (s.head, omega arith))
      ]
    ]
      where
        old :
            (i ≢ b / w.cm.sect_size) ⊎ (j ≢ b % w.cm.sect_size)
            → (entry L w2 i j ≡ 0)
              ⊎ ((w.cm.data_offset ≤ entry L w2 i j * 4096) × (entry L w2 i j < w.cm.curr_pos + 1))
        old d =
            rw (st.miss i j l d)
              (elim (s.placed i j l) [ inl z ↦ inl z | inr (low, below) ↦ inr (low, omega arith) ])

    IsSnapshot-after : w2.cm.curr_pos * 4096 < w2.cm.file_size → IsSnapshot L (appended L w2 f)
    IsSnapshot-after room = record {
      valid = record {
        size_pos = st.valid.size_pos;
        count = st.valid.count;
        fits = st.valid.fits;
        offset = st.valid.offset;
        sections = st.valid.sections;
        allocated = st.valid.allocated;
        file = st.valid.file;
      };
      head = omega (arith, advanced, offset, s.head);
      head_fits = omega (arith, advanced, head, limit, s.size_fits, room);
      size_fits = omega (arith, limit, s.size_fits);
      placed = λ i j l.
          let l' : j < w.cm.sect_size = omega (arith, size) in
          rw (entry_after i j l', advanced, offset) (placed_after i j l');
    }

    pub saved_one :
        (buf : List ℕ)
        → L.content f ≡ write_at (L.content w2.sys) (w2.cm.curr_pos * 4096) buf
        → length buf ≡ 4096
        → w2.cm.curr_pos * 4096 < w2.cm.file_size
        → SavedOne w b buf (appended L w2 f)
    saved_one buf e len room = record {
      snapshot = IsSnapshot-after room;
      geometry = (size, total);
      view = λ pos q. elim (Bool-cases (pos == b)) [
        | inr ne ↦ rw ne (other_after pos q (λ eq. differ pos b eq ne))
        | inl eq ↦ rw eq (rw (==→eq pos b eq) (this_after buf e len ∙ sym (fresh buf)))
      ];
    }
      where
        differ : (x y : ℕ) → x ≡ y → (x == y) ≡ false → ⊥
        differ x y eq ne = ground arith

        fresh : (buf : List ℕ) → first (saved L w b) buf ≡ some buf
        fresh buf = rw unset
