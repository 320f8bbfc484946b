-- ===== src/Cow/Header/Reopen.antt =====
-- A header that is written clean, then opened by another manager on the same file.
use moocbt.Common.{
  ℕ, ◌<◌, ◌≤◌, ◌≡◌, ◌^◌, ◌⊎◌, inl, inr, refl, sym, ap, ◌∙◌, Bool, true, false, not, ◌&&◌, take,
  take_whole, Result, ok, err, arith, if◌then◌else◌,
}
use moocbt.Flags.{test_bit, set_bit, clear_bit, cow_clean, cow_index_only, cow_vmalloc_upper}
use moocbt.Bytes.Store.{bytes_at, write_at, bytes_at-write_at}
use moocbt.Kernel.{Kernel, IsKernel}
use moocbt.Cow.State.{Cow, World}
use moocbt.Cow.Io.{file_read}
use moocbt.Cow.Io.Cases.{file_read_cases}
use moocbt.Cow.Header.{
  CowHeader, encode, decode, header_of, load_header, write_header, open_header, header_size,
}
use moocbt.Cow.Header.Codec.{HeaderFits, length-encode, decode-encode}
use moocbt.Cow.Header.Save.{
  flagged, flagged-Fits, clean_fits, write_header_cases, open_header_good, open_header_unread,
}
use moocbt.Cow.Inv.{NotErr}

-- The manager `cm` has taken over what `old` had saved, and is no longer clean; its sections are those of `other`.
pub record Restored (reset : Bool) (old other cm : Cow) : Type 0 where
  pub curr_pos : cm.curr_pos ≡ old.curr_pos
  pub file_size : cm.file_size ≡ old.file_size
  pub seqid : cm.seqid ≡ old.seqid
  pub uuid : cm.uuid ≡ old.uuid
  pub version : cm.version ≡ old.version
  pub nr_changed_blocks : cm.nr_changed_blocks ≡ old.nr_changed_blocks
  pub dirty : test_bit cm.flags cow_clean ≡ false
  pub mode : test_bit cm.flags cow_index_only ≡ test_bit old.flags cow_index_only
  pub vmalloc :
      test_bit cm.flags cow_vmalloc_upper ≡ (not reset && test_bit old.flags cow_vmalloc_upper)
  pub sects : cm.sects ≡ other.sects

-- the flags of a manager that has opened a header with the flags `n`
abbrev after : Bool → ℕ → ℕ
after r n =
    clear_bit (if r then clear_bit (set_bit n cow_clean) cow_vmalloc_upper else set_bit n cow_clean)
      cow_clean

restored :
    (reset : Bool) (old other : Cow)
    → Restored reset old other
        (flagged false (load_header reset (header_of (flagged true old)) other))
restored reset old other = record {
  curr_pos = refl;
  file_size = refl;
  seqid = refl;
  uuid = refl;
  version = refl;
  nr_changed_blocks = refl;
  dirty = clean reset old.flags;
  mode = mode reset old.flags;
  vmalloc = vmalloc reset old.flags;
  sects = refl;
}
  where
    clean : (r : Bool) (n : ℕ) → test_bit (after r n) cow_clean ≡ false
    clean r n = ground arith

    mode : (r : Bool) (n : ℕ) → test_bit (after r n) cow_index_only ≡ test_bit n cow_index_only
    mode r n = ground arith

    vmalloc :
        (r : Bool) (n : ℕ)
        → test_bit (after r n) cow_vmalloc_upper ≡ (not r && test_bit n cow_vmalloc_upper)
    vmalloc true n = ground arith
    vmalloc false n = ground arith

loaded-Fits :
    (reset : Bool) (h : CowHeader) (other : Cow)
    → HeaderFits h
    → HeaderFits (header_of (load_header reset h other))
loaded-Fits reset h other f = record {
  magic = omega arith;
  flags = small reset h.flags f.flags;
  fpos = f.fpos;
  fsize = f.fsize;
  seqid = f.seqid;
  uuid = f.uuid;
  version = f.version;
  changed = f.changed;
}
  where
    small :
        (r : Bool) (n : ℕ) → n < 2 ^ 32 → (if r then clear_bit n cow_vmalloc_upper else n) < 2 ^ 32
    small r n h = ground arith

module _ {F : Type 0} {K : Kernel F} (L : IsKernel K) where
  -- the header of a file
  abbrev pub saved : F → CowHeader
  saved f = decode (bytes_at (L.content f) 0 64)

  read_back :
      (h : CowHeader) (f : F) (c : ℕ → ℕ)
      → HeaderFits h
      → L.content f ≡ write_at c 0 (encode h)
      → saved f ≡ h
  read_back h f c fits e =
      let len = length-encode h fits.uuid in
      let all : take 64 (encode h) ≡ encode h = take_whole (encode h) 64 len in
      let bytes : bytes_at (L.content f) 0 64 ≡ encode h =
        ap (λ d. bytes_at d 0 64) e
        ∙ bytes_at-write_at c 0 (encode h) 0 0 64 refl (omega (arith, len))
        ∙ all in
      ap decode bytes ∙ decode-encode h fits

  -- How `__cow_open_header` ends on a file that has the header of `old`: its read fails and the manager stays,
  -- or the manager has taken the header over, and if it succeeds the file has the dirty header of it.
  -- The rest of the file stays in any case.
  pub record Reopened (reset : Bool) (old other : Cow) (f : F) (r : Result (Unit {0}) × World F)
      : Type 0 where
    pub rest : (p : ℕ) → 64 ≤ p → L.content r.1.sys p ≡ L.content f p
    pub outcome :
        ((e : ℕ) × (r.0 ≡ err e)
          × ((file_read K 0 header_size (record { cm = other; sys = f })).0 ≡ err e)
          × (r.1.cm ≡ other))
        ⊎ (Restored reset old other r.1.cm × (r.0 ≡ ok tt → saved r.1.sys ≡ header_of r.1.cm))

  reopens :
      (reset : Bool) (old other : Cow) (f : F)
      → NotErr other.dfilp
      → HeaderFits (header_of (flagged true old))
      → saved f ≡ header_of (flagged true old)
      → Reopened reset old other f
          (open_header K (test_bit old.flags cow_index_only) reset (record { cm = other; sys = f }))
  reopens reset old other f n fits same =
      let w : World F = record { cm = other; sys = f } in
      let hd = header_of (flagged true old) in
      let mode = test_bit old.flags cow_index_only in
      let (g, keeps, r) = file_read_cases L 0 header_size w n in
      elim r [
        | inr (e, fails) ↦ rw (open_header_unread L mode reset e w g fails) (record {
          rest = λ p l. ap (λ c. c p) keeps;
          outcome = inl (e, refl, ap (λ x. x.0) fails, refl);
        })
        | inl works ↦
            let (g', rest, s) =
              write_header_cases L false (record { cm = load_header reset hd other; sys = g }) n
                (loaded-Fits reset hd other fits) in
            rw (open_header_good L mode reset hd _ w g works same (clean_fits old)) (elim s [
              | inl (e, c) ↦ rw (e) (record {
                rest = λ p l. rest p l ∙ ap (λ c. c p) keeps;
                outcome = inr (
                  restored reset old other,
                  λ _.
                      read_back _ g' _
                        (flagged-Fits false (load_header reset hd other)
                          (loaded-Fits reset hd other fits))
                        c,
                );
              })
              | inr (e, c) ↦ rw (c) (record {
                rest = λ p l. rest p l ∙ ap (λ c. c p) keeps;
                outcome = inr (restored reset old other, λ z. absurd (cc));
              })
            ])
      ]

  -- When `__cow_write_header` has written the header of the manager of `w` as clean, and a manager `other` opens
  -- the same file in the same mode, then `__cow_open_header` fails in its read, or `other` has the write
  -- head, the file size, the sequence number, the uuid, the version and the number of changed blocks
  -- of the first manager, is no longer clean, has the mode, and the vmalloc flag unless this is to
  -- be reset. If it succeeds, the header in the file is that of `other`. Nothing behind the header changes.
  pub open_header-write_header :
      (reset : Bool) (w w' : World F) (other : Cow)
      → NotErr w.cm.dfilp
      → NotErr other.dfilp
      → HeaderFits (header_of w.cm)
      → write_header K true w ≡ (ok tt, w')
      → Reopened reset w.cm other w'.sys (
          open_header K
            (test_bit w.cm.flags cow_index_only)
            reset
            (record { cm = other; sys = w'.sys }))
  open_header-write_header reset w w' other n n' fits e =
      let (f, rest, r) = write_header_cases L true w n fits in
      elim r [
        | inr (x, fails) ↦ absurd (cc)
        | inl (done, c) ↦
            let fits' = flagged-Fits true w.cm fits in
            let here : w'.sys ≡ f = same_sys done e in
            reopens reset w.cm other w'.sys n' fits' (ap saved here ∙ read_back _ f _ fits' c)
      ]
    where
      same_sys :
          {a : Result (Unit {0}) × World F} {x y : World F}
          → a ≡ (ok tt, x)
          → a ≡ (ok tt, y)
          → y.sys ≡ x.sys
      same_sys p q = ap (λ z. z.1.sys) (sym q ∙ p)
