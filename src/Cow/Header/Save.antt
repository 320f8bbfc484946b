-- ===== src/Cow/Header/Save.antt =====
-- Writing the header, and reading it back through the tests of `__cow_open_header`.
use moocbt.Common.{
  ℕ, ◌<◌, ◌≤◌, ◌≡◌, ◌^◌, ◌⊎◌, inl, inr, Bool, true, false, List, ok, err, einval, ◌≢◌, arith,
  if◌then◌else◌,
}
use moocbt.Flags.{test_bit, set_bit, clear_bit, cow_clean, cow_index_only}
use moocbt.Bytes.Store.{bytes_at, write_at}
use moocbt.Kernel.{Kernel, IsKernel}
use moocbt.Cow.State.{Cow, World, and_then}
use moocbt.Cow.Io.{file_read}
use moocbt.Cow.Io.Cases.{file_read_cases, file_write_cases}
use moocbt.Cow.Header.{
  CowHeader, encode, decode, header_of, header_fits, load_header, write_header, open_header,
  header_size, cow_magic,
}
use moocbt.Cow.Header.Codec.{HeaderFits, length-encode}
use moocbt.Cow.Inv.{NotErr}

-- the manager once `__cow_write_header` has set the clean flag, or cleared it
abbrev pub flagged : Bool → Cow → Cow
flagged clean cm = record cm {
  flags = if clean then set_bit cm.flags cow_clean else clear_bit cm.flags cow_clean;
}

pub flagged-Fits :
    (clean : Bool) (cm : Cow)
    → HeaderFits (header_of cm)
    → HeaderFits (header_of (flagged clean cm))
flagged-Fits clean cm h = record {
  magic = h.magic;
  flags = small clean cm.flags h.flags;
  fpos = h.fpos;
  fsize = h.fsize;
  seqid = h.seqid;
  uuid = h.uuid;
  version = h.version;
  changed = h.changed;
}
  where
    small :
        (b : Bool) (n : ℕ)
        → n < 2 ^ 32
        → (if b then set_bit n cow_clean else clear_bit n cow_clean) < 2 ^ 32
    small b n h = ground arith

-- A header written clean by a manager passes the tests of that manager.
pub clean_fits :
    (cm : Cow) → header_fits (test_bit cm.flags cow_index_only) (header_of (flagged true cm)) ≡ true
clean_fits cm = fits cm.flags
  where
    fits :
        (n : ℕ)
        → header_fits
            (test_bit n cow_index_only)
            (header_of (record cm { flags = set_bit n cow_clean }))
          ≡ true
    fits n = ground arith

module _ {F : Type 0} {K : Kernel F} (L : IsKernel K) where
  -- `__cow_write_header` sets the flag, and either stores the header or fails within its bytes.
  pub write_header_cases :
      (clean : Bool) (w : World F)
      → NotErr w.cm.dfilp
      → HeaderFits (header_of w.cm)
      → (f : F) × ((p : ℕ) → 64 ≤ p → L.content f p ≡ L.content w.sys p)
        × (((write_header K clean w ≡ (ok tt, record { cm = flagged clean w.cm; sys = f }))
              × (L.content f
                  ≡ write_at (L.content w.sys) 0 (encode (header_of (flagged clean w.cm)))))
            ⊎ ((e : ℕ) × (write_header K clean w
                  ≡ (err e, record { cm = flagged clean w.cm; sys = f }))))
  unfolding write_header
  write_header_cases clean w n h =
      let hd = header_of (flagged clean w.cm) in
      let (f, frame, r) =
        file_write_cases L 0 (encode hd) (record w { cm = flagged clean w.cm }) n in
      (f, λ p q. frame p (inr (omega (arith, length-encode hd h.uuid))), r)

  -- `__cow_open_header` loads a header that passes the tests and writes it back dirty.
  pub open_header_good :
      (index_only reset : Bool) (h : CowHeader) (bs : List ℕ) (w : World F) (f : F)
      → file_read K 0 header_size w ≡ (ok bs, record w { sys = f })
      → decode bs ≡ h
      → header_fits index_only h ≡ true
      → open_header K index_only reset w
        ≡ write_header K false (record { cm = load_header reset h w.cm; sys = f })
  unfolding open_header
  open_header_good index_only reset h bs w f r d pass = rw (r, and_then, d, pass)

  open_header_bad :
      (index_only reset : Bool) (bs : List ℕ) (w : World F) (f : F)
      → file_read K 0 header_size w ≡ (ok bs, record w { sys = f })
      → header_fits index_only (decode bs) ≡ false
      → open_header K index_only reset w ≡ (err einval, record w { sys = f })
  unfolding open_header
  open_header_bad index_only reset bs w f r pass = rw (r, and_then, pass)

  pub open_header_unread :
      (index_only reset : Bool) (e : ℕ) (w : World F) (f : F)
      → file_read K 0 header_size w ≡ (err e, record w { sys = f })
      → open_header K index_only reset w ≡ (err e, record w { sys = f })
  unfolding open_header
  open_header_unread index_only reset e w f r = rw r

  -- A file whose header has another magic number, is not marked clean, or was left in the other mode
  -- is refused: `__cow_open_header` fails, and changes neither the manager nor the file.
  pub open_header_refuses :
      (index_only reset : Bool) (w : World F)
      → NotErr w.cm.dfilp
      → (let h = decode (bytes_at (L.content w.sys) 0 64) in
          (h.magic ≢ cow_magic)
          ⊎ (test_bit h.flags cow_clean ≡ false)
          ⊎ (test_bit h.flags cow_index_only ≢ index_only))
      → (e : ℕ) × (f : F) × (open_header K index_only reset w ≡ (err e, record w { sys = f }))
        × (L.content f ≡ L.content w.sys)
  open_header_refuses index_only reset w n bad =
      let (f, same, r) = file_read_cases L 0 header_size w n in
      elim r [
        | inr (e, fails) ↦ (e, f, open_header_unread index_only reset e w f fails, same)
        | inl works ↦ (
          einval,
          f,
          open_header_bad index_only reset _ w f works
              (unfit index_only (decode (bytes_at (L.content w.sys) 0 64)) bad),
          same,
        )
      ]
    where
      unfit :
          (b : Bool) (h : CowHeader)
          → (h.magic ≢ cow_magic)
            ⊎ (test_bit h.flags cow_clean ≡ false)
            ⊎ (test_bit h.flags cow_index_only ≢ b)
          → header_fits b h ≡ false
      unfit b h bad = ground arith
