-- ===== src/Cow/Io/Cases.antt =====
-- How the calls of the kernel can end, as equations.
use moocbt.Common.{
  ℕ, ◌+◌, ◌≤◌, ◌<◌, ◌≡◌, ◌⊎◌, inl, inr, refl, Bool, List, none, some, ok, err, eio, einval, length,
  ◌==◌, ==→eq, if◌then◌else◌, replicate, Bool-cases, Option-cases, arith,
}
use moocbt.Bytes.Store.{bytes_at, write_at}
use moocbt.Kernel.{Kernel, IsKernel, Reply}
use moocbt.Cow.State.{FilePtr, null, opened, err_ptr, World}
use moocbt.Cow.Inv.{NotErr}
use moocbt.Cow.Io.{file_read, file_write, get_pages}

Reply-cases :
    {A : Type 0} (r : Reply A) → ((a : A) × (r ≡ Reply.value a)) ⊎ ((e : ℕ) × (r ≡ Reply.errno e))
Reply-cases (Reply.value a) = inl (a, refl)
Reply-cases (Reply.errno e) = inr (e, refl)

FilePtr-cases : (p : FilePtr) → NotErr p → (p ≡ null) ⊎ (p ≡ opened)
FilePtr-cases null h = inl refl
FilePtr-cases opened h = inr refl
FilePtr-cases err_ptr h = absurd h

module _ {F : Type 0} {K : Kernel F} (L : IsKernel K) where
  -- A read gives the bytes of the file, or fails.
  pub file_read_cases :
      (off len : ℕ) (w : World F)
      → NotErr w.cm.dfilp
      → (f : F) × (L.content f ≡ L.content w.sys)
        × ((file_read K off len w ≡ (ok (bytes_at (L.content w.sys) off len), record w { sys = f }))
            ⊎ ((e : ℕ) × (file_read K off len w ≡ (err e, record w { sys = f }))))
  unfolding file_read
  file_read_cases off len w h = elim (FilePtr-cases w.cm.dfilp h) [
    | inl e ↦ (w.sys, refl, inr (einval, rw e))
    | inr e ↦ (
      (K.kernel_read w.sys off len).1,
      L.read_frame w.sys off len,
      elim (Reply-cases (K.kernel_read w.sys off len).0) [
        | inr (n, r) ↦ inr (n, rw (e, r))
        | inl (bs, r) ↦ elim (Bool-cases (length bs == len)) [
          | inr short ↦ inr (eio, rw (e, r, short))
          | inl full ↦
              inl (ground (arith, L.read_lem w.sys off len bs r (==→eq (length bs) len full)))
        ]
      ],
    )
  ]

  -- A write stores its bytes, or fails; no other byte changes in either case.
  pub file_write_cases :
      (off : ℕ) (bs : List ℕ) (w : World F)
      → NotErr w.cm.dfilp
      → (f : F) × ((p : ℕ) → (p < off) ⊎ (off + length bs ≤ p) → L.content f p ≡ L.content w.sys p)
        × (((file_write K off bs w ≡ (ok tt, record w { sys = f }))
              × (L.content f ≡ write_at (L.content w.sys) off bs))
            ⊎ ((e : ℕ) × (file_write K off bs w ≡ (err e, record w { sys = f }))))
  unfolding file_write
  file_write_cases off bs w h = elim (FilePtr-cases w.cm.dfilp h) [
    | inl e ↦ (w.sys, λ p q. refl, inr (einval, rw e))
    | inr e ↦ (
      (K.kernel_write w.sys off bs).1,
      L.write_frame w.sys off bs,
      elim (Reply-cases (K.kernel_write w.sys off bs).0) [
        | inr (n, r) ↦ inr (n, rw (e, r))
        | inl (n, r) ↦ elim (Bool-cases (n == length bs)) [
          | inr short ↦ inr (eio, rw (e, r, short))
          | inl full ↦
              inl (rw (e, r, full), L.write_lem w.sys off bs n r (==→eq n (length bs) full))
        ]
      ],
    )
  ]

  -- The page allocator fails, or gives pages, which hold zeros if that was asked for.
  pub get_pages_cases :
      (order words : ℕ) (zeroed : Bool) (w : World F)
      → (f : F) × (L.content f ≡ L.content w.sys)
        × ((get_pages K order words zeroed w ≡ (ok none, record w { sys = f }))
            ⊎ ((ms : List ℕ) × (get_pages K order words zeroed w
                  ≡ (ok (some (if zeroed then replicate words 0 else ms)), record w { sys = f }))))
  unfolding get_pages
  get_pages_cases order words zeroed w = (
    (K.get_free_pages w.sys order).1,
    L.pages_frame w.sys order,
    elim (Option-cases (K.get_free_pages w.sys order).0) [
      | inl e ↦ inl (rw e)
      | inr (ms, e) ↦ inr (ms, rw e)
    ],
  )
