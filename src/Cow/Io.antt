-- ===== src/Cow/Io.antt =====
-- The functions of src/filesystem.c that the manager calls: `file_io` under its two names,
-- opening and closing the file, and the memory that the kernel hands out.
pub mod Cases
use moocbt.Common.{
  ℕ, zero, suc, ◌+◌, ◌-◌, ◌/◌, ◌%◌, true, not, enomem, Bool, List, Option, none, some, Result, ok,
  err, oops, einval, eio, length, ◌==◌, if◌then◌else◌, replicate,
}
use moocbt.Word.{add64, sub64, mul64}
use moocbt.Kernel.{Kernel, Reply}
use moocbt.Cow.State.{null, opened, err_ptr, M, pure, fail, ◌>>=◌, ◌>>◌, get_cm, put_cm, when}

module _ {F : Type 0} (K : Kernel F) where
  -- what `file_io` makes of the value that `moocbt_kernel_read` returned
  abbrev pub read_reply : ℕ → Reply (List ℕ) → Result (List ℕ)
  read_reply len (Reply.errno e) = err e
  read_reply len (Reply.value bs) = if length bs == len then ok bs else err eio

  -- `file_io`, reading; `moocbt_kernel_read` refuses a NULL file
  unfoldable pub file_read : ℕ → ℕ → M F (List ℕ)
  file_read off len w = elim (w.cm.dfilp) [
    | null ↦ (err einval, w)
    | err_ptr ↦ (oops, w)
    | opened ↦ let (r, f) = K.kernel_read w.sys off len in (read_reply len r, record w { sys = f })
  ]

  abbrev pub write_reply : ℕ → Reply ℕ → Result (Unit {0})
  write_reply len (Reply.errno e) = err e
  write_reply len (Reply.value n) = if n == len then ok tt else err eio

  -- `file_io`, writing
  unfoldable pub file_write : ℕ → List ℕ → M F (Unit {0})
  file_write off bs w = elim (w.cm.dfilp) [
    | null ↦ (err einval, w)
    | err_ptr ↦ (oops, w)
    | opened ↦
        let (r, f) = K.kernel_write w.sys off bs in
        (write_reply (length bs) r, record w { sys = f })
  ]

  -- `__get_free_pages`, for an array of `words` words; with `__GFP_ZERO` it holds zeros
  unfoldable pub get_pages : ℕ → ℕ → Bool → M F (Option (List ℕ))
  get_pages order words zeroed w =
      let (r, f) = K.get_free_pages w.sys order in
      (
        ok (elim r [ none ↦ none | some ms ↦ some (if zeroed then replicate words 0 else ms) ]),
        record w { sys = f },
      )

  -- `__open_moocbt_cow_file`: when the wrapper cannot be allocated the pointer is left set.
  unfoldable pub open_cow_file : Bool → M F (Unit {0})
  open_cow_file create w =
      let (ret, f) = K.filp_open w.sys create in
      if not (ret == 0)
      then (err ret, record w { sys = f })
      else (let (room, g) = K.kzalloc f 40 in
          if room then (ok tt, record w { cm = record (w.cm) { dfilp = opened }; sys = g }) else (
            err enomem,
            record w { cm = record (w.cm) { dfilp = err_ptr }; sys = K.filp_close g },
          ))

  -- `__close_and_destroy_moocbt_cow_file`
  unfoldable pub close_cow_file : M F (Unit {0})
  close_cow_file w = elim (w.cm.dfilp) [
    | null ↦ (ok tt, w)
    | err_ptr ↦ (oops, w)
    | opened ↦ (ok tt, record w { sys = K.filp_close w.sys })
  ]

  -- `if (cm->dfilp) { __close_and_destroy_moocbt_cow_file(cm->dfilp); cm->dfilp = NULL; }`
  unfoldable pub close_if_open : M F (Unit {0})
  unfolding close_cow_file
  close_if_open = do close_cow_file; cm ← get_cm; put_cm (record cm { dfilp = null })

  -- the same with `file_unlink` first, which reads through the pointer
  unfoldable pub unlink_if_open : M F (Unit {0})
  unlink_if_open w = elim (w.cm.dfilp) [
    | null ↦ (ok tt, w)
    | err_ptr ↦ (oops, w)
    | opened ↦ close_if_open (record w { sys = K.unlink w.sys })
  ]

  -- `file_truncate`
  unfoldable pub file_truncate : ℕ → M F (Unit {0})
  file_truncate len w = elim (w.cm.dfilp) [
    | opened ↦
        let (ret, f) = K.truncate w.sys len in
        (if ret == 0 then ok tt else err ret, record w { sys = f })
    | _ ↦ (oops, w)
  ]

  abbrev pub page_size : ℕ
  page_size = 4096

  abbrev pub eopnotsupp : ℕ
  eopnotsupp = 95

  -- the loop of `file_allocate`: a page of zeros at a time
  unfoldable pub write_zeros : ℕ → ℕ → ℕ → M F (Unit {0})
  write_zeros off zero i = pure tt
  write_zeros off (suc n) i = do
    file_write (add64 off (mul64 page_size i)) (replicate page_size 0)
    write_zeros off n (i + 1)

  -- `file_allocate`, where `fallocate` is not supported
  unfoldable pub write_zero_pages : ℕ → ℕ → M F (Unit {0})
  unfolding write_zeros
  write_zero_pages off len = do
    page ← get_pages 0 512 true
    elim page [ none ↦ fail enomem | some _ ↦ pure tt ]
    when (not (off % page_size == 0)) (file_write off (replicate (page_size - off % page_size) 0))
    write_zeros (if off % page_size == 0 then off else off + (page_size - off % page_size))
        (sub64 (add64 len page_size) 1 / page_size) 0

  -- `file_allocate`
  unfoldable pub file_allocate : ℕ → ℕ → M F (Unit {0})
  unfolding write_zero_pages
  file_allocate off len w = elim (w.cm.dfilp) [
    | opened ↦
        let (ret, f) = K.fallocate w.sys off len in
        if ret == 0
        then (ok tt, record w { sys = f })
        else if ret == eopnotsupp
        then write_zero_pages off len (record w { sys = f })
        else (err ret, record w { sys = f })
    | _ ↦ (oops, w)
  ]
