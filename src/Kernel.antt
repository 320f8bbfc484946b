-- ===== src/Kernel.antt =====
-- What the driver asks of the kernel: the calls behind src/filesystem.c, and the page allocator.
-- `F` is the state of all this, of which the driver sees only what the calls return.
pub mod Ram
use moocbt.Common.{ℕ, ◌+◌, ◌*◌, ◌^◌, ◌≤◌, ◌<◌, ◌≡◌, ◌⊎◌, Bool, List, Option, length}
use moocbt.Bytes.Store.{Content, bytes_at, write_at}

-- A system call returns a value, or a negative `errno`.
pub data Reply (A : Type 0) : Type 0 where
  value : A → Reply A
  errno : ℕ → Reply A

-- The calls. `truncate`, `fallocate` and `open` return 0 or an `errno`; `open` is told whether it
-- runs with `O_CREAT | O_TRUNC`. `get_free_pages` returns the words that the pages happen to hold.
pub record Kernel (F : Type 0) : Type 0 where
  pub kernel_read : F → ℕ → ℕ → Reply (List ℕ) × F
  pub kernel_write : F → ℕ → List ℕ → Reply ℕ × F
  pub truncate : F → ℕ → ℕ × F
  pub fallocate : F → ℕ → ℕ → ℕ × F
  pub filp_open : F → Bool → ℕ × F
  pub filp_close : F → F
  pub unlink : F → F
  pub get_free_pages : F → ℕ → Option (List ℕ) × F
  pub kzalloc : F → ℕ → Bool × F
  pub random_uuid : F → List ℕ × F
  pub get_order : ℕ → ℕ

-- What is relied on. A read gives the bytes of the file and changes none; a write of full length
-- has stored its bytes; no write, however it ends, touches a byte outside its range; allocation,
-- and closing and opening without `O_TRUNC`, leave the file's bytes alone.
pub record IsKernel {F : Type 0} (k : Kernel F) : Type 0 where
  pub content : F → Content
  pub content-lt : (f : F) (p : ℕ) → content f p < 256
  pub read_lem :
      (f : F) (off n : ℕ) (bs : List ℕ)
      → (k.kernel_read f off n).0 ≡ Reply.value bs
      → length bs ≡ n
      → bs ≡ bytes_at (content f) off n
  pub read_frame : (f : F) (off n : ℕ) → content (k.kernel_read f off n).1 ≡ content f
  pub write_lem :
      (f : F) (off : ℕ) (bs : List ℕ) (n : ℕ)
      → (k.kernel_write f off bs).0 ≡ Reply.value n
      → n ≡ length bs
      → content (k.kernel_write f off bs).1 ≡ write_at (content f) off bs
  pub write_frame :
      (f : F) (off : ℕ) (bs : List ℕ) (p : ℕ)
      → (p < off) ⊎ (off + length bs ≤ p)
      → content (k.kernel_write f off bs).1 p ≡ content f p
  pub pages_frame : (f : F) (n : ℕ) → content (k.get_free_pages f n).1 ≡ content f
  pub kzalloc_frame : (f : F) (n : ℕ) → content (k.kzalloc f n).1 ≡ content f
  pub close_frame : (f : F) → content (k.filp_close f) ≡ content f
  pub open_frame : (f : F) → content (k.filp_open f Bool.false).1 ≡ content f
  -- `get_order` is the logarithm of the pages that hold so many bytes.
  pub get_order_lem : (n : ℕ) → n ≤ 4096 * 2 ^ k.get_order n
