-- ===== src/Common/Outcome.antt =====
-- The results of the driver's functions, and the `errno` values that it returns.
use Prim.Native.Nat.{ℕ}

-- `err e` is the return value `-e`; `oops` is an access through NULL or out of an array's range.
pub data Result {ℓ} (A : Type ℓ) : Type ℓ where
  ok : A → Result A
  err : ℕ → Result A
  oops : Result A

abbrev pub eio : ℕ
eio = 5

abbrev pub enomem : ℕ
enomem = 12

abbrev pub ebusy : ℕ
ebusy = 16

abbrev pub enodev : ℕ
enodev = 19

abbrev pub einval : ℕ
einval = 22

abbrev pub efbig : ℕ
efbig = 27
