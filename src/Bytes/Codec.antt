-- ===== src/Bytes/Codec.antt =====
-- A number of `n` bytes, stored with the lowest byte first, and back.
use native.Mathlib.Nat.{pow-suc}
use moocbt.Common.{
  ℕ, zero, suc, ◌+◌, ◌*◌, ◌/◌, ◌%◌, ◌^◌, ◌<◌, ◌≡◌, refl, ap, List, [], ◌∷◌, arith, length, All,
}

unfoldable pub le_bytes : ℕ → ℕ → List ℕ
le_bytes zero v = []
le_bytes (suc n) v = (v % 256) ∷ le_bytes n (v / 256)

unfoldable pub le_val : List ℕ → ℕ
le_val [] = 0
le_val (b ∷ bs) = b + 256 * le_val bs

pub length-le_bytes : (n v : ℕ) → length (le_bytes n v) ≡ n
unfolding le_bytes
length-le_bytes zero v = refl
length-le_bytes (suc n) v = ap suc (length-le_bytes n (v / 256))

pub le_val-le_bytes : (n v : ℕ) → v < 256 ^ n → le_val (le_bytes n v) ≡ v
unfolding le_bytes le_val
le_val-le_bytes zero v h = omega arith
le_val-le_bytes (suc n) v h =
    let small : v / 256 < 256 ^ n = omega (arith, pow-suc 256 n) in
    omega (arith, le_val-le_bytes n (v / 256) small)

pub le_val-lt : (bs : List ℕ) → All (λ b. b < 256) bs → le_val bs < 256 ^ length bs
unfolding le_val
le_val-lt [] h = omega arith
le_val-lt (b ∷ bs) h = omega (arith, pow-suc 256 (length bs), le_val-lt bs h.1)
