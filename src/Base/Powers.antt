-- ===== src/Base/Powers.antt =====
-- Doubling.
use Prim.Native.Nat.{ℕ, suc, ◌*◌, ◌^◌}
use mathlib.Core.Path.{◌≡◌, ap}
use native.Mathlib.Nat.{pow-suc}
use native.Mathlib.Omega.{arith}

pub double_pow : (t n : ℕ) → t * 2 ^ n * 2 ≡ t * 2 ^ suc n
double_pow t n = omega (arith, ap (λ (x : ℕ). t * x) (pow-suc 2 n))
