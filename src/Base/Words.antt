-- ===== src/Base/Words.antt =====
-- Machine words as native numbers: big-endian fields and the byte operations of the RTP code.
use Prim.Native.Nat.{ℕ, zero, suc, ◌+◌, ◌*◌, ◌/◌, ◌%◌, ◌<◌, bit_or}
use mathlib.Core.Path.{◌≡◌, refl}
use mathlib.Core.Bool.{Bool, true, ◌&&◌}
use mathlib.Core.List.{List, [], ◌∷◌}
use native.Mathlib.Omega.{arith}
use wavekat_sip.Base.Tests.{◌==◌, ==_iff}

-- `u16::to_be_bytes`, `u32::to_be_bytes`.
abbrev pub be_bytes16 : ℕ → List ℕ
be_bytes16 n = n / 256 % 256 ∷ n % 256 ∷ []

abbrev pub be_bytes32 : ℕ → List ℕ
be_bytes32 n = n / 16777216 % 256 ∷ n / 65536 % 256 ∷ n / 256 % 256 ∷ n % 256 ∷ []

-- `u16::from_be_bytes`, `u32::from_be_bytes`.
abbrev pub from_be16 : ℕ → ℕ → ℕ
from_be16 a b = a * 256 + b

abbrev pub from_be32 : ℕ → ℕ → ℕ → ℕ → ℕ
from_be32 a b c d = a * 16777216 + b * 65536 + c * 256 + d

pub from_be16-be_bytes16 : (n : ℕ) → n < 65536 → from_be16 (n / 256 % 256) (n % 256) ≡ n
from_be16-be_bytes16 n h = omega arith

pub from_be32-be_bytes32 :
    (n : ℕ)
    → n < 4294967296
    → from_be32 (n / 16777216 % 256) (n / 65536 % 256) (n / 256 % 256) (n % 256) ≡ n
from_be32-be_bytes32 n h = omega arith

-- A test holds at `n - 1`, …, 1, 0.
tested : (ℕ → Bool) → ℕ → Bool
tested test zero = true
tested test (suc n) = tested test n && test n

tested_at : (test : ℕ → Bool) (n x : ℕ) → x < n → tested test n ≡ true → test x ≡ true
unfolding tested
tested_at test zero x lt h = absurd (omega arith)
tested_at test (suc n) x lt h = ground (arith, tested_at test n x)

seven_bits_top : tested (λ x. bit_or 0x80 x == 128 + x) 128 ≡ true
unfolding tested
seven_bits_top = refl

seven_bits_clear : tested (λ x. bit_or 0x00 x == x) 128 ≡ true
unfolding tested
seven_bits_clear = refl

-- `0x80 | x` and `0x00 | x` on seven bits.
pub bit_or-top : (x : ℕ) → x < 128 → bit_or 0x80 x ≡ 128 + x
bit_or-top x h = (==_iff _ _).0 (tested_at _ 128 x h seven_bits_top)

pub bit_or-clear : (x : ℕ) → x < 128 → bit_or 0x00 x ≡ x
bit_or-clear x h = (==_iff _ x).0 (tested_at _ 128 x h seven_bits_clear)
