-- ===== src/Prelude/Int.antt =====
-- Go's int and time.Duration where a value may be negative.
use Prim.Native.Nat.{ℕ, zero, suc, ◌+◌, ◌-◌, ◌^◌}
use mathlib.Core.Bool.{Bool, true, false}
use mathlib.Core.Path.{◌≡◌, refl, ap}
use mathlib.Core.Logic.{◌≢◌, inl, inr}
use native.Mathlib.Omega.{arith}
use caddy_docker_proxy.Prelude.Tests.{leb, ◌==◌, ==_iff, Bool-cases, if◌then◌else◌}

-- `negsuc n` is -(n + 1).
pub data ℤ : Type 0 where
  pos : ℕ → ℤ
  negsuc : ℕ → ℤ

-- `n > 0`
abbrev pub is_positive : ℤ → Bool
is_positive (pos (suc n)) = true
is_positive _ = false

-- `a <= b`
abbrev pub int_leb : ℤ → ℤ → Bool
int_leb (pos m) (pos n) = leb m n
int_leb (negsuc m) (pos n) = true
int_leb (pos m) (negsuc n) = false
int_leb (negsuc m) (negsuc n) = leb n m

-- `n++` on an int64: the greatest goes to the least.
abbrev pub increment_int64 : ℤ → ℤ
increment_int64 (pos n) = if n == 2 ^ 63 - 1 then negsuc (2 ^ 63 - 1) else pos (n + 1)
increment_int64 (negsuc zero) = pos 0
increment_int64 (negsuc (suc n)) = negsuc n

pub int_leb_refl : (a : ℤ) → int_leb a a ≡ true
int_leb_refl (pos n) = ground arith
int_leb_refl (negsuc n) = ground arith

pub int_leb_trans : (a b c : ℤ) → int_leb a b ≡ true → int_leb b c ≡ true → int_leb a c ≡ true
int_leb_trans (pos a) (pos b) (pos c) h k = ground arith
int_leb_trans (negsuc a) (negsuc b) (negsuc c) h k = ground arith
int_leb_trans (negsuc a) b (pos c) h k = refl
int_leb_trans (pos a) (negsuc b) c h k = absurd (cc)
int_leb_trans a (pos b) (negsuc c) h k = absurd (cc)

pub int_leb_antisym : (a b : ℤ) → int_leb a b ≡ true → int_leb b a ≡ true → a ≡ b
int_leb_antisym (pos a) (pos b) h k = ground arith
int_leb_antisym (negsuc a) (negsuc b) h k = ground arith
int_leb_antisym (pos a) (negsuc b) h k = absurd (cc)
int_leb_antisym (negsuc a) (pos b) h k = absurd (cc)

-- Short of the greatest int64, a number is less than the next.
pub increment_int64-gt : (a : ℤ) → a ≢ pos (2 ^ 63 - 1) → int_leb (increment_int64 a) a ≡ false
increment_int64-gt (pos n) h = elim (Bool-cases (n == 2 ^ 63 - 1)) [
  | inl e ↦ absurd (h (ap pos ((==_iff n (2 ^ 63 - 1)).0 e)))
  | inr e ↦ rw e (ground arith)
]
increment_int64-gt (negsuc zero) h = refl
increment_int64-gt (negsuc (suc n)) h = ground arith

pub int_leb_total : (a b : ℤ) → int_leb a b ≡ false → int_leb b a ≡ true
int_leb_total (pos a) (pos b) h = ground arith
int_leb_total (negsuc a) (negsuc b) h = ground arith
int_leb_total (pos a) (negsuc b) h = refl
int_leb_total (negsuc a) (pos b) h = absurd (cc)
