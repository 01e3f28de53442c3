-- ===== src/Base/Bits.antt =====
-- When `a | b` and `a ^ b` are 0. The recursion on binary digits of the native operations is followed.
use Prim.Native.Nat.{
  ℕ, zero, suc, ◌/◌, ◌%◌, ◌≤◌, max, digits, differ, bit_or, bit_xor, bit_or-bitwise,
  bit_xor-bitwise,
}
use mathlib.Core.Path.{◌≡◌, refl, sym, ap}
use native.Mathlib.Omega.{arith}

differ-zero : (x y : ℕ) → differ x y ≡ 0 → x ≡ y
differ-zero zero y h = sym h
differ-zero (suc x) zero h = h
differ-zero (suc x) (suc y) h = ap suc (differ-zero x y h)

differ_same : (x : ℕ) → differ x x ≡ 0
differ_same zero = refl
differ_same (suc x) = differ_same x

digits-max : (n a b : ℕ) → a ≤ n → digits (λ y. y) max n a b ≡ 0 → (a ≡ 0) × (b ≡ 0)
digits-max zero zero b le h = (refl, h)
digits-max zero (suc a) b le h = absurd (omega arith)
digits-max (suc n) zero b le h = (refl, h)
digits-max (suc n) (suc a) b le h =
    let (p, q) = digits-max n (suc a / 2) (b / 2) (omega arith) (omega arith) in
    (omega arith, omega arith)

digits-differ : (n a b : ℕ) → a ≤ n → digits (λ y. y) differ n a b ≡ 0 → a ≡ b
digits-differ zero zero b le h = sym h
digits-differ zero (suc a) b le h = absurd (omega arith)
digits-differ (suc n) zero b le h = sym h
digits-differ (suc n) (suc a) b le h =
    let p = digits-differ n (suc a / 2) (b / 2) (omega arith) (omega arith) in
    let q = differ-zero (suc a % 2) (b % 2) (omega arith) in omega arith

digits-same : (n a : ℕ) → a ≤ n → digits (λ y. y) differ n a a ≡ 0
digits-same zero zero le = refl
digits-same zero (suc a) le = absurd (omega arith)
digits-same (suc n) zero le = refl
digits-same (suc n) (suc a) le =
    let p = digits-same n (suc a / 2) (omega arith) in
    let q = differ_same (suc a % 2) in omega arith

pub bit_or-zero : (a b : ℕ) → bit_or a b ≡ 0 → (a ≡ 0) × (b ≡ 0)
bit_or-zero a b h = digits-max a a b (omega arith) (simp bit_or-bitwise at h)

pub bit_xor-zero : (a b : ℕ) → bit_xor a b ≡ 0 → a ≡ b
bit_xor-zero a b h = digits-differ a a b (omega arith) (simp bit_xor-bitwise at h)

pub bit_xor_same : (a : ℕ) → bit_xor a a ≡ 0
bit_xor_same a = simp bit_xor-bitwise (digits-same a a (omega arith))
