-- ===== src/Prelude/Digits.antt =====
-- The binary digits of `|` and `&` on bytes.
use Prim.Native.Nat.{
  ℕ, zero, suc, bit_or, bit_or-bitwise, bit_and, bit_and-bitwise, digits, min, max, ◌+◌, ◌*◌, ◌/◌,
  ◌%◌, ◌^◌, ◌<◌, ◌≤◌,
}
use mathlib.Core.Path.{◌≡◌, refl, ap, ap₂, ◌∙◌, sym}
use mathlib.Core.Bool.{◌&&◌, ◌||◌}
use native.Mathlib.Omega.{arith}
use barelog.Prelude.Tests.{◌==◌}
use barelog.Prelude.Words.{test_bit}

digit : ℕ → ℕ → ℕ
digit x zero = x % 2
digit x (suc k) = digit (x / 2) k

digit-zero : (k : ℕ) → digit 0 k ≡ 0
unfolding digit
digit-zero zero = refl
digit-zero (suc k) = digit-zero k

-- A digit-wise operation of which the digits are known once the first number has run out.
module _ (z : ℕ → ℕ) (f : ℕ → ℕ → ℕ) (small : (x y : ℕ) → f (x % 2) (y % 2) < 2)
    (past : (b k : ℕ) → digit (z b) k ≡ f 0 (digit b k)) where
  digit-digits : (n a b k : ℕ) → a ≤ n → digit (digits z f n a b) k ≡ f (digit a k) (digit b k)
  unfolding digit
  digit-digits zero a b k h =
      let none : a ≡ 0 = omega arith in
      past b k ∙ ap (λ d. f d (digit b k)) (sym (ap (λ x. digit x k) none ∙ digit-zero k))
  digit-digits (suc n) zero b k h = past b k ∙ ap (λ d. f d (digit b k)) (sym (digit-zero k))
  digit-digits (suc n) (suc a) b zero h = let low = small (suc a) b in omega arith
  digit-digits (suc n) (suc a) b (suc k) h =
      let low = small (suc a) b in
      let up : ℕ = digits z f n (suc a / 2) (b / 2) in
      let halved : (up * 2 + f (suc a % 2) (b % 2)) / 2 ≡ up = omega arith in
      ap (λ x. digit x k) halved ∙ digit-digits n (suc a / 2) (b / 2) k (omega arith)

digit-bit_or : (a b k : ℕ) → digit (bit_or a b) k ≡ max (digit a k) (digit b k)
digit-bit_or a b k =
    ap (λ x. digit x k) (bit_or-bitwise a b)
    ∙ digit-digits (λ x. x) max (λ x y. omega arith) (λ b k. omega arith) a a b k (omega arith)

digit-bit_and : (a b k : ℕ) → digit (bit_and a b) k ≡ min (digit a k) (digit b k)
digit-bit_and a b k =
    ap (λ x. digit x k) (bit_and-bitwise a b)
    ∙ digit-digits (λ x. 0) min (λ x y. omega arith) (λ b k. omega (arith, digit-zero k)) a a b k
        (omega arith)

digit_lem : (x k : ℕ) → k < 8 → digit x k ≡ x / 2 ^ k % 2
unfolding digit
digit_lem x zero h = omega arith
digit_lem x (suc zero) h = omega arith
digit_lem x (suc (suc zero)) h = omega arith
digit_lem x (suc (suc (suc zero))) h = omega arith
digit_lem x (suc (suc (suc (suc zero)))) h = omega arith
digit_lem x (suc (suc (suc (suc (suc zero))))) h = omega arith
digit_lem x (suc (suc (suc (suc (suc (suc zero)))))) h = omega arith
digit_lem x (suc (suc (suc (suc (suc (suc (suc zero))))))) h = omega arith
digit_lem x (suc (suc (suc (suc (suc (suc (suc (suc k)))))))) h = absurd (omega arith)

digit-lt : (x k : ℕ) → digit x k < 2
unfolding digit
digit-lt x zero = omega arith
digit-lt x (suc k) = digit-lt (x / 2) k

test_digit : (x k : ℕ) → k < 8 → test_bit x k ≡ (digit x k == 1)
test_digit x k h = ap (λ d. d == 1) (sym (digit_lem x k h))

pub test_bit-bit_or : (a b k : ℕ) → k < 8 → test_bit (bit_or a b) k ≡ (test_bit a k || test_bit b k)
test_bit-bit_or a b k h =
    test_digit (bit_or a b) k h
    ∙ ap (λ d. d == 1) (digit-bit_or a b k)
    ∙ either (digit a k) (digit b k) (digit-lt a k) (digit-lt b k)
    ∙ sym (ap₂ (λ p q. p || q) (test_digit a k h) (test_digit b k h))
  where
    either : (x y : ℕ) → x < 2 → y < 2 → (max x y == 1) ≡ (x == 1 || y == 1)
    either x y hx hy = ground arith

pub test_bit-bit_and :
    (a b k : ℕ) → k < 8 → test_bit (bit_and a b) k ≡ (test_bit a k && test_bit b k)
test_bit-bit_and a b k h =
    test_digit (bit_and a b) k h
    ∙ ap (λ d. d == 1) (digit-bit_and a b k)
    ∙ both (digit a k) (digit b k) (digit-lt a k) (digit-lt b k)
    ∙ sym (ap₂ (λ p q. p && q) (test_digit a k h) (test_digit b k h))
  where
    both : (x y : ℕ) → x < 2 → y < 2 → (min x y == 1) ≡ (x == 1 && y == 1)
    both x y hx hy = ground arith
