-- ===== src/Prelude/Words.antt =====
-- Machine words as native numbers: the wrap of each width, masks and shifts, little-endian bytes.
use Prim.Native.Nat.{ℕ, zero, suc, bit_or, ◌+◌, ◌-◌, ◌*◌, ◌/◌, ◌%◌, ◌^◌, ◌<◌}
use mathlib.Core.Path.{◌≡◌, refl, sym}
use mathlib.Core.Bool.{Bool, true, false, not, ◌&&◌}
use native.Mathlib.Omega.{arith}
use barelog.Prelude.Tests.{◌==◌, ==_iff, ltb, ltb→lt}

abbrev pub u8 : ℕ → ℕ
u8 n = n % 2 ^ 8

abbrev pub u16 : ℕ → ℕ
u16 n = n % 2 ^ 16

abbrev pub u32 : ℕ → ℕ
u32 n = n % 2 ^ 32

-- `a - b` on uint16_t and uint32_t; the modulus is added first since `-` stops at 0.
abbrev pub sub16 : ℕ → ℕ → ℕ
sub16 a b = u16 (a + 2 ^ 16 - u16 b)

abbrev pub sub32 : ℕ → ℕ → ℕ
sub32 a b = u32 (a + 2 ^ 32 - u32 b)

-- `x >> k`, `x & (2^k - 1)` and the test `x & (1 << k)`.
abbrev pub shr : ℕ → ℕ → ℕ
shr x k = x / 2 ^ k

abbrev pub low_bits : ℕ → ℕ → ℕ
low_bits x k = x % 2 ^ k

abbrev pub test_bit : ℕ → ℕ → Bool
test_bit x k = shr x k % 2 == 1

-- `b & 0xF0` of a byte.
abbrev pub high_nibble : ℕ → ℕ
high_nibble b = u8 b / 16 * 16

-- `lo | (hi << 8)` and the four-byte form: the bytes fill disjoint bits, so `|` is a sum.
abbrev pub from_le16 : ℕ → ℕ → ℕ
from_le16 lo hi = lo + hi * 2 ^ 8

abbrev pub from_le32 : ℕ → ℕ → ℕ → ℕ → ℕ
from_le32 a b c d = a + b * 2 ^ 8 + c * 2 ^ 16 + d * 2 ^ 24

-- The byte of a word that `(uint8_t)(x >> 8 * k)` selects.
abbrev pub byte_of : ℕ → ℕ → ℕ
byte_of x k = u8 (shr x (8 * k))

pub from_le32-bytes :
    (x : ℕ) → x < 2 ^ 32 → from_le32 (byte_of x 0) (byte_of x 1) (byte_of x 2) (byte_of x 3) ≡ x
from_le32-bytes x h = omega arith

pub from_le16-bytes : (x : ℕ) → x < 2 ^ 16 → from_le16 (byte_of x 0) (byte_of x 1) ≡ x
from_le16-bytes x h = omega arith

-- A test that holds of every number below `n`, by evaluation.
every_below : ℕ → (ℕ → Bool) → Bool
every_below zero p = true
every_below (suc n) p = p n && every_below n p

every_below_sound : (n : ℕ) (p : ℕ → Bool) (x : ℕ) → every_below n p ≡ true → x < n → p x ≡ true
unfolding every_below
every_below_sound zero p x h lt = absurd (omega arith)
every_below_sound (suc n) p x h lt = ground (arith, every_below_sound n p x)

nibble_table : every_below 256 (λ x. bit_or (x / 16 * 16) (x % 16) == x) ≡ true
unfolding every_below
nibble_table = refl

-- The two nibbles of a byte, joined by `|`.
pub bit_or_nibbles : (x : ℕ) → x < 256 → bit_or (x / 16 * 16) (x % 16) ≡ x
bit_or_nibbles x h = (==_iff _ x).0 (every_below_sound 256 _ x nibble_table h)

-- A Boolean equation that holds of every pair of numbers below bounds.
every_pair : ℕ → ℕ → (ℕ → ℕ → Bool) → Bool
every_pair m n p = every_below m (λ x. every_below n (p x))

same : Bool → Bool → Bool
same true b = b
same false b = not b

same_sound : (a b : Bool) → same a b ≡ true → a ≡ b
unfolding same
same_sound true true h = refl
same_sound true false h = sym h
same_sound false true h = h
same_sound false false h = refl

every_pair_sound :
    (m n : ℕ) (p : ℕ → ℕ → Bool) (x y : ℕ) → every_pair m n p ≡ true → x < m → y < n → p x y ≡ true
unfolding every_pair
every_pair_sound m n p x y h hx hy =
    every_below_sound n (p x) y (every_below_sound m (λ x. every_below n (p x)) x h hx) hy

pow_table : every_pair 8 8 (λ a k. same (test_bit (2 ^ a) k) (k == a)) ≡ true
unfolding every_below every_pair same
pow_table = refl

-- `1 << a` has one bit.
pub test_bit-pow : (a k : ℕ) → a < 8 → k < 8 → test_bit (2 ^ a) k ≡ (k == a)
test_bit-pow a k ha hk =
    same_sound (test_bit (2 ^ a) k) (k == a)
      (every_pair_sound 8 8 (λ a k. same (test_bit (2 ^ a) k) (k == a)) a k pow_table ha hk)

complement_table : every_pair 256 8 (λ m k. same (test_bit (255 - m) k) (not (test_bit m k))) ≡ true
unfolding every_below every_pair same
complement_table = refl

-- The complement of a byte.
pub test_bit-complement : (m k : ℕ) → m < 256 → k < 8 → test_bit (255 - m) k ≡ not (test_bit m k)
test_bit-complement m k hm hk = same_sound (test_bit (255 - m) k) (not (test_bit m k)) (
    every_pair_sound 256 8 (λ m k. same (test_bit (255 - m) k) (not (test_bit m k))) m k
      complement_table hm hk)

byte_table : every_pair 8 8 (λ a b. ltb (bit_or (2 ^ a) (2 ^ b)) 256) ≡ true
unfolding every_below every_pair
byte_table = refl

-- `(1 << a) | (1 << b)` is a byte, and so is `1 << a`.
pub bit_or_pow-lt : (a b : ℕ) → a < 8 → b < 8 → bit_or (2 ^ a) (2 ^ b) < 256
bit_or_pow-lt a b ha hb =
    ltb→lt (bit_or (2 ^ a) (2 ^ b)) 256
      (every_pair_sound 8 8 (λ a b. ltb (bit_or (2 ^ a) (2 ^ b)) 256) a b byte_table ha hb)

power_table : every_below 8 (λ a. ltb (2 ^ a) 256) ≡ true
unfolding every_below
power_table = refl

pub pow-lt : (a : ℕ) → a < 8 → 2 ^ a < 256
pow-lt a h = ltb→lt (2 ^ a) 256 (every_below_sound 8 (λ a. ltb (2 ^ a) 256) a power_table h)
