-- ===== src/Prelude/Bytes.antt =====
-- Little-endian words in a buffer of bytes.
use Prim.Native.Nat.{ℕ, zero, suc, ◌+◌, ◌^◌, ◌≤◌, ◌<◌}
use mathlib.Core.Path.{◌≡◌, refl, ap}
use mathlib.Core.Logic.{◌⊎◌}
use mathlib.Core.List.{List, [], ◌∷◌}
use native.Mathlib.Omega.{arith}
use barelog.Prelude.Lists.{
  length, get_or, set, take, drop, overlay, length-set, get_or-set_self, get_or-set_ne,
}
use barelog.Prelude.Words.{from_le16, from_le32, byte_of, from_le32-bytes}

pub take-set {ℓ} :
    {A : Type ℓ} (n : ℕ) (xs : List A) (i : ℕ) (v : A) → take n (set xs i v) ≡ set (take n xs) i v
take-set zero xs i v = refl
take-set (suc n) [] i v = refl
take-set (suc n) (x ∷ xs) zero v = refl
take-set (suc n) (x ∷ xs) (suc i) v = ap (λ t. x ∷ t) (take-set n xs i v)

pub take-overlay {ℓ} :
    {A : Type ℓ} (bs ring : List A)
    → length bs ≤ length ring
    → take (length bs) (overlay bs ring) ≡ bs
take-overlay [] ring h = refl
take-overlay (b ∷ bs) [] h = absurd (omega arith)
take-overlay (b ∷ bs) (x ∷ ring) h = ap (λ t. b ∷ t) (take-overlay bs ring (omega arith))

-- A buffer behind its first `n` elements, when something is written there.
pub drop-overlay {ℓ} :
    {A : Type ℓ} (n : ℕ) (bs ring : List A) → length bs ≤ n → drop n (overlay bs ring) ≡ drop n ring
drop-overlay n [] ring h = refl
drop-overlay zero (b ∷ bs) ring h = absurd (omega arith)
drop-overlay (suc n) (b ∷ bs) [] h = refl
drop-overlay (suc n) (b ∷ bs) (x ∷ ring) h = drop-overlay n bs ring (omega arith)

pub drop-set_lt {ℓ} :
    {A : Type ℓ} (n i : ℕ) (xs : List A) (v : A) → i < n → drop n (set xs i v) ≡ drop n xs
drop-set_lt n i [] v h = refl
drop-set_lt zero i (x ∷ xs) v h = absurd (omega arith)
drop-set_lt (suc n) zero (x ∷ xs) v h = refl
drop-set_lt (suc n) (suc i) (x ∷ xs) v h = drop-set_lt n i xs v (omega arith)

-- Four bytes stored from `off` on.
abbrev pub set4 : List ℕ → ℕ → ℕ → ℕ → ℕ → ℕ → List ℕ
set4 buf off a b c d = set (set (set (set buf off a) (off + 1) b) (off + 2) c) (off + 3) d

module _ (buf : List ℕ) (off : ℕ) (a b c d : ℕ) where
  pub get_or-set4_ne :
      (i : ℕ) → (i < off) ⊎ (off + 3 < i) → get_or (set4 buf off a b c d) i 0 ≡ get_or buf i 0
  get_or-set4_ne i h = rw (
    get_or-set_ne (set (set (set buf off a) (off + 1) b) (off + 2) c) (off + 3) i d 0 (omega arith),
    get_or-set_ne (set (set buf off a) (off + 1) b) (off + 2) i c 0 (omega arith),
    get_or-set_ne (set buf off a) (off + 1) i b 0 (omega arith),
    get_or-set_ne buf off i a 0 (omega arith),
  )

  pub get_or-set3_last :
      get_or (set (set (set buf off a) (off + 1) b) (off + 2) c) (off + 3) 0
      ≡ get_or buf (off + 3) 0
  get_or-set3_last = rw (
    get_or-set_ne (set (set buf off a) (off + 1) b) (off + 2) (off + 3) c 0 (omega arith),
    get_or-set_ne (set buf off a) (off + 1) (off + 3) b 0 (omega arith),
    get_or-set_ne buf off (off + 3) a 0 (omega arith),
  )

  pub length-set4 : length (set4 buf off a b c d) ≡ length buf
  length-set4 = omega (arith, length-set {0})

module _ (buf : List ℕ) (off : ℕ) (a b c d : ℕ) (h : off + 3 < length buf) where
  pub byte_0 : get_or (set4 buf off a b c d) off 0 ≡ a
  byte_0 =
      rw
        (
          get_or-set_ne (set (set (set buf off a) (off + 1) b) (off + 2) c) (off + 3) off d 0
              (omega arith),
          get_or-set_ne (set (set buf off a) (off + 1) b) (off + 2) off c 0 (omega arith),
          get_or-set_ne (set buf off a) (off + 1) off b 0 (omega arith),
        )
        (get_or-set_self buf off a 0 (omega arith))

  pub byte_1 : get_or (set4 buf off a b c d) (off + 1) 0 ≡ b
  byte_1 =
      rw
        (
          get_or-set_ne (set (set (set buf off a) (off + 1) b) (off + 2) c) (off + 3) (off + 1) d 0
              (omega arith),
          get_or-set_ne (set (set buf off a) (off + 1) b) (off + 2) (off + 1) c 0 (omega arith),
        )
        (get_or-set_self (set buf off a) (off + 1) b 0 (omega (arith, length-set buf off a)))

  pub byte_2 : get_or (set4 buf off a b c d) (off + 2) 0 ≡ c
  byte_2 =
      rw
        (get_or-set_ne (set (set (set buf off a) (off + 1) b) (off + 2) c) (off + 3) (off + 2) d 0
          (omega arith))
        (get_or-set_self (set (set buf off a) (off + 1) b) (off + 2) c 0
          (omega (arith, length-set {0})))

  pub byte_3 : get_or (set4 buf off a b c d) (off + 3) 0 ≡ d
  byte_3 =
      get_or-set_self (set (set (set buf off a) (off + 1) b) (off + 2) c) (off + 3) d 0
        (omega (arith, length-set {0}))

abbrev pub get_le16 : List ℕ → ℕ → ℕ
get_le16 buf off = from_le16 (get_or buf off 0) (get_or buf (off + 1) 0)

abbrev pub get_le32 : List ℕ → ℕ → ℕ
get_le32 buf off =
    from_le32 (get_or buf off 0) (get_or buf (off + 1) 0) (get_or buf (off + 2) 0)
      (get_or buf (off + 3) 0)

abbrev pub put_le16 : List ℕ → ℕ → ℕ → List ℕ
put_le16 buf off v = set (set buf off (byte_of v 0)) (off + 1) (byte_of v 1)

abbrev pub put_le32 : List ℕ → ℕ → ℕ → List ℕ
put_le32 buf off v = set4 buf off (byte_of v 0) (byte_of v 1) (byte_of v 2) (byte_of v 3)

pub get_le32-put_le32 :
    (buf : List ℕ) (off v : ℕ)
    → off + 3 < length buf
    → v < 2 ^ 32
    → get_le32 (put_le32 buf off v) off ≡ v
get_le32-put_le32 buf off v h lt =
    rw
      (
        byte_0 buf off (byte_of v 0) (byte_of v 1) (byte_of v 2) (byte_of v 3) h,
        byte_1 buf off (byte_of v 0) (byte_of v 1) (byte_of v 2) (byte_of v 3) h,
        byte_2 buf off (byte_of v 0) (byte_of v 1) (byte_of v 2) (byte_of v 3) h,
        byte_3 buf off (byte_of v 0) (byte_of v 1) (byte_of v 2) (byte_of v 3) h,
      )
      (from_le32-bytes v lt)
