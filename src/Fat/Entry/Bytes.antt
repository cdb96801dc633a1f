-- ===== src/Fat/Entry/Bytes.antt =====
-- The four bytes of an entry in a sector.
use barelog.Prelude.{
  ℕ, ◌+◌, ◌*◌, ◌/◌, ◌%◌, ◌^◌, ◌≤◌, ◌<◌, ◌≡◌, ◌⊎◌, ap, ap₂, sym, ◌∙◌, List, arith, length, get_or,
  set, take, low_bits, from_le32, overlay, u8, shr, high_nibble, bit_or, length-set, get_or-take,
  get_or-overlay_lt, bit_or_nibbles,
}
use barelog.Prelude.Bytes.{
  take-set, set4, get_or-set4_ne, get_or-set3_last, byte_0, byte_1, byte_2, byte_3,
}
use barelog.Fat.{entry_at, patch_entry}

pub entry_at-overlay :
    (bs ring : List ℕ) (off : ℕ)
    → off + 3 < length bs
    → length bs ≤ length ring
    → entry_at (overlay bs ring) off ≡ entry_at bs off
entry_at-overlay bs ring off h k = rw (
  get_or-overlay_lt bs ring off 0 (omega arith) k,
  get_or-overlay_lt bs ring (off + 1) 0 (omega arith) k,
  get_or-overlay_lt bs ring (off + 2) 0 (omega arith) k,
  get_or-overlay_lt bs ring (off + 3) 0 h k,
)

pub length-patch_entry :
    (buf : List ℕ) (off val : ℕ) → length (patch_entry buf off val) ≡ length buf
length-patch_entry buf off val = omega (arith, length-set {0})

entry_at-set4 :
    (buf : List ℕ) (off a b c d : ℕ)
    → off + 3 < length buf
    → entry_at (set4 buf off a b c d) off ≡ low_bits (from_le32 a b c d) 28
entry_at-set4 buf off a b c d h = rw (
  byte_0 buf off a b c d h,
  byte_1 buf off a b c d h,
  byte_2 buf off a b c d h,
  byte_3 buf off a b c d h,
)

-- The upper nibble of the last byte, which `fat_write_entry` keeps.
abbrev last_byte : List ℕ → ℕ → ℕ → ℕ
last_byte buf off val = u8 (bit_or (high_nibble (get_or buf (off + 3) 0)) (u8 (shr val 24)))

patch_entry-set4 :
    (buf : List ℕ) (off val : ℕ)
    → patch_entry buf off val
      ≡ set4 buf off (u8 val) (u8 (shr val 8)) (u8 (shr val 16)) (last_byte buf off val)
patch_entry-set4 buf off val =
    ap
      (λ w.
        set
          (set (set (set buf off (u8 val)) (off + 1) (u8 (shr val 8))) (off + 2) (u8 (shr val 16)))
          (off + 3) (u8 (bit_or (high_nibble w) (u8 (shr val 24)))))
      (get_or-set3_last buf off (u8 val) (u8 (shr val 8)) (u8 (shr val 16)) 0)

-- Patching a whole buffer patches its prefix.
pub take-patch_entry :
    (n : ℕ) (buf : List ℕ) (off val : ℕ)
    → off + 3 < n
    → take n (patch_entry buf off val) ≡ patch_entry (take n buf) off val
take-patch_entry n buf off val h = rw (
  patch_entry-set4 buf off val,
  patch_entry-set4 (take n buf) off val,
  get_or-take n buf (off + 3) 0 h,
  take-set,
  take-set,
  take-set,
  take-set,
)

last_byte-lem :
    (buf : List ℕ) (off val : ℕ)
    → val < 2 ^ 28
    → last_byte buf off val ≡ high_nibble (get_or buf (off + 3) 0) + shr val 24
last_byte-lem buf off val h =
    let o : ℕ = get_or buf (off + 3) 0 in
    let x : ℕ = high_nibble o + shr val 24 in
    let hi : x / 16 * 16 ≡ high_nibble o = omega arith in
    let lo : x % 16 ≡ u8 (shr val 24) = omega arith in
    let small : x < 256 = omega arith in
    let joined : bit_or (high_nibble o) (u8 (shr val 24)) ≡ x =
      ap₂ bit_or (sym hi) (sym lo) ∙ bit_or_nibbles x small in
    omega (arith, joined)

-- Reading back what was patched in gives its low 28 bits.
pub entry_at-patch_entry :
    (buf : List ℕ) (off val : ℕ)
    → off + 3 < length buf
    → val < 2 ^ 28
    → entry_at (patch_entry buf off val) off ≡ val
entry_at-patch_entry buf off val h lt =
    ap (λ t. entry_at t off) (patch_entry-set4 buf off val)
    ∙ entry_at-set4 buf off (u8 val) (u8 (shr val 8)) (u8 (shr val 16)) (last_byte buf off val) h
    ∙ omega (arith, last_byte-lem buf off val lt)

-- A patch leaves every byte outside its four alone.
pub get_or-patch_entry_ne :
    (buf : List ℕ) (off val i : ℕ)
    → (i < off) ⊎ (off + 3 < i)
    → get_or (patch_entry buf off val) i 0 ≡ get_or buf i 0
get_or-patch_entry_ne buf off val i h =
    ap (λ t. get_or t i 0) (patch_entry-set4 buf off val)
    ∙ get_or-set4_ne buf off (u8 val) (u8 (shr val 8)) (u8 (shr val 16)) (last_byte buf off val) i h
