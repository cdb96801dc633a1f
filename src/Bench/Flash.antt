-- ===== src/Bench/Flash.antt =====
-- A flash in memory, for the emulated EEPROM.
use barelog.Prelude.{
  ℕ, zero, suc, ◌+◌, ◌-◌, ◌%◌, ◌≤◌, ◌<◌, ◌≡◌, ◌⊎◌, refl, ap, ◌∙◌, List, [], ◌∷◌, arith, length,
  get_or, leb, ltb, ◌&&◌, if◌then◌else◌,
}
use barelog.EepromFlash.{FlashChip}
use barelog.EepromFlash.Slots.{IsFlash}

-- `n` bytes from `a` on.
unfoldable pub bytes_from : ℕ → ℕ → (ℕ → ℕ) → List ℕ
bytes_from a zero f = []
bytes_from a (suc n) f = f a % 256 ∷ bytes_from (a + 1) n f

abbrev pub programmed : ℕ → List ℕ → (ℕ → ℕ) → ℕ → ℕ
programmed a bs f k = if leb a k && ltb k (a + length bs) then get_or bs (k - a) 0 else f k

abbrev pub memory_flash : FlashChip
memory_flash = record {
  Flash = ℕ → ℕ;
  base_addr = 4096;
  size = 1024;
  erase_sector = λ a f k. if leb a k && ltb k (a + 1024) then 0xFF else f k;
  write_bytes = programmed;
  read_bytes = bytes_from;
}

pub length-bytes_from : (a n : ℕ) (f : ℕ → ℕ) → length (bytes_from a n f) ≡ n
unfolding bytes_from
length-bytes_from a zero f = refl
length-bytes_from a (suc n) f = ap (λ k. suc k) (length-bytes_from (a + 1) n f)

pub get_or-bytes_from :
    (a n i : ℕ) (f : ℕ → ℕ) → i < n → get_or (bytes_from a n f) i 0 ≡ f (a + i) % 256
unfolding bytes_from
get_or-bytes_from a zero i f h = absurd (omega arith)
get_or-bytes_from a (suc n) zero f h = ap (λ k. f k % 256) (omega arith)
get_or-bytes_from a (suc n) (suc i) f h =
    get_or-bytes_from (a + 1) n i f (omega arith) ∙ ap (λ k. f k % 256) (omega arith)

pub programmed_inside :
    (a i : ℕ) (bs : List ℕ) (f : ℕ → ℕ)
    → i < length bs
    → get_or bs i 0 < 256
    → programmed a bs f (a + i) % 256 ≡ get_or bs i 0
programmed_inside a i bs f lt small =
    let same : a + i - a ≡ i = omega arith in rw same (ground arith)

pub programmed_outside :
    (a k : ℕ) (bs : List ℕ) (f : ℕ → ℕ)
    → (k < a) ⊎ (a + length bs ≤ k)
    → programmed a bs f k % 256 ≡ f k % 256
programmed_outside a k bs f h = ground arith

unfoldable pub memory_flash-IsFlash : IsFlash memory_flash
memory_flash-IsFlash = record {
  byte = λ f a. f a % 256;
  byte-lt = λ f a. omega arith;
  length-read = length-bytes_from;
  read_lem = get_or-bytes_from;
  write_inside = λ a i bs f lt small old. programmed_inside a i bs f lt small;
  write_outside = programmed_outside;
}
