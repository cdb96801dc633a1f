-- ===== src/Logger/Pad/Sector.antt =====
-- The padded sector against the bytes that the ring holds.
use native.Mathlib.Decide.{dec_lt, dec_le}
use barelog.Prelude.{
  ℕ, zero, suc, ◌+◌, ◌-◌, ◌*◌, ◌≤◌, ◌<◌, ◌≡◌, ◌≢◌, sym, ap, ◌∙◌, List, ◌++◌, arith, length, get_or,
  take, replicate, length-append, length-replicate, length-take, get_or-append_lt, get_or-append_ge,
  get_or-replicate, get_or-take, get_or_ext,
}
use barelog.Uart.{Uart, ring_wrap, available}
use barelog.Uart.Contents.{IsValid, window, contents, length-contents}
use barelog.Logger.{copy_ring, zero_ring, pad_sector}
use barelog.Logger.Spans.{spans_one, spans_two}
use barelog.Logger.Pad.Copy.{
  length-copy_ring, length-zero_ring, copy_ring_outside, copy_ring_inside, copy_ring_overlap,
  zero_ring_inside, zero_ring_outside,
}

pub get_or-window :
    (buf : List ℕ) (t n i : ℕ)
    → t < 1024
    → i < n
    → get_or (window buf t n) i 0 ≡ get_or buf (ring_wrap (t + i)) 0
get_or-window buf t zero i ht h = absurd (omega arith)
get_or-window buf t (suc n) zero ht h =
    ap (λ k. get_or buf k 0) {x = t} {y = ring_wrap (t + 0)} (omega arith)
get_or-window buf t (suc n) (suc i) ht h =
    get_or-window buf (ring_wrap (t + 1)) n i (omega arith) (omega arith)
    ∙ ap (λ k. get_or buf k 0) {x = ring_wrap (ring_wrap (t + 1) + i)} {y = ring_wrap (t + suc i)}
        (omega arith)

-- The sector that should be written: the bytes of the ring, then zeros.
abbrev pub padded : Uart → List ℕ
padded u = contents u ++ replicate (512 - available u) 0

pub length-padded : (u : Uart) → available u ≤ 512 → length (padded u) ≡ 512
length-padded u h = omega (
  arith,
  length-append (contents u) (replicate (512 - available u) 0),
  length-contents u,
  length-replicate {A = ℕ} (512 - available u) 0,
)

copy_down :
    (n src : ℕ) (ring : List ℕ) (i : ℕ)
    → n ≤ length ring
    → i < n
    → get_or (copy_ring n 0 src ring) i 0 ≡ get_or ring (src + i) 0
copy_down n src ring i fit lt =
    ap (λ k. get_or (copy_ring n 0 src ring) k 0) {x = i} {y = 0 + i} (omega arith)
    ∙ copy_ring_inside n 0 src ring i (omega arith) (omega arith) lt

pad_one :
    (t n : ℕ) (ring : List ℕ)
    → n ≤ 1024 - t
    → pad_sector t n ring ≡ zero_ring (512 - n) n (copy_ring n 0 t ring)
unfolding pad_sector
pad_one t n ring h = rw (spans_one t n h)

-- The part from the start of the array, behind the bytes that will be moved down.
abbrev wrapped_part : ℕ → ℕ → List ℕ → List ℕ
wrapped_part t n ring = copy_ring (n - (1024 - t)) (1024 - t) 0 ring

pad_two :
    (t n : ℕ) (ring : List ℕ)
    → 1024 - t < n
    → pad_sector t n ring ≡ zero_ring (512 - n) n (copy_ring (1024 - t) 0 t (wrapped_part t n ring))
unfolding pad_sector
pad_two t n ring h = simp (spans_two t n h)

pub length-pad_sector : (t n : ℕ) (ring : List ℕ) → length (pad_sector t n ring) ≡ length ring
length-pad_sector t n ring = elim (dec_le n (1024 - t)) [
  | yes one ↦
      rw (pad_one t n ring one)
        (length-zero_ring (512 - n) n (copy_ring n 0 t ring) ∙ length-copy_ring n 0 t ring)
  | no two ↦ rw (pad_two t n ring (omega arith)) (
      length-zero_ring (512 - n) n (copy_ring (1024 - t) 0 t (wrapped_part t n ring))
      ∙ length-copy_ring (1024 - t) 0 t (wrapped_part t n ring)
      ∙ length-copy_ring (n - (1024 - t)) (1024 - t) 0 ring)
]

module _ (u : Uart) (v : IsValid u) (fits : available u ≤ 512) where
  abbrev first : ℕ
  first = 1024 - u.ring_tail

  abbrev after : List ℕ
  after = pad_sector u.ring_tail (available u) u.ring

  byte_of_contents :
      (i : ℕ)
      → i < available u
      → get_or (padded u) i 0 ≡ get_or u.ring (ring_wrap (u.ring_tail + i)) 0
  byte_of_contents i lt =
      get_or-append_lt (contents u) (replicate (512 - available u) 0) i 0
        (omega (arith, length-contents u))
      ∙ get_or-window u.ring u.ring_tail (available u) i v.tail_in lt

  zero_of_padded : (i : ℕ) → available u ≤ i → get_or (padded u) i 0 ≡ 0
  zero_of_padded i lo =
      get_or-append_ge (contents u) (replicate (512 - available u) 0) i 0
        (omega (arith, length-contents u))
      ∙ get_or-replicate (512 - available u) 0 (i - length (contents u))

  -- Without a wrap: data, then zeros.
  one_data :
      (i : ℕ)
      → available u ≤ first
      → i < available u
      → get_or after i 0 ≡ get_or u.ring (u.ring_tail + i) 0
  one_data i one lt = rw (pad_one u.ring_tail (available u) u.ring one) (
      zero_ring_outside (512 - available u) (available u)
        (copy_ring (available u) 0 u.ring_tail u.ring) i (omega arith)
      ∙ copy_down (available u) u.ring_tail u.ring i (omega (arith, v.size)) lt)

  one_zeros : (i : ℕ) → available u ≤ first → available u ≤ i → i < 512 → get_or after i 0 ≡ 0
  one_zeros i one lo hi = rw (pad_one u.ring_tail (available u) u.ring one) (
      zero_ring_inside (512 - available u) (available u)
        (copy_ring (available u) 0 u.ring_tail u.ring) i
        (omega (arith, v.size, length-copy_ring (available u) 0 u.ring_tail u.ring)) lo
        (omega arith))

  -- With a wrap: the bytes up to the array's end, the bytes from its start, zeros.
  abbrev moved : List ℕ
  moved = wrapped_part u.ring_tail (available u) u.ring

  length-moved : length moved ≡ 1024
  length-moved = length-copy_ring (available u - first) first 0 u.ring ∙ v.size

  two_head :
      (i : ℕ)
      → first < available u
      → i < first
      → get_or after i 0 ≡ get_or u.ring (u.ring_tail + i) 0
  two_head i two lt = rw (pad_two u.ring_tail (available u) u.ring two) (
      zero_ring_outside (512 - available u) (available u) (copy_ring first 0 u.ring_tail moved) i
        (omega arith)
      ∙ copy_down first u.ring_tail moved i (omega (arith, length-moved)) lt
      ∙ copy_ring_outside (available u - first) first 0 u.ring (u.ring_tail + i) (omega arith))

  two_tail :
      (i : ℕ)
      → first < available u
      → first ≤ i
      → i < available u
      → get_or after i 0 ≡ get_or moved i 0
  two_tail i two lo hi = rw (pad_two u.ring_tail (available u) u.ring two) (
      zero_ring_outside (512 - available u) (available u) (copy_ring first 0 u.ring_tail moved) i
        (omega arith)
      ∙ copy_ring_outside first 0 u.ring_tail moved i (omega arith))

  two_zeros : (i : ℕ) → first < available u → available u ≤ i → i < 512 → get_or after i 0 ≡ 0
  two_zeros i two lo hi = rw (pad_two u.ring_tail (available u) u.ring two) (
      zero_ring_inside (512 - available u) (available u) (copy_ring first 0 u.ring_tail moved) i
        (omega (arith, length-moved, length-copy_ring first 0 u.ring_tail moved)) lo (omega arith))

  moved_byte :
      (i : ℕ)
      → available u ≤ 2 * first
      → first ≤ i
      → i < available u
      → get_or moved i 0 ≡ get_or u.ring (i - first) 0
  moved_byte i short lo hi =
      ap (λ k. get_or moved k 0) {x = i} {y = first + (i - first)} (omega arith)
      ∙ copy_ring_inside (available u - first) first 0 u.ring (i - first) (omega arith)
          (omega (arith, v.size)) (omega arith)
      ∙ ap (λ k. get_or u.ring k 0) {x = 0 + (i - first)} {y = i - first} (omega arith)

  data_byte :
      (i : ℕ) → available u ≤ 2 * first → i < available u → get_or after i 0 ≡ get_or (padded u) i 0
  data_byte i short lt = elim (dec_le (available u) first) [
    | yes one ↦ one_data i one lt ∙ straight i (omega arith)
    | no two ↦ elim (dec_lt i first) [
      | yes head ↦ two_head i (omega arith) head ∙ straight i (omega arith)
      | no tail ↦
          two_tail i (omega arith) (omega arith) lt
          ∙ moved_byte i short (omega arith) lt
          ∙ ap (λ k. get_or u.ring k 0) {x = i - first} {y = ring_wrap (u.ring_tail + i)}
              (omega arith)
          ∙ sym (byte_of_contents i lt)
    ]
  ]
    where
      straight :
          (j : ℕ)
          → (j ≡ i) × (u.ring_tail + i < 1024)
          → get_or u.ring (u.ring_tail + i) 0 ≡ get_or (padded u) i 0
      straight j h =
          ap (λ k. get_or u.ring k 0) {x = u.ring_tail + i} {y = ring_wrap (u.ring_tail + i)}
            (omega arith)
          ∙ sym (byte_of_contents i lt)

  zero_byte : (i : ℕ) → available u ≤ i → i < 512 → get_or after i 0 ≡ get_or (padded u) i 0
  zero_byte i lo hi = elim (dec_le (available u) first) [
    | yes one ↦ one_zeros i one lo hi ∙ sym (zero_of_padded i lo)
    | no two ↦ two_zeros i (omega arith) lo hi ∙ sym (zero_of_padded i lo)
  ]

  -- For a valid ring with at most 512 bytes, of which at most half lie behind the wrap, the first
  -- 512 bytes that `log_flush` builds are the bytes of the ring, in order, padded with zeros.
  pub pad_sector-padded : available u ≤ 2 * first → take 512 after ≡ padded u
  pad_sector-padded short =
      get_or_ext 0 (take 512 after) (padded u)
        (omega (
          arith,
          length-take 512 after,
          length-pad_sector u.ring_tail (available u) u.ring,
          v.size,
          length-padded u fits,
        ))
        (λ i lt. byte i (omega (arith, length-take 512 after)))
    where
      byte : (i : ℕ) → i < 512 → get_or (take 512 after) i 0 ≡ get_or (padded u) i 0
      byte i lt = get_or-take 512 after i 0 lt ∙ elim (dec_lt i (available u)) [
        | yes here ↦ data_byte i short here
        | no behind ↦ zero_byte i (omega arith) lt
      ]

  -- If more bytes lie behind the wrap than before it, the copy overwrites bytes that it has still
  -- to read: from twice the first span's length on, the sector repeats what it holds one span
  -- earlier.
  pub pad_sector_repeats :
      (i : ℕ)
      → 0 < first
      → 2 * first ≤ i
      → i < available u
      → get_or (take 512 after) i 0 ≡ get_or (take 512 after) (i - first) 0
  pad_sector_repeats i pos lo lt =
      get_or-take 512 after i 0 (omega arith)
      ∙ two_tail i (omega arith) (omega arith) lt
      ∙ ap (λ k. get_or moved k 0) {x = i} {y = first + (i - first)} (omega arith)
      ∙ overlap
      ∙ ap (λ k. get_or moved k 0) {x = 0 + (i - first)} {y = i - first} (omega arith)
      ∙ sym (
          get_or-take 512 after (i - first) 0 (omega arith)
          ∙ two_tail (i - first) (omega arith) (omega arith) (omega arith))
    where
      none_before : 0 + first ≡ first
      none_before = omega arith

      overlap : get_or moved (first + (i - first)) 0 ≡ get_or moved (0 + (i - first)) 0
      overlap = rw none_before at (
          copy_ring_overlap (available u - first) 0 first u.ring (i - first) pos
            (omega (arith, v.size)) (omega arith))

  -- For a valid ring with at most 512 bytes, if more of them lie behind the wrap than before it, and
  -- one at an index of at least twice the first span's length differs from the byte one span
  -- earlier, the sector that `log_flush` builds is not the data of the ring.
  pub pad_sector_corrupts :
      (i : ℕ)
      → 0 < first
      → 2 * first ≤ i
      → i < available u
      → get_or (contents u) i 0 ≢ get_or (contents u) (i - first) 0
      → take 512 after ≢ padded u
  pad_sector_corrupts i pos lo lt differ same = differ (
      sym (in_padded i lt)
      ∙ ap (λ b. get_or b i 0) (sym same)
      ∙ pad_sector_repeats i pos lo lt
      ∙ ap (λ b. get_or b (i - first) 0) same
      ∙ in_padded (i - first) (omega arith))
    where
      in_padded : (j : ℕ) → j < available u → get_or (padded u) j 0 ≡ get_or (contents u) j 0
      in_padded j h =
          get_or-append_lt (contents u) (replicate (512 - available u) 0) j 0
            (omega (arith, length-contents u))
