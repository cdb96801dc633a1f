-- ===== src/EepromFlash/Slots.antt =====
-- The slots of the flash sector: which one is current, and what a sync leaves for the next boot.
use native.Mathlib.Decide.{ℕ_discrete, dec_lt}
use barelog.Prelude.{
  ℕ, zero, suc, ◌+◌, ◌≤◌, ◌<◌, ◌≡◌, ◌≢◌, ◌⊎◌, inl, inr, refl, sym, ap, ◌∙◌, List, [], ◌∷◌, arith,
  length, get_or,
}
use barelog.EepromFlash.{FlashChip, Cached, gen_offset, slot_size, slot_addr, gen_byte, scan_slots}

-- What the flash functions of a chip do: reads deliver the bytes, a write to erased bytes (0xFF)
-- stores its data and touches no others.
pub record IsFlash (chip : FlashChip) : Type 0 where
  pub byte : chip.Flash → ℕ → ℕ
  pub byte-lt : (f : chip.Flash) (a : ℕ) → byte f a < 256
  pub length-read : (a n : ℕ) (f : chip.Flash) → length (chip.read_bytes a n f) ≡ n
  pub read_lem :
      (a n i : ℕ) (f : chip.Flash) → i < n → get_or (chip.read_bytes a n f) i 0 ≡ byte f (a + i)
  pub write_inside :
      (a i : ℕ) (bs : List ℕ) (f : chip.Flash)
      → i < length bs
      → get_or bs i 0 < 256
      → byte f (a + i) ≡ 0xFF
      → byte (chip.write_bytes a bs f) (a + i) ≡ get_or bs i 0
  pub write_outside :
      (a k : ℕ) (bs : List ℕ) (f : chip.Flash)
      → (k < a) ⊎ (a + length bs ≤ k)
      → byte (chip.write_bytes a bs f) k ≡ byte f k

module _ (chip : FlashChip) (flash : IsFlash chip) where
  open chip use {Flash, base_addr, write_bytes, read_bytes}
  open flash use {byte, byte-lt, length-read, read_lem, write_inside, write_outside}

  -- The generation byte of a slot: smaller is newer, 0xFF is unused.
  abbrev pub gen : Flash → ℕ → ℕ
  gen f s = byte f (slot_addr chip s + gen_offset)

  pub gen_byte-gen : (s : ℕ) (f : Flash) → gen_byte chip s f ≡ gen f s
  gen_byte-gen s f =
      read_lem (slot_addr chip s + gen_offset) 1 0 f (omega arith)
      ∙ ap (byte f) {x = slot_addr chip s + gen_offset + 0} {y = slot_addr chip s + gen_offset}
          (omega arith)

  -- One slot of the scan.
  scan_slots_newer :
      (left slot best current : ℕ) (f : Flash)
      → gen f slot ≢ 0xFF
      → gen f slot < best
      → scan_slots chip (suc left) slot best current f
        ≡ scan_slots chip left (slot + 1) (gen f slot) slot f
  unfolding scan_slots
  scan_slots_newer left slot best current f ne lt = ground (arith, gen_byte-gen slot f)

  scan_slots_older :
      (left slot best current : ℕ) (f : Flash)
      → (gen f slot ≡ 0xFF) ⊎ (best ≤ gen f slot)
      → scan_slots chip (suc left) slot best current f
        ≡ scan_slots chip left (slot + 1) best current f
  unfolding scan_slots
  scan_slots_older left slot best current f h = ground (arith, gen_byte-gen slot f)

  -- The scan finds a slot whose generation is the least of those in use.
  pub scan_slots_least :
      (left slot best current : ℕ) (f : Flash)
      → (best ≡ 0xFF) ⊎ (gen f current ≡ best)
      → let r = scan_slots chip left slot best current f in
        ((best ≡ 0xFF) ⊎ (gen f r ≤ best))
        × ((s : ℕ) → slot ≤ s → s < slot + left → (gen f s ≡ 0xFF) ⊎ (gen f r ≤ gen f s))
  scan_slots_least zero slot best current f h =
      (unfold scan_slots in omega (arith, h), λ s lo hi. absurd (omega arith))
  scan_slots_least (suc left) slot best current f h = elim (ℕ_discrete (gen f slot) 0xFF) [
    | yes unused ↦
        let rest = scan_slots_least left (slot + 1) best current f h in
        rw (scan_slots_older left slot best current f (inl unused)) (
          rest.0,
          λ s lo hi. elim (ℕ_discrete slot s) [
            | yes e ↦ inl (ap (gen f) (sym e) ∙ unused)
            | no ne ↦ rest.1 s (omega arith) (omega arith)
          ],
        )
    | no used ↦ elim (dec_lt (gen f slot) best) [
      | yes lt ↦
          let rest = scan_slots_least left (slot + 1) (gen f slot) slot f (inr refl) in
          rw (scan_slots_newer left slot best current f used lt) (
            inr (omega (arith, rest.0, used)),
            λ s lo hi. elim (ℕ_discrete slot s) [
              | yes e ↦ inr (omega (arith, rest.0, used, ap (gen f) e))
              | no ne ↦ rest.1 s (omega arith) (omega arith)
            ],
          )
      | no ge ↦
          let rest = scan_slots_least left (slot + 1) best current f h in
          rw (scan_slots_older left slot best current f (inr (omega arith))) (
            rest.0,
            λ s lo hi. elim (ℕ_discrete slot s) [
              | yes e ↦ inr (
                  omega (
                    arith,
                    rest.0,
                    used,
                    ap (gen f) e,
                    byte-lt f (slot_addr chip slot + gen_offset),
                  ))
              | no ne ↦ rest.1 s (omega arith) (omega arith)
            ],
          )
    ]
  ]

  -- The scan finds the slot whose generation is below every other one in use.
  pub scan_slots_newest :
      (left slot best current next : ℕ) (f : Flash)
      → gen f next < 0xFF
      → ((s : ℕ) → s < slot + left → s ≢ next → (gen f s ≡ 0xFF) ⊎ (gen f next < gen f s))
      → next < slot + left
      → ((next < slot) × (best ≡ gen f next) × (current ≡ next))
        ⊎ ((slot ≤ next) × (gen f next < best))
      → scan_slots chip left slot best current f ≡ next
  scan_slots_newest zero slot best current next f used others inside h =
      unfold scan_slots in omega (arith, h)
  scan_slots_newest (suc left) slot best current next f used others inside h =
      elim (ℕ_discrete slot next) [
        | yes e ↦
            let same : gen f slot ≡ gen f next = ap (gen f) e in
            rw
              (scan_slots_newer left slot best current f (omega (arith, same))
                (omega (arith, same, h)))
              (scan_slots_newest left (slot + 1) (gen f slot) slot next f used
                (λ s lt ne. others s (omega arith) ne) (omega arith) (inl (omega arith, same, e)))
        | no ne ↦ elim h [
          | inl behind ↦
              rw
                (scan_slots_older left slot best current f
                  (omega (arith, others slot (omega arith) ne, behind)))
                (scan_slots_newest left (slot + 1) best current next f used
                  (λ s lt ne'. others s (omega arith) ne') (omega arith)
                  (inl (omega arith, behind.1, behind.2)))
          | inr ahead ↦ elim (dec_lt (gen f slot) best) [
            | yes lt ↦ elim (ℕ_discrete (gen f slot) 0xFF) [
              | yes u ↦ rw (scan_slots_older left slot best current f (inl u)) (
                  scan_slots_newest left (slot + 1) best current next f used
                    (λ s lt' ne'. others s (omega arith) ne') (omega arith)
                    (inr (omega arith, ahead.1)))
              | no u ↦ rw (scan_slots_newer left slot best current f u lt) (
                  scan_slots_newest left (slot + 1) (gen f slot) slot next f used
                    (λ s lt' ne'. others s (omega arith) ne') (omega arith)
                    (inr (omega arith, omega (arith, others slot (omega arith) ne))))
            ]
            | no ge ↦ rw (scan_slots_older left slot best current f (inr (omega arith))) (
                scan_slots_newest left (slot + 1) best current next f used
                  (λ s lt' ne'. others s (omega arith) ne') (omega arith)
                  (inr (omega arith, ahead.1)))
          ]
        ]
      ]

  -- A slot is erased.
  abbrev pub IsErased : Flash → ℕ → Type 0
  IsErased f s = (i : ℕ) → i < slot_size → byte f (slot_addr chip s + i) ≡ 0xFF

  -- The flash after the two writes of a sync to slot `next`.
  abbrev pub stored : Cached → ℕ → ℕ → Flash → Flash
  stored c next g f =
      write_bytes (slot_addr chip next + gen_offset) (g ∷ [])
        (write_bytes (slot_addr chip next) c.cache f)

  module _ (c : Cached) (next g : ℕ) (f : Flash) (size : length c.cache ≡ 256)
      (bytes : (i : ℕ) → get_or c.cache i 0 < 256) (small : g < 256)
      (erased : IsErased f next) where
    pub gen-stored : gen (stored c next g f) next ≡ g
    gen-stored =
        let a : ℕ = slot_addr chip next + gen_offset in
        let end : a ≡ a + 0 = omega arith in
        let f1 : Flash = write_bytes (slot_addr chip next) c.cache f in
        let blank : byte f1 a ≡ 0xFF =
          write_outside (slot_addr chip next) a c.cache f (inr (omega arith))
          ∙ erased gen_offset (omega arith) in
        ap (byte (stored c next g f)) end
        ∙ write_inside a 0 (g ∷ []) f1 (omega arith) small (ap (byte f1) (sym end) ∙ blank)

    pub gen-stored_ne : (s : ℕ) → s ≢ next → gen (stored c next g f) s ≡ gen f s
    gen-stored_ne s ne =
        let k : ℕ = slot_addr chip s + gen_offset in
        write_outside (slot_addr chip next + gen_offset) k (g ∷ [])
          (write_bytes (slot_addr chip next) c.cache f) (omega arith)
        ∙ write_outside (slot_addr chip next) k c.cache f (omega arith)

    pub byte-stored :
        (i : ℕ) → i < 256 → byte (stored c next g f) (slot_addr chip next + i) ≡ get_or c.cache i 0
    byte-stored i h =
        write_outside (slot_addr chip next + gen_offset) (slot_addr chip next + i) (g ∷ [])
          (write_bytes (slot_addr chip next) c.cache f) (inl (omega arith))
        ∙ write_inside (slot_addr chip next) i c.cache f (omega arith) (bytes i)
            (erased i (omega arith))

  pub scan_slots-lt :
      (left slot best current n : ℕ) (f : Flash)
      → current < n
      → slot + left ≤ n
      → scan_slots chip left slot best current f < n
  scan_slots-lt zero slot best current n f h k = unfold scan_slots in h
  scan_slots-lt (suc left) slot best current n f h k = elim (ℕ_discrete (gen f slot) 0xFF) [
    | yes u ↦
        rw (scan_slots_older left slot best current f (inl u))
          (scan_slots-lt left (slot + 1) best current n f h (omega arith))
    | no u ↦ elim (dec_lt (gen f slot) best) [
      | yes lt ↦
          rw (scan_slots_newer left slot best current f u lt)
            (scan_slots-lt left (slot + 1) (gen f slot) slot n f (omega arith) (omega arith))
      | no ge ↦
          rw (scan_slots_older left slot best current f (inr (omega arith)))
            (scan_slots-lt left (slot + 1) best current n f h (omega arith))
    ]
  ]
