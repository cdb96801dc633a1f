-- ===== src/EepromFlash/Sync.antt =====
-- `eeprom_flash_sync` and the `eeprom_flash_init` of the next boot.
use native.Mathlib.Decide.{dec_lt}
use native.Mathlib.Nat.{mod-lt, mod-eq_of_lt, mod_self}
use barelog.Prelude.{
  ℕ, ◌+◌, ◌%◌, ◌≤◌, ◌<◌, ◌≡◌, ◌≢◌, ◌⊎◌, inl, inr, refl, sym, ap, ◌∙◌, true, false, List, arith,
  length, get_or, get_or_ext, u8, ◌==◌, ne→==, if◌then◌else◌,
}
use barelog.EepromFlash.{
  FlashChip, Cached, slot_addr, num_slots, gen_byte, find_current_gen, find_next_free_slot,
  eeprom_flash_init, eeprom_flash_sync,
}
use barelog.EepromFlash.Slots.{
  IsFlash, IsErased, gen, gen_byte-gen, scan_slots_least, scan_slots_newest, scan_slots-lt, stored,
  gen-stored, gen-stored_ne, byte-stored,
}

-- The generation byte behind `g`.
abbrev pub next_of : ℕ → ℕ
next_of g = if g == 0xFF then 0xFE else u8 (g + 255)

next_of-lt : (g : ℕ) → g < 256 → g ≢ 0 → next_of g < 0xFF
next_of-lt g h ne = ground arith

next_of-below :
    (g x : ℕ) → g < 256 → g ≢ 0 → x < 256 → (x ≡ 0xFF) ⊎ (g ≤ x) → (x ≡ 0xFF) ⊎ (next_of g < x)
next_of-below g x h ne k c = ground arith

module _ (chip : FlashChip) (flash : IsFlash chip) where
  open chip use {Flash, base_addr, write_bytes, read_bytes}
  open flash use {byte, byte-lt, length-read, read_lem}

  -- The slot that a sync writes to, and its generation byte.
  abbrev pub next_slot : Flash → ℕ
  next_slot f = (find_current_gen chip f + 1) % num_slots chip

  abbrev pub next_gen : Flash → ℕ
  next_gen f = next_of (gen chip flash f (find_current_gen chip f))

  current-lt : (f : Flash) → 2 ≤ num_slots chip → find_current_gen chip f < num_slots chip
  unfolding find_current_gen
  current-lt f h =
      scan_slots-lt chip flash (num_slots chip) 0 0xFF 0 (num_slots chip) f (omega arith)
        (omega arith)

  next-ne-current : (f : Flash) → 2 ≤ num_slots chip → next_slot f ≢ find_current_gen chip f
  next-ne-current f h = elim (dec_lt (find_current_gen chip f + 1) (num_slots chip)) [
    | yes lt ↦ omega (arith, mod-eq_of_lt lt)
    | no ge ↦
        let last : find_current_gen chip f + 1 ≡ num_slots chip = omega (arith, current-lt f h) in
        let wraps : next_slot f ≡ 0 =
          ap (λ k. k % num_slots chip) last ∙ mod_self (num_slots chip) in
        omega (arith, wraps, last)
  ]

  find_next_free_slot_lem :
      (f : Flash)
      → 2 ≤ num_slots chip
      → find_next_free_slot chip (find_current_gen chip f) f ≡ (next_slot f, f)
  unfolding find_next_free_slot
  find_next_free_slot_lem f h =
      rw (ne→== (next_slot f) (find_current_gen chip f) (next-ne-current f h))

  -- The generation byte of the current slot is not touched by the write of the data.
  current_gen_kept :
      (c : Cached) (f : Flash)
      → 2 ≤ num_slots chip
      → length c.cache ≡ 256
      → gen_byte chip
          (find_current_gen chip f)
          (write_bytes (slot_addr chip (next_slot f)) c.cache f)
        ≡ gen chip flash f (find_current_gen chip f)
  current_gen_kept c f h size =
      let ne = next-ne-current f h in
      gen_byte-gen chip flash (find_current_gen chip f)
        (write_bytes (slot_addr chip (next_slot f)) c.cache f)
      ∙ flash.write_outside (slot_addr chip (next_slot f))
          (slot_addr chip (find_current_gen chip f) + 256) c.cache f
          (apart (next_slot f) (find_current_gen chip f) ne)
    where
      apart :
          (n k : ℕ)
          → n ≢ k
          → (slot_addr chip k + 256 < slot_addr chip n)
            ⊎ (slot_addr chip n + length c.cache ≤ slot_addr chip k + 256)
      apart n k ne = omega (arith, size)

  sync_lem :
      (c : Cached) (f : Flash)
      → 2 ≤ num_slots chip
      → c.dirty ≡ true
      → length c.cache ≡ 256
      → eeprom_flash_sync chip c f
        ≡ (record c { dirty = false }, stored chip flash c (next_slot f) (next_gen f) f)
  unfolding eeprom_flash_sync
  sync_lem c f h dirty size = rw (dirty, find_next_free_slot_lem f h, current_gen_kept c f h size)

  current_least :
      (f : Flash) (s : ℕ)
      → s < num_slots chip
      → (gen chip flash f s ≡ 0xFF)
        ⊎ (gen chip flash f (find_current_gen chip f) ≤ gen chip flash f s)
  unfolding find_current_gen
  current_least f s lt =
      (scan_slots_least chip flash (num_slots chip) 0 0xFF 0 f (inl refl)).1 s (omega arith)
        (omega arith)

  -- The slot of a sync is the current one afterwards.
  find_current_gen-stored :
      (c : Cached) (f : Flash)
      → 2 ≤ num_slots chip
      → length c.cache ≡ 256
      → ((i : ℕ) → get_or c.cache i 0 < 256)
      → IsErased chip flash f (next_slot f)
      → gen chip flash f (find_current_gen chip f) ≢ 0
      → find_current_gen chip (stored chip flash c (next_slot f) (next_gen f) f) ≡ next_slot f
  unfolding find_current_gen
  find_current_gen-stored c f h size bytes erased ne =
      let n : ℕ = next_slot f in
      let g : ℕ = gen chip flash f (find_current_gen chip f) in
      let bound : g < 256 = byte-lt f (slot_addr chip (find_current_gen chip f) + 256) in
      let f' : Flash = stored chip flash c n (next_of g) f in
      let low : next_of g < 0xFF = next_of-lt g bound ne in
      let own : gen chip flash f' n ≡ next_of g =
        gen-stored chip flash c n (next_of g) f size bytes (omega arith) erased in
      scan_slots_newest chip flash (num_slots chip) 0 0xFF 0 n f' (omega arith)
        (λ s lt apart.
          let kept =
            gen-stored_ne chip flash c n (next_of g) f size bytes (omega arith) erased s apart in
          let newest =
            next_of-below g (gen chip flash f s) bound ne (byte-lt f (slot_addr chip s + 256))
              (current_least f s (omega arith)) in
          omega (arith, kept, newest, own))
        (omega (arith, mod-lt (find_current_gen chip f + 1) {m = num_slots chip} (omega arith)))
        (inr (omega arith, omega arith))

  -- On a flash with at least two slots of which the next one is erased, while the generation has not
  -- run down to 0: after a sync of a dirty cache the slot written is the current one, the cache is
  -- clean, and the `eeprom_flash_init` of the next boot reads back exactly this cache.
  pub eeprom_flash_init-sync :
      (c : Cached) (f : Flash)
      → 2 ≤ num_slots chip
      → c.dirty ≡ true
      → length c.cache ≡ 256
      → ((i : ℕ) → get_or c.cache i 0 < 256)
      → IsErased chip flash f (next_slot f)
      → gen chip flash f (find_current_gen chip f) ≢ 0
      → let (c', f') = eeprom_flash_sync chip c f in
        (eeprom_flash_init chip f' ≡ c')
        × (c' ≡ record c { dirty = false })
        × (find_current_gen chip f' ≡ next_slot f)
  unfolding eeprom_flash_init
  eeprom_flash_init-sync c f h dirty size bytes erased ne =
      let n : ℕ = next_slot f in
      let f' : Flash = stored chip flash c n (next_gen f) f in
      let slot = find_current_gen-stored c f h size bytes erased ne in
      let small : next_gen f < 256 = omega (
        arith,
        next_of-lt (gen chip flash f (find_current_gen chip f))
            (byte-lt f (slot_addr chip (find_current_gen chip f) + 256)) ne,
      ) in
      let image : read_bytes (slot_addr chip n) 256 f' ≡ c.cache =
        get_or_ext 0 (read_bytes (slot_addr chip n) 256 f') c.cache
          (length-read (slot_addr chip n) 256 f' ∙ sym size)
          (λ i lt.
            let inside : i < 256 = omega (arith, length-read (slot_addr chip n) 256 f') in
            read_lem (slot_addr chip n) 256 i f' inside
            ∙ byte-stored chip flash c n (next_gen f) f size bytes small erased i inside) in
      rw (sync_lem c f h dirty size, slot)
        (ap (λ (b : List ℕ). record { cache = b; dirty = false }) image, refl, refl)
