-- ===== src/Examples/Slots.antt =====
-- The flash EEPROM, at a concrete input.
use barelog.Prelude.{
  ℕ, zero, suc, ◌<◌, ◌≡◌, ◌≢◌, refl, true, false, arith, replicate, get_or, ◌==◌, if◌then◌else◌,
  length-replicate,
}
use barelog.Bench.Flash.{memory_flash, bytes_from, memory_flash-IsFlash}
use barelog.EepromFlash.{Cached, eeprom_flash_init, eeprom_flash_sync, find_current_gen, scan_slots}
use barelog.EepromFlash.Slots.{IsErased, gen}
use barelog.EepromFlash.Sync.{eeprom_flash_init-sync, next_slot}

-- A flash on which only slot 0 has been written, with generation 0xFE.
abbrev first_boot : ℕ → ℕ
first_boot a = if a == 4352 then 0xFE else 0xFF

abbrev dirty_cache : Cached
dirty_cache = record { cache = replicate 256 7; dirty = true }

sevens : (n i : ℕ) → get_or (replicate n 7) i 0 < 256
sevens zero i = omega arith
sevens (suc n) zero = omega arith
sevens (suc n) (suc i) = sevens n i

current_slot : find_current_gen memory_flash first_boot ≡ 0
unfolding find_current_gen scan_slots bytes_from
current_slot = refl

next_slot-IsErased :
    IsErased memory_flash memory_flash-IsFlash first_boot
      (next_slot memory_flash memory_flash-IsFlash first_boot)
unfolding memory_flash-IsFlash
next_slot-IsErased = rw current_slot (λ i lt. ground arith)

current_gen :
    gen memory_flash memory_flash-IsFlash first_boot (find_current_gen memory_flash first_boot) ≢ 0
unfolding memory_flash-IsFlash
current_gen = rw current_slot (λ e. omega (arith, e))

eeprom_flash_init-sync_example :
    let (c', f') = eeprom_flash_sync memory_flash dirty_cache first_boot in
    (eeprom_flash_init memory_flash f' ≡ c')
    × (c' ≡ record dirty_cache { dirty = false })
    × (find_current_gen memory_flash f' ≡ next_slot memory_flash memory_flash-IsFlash first_boot)
eeprom_flash_init-sync_example =
    eeprom_flash_init-sync memory_flash memory_flash-IsFlash dirty_cache first_boot (omega arith)
      refl (length-replicate {A = ℕ} 256 7) (sevens 256) next_slot-IsErased current_gen
