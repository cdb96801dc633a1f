-- ===== src/Fat/Entry/Write.antt =====
-- `fat_write_entry` on a card in working order: every FAT copy gets the entry, nothing else moves.
use native.Mathlib.Decide.{ℕ_discrete}
use barelog.Prelude.{
  ℕ, zero, suc, ◌+◌, ◌*◌, ◌≤◌, ◌<◌, ◌≡◌, ◌≢◌, refl, sym, ap, subst, ◌∙◌, List, arith, length,
  overlay, take, drop, u32, length-overlay, ==_refl, ne→==,
}
use barelog.Prelude.Run.{Result, ok}
use barelog.Device.{IsReliable}
use barelog.Machine.{Hardware, Machine, Fat32Vol}
use barelog.Fat.{fat_sector, fat_offset, patch_entry, write_copy, write_copies, fat_write_entry}
use barelog.Fat.Entry.{Fits, HasEntry, copy_sector, copy_sector-lt, fat_sector_lem}
use barelog.Prelude.Bytes.{take-overlay, drop-overlay, drop-set_lt}
use barelog.Fat.Entry.Bytes.{take-patch_entry, length-patch_entry}

module _ (hw : Hardware) where
  -- The memory with another ring and another disk, all else as it was.
  abbrev pub with_disk : List ℕ → hw.dev.Disk → Machine hw → Machine hw
  with_disk ring d m = record m { uart = record m.uart { ring = ring }; disk = d }

module _ (hw : Hardware) (rel : IsReliable hw.dev) where
  open rel use {capacity, sector, store, length-sector, read_ok, write_ok, sector-store}

  patched : ℕ → ℕ → ℕ → hw.dev.Disk → List ℕ
  patched clus val s d = patch_entry (sector d s) (fat_offset clus) val

  length-patched : (clus val s : ℕ) (d : hw.dev.Disk) → length (patched clus val s d) ≡ 512
  unfolding patched
  length-patched clus val s d =
      length-patch_entry (sector d s) (fat_offset clus) val ∙ length-sector d s

  scratch : ℕ → ℕ → ℕ → Machine hw → List ℕ
  scratch clus val s m = patch_entry (overlay (sector m.disk s) m.uart.ring) (fat_offset clus) val

  take-scratch :
      (clus val s : ℕ) (m : Machine hw)
      → length m.uart.ring ≡ 1024
      → take 512 (scratch clus val s m) ≡ patched clus val s m.disk
  unfolding scratch patched
  take-scratch clus val s m size =
      take-patch_entry 512 (overlay (sector m.disk s) m.uart.ring) (fat_offset clus) val
        (omega arith)
      ∙ ap (λ b. patch_entry b (fat_offset clus) val)
          (ap (λ n. take n (overlay (sector m.disk s) m.uart.ring)) (sym (length-sector m.disk s))
            ∙ take-overlay (sector m.disk s) m.uart.ring (omega (arith, length-sector m.disk s)))

  write_copy_lem :
      (clus val s : ℕ) (m : Machine hw)
      → s < capacity
      → length m.uart.ring ≡ 1024
      → write_copy hw clus val s m ≡ (
        ok tt,
        with_disk hw (scratch clus val s m) (store s (patched clus val s m.disk) m.disk) m,
      )
  unfolding write_copy scratch
  write_copy_lem clus val s m lt size = rw (
    read_ok s m.disk lt,
    take-scratch clus val s m size,
    write_ok s (patched clus val s m.disk) m.disk lt (length-patched clus val s m.disk),
  )

  length-scratch :
      (clus val s : ℕ) (m : Machine hw) → length (scratch clus val s m) ≡ length m.uart.ring
  unfolding scratch
  length-scratch clus val s m =
      length-patch_entry (overlay (sector m.disk s) m.uart.ring) (fat_offset clus) val
      ∙ length-overlay (sector m.disk s) m.uart.ring

  -- The second half of the ring is left alone.
  drop-scratch :
      (clus val s : ℕ) (m : Machine hw) → drop 512 (scratch clus val s m) ≡ drop 512 m.uart.ring
  unfolding scratch
  drop-scratch clus val s m =
      let off : ℕ = fat_offset clus in
      drop-set_lt 512 (off + 3) _ _ (omega arith)
      ∙ drop-set_lt 512 (off + 2) _ _ (omega arith)
      ∙ drop-set_lt 512 (off + 1) _ _ (omega arith)
      ∙ drop-set_lt 512 off _ _ (omega arith)
      ∙ drop-overlay 512 (sector m.disk s) m.uart.ring (omega (arith, length-sector m.disk s))

  -- What the copies from `f` up to `last` have become: a normal return, the entry patched on each
  -- of those copies, every other sector of the disk as before, and of the memory only the ring
  -- changed.
  pub record Mirrored (clus val f last : ℕ) (m : Machine hw)
      (result : Result (Unit {0}) × Machine hw) : Type 0 where
    pub ring : List ℕ
    pub disk : hw.dev.Disk
    pub returns : result ≡ (ok tt, with_disk hw ring disk m)
    pub size : length ring ≡ 1024
    pub upper : drop 512 ring ≡ drop 512 m.uart.ring
    pub inside :
        (g : ℕ)
        → f ≤ g
        → g < last
        → sector disk (copy_sector m.vol clus g)
          ≡ patch_entry (sector m.disk (copy_sector m.vol clus g)) (fat_offset clus) val
    pub outside :
        (s : ℕ)
        → ((g : ℕ) → f ≤ g → g < last → s ≢ copy_sector m.vol clus g)
        → sector disk s ≡ sector m.disk s

  copy_sector-ne :
      (vol : Fat32Vol) (clus f g : ℕ)
      → HasEntry vol clus
      → f < g
      → copy_sector vol clus f ≢ copy_sector vol clus g
  copy_sector-ne vol clus f g h lt e = grind arith

  wrapped_sector :
      (vol : Fat32Vol) (clus f : ℕ)
      → Fits vol capacity
      → HasEntry vol clus
      → f < vol.num_fats
      → u32 (fat_sector vol clus + u32 (f * vol.fat_sz32)) ≡ copy_sector vol clus f
  wrapped_sector vol clus f fits h lt =
      let small = copy_sector-lt clus f fits h lt in
      let base = fat_sector_lem clus fits h in omega arith

  sector-patched_self :
      (clus val s : ℕ) (d : hw.dev.Disk)
      → sector (store s (patched clus val s d) d) s ≡ patch_entry (sector d s) (fat_offset clus) val
  unfolding patched
  sector-patched_self clus val s d =
      rw (sector-store s s (patched clus val s d) d (length-patched clus val s d), ==_refl s)

  sector-patched_ne :
      (clus val s k : ℕ) (d : hw.dev.Disk)
      → s ≢ k
      → sector (store s (patched clus val s d) d) k ≡ sector d k
  sector-patched_ne clus val s k d ne =
      rw (sector-store s k (patched clus val s d) d (length-patched clus val s d), ne→== s k ne)

  -- One round, then the rest from the memory that it leaves.
  Mirrored-step :
      (clus val f last : ℕ) (m : Machine hw) (result : Result (Unit {0}) × Machine hw)
      → HasEntry m.vol clus
      → (f < last)
      → let s = copy_sector m.vol clus f in
        Mirrored clus val
          (f + 1)
          last
          (with_disk hw (scratch clus val s m) (store s (patched clus val s m.disk) m.disk) m)
          result
        → Mirrored clus val f last m result
  Mirrored-step clus val f last m result has lt rest =
      let at = copy_sector m.vol clus in
      let here : sector rest.disk (at f)
          ≡ patch_entry (sector m.disk (at f)) (fat_offset clus) val =
        rest.outside (at f) (λ g p q. copy_sector-ne m.vol clus f g has (omega arith))
        ∙ sector-patched_self clus val (at f) m.disk in
      record {
        ring = rest.ring;
        disk = rest.disk;
        returns = rest.returns;
        size = rest.size;
        upper = rest.upper ∙ drop-scratch clus val (at f) m;
        inside = λ g p q. elim (ℕ_discrete f g) [
          | yes e ↦
              subst
                (λ k.
                  sector rest.disk (at k)
                  ≡ patch_entry (sector m.disk (at k)) (fat_offset clus) val)
                e here
          | no ne ↦
              rest.inside g (omega arith) q
              ∙ ap (λ b. patch_entry b (fat_offset clus) val)
                  (sector-patched_ne clus val (at f) (at g) m.disk
                    (copy_sector-ne m.vol clus f g has (omega arith)))
        ];
        outside = λ s h.
            rest.outside s (λ g p q. h g (omega arith) q)
            ∙ sector-patched_ne clus val (at f) s m.disk (λ e. h f (omega arith) lt (sym e));
      }

  write_copies-Mirrored :
      (left f clus val : ℕ) (m : Machine hw)
      → Fits m.vol capacity
      → HasEntry m.vol clus
      → length m.uart.ring ≡ 1024
      → f + left ≡ m.vol.num_fats
      → Mirrored clus val f m.vol.num_fats m (write_copies hw left f clus val m)
  unfolding write_copies
  write_copies-Mirrored zero f clus val m fits has size e = record {
    ring = m.uart.ring;
    disk = m.disk;
    returns = refl;
    size = size;
    upper = refl;
    inside = λ g p q. absurd (omega arith);
    outside = λ s h. refl;
  }
  write_copies-Mirrored (suc left) f clus val m fits has size e =
      let s : ℕ = copy_sector m.vol clus f in
      let lt : f < m.vol.num_fats = omega arith in
      rw
        (
          wrapped_sector m.vol clus f fits has lt,
          write_copy_lem clus val s m (copy_sector-lt clus f fits has lt) size,
        )
        (Mirrored-step clus val f m.vol.num_fats m _ has lt (
          write_copies-Mirrored left (f + 1) clus val
            (with_disk hw (scratch clus val s m) (store s (patched clus val s m.disk) m.disk) m)
            fits has (length-scratch clus val s m ∙ size) (omega arith)))

  -- On a card in working order, writing the entry of a cluster succeeds: every FAT copy then holds
  -- the sector it held with the entry's 28 bits replaced, all other sectors are as before, and of
  -- the memory only the ring, which serves as scratch, has changed.
  pub fat_write_entry-Mirrored :
      (clus val : ℕ) (m : Machine hw)
      → Fits m.vol capacity
      → HasEntry m.vol clus
      → length m.uart.ring ≡ 1024
      → Mirrored clus val 0 m.vol.num_fats m (fat_write_entry hw clus val m)
  unfolding fat_write_entry
  fat_write_entry-Mirrored clus val m fits has size =
      write_copies-Mirrored m.vol.num_fats 0 clus val m fits has size (omega arith)
