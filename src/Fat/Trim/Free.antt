-- ===== src/Fat/Trim/Free.antt =====
-- `fat32_trim_free` on a card in working order: which sectors it may erase.
use barelog.Prelude.{
  ℕ, zero, suc, ◌+◌, ◌-◌, ◌*◌, ◌/◌, ◌^◌, ◌≤◌, ◌<◌, ◌≡◌, inl, inr, refl, sym, ap, ap₂, ◌∙◌, true,
  false, arith, Bool-cases, ==_iff, ◌==◌, ltb, u32, sub32, tests,
}
use native.Mathlib.Decide.{dec_le}
use native.Mathlib.Nat.{mul-le-mul_right}
use barelog.Prelude.Run.{Result, ok}
use barelog.Device.{IsReliable}
use barelog.Machine.{Hardware, Machine, Fat32Vol}
use barelog.Fat.{clus_to_lba, entry_at, fat_offset}
use barelog.Fat.Trim.{TrimRun, close_run, extend_run, trim_entry, next_clus, trim_entries}

-- The first FAT copy lies on the card and before the data region, and neither the cluster numbers
-- that it has room for nor the addresses of those clusters wrap.
pub record TrimFits (vol : Fat32Vol) (capacity : ℕ) : Type 0 where
  pub on_card : vol.fat_lba + vol.fat_sz32 ≤ capacity
  pub before_data : vol.fat_lba + vol.fat_sz32 ≤ vol.data_lba
  pub clusters : vol.fat_sz32 * 128 < 2 ^ 32
  pub addresses : vol.data_lba + vol.fat_sz32 * 128 * vol.sec_per_clus < 2 ^ 32
  pub some_sector : 1 ≤ vol.sec_per_clus

module _ (hw : Hardware) (rel : IsReliable hw.dev) (vol : Fat32Vol) (d0 : hw.dev.Disk) where
  open rel use {capacity, sector, length-sector, read_ok, sector-erase}

  -- The sector belongs to a cluster that the FAT on `d0` marks as free.
  pub record IsFree (s : ℕ) : Type 0 where
    pub clus : ℕ
    pub no_reserved : 2 ≤ clus
    pub inside : clus < vol.fat_sz32 * 128
    pub entry : entry_at (sector d0 (vol.fat_lba + clus / 128)) (fat_offset clus) ≡ 0
    pub from : vol.data_lba + (clus - 2) * vol.sec_per_clus ≤ s
    pub below : s < vol.data_lba + (clus - 2) * vol.sec_per_clus + vol.sec_per_clus

  -- All other sectors are as on `d0`.
  abbrev pub Spared : hw.dev.Disk → Type 0
  Spared d = (s : ℕ) → (IsFree s → ⊥) → sector d s ≡ sector d0 s

  -- An open run consists of free sectors.
  abbrev pub AllFree : ℕ → ℕ → Type 0
  AllFree a b = (s : ℕ) → a ≤ s → s ≤ b → IsFree s

  pub record OpenRun (t : TrimRun) : Type 0 where
    pub all_free : AllFree t.run_start_lba t.run_end_lba
    pub no_wrap : t.run_end_lba + 1 < 2 ^ 32

  abbrev pub RunFree : TrimRun → Type 0
  RunFree t = t.in_run ≡ true → OpenRun t

  -- What handling entries leaves behind.
  pub record Step (clus : ℕ) (m : Machine hw) (r : Result TrimRun × Machine hw) : Type 0 where
    pub run : TrimRun
    pub disk : hw.dev.Disk
    pub returns : r ≡ (ok run, record m { disk = disk })
    pub clus_is : run.clus ≡ clus
    pub run_free : RunFree run
    pub spared : Spared disk

  pub erase-Spared :
      (a b : ℕ) (d : hw.dev.Disk) → AllFree a b → Spared d → Spared (hw.dev.sd_erase a b d)
  erase-Spared a b d free spared s h =
      sector-erase a b s d (elim (dec_le a s) [
        | yes p ↦ elim (dec_le s b) [ yes q ↦ absurd (h (free s p q)) | no q ↦ inr (omega arith) ]
        | no p ↦ inl (omega arith)
      ])
      ∙ spared s h

  close_run-Step :
      (t : TrimRun) (m : Machine hw) → RunFree t → Spared m.disk → Step t.clus m (close_run hw t m)
  close_run-Step t m free spared = elim (Bool-cases t.in_run) [
    | inl h ↦ rw h record {
      run = record t { in_run = false };
      disk = hw.dev.sd_erase t.run_start_lba t.run_end_lba m.disk;
      returns = refl;
      clus_is = refl;
      run_free = λ e. absurd (cc);
      spared = erase-Spared t.run_start_lba t.run_end_lba m.disk (free h).all_free spared;
    }
    | inr h ↦ rw h record {
      run = record t { in_run = false };
      disk = m.disk;
      returns = refl;
      clus_is = refl;
      run_free = λ e. absurd (cc);
      spared = spared;
    }
  ]

  extend_run-Step :
      (lba_s lba_e : ℕ) (t : TrimRun) (m : Machine hw)
      → AllFree lba_s lba_e
      → lba_e + 1 < 2 ^ 32
      → RunFree t
      → Spared m.disk
      → Step t.clus m (extend_run hw lba_s lba_e t m)
  unfolding extend_run
  extend_run-Step lba_s lba_e t m here small free spared =
      let fresh : OpenRun (record t { run_start_lba = lba_s; run_end_lba = lba_e; in_run = true }) =
        record { all_free = here; no_wrap = small } in
      elim (Bool-cases t.in_run) [
        | inr h ↦ rw h record {
          run = record t { run_start_lba = lba_s; run_end_lba = lba_e; in_run = true };
          disk = m.disk;
          returns = refl;
          clus_is = refl;
          run_free = λ _. fresh;
          spared = spared;
        }
        | inl h ↦
            let run = free h in
            elim (Bool-cases (lba_s == u32 (t.run_end_lba + 1))) [
              | inl e ↦
                  let next : lba_s ≡ t.run_end_lba + 1 =
                    omega (arith, (==_iff lba_s (u32 (t.run_end_lba + 1))).0 e, run.no_wrap) in
                  rw (h, e)
                    record {
                      run = record t { run_end_lba = lba_e; in_run = true };
                      disk = m.disk;
                      returns = refl;
                      clus_is = refl;
                      run_free = λ _. record {
                        all_free = λ s p q. elim (dec_le s t.run_end_lba) [
                          | yes old ↦ run.all_free s p old
                          | no new ↦ here s (omega arith) q
                        ];
                        no_wrap = small;
                      };
                      spared = spared;
                    }
              | inr e ↦
                  rw (h, e)
                    record {
                      run = record t { run_start_lba = lba_s; run_end_lba = lba_e; in_run = true };
                      disk = hw.dev.sd_erase t.run_start_lba t.run_end_lba m.disk;
                      returns = refl;
                      clus_is = refl;
                      run_free = λ _. fresh;
                      spared =
                          erase-Spared t.run_start_lba t.run_end_lba m.disk run.all_free spared;
                    }
            ]
      ]

  -- The sectors of a cluster whose entry is 0.
  clus_to_lba_lem :
      (clus : ℕ)
      → TrimFits vol capacity
      → 2 ≤ clus
      → clus < vol.fat_sz32 * 128
      → (clus_to_lba vol clus ≡ vol.data_lba + (clus - 2) * vol.sec_per_clus)
        × (vol.data_lba + (clus - 2) * vol.sec_per_clus + vol.sec_per_clus < 2 ^ 32)
  clus_to_lba_lem clus fits lo hi =
      let top : (clus - 2 + 1) * vol.sec_per_clus ≤ vol.fat_sz32 * 128 * vol.sec_per_clus =
        mul-le-mul_right vol.sec_per_clus (omega arith) in
      let split : (clus - 2 + 1) * vol.sec_per_clus
          ≡ (clus - 2) * vol.sec_per_clus + vol.sec_per_clus =
        grind arith in
      let room : vol.data_lba + (clus - 2) * vol.sec_per_clus + vol.sec_per_clus < 2 ^ 32 =
        omega arith in
      let index : sub32 clus 2 ≡ clus - 2 = omega arith in (rw index (omega arith), room)

  -- The entry that the scan reads at `off` of the `k`-th sector.
  entry_of :
      (clus off k : ℕ)
      → 4 * clus ≡ 512 * k + off
      → off < 512
      → entry_at (sector d0 (vol.fat_lba + clus / 128)) (fat_offset clus)
        ≡ entry_at (sector d0 (vol.fat_lba + k)) off
  entry_of clus off k at small =
      ap₂ (λ i o. entry_at (sector d0 (vol.fat_lba + i)) o) {x = clus / 128} {y = k} (omega arith)
        (omega arith)

  trim_entry-Step :
      (off k : ℕ) (t : TrimRun) (m : Machine hw)
      → TrimFits vol capacity
      → m.vol ≡ vol
      → k < vol.fat_sz32
      → 4 * t.clus ≡ 512 * k + off
      → off < 512
      → entry_at m.uart.ring off ≡ entry_at (sector d0 (vol.fat_lba + k)) off
      → RunFree t
      → Spared m.disk
      → Step t.clus m (trim_entry hw off t m)
  unfolding trim_entry
  trim_entry-Step off k t m fits same lt at small entry free spared =
      elim (Bool-cases (ltb t.clus 2)) [
        | inl h ↦ rw h (close_run-Step t m free spared)
        | inr h ↦ elim (Bool-cases (entry_at m.uart.ring off == 0)) [
          | inr e ↦ rw (h, e) (close_run-Step t m free spared)
          | inl e ↦
              let lo : 2 ≤ t.clus = grind tests in
              let hi : t.clus < vol.fat_sz32 * 128 = omega arith in
              let (start, room) = clus_to_lba_lem t.clus fits lo hi in
              let here : clus_to_lba m.vol t.clus ≡ vol.data_lba + (t.clus - 2) * vol.sec_per_clus =
                ap (λ w. clus_to_lba w t.clus) same ∙ start in
              let size : m.vol.sec_per_clus ≡ vol.sec_per_clus =
                ap (λ (w : Fat32Vol). w.sec_per_clus) same in
              rw (h, e, here)
                (extend_run-Step (vol.data_lba + (t.clus - 2) * vol.sec_per_clus) _ t m
                  (λ s p q. record {
                    clus = t.clus;
                    no_reserved = lo;
                    inside = hi;
                    entry = entry_of t.clus off k at small ∙ sym entry ∙ (==_iff _ 0).0 e;
                    from = p;
                    below = omega arith;
                  })
                  (omega arith) free spared)
        ]
      ]

  -- What is left when the rest of one sector has been handled: the open run has moved on to
  -- `last`, and the memory has changed only on the disk.
  pub trim_entries-Step :
      (left off k : ℕ) (t : TrimRun) (m : Machine hw)
      → TrimFits vol capacity
      → m.vol ≡ vol
      → k < vol.fat_sz32
      → 4 * t.clus ≡ 512 * k + off
      → off + 4 * left ≡ 512
      → ((o : ℕ) → o < 509 → entry_at m.uart.ring o ≡ entry_at (sector d0 (vol.fat_lba + k)) o)
      → RunFree t
      → Spared m.disk
      → Step ((k + 1) * 128) m (trim_entries hw left off t m)
  unfolding trim_entries
  trim_entries-Step zero off k t m fits same lt at end entries free spared = record {
    run = t;
    disk = m.disk;
    returns = refl;
    clus_is = omega arith;
    run_free = free;
    spared = spared;
  }
  trim_entries-Step (suc left) off k t m fits same lt at end entries free spared =
      let one =
        trim_entry-Step off k t m fits same lt at (omega arith) (entries off (omega arith)) free
          spared in
      let moved : (next_clus hw one.run).clus ≡ t.clus + 1 =
        omega (arith, one.clus_is, fits.clusters) in
      let rest =
        trim_entries-Step left (off + 4) k (next_clus hw one.run) (record m { disk = one.disk })
          fits same lt (omega arith) (omega arith) entries
          (λ e. let o = one.run_free e in record { all_free = o.all_free; no_wrap = o.no_wrap })
          one.spared in
      record {
        run = rest.run;
        disk = rest.disk;
        returns = rw one.returns rest.returns;
        clus_is = rest.clus_is;
        run_free = rest.run_free;
        spared = rest.spared;
      }
