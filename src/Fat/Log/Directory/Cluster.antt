-- ===== src/Fat/Log/Directory/Cluster.antt =====
-- The slots of a cluster, and the scan of a cluster on a card in working order.
use barelog.Prelude.{
  ℕ, zero, suc, ◌+◌, ◌≤◌, ◌<◌, ◌≡◌, refl, sym, ap, subst, ◌∙◌, Bool, List, [], ◌∷◌, ◌++◌, arith,
  length, length-overlay, drop, u32,
}
use barelog.Prelude.Bytes.{drop-overlay}
use barelog.Prelude.Run.{Result, ok, and_then, pure}
use barelog.Device.{IsReliable}
use barelog.Fat.{clus_to_lba}
use barelog.Fat.Entry.{loaded}
use barelog.Fat.Log.{Scan, searching, done, found, ScanVars, scan_sector, scan_cluster, minus_one}
use barelog.Fat.Log.Directory.{
  Slot, scan_slots, and_scan, scan_slots-append, slots_from, scan_sector-scan_slots,
}
use barelog.Machine.{Hardware, Machine, Fat32Vol, set_ring, read_sector, took_sector}
use barelog.Fat.Log.Directory.Overlay.{scan_sector-overlay}

module _ (hw : Hardware) (rel : IsReliable hw.dev) where
  open rel use {capacity, sector, length-sector, read_ok}

  -- The slots of `left` sectors from `lba + s` on.
  unfoldable pub cluster_slots : hw.dev.Disk → ℕ → ℕ → ℕ → List Slot
  cluster_slots d zero lba s = []
  cluster_slots d (suc left) lba s =
      slots_from 16 (u32 (lba + s)) (sector d (u32 (lba + s))) 0 ++ cluster_slots d left lba (s + 1)

  -- The slots of the directory in the clusters `c` and `rest`.
  unfoldable pub dir_slots : Fat32Vol → hw.dev.Disk → ℕ → List ℕ → List Slot
  dir_slots vol d c [] = cluster_slots d vol.sec_per_clus (clus_to_lba vol c) 0
  dir_slots vol d c (c' ∷ rest) =
      cluster_slots d vol.sec_per_clus (clus_to_lba vol c) 0 ++ dir_slots vol d c' rest

  -- The memory after a scan: the first half of the ring holds another sector.
  abbrev pub Scanned : Result Scan × Machine hw → Machine hw → Scan → Type 0
  Scanned r m scan =
      (ring : List ℕ) × (length ring ≡ 1024)
      × (drop 512 ring ≡ drop 512 m.uart.ring)
      × (r ≡ (ok scan, set_ring ring m))

  -- What follows a sector, and a cluster.
  abbrev next_sector : ℕ → List ℕ → ℕ → ℕ → Scan → Machine hw → Result Scan × Machine hw
  next_sector left name lba s (searching v g) = scan_cluster hw left name lba (s + 1) v g
  next_sector left name lba s (done v) = pure (done v)
  next_sector left name lba s (found v) = pure (found v)

  sector_step :
      (left : ℕ) (name : List ℕ) (lba s : ℕ) (v : ScanVars) (g : Bool) (m m1 : Machine hw)
      → read_sector (u32 (lba + s)) m ≡ (ok tt, m1)
      → scan_cluster hw (suc left) name lba s v g m
        ≡ next_sector left name lba s (scan_sector 16 name m1.uart.ring (u32 (lba + s)) 0 v g) m1
  unfolding scan_cluster
  sector_step left name lba s v g m m1 read =
      rw (scan_cluster, read, minus_one, and_then)
        (go (scan_sector 16 name m1.uart.ring (u32 (lba + s)) 0 v g))
    where
      go :
          (r : Scan)
          → (elim r as (λ _. Machine hw → Result Scan × Machine hw) [
            | searching v' g' ↦ scan_cluster hw left name lba (s + 1) v' g'
            | done v' ↦ pure (done v')
            | found v' ↦ pure (found v')
          ])
              m1
            ≡ next_sector left name lba s r m1
      go (searching v g) = refl
      go (done v) = refl
      go (found v) = refl

  pub scan_cluster_lem :
      (left : ℕ) (name : List ℕ) (lba s : ℕ) (v : ScanVars) (g : Bool) (m : Machine hw)
      → length name ≤ 32
      → length m.uart.ring ≡ 1024
      → ((i : ℕ) → i < left → u32 (lba + (s + i)) < capacity)
      → Scanned
          (scan_cluster hw left name lba s v g m)
          m
          (scan_slots name (cluster_slots m.disk left lba s) v g)
  unfolding scan_cluster cluster_slots
  scan_cluster_lem zero name lba s v g m short size card =
      (m.uart.ring, size, refl, unfold scan_slots in refl)
  scan_cluster_lem (suc left) name lba s v g m short size card =
      let l : ℕ = u32 (lba + s) in
      let bytes : List ℕ = sector m.disk l in
      let m1 : Machine hw = loaded hw rel l m in
      let slots : List Slot = slots_from 16 l bytes 0 in
      let rest : List Slot = cluster_slots m.disk left lba (s + 1) in
      let here : l < capacity =
        subst (λ k. u32 k < capacity) {x = lba + (s + 0)} {y = lba + s} (omega arith)
          (card 0 (omega arith)) in
      let size1 : length m1.uart.ring ≡ 1024 = length-overlay bytes m.uart.ring ∙ size in
      let scan : scan_sector 16 name m1.uart.ring l 0 v g ≡ scan_slots name slots v g =
        scan_sector-overlay bytes m.uart.ring name (length-sector m.disk l) size 16 l 0 v g
          (omega arith) short
        ∙ scan_sector-scan_slots 16 name bytes l 0 v g in
      let more = λ (v' : ScanVars) (g' : Bool).
        scan_cluster_lem left name lba (s + 1) v' g' m1 short size1 (λ i lt.
          subst (λ k. u32 k < capacity) {x = lba + (s + suc i)} {y = lba + (s + 1 + i)}
            (omega arith) (card (suc i) (omega (arith, lt)))) in
      let (ring, size', upper, run) = go m1 size1 rest (scan_slots name slots v g) more in
      (
        ring,
        size',
        upper ∙ drop-overlay 512 bytes m.uart.ring (omega (arith, length-sector m.disk l)),
        sector_step left name lba s v g m m1 (ap (took_sector m) (read_ok l m.disk here))
            ∙ ap (λ r. next_sector left name lba s r m1) scan
            ∙ run
            ∙ ap (λ r. (ok r, set_ring ring m)) (sym (scan_slots-append name slots rest v g)),
      )
    where
      go :
          (m1 : Machine hw)
          → length m1.uart.ring ≡ 1024
          → (rest : List Slot) (r : Scan)
          → ((v' : ScanVars) (g' : Bool)
              → Scanned
                  (scan_cluster hw left name lba (s + 1) v' g' m1)
                  m1
                  (scan_slots name rest v' g'))
          → Scanned (next_sector left name lba s r m1) m1 (and_scan r (scan_slots name rest))
      go m1 size1 rest (searching v' g') more = more v' g'
      go m1 size1 rest (done v') more = (m1.uart.ring, size1, refl, refl)
      go m1 size1 rest (found v') more = (m1.uart.ring, size1, refl, refl)
