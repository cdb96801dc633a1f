-- ===== src/Fat/Log/Directory/Reads.antt =====
-- The scan of the root directory on a card in working order.
use barelog.Prelude.{
  ℕ, zero, suc, ◌+◌, ◌*◌, ◌≤◌, ◌<◌, ◌≡◌, refl, sym, ap, ◌∙◌, Bool, false, List, [], ◌∷◌, arith,
  length, length-overlay, drop, u32, lt→ltb, le→leb, le→ltb,
}
use barelog.Prelude.Run.{Result, ok, and_then, pure, ◌>>=◌}
use barelog.Device.{IsReliable}
use barelog.Fat.{clus_to_lba, end_of_chain, fat_read_entry}
use barelog.Fat.Log.{
  Scan, searching, done, found, ScanVars, scan_cluster, scan_chain, scan_root_dir, minus_one,
}
use barelog.Fat.Log.Chain.{IsChain}
use barelog.Fat.Log.Directory.Answers.{settle, settle-Answers}
use barelog.Fat.Log.Directory.{
  Slot, find_slot, open_slot, Answers, scan_slots, and_scan, scan_slots-append,
}
use barelog.Fat.Log.Ready.{Ready, fat_of, read_lem, after_read, after_read-Ready, read_upper}
use barelog.Machine.{Hardware, Machine, Fat32Vol, set_ring}
use barelog.Fat.Log.Directory.Cluster.{cluster_slots, dir_slots, Scanned, scan_cluster_lem}

module _ (hw : Hardware) (rel : IsReliable hw.dev) where
  open rel use {capacity, sector, length-sector, read_ok}

  -- What follows a cluster.
  abbrev next_cluster : ℕ → List ℕ → ℕ → Scan → Machine hw → Result Scan × Machine hw
  next_cluster fuel name clus (searching v g) m =
      and_then (minus_one (fat_read_entry hw clus m)) (λ next. scan_chain hw fuel name next v g)
  next_cluster fuel name clus (done v) m = pure (done v) m
  next_cluster fuel name clus (found v) m = pure (found v) m

  chain_step :
      (fuel : ℕ) (name : List ℕ) (clus : ℕ) (v : ScanVars) (g : Bool) (m m1 : Machine hw) (r : Scan)
      → 2 ≤ clus
      → clus < end_of_chain
      → scan_cluster hw m.vol.sec_per_clus name (clus_to_lba m.vol clus) 0 v g m ≡ (ok r, m1)
      → scan_chain hw (suc fuel) name clus v g m ≡ next_cluster fuel name clus r m1
  unfolding scan_chain
  chain_step fuel name clus v g m m1 r two below scan =
      rw (scan_chain, le→leb 2 clus two, lt→ltb clus end_of_chain below, scan, and_then) (go r)
    where
      go :
          (r : Scan)
          → (elim r as (λ _. Machine hw → Result Scan × Machine hw) [
            | searching v' g' ↦ (do
              next ← (λ m. minus_one (fat_read_entry hw clus m))
              scan_chain hw fuel name next v' g')
            | done v' ↦ pure (done v')
            | found v' ↦ pure (found v')
          ])
              m1
            ≡ next_cluster fuel name clus r m1
      go (searching v' g') = refl
      go (done v') = refl
      go (found v') = refl

  chain_end :
      (fuel : ℕ) (name : List ℕ) (clus : ℕ) (v : ScanVars) (g : Bool) (m : Machine hw)
      → end_of_chain ≤ clus
      → scan_chain hw (suc fuel) name clus v g m ≡ (ok (done v), m)
  unfolding scan_chain
  chain_end fuel name clus v g m above =
      rw (scan_chain, le→leb 2 clus (omega (arith, above)), le→ltb clus end_of_chain above)

  -- The cluster is one of the volume's, and its sectors lie on the card.
  pub record ClusterOnCard (vol : Fat32Vol) (c : ℕ) : Type 0 where
    pub low : 2 ≤ c
    pub high : c < end_of_chain
    pub has_entry : c < vol.fat_sz32 * 128
    pub sectors : (i : ℕ) → i < vol.sec_per_clus → u32 (clus_to_lba vol c + (0 + i)) < capacity

  -- All clusters of a directory.
  abbrev pub OnCard : Fat32Vol → ℕ → List ℕ → Type 0
  OnCard vol c [] = ClusterOnCard vol c
  OnCard vol c (c' ∷ rest) = ClusterOnCard vol c × OnCard vol c' rest

  read_next :
      (fuel : ℕ) (name : List ℕ) (c : ℕ) (v : ScanVars) (g : Bool) (m : Machine hw)
      → Ready hw rel m
      → c < m.vol.fat_sz32 * 128
      → next_cluster fuel name c (searching v g) m
        ≡ scan_chain hw fuel name (fat_of hw rel m.vol m.disk c) v g (after_read hw rel c m)
  read_next fuel name c v g m r lt =
      ap (λ x. and_then (minus_one x) (λ next. scan_chain hw fuel name next v g))
        (read_lem hw rel c m r lt)

  and_scan-searching : (r : Scan) → and_scan r searching ≡ r
  and_scan-searching (searching v g) = refl
  and_scan-searching (done v) = refl
  and_scan-searching (found v) = refl

  -- A cluster, and the clusters behind it.
  after_cluster :
      (fuel : ℕ) (name : List ℕ) (c : ℕ) (k : ScanVars → Bool → Scan) (m : Machine hw) (r : Scan)
      → length m.uart.ring ≡ 1024
      → ((v : ScanVars) (g : Bool)
          → Scanned hw rel (next_cluster fuel name c (searching v g) m) m (settle (k v g)))
      → Scanned hw rel (next_cluster fuel name c r m) m (settle (and_scan r k))
  after_cluster fuel name c k m (searching v g) size more = more v g
  after_cluster fuel name c k m (done v) size more = (m.uart.ring, size, refl, refl)
  after_cluster fuel name c k m (found v) size more = (m.uart.ring, size, refl, refl)

  cluster_lem :
      (fuel : ℕ) (name : List ℕ) (c : ℕ) (k : ScanVars → Bool → Scan) (v : ScanVars) (g : Bool)
      (m : Machine hw)
      → length name ≤ 32
      → Ready hw rel m
      → ClusterOnCard m.vol c
      → ((ring : List ℕ) (v' : ScanVars) (g' : Bool)
          → length ring ≡ 1024
          → Scanned hw rel
              (scan_chain hw fuel name
                (fat_of hw rel m.vol m.disk c)
                v'
                g'
                (after_read hw rel c (set_ring ring m)))
              (set_ring ring m)
              (settle (k v' g')))
      → Scanned hw rel (scan_chain hw (suc fuel) name c v g m) m (
          settle (
            and_scan
              (scan_slots name
                (cluster_slots hw rel m.disk m.vol.sec_per_clus (clus_to_lba m.vol c) 0)
                v
                g)
              k))
  cluster_lem fuel name c k v g m short r card more =
      let r1 : Scan =
        scan_slots name (cluster_slots hw rel m.disk m.vol.sec_per_clus (clus_to_lba m.vol c) 0) v
          g in
      let (ring, size, upper, run) =
        scan_cluster_lem hw rel m.vol.sec_per_clus name (clus_to_lba m.vol c) 0 v g m short r.size
          card.sectors in
      let m1 : Machine hw = set_ring ring m in
      let ready : Ready hw rel m1 = record { fits = r.fits; size = size; entries = r.entries } in
      let (ring', size', upper', run') = after_cluster fuel name c k m1 r1 size (λ v' g'.
        let (ring2, size2, upper2, run2) = more ring v' g' size in
        (ring2, size2, upper2, read_next fuel name c v' g' m1 ready card.has_entry ∙ run2)) in
      (
        ring',
        size',
        upper' ∙ upper,
        chain_step fuel name c v g m m1 r1 card.low card.high run ∙ run',
      )

  scan_chain_lem :
      (fuel : ℕ) (name : List ℕ) (c : ℕ) (rest : List ℕ) (mark : ℕ) (v : ScanVars) (g : Bool)
      (m : Machine hw)
      → length name ≤ 32
      → Ready hw rel m
      → length rest + 1 < fuel
      → OnCard m.vol c rest
      → IsChain (fat_of hw rel m.vol m.disk) mark c rest
      → end_of_chain ≤ mark
      → Scanned hw rel
          (scan_chain hw fuel name c v g m)
          m
          (settle (scan_slots name (dir_slots hw rel m.vol m.disk c rest) v g))
  unfolding dir_slots
  scan_chain_lem zero name c rest mark v g m short r enough card chain above = absurd (omega arith)
  scan_chain_lem (suc zero) name c rest mark v g m short r enough card chain above =
      absurd (omega arith)
  scan_chain_lem (suc (suc fuel)) name c [] mark v g m short r enough card chain above =
      let slots : List Slot =
        cluster_slots hw rel m.disk m.vol.sec_per_clus (clus_to_lba m.vol c) 0 in
      let (ring, size, upper, run) =
        cluster_lem (suc fuel) name c searching v g m short r card (λ ring v' g' size.
          let m1 : Machine hw = set_ring ring m in
          let m2 : Machine hw = after_read hw rel c m1 in
          (
            m2.uart.ring,
            length-overlay _ ring ∙ size,
            read_upper hw rel c m1,
            ap (λ n. scan_chain hw (suc fuel) name n v' g' m2) chain
                ∙ chain_end fuel name mark v' g' m2 above,
          )) in
      (ring, size, upper, run ∙ ap (λ x. (ok (settle x), set_ring ring m)) (and_scan-searching _))
  scan_chain_lem (suc (suc fuel)) name c (c' ∷ rest) mark v g m short r enough card chain above =
      let slots : List Slot =
        cluster_slots hw rel m.disk m.vol.sec_per_clus (clus_to_lba m.vol c) 0 in
      let (ring, size, upper, run) =
        cluster_lem (suc fuel) name c (scan_slots name (dir_slots hw rel m.vol m.disk c' rest)) v g
          m short r card.0
          (λ ring v' g' size.
            let m1 : Machine hw = set_ring ring m in
            let ready : Ready hw rel m1 = record {
              fits = r.fits;
              size = size;
              entries = r.entries;
            } in
            let m2 : Machine hw = after_read hw rel c m1 in
            let (ring2, size2, upper2, run2) =
              scan_chain_lem (suc fuel) name c' rest mark v' g' m2 short
                (after_read-Ready hw rel c m1 ready) (omega (arith, enough)) card.1 chain.1 above in
            (
              ring2,
              size2,
              upper2 ∙ read_upper hw rel c m1,
              ap (λ n. scan_chain hw (suc fuel) name n v' g' m2) chain.0 ∙ run2,
            )) in
      (
        ring,
        size,
        upper,
        run
            ∙ ap (λ x. (ok (settle x), set_ring ring m))
                (sym (scan_slots-append name slots (dir_slots hw rel m.vol m.disk c' rest) v g)),
      )

  -- On a reliable card that holds the FAT copies, of at most 2^28 entries, with a ring of 1024
  -- bytes, for a name of at most 32 bytes, where the entries lead from the root cluster through
  -- the clusters of the directory to an end-of-chain mark, these are clusters of the volume whose
  -- sectors lie on the card, and the fuel is above their number: the scan returns, has changed
  -- nothing but the first 512 bytes of the ring, and answers the first slot of the name before the
  -- end of the directory; or that there is none, with the first slot that is deleted or at the
  -- end; or, if no slot is open, with the address 0.
  pub scan_root_dir-Answers :
      (fuel : ℕ) (name rest : List ℕ) (mark : ℕ) (v : ScanVars) (m : Machine hw)
      → length name ≤ 32
      → Ready hw rel m
      → length rest + 1 < fuel
      → OnCard m.vol m.vol.root_clus rest
      → IsChain (fat_of hw rel m.vol m.disk) mark m.vol.root_clus rest
      → end_of_chain ≤ mark
      → let slots = dir_slots hw rel m.vol m.disk m.vol.root_clus rest in
        (ring : List ℕ) × (scan : Scan) × (length ring ≡ 1024)
        × (drop 512 ring ≡ drop 512 m.uart.ring)
        × (scan_root_dir hw fuel name v m ≡ (ok scan, set_ring ring m))
        × Answers (find_slot name slots) (open_slot name slots) scan
  unfolding scan_root_dir
  scan_root_dir-Answers fuel name rest mark v m short r enough card chain above =
      let v0 : ScanVars = record v { found_lba = 0; empty_lba = 0 } in
      let slots : List Slot = dir_slots hw rel m.vol m.disk m.vol.root_clus rest in
      let (ring, size, upper, run) =
        scan_chain_lem fuel name m.vol.root_clus rest mark v0 false m short r enough card chain
          above in
      (
        ring,
        settle (scan_slots name slots v0 false),
        size,
        upper,
        run,
        settle-Answers name slots v0 refl,
      )
