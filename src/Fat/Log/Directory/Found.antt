-- ===== src/Fat/Log/Directory/Found.antt =====
-- The scan for a file that has just been created.
use barelog.Prelude.{
  ℕ, suc, ◌+◌, ◌*◌, ◌≤◌, ◌<◌, ◌≡◌, ◌≢◌, ◌⊎◌, refl, sym, ap, ap₂, subst, ◌∙◌, none, some, List, [],
  ◌∷◌, arith, length, get_or,
}
use barelog.Prelude.Run.{ok}
use barelog.Device.{IsReliable}
use barelog.Fat.{end_of_chain}
use barelog.Fat.Entry.View.{OutsideFat}
use barelog.Fat.Entry.Write.{with_disk}
use barelog.Fat.Log.{ScanVars, found, scan_root_dir}
use barelog.Fat.Log.Chain.{IsChain, NotIn-AllFree}
use barelog.Fat.Log.Create.{HasRoom, start_of, new_file, counted, create-Created}
use barelog.Fat.Log.Directory.{Slot, find_slot, open_slot, Answers}
use barelog.Fat.Log.Directory.Cluster.{dir_slots}
use barelog.Fat.Log.Directory.Entered.{find_slot-reread}
use barelog.Fat.Log.Directory.Kinds.{OpenAt, open_slot-OpenAt}
use barelog.Fat.Log.Directory.Placed.{AllSlots, reread-dir_slots, dir_slots-IsPlaced}
use barelog.Fat.Log.Directory.Reads.{OnCard, scan_root_dir-Answers}
use barelog.Fat.Log.Open.{create, new_dir_entry}
use barelog.Fat.Log.Ready.{Ready, fat_of}
use barelog.Machine.{Hardware, Machine, Fat32Vol, set_ring}

AllSlots-impl :
    {P Q : Slot → Type 0} (slots : List Slot)
    → AllSlots P slots
    → ((s : Slot) → P s → Q s)
    → AllSlots Q slots
AllSlots-impl [] h f = tt
AllSlots-impl (s ∷ slots) h f = (f s h.0, AllSlots-impl slots h.1 f)

module _ (hw : Hardware) (rel : IsReliable hw.dev) where
  open rel use {sector}

  -- A map that agrees on the clusters in use has the same chains.
  IsChain-kept :
      (vol : Fat32Vol) (fat fat' : ℕ → ℕ) (mark c : ℕ) (rest : List ℕ)
      → OnCard hw rel vol c rest
      → IsChain fat mark c rest
      → end_of_chain ≤ mark
      → ((x : ℕ) → x < vol.fat_sz32 * 128 → fat x ≢ 0 → fat' x ≡ fat x)
      → IsChain fat' mark c rest
  IsChain-kept vol fat fat' mark c [] card chain above same =
      same c card.has_entry (λ e. omega (arith, e, chain, above)) ∙ chain
  IsChain-kept vol fat fat' mark c (c' ∷ []) card chain above same = (
    same c card.0.has_entry (λ e. omega (arith, e, chain.0, card.1.low)) ∙ chain.0,
    IsChain-kept vol fat fat' mark c' [] card.1 chain.1 above same,
  )
  IsChain-kept vol fat fat' mark c (c' ∷ d ∷ rest) card chain above same = (
    same c card.0.has_entry (λ e. omega (arith, e, chain.0, card.1.0.low)) ∙ chain.0,
    IsChain-kept vol fat fat' mark c' (d ∷ rest) card.1 chain.1 above same,
  )

  -- The root directory of a card that has room for a file of this name: no slot of that name, the
  -- open slot is the one that `v` gives, and its sectors lie apart from the FAT and from the file.
  pub record HasSlot (left n n_sectors : ℕ) (name : List ℕ) (v : ScanVars) (m : Machine hw)
      (rest : List ℕ) (mark : ℕ) (o : Slot) : Type 0 where
    pub eleven : length name ≡ 11
    pub used : get_or name 0 0 ≢ 0x00
    pub kept : get_or name 0 0 ≢ 0xE5
    pub card : OnCard hw rel m.vol m.vol.root_clus rest
    pub chain : IsChain (fat_of hw rel m.vol m.disk) mark m.vol.root_clus rest
    pub marks : end_of_chain ≤ mark
    pub absent : find_slot name (dir_slots hw rel m.vol m.disk m.vol.root_clus rest) ≡ none
    pub opens : open_slot name (dir_slots hw rel m.vol m.disk m.vol.root_clus rest) ≡ some o
    pub lba : v.empty_lba ≡ o.lba
    pub off : v.empty_off ≡ o.off
    pub apart :
        AllSlots
          (λ s.
            OutsideFat hw rel m.vol s.lba
            × ((s.lba < start_of hw rel left n m) ⊎ (start_of hw rel left n m + n_sectors ≤ s.lba)))
          (dir_slots hw rel m.vol m.disk m.vol.root_clus rest)

  -- On a reliable card with room for the file and an open slot in its root directory: `create`
  -- returns 0, and a scan for the name, with fuel above the number of the directory's clusters,
  -- then finds it, in that slot.
  pub scan_root_dir-create :
      (left prealloc_sz n_sectors n fuel : ℕ) (name : List ℕ) (v v' : ScanVars) (m : Machine hw)
      (rest : List ℕ) (mark : ℕ) (o : Slot)
      → HasRoom hw rel left n n_sectors v m
      → HasSlot left n n_sectors name v m rest mark o
      → length rest + 1 < fuel
      → let (result, m') = create hw (suc left) prealloc_sz n_sectors n name v m in
        (result ≡ ok tt)
        × (ring : List ℕ) × (w : ScanVars) × (scan_root_dir hw fuel name v' m'
            ≡ (ok (found w), set_ring ring m'))
        × (w.found_lba ≡ o.lba)
        × (w.found_off ≡ o.off)
  scan_root_dir-create left prealloc_sz n_sectors n fuel name v v' m rest mark o h s enough =
      let c = create-Created hw rel left prealloc_sz n_sectors n name v m h in
      let slots : List Slot = dir_slots hw rel m.vol m.disk m.vol.root_clus rest in
      let placed = dir_slots-IsPlaced hw rel m.vol m.disk m.vol.root_clus rest in
      let at : OpenAt name s.eleven (sector m.disk) (some o) =
        subst (OpenAt name s.eleven (sector m.disk)) s.opens
          (open_slot-OpenAt name s.eleven (sector m.disk) slots placed) in
      let written : sector c.disk o.lba
          ≡ new_dir_entry name c.alloc.first_clus prealloc_sz o.off (sector m.disk o.lba) =
        ap (sector c.disk) (sym s.lba)
        ∙ c.entry
        ∙ ap₂ (λ (l e : ℕ). new_dir_entry name c.alloc.first_clus prealloc_sz e (sector m.disk l))
            s.lba s.off in
      let unmoved =
        AllSlots-impl {Q = λ x. x.lba ≢ o.lba → sector c.disk x.lba ≡ sector m.disk x.lba} slots
          s.apart (λ x p ne. c.kept x.lba p.0 (λ e. ne (e ∙ s.lba)) p.1) in
      let new : Slot = record o { bytes = sector c.disk o.lba } in
      let finds : find_slot name (dir_slots hw rel m.vol c.disk m.vol.root_clus rest) ≡ some new =
        ap (find_slot name) (sym (reread-dir_slots hw rel m.vol m.disk c.disk m.vol.root_clus rest))
        ∙ find_slot-reread name s.eleven (sector m.disk) (sector c.disk) o c.alloc.first_clus
            prealloc_sz (rel.length-sector m.disk) s.used s.kept written at.0 at.1 slots placed
            unmoved s.absent s.opens in
      let chain : IsChain (fat_of hw rel m.vol c.disk) mark m.vol.root_clus rest =
        IsChain-kept m.vol (fat_of hw rel m.vol m.disk) (fat_of hw rel m.vol c.disk) mark
          m.vol.root_clus rest s.card s.chain s.marks
          (λ x lt used. c.others x lt (
            NotIn-AllFree (fat_of hw rel m.vol m.disk) x (c.alloc.first_clus ∷ c.rest) c.were_free
              used)) in
      let m' : Machine hw = counted hw (record (with_disk hw c.ring c.disk m) {
        logfile = new_file hw c.alloc v prealloc_sz n_sectors m.vol;
      }) in
      let ready : Ready hw rel m' = record {
        fits = h.ready.fits;
        size = c.size;
        entries = h.ready.entries;
      } in
      let (ring, scan, size, upper, run, answers) =
        scan_root_dir-Answers hw rel fuel name rest mark v' m' (omega (arith, s.eleven)) ready
          enough s.card chain s.marks in
      let (w, is_found, at_lba, at_off) =
        subst
          (λ r.
            Answers r (open_slot name (dir_slots hw rel m.vol c.disk m.vol.root_clus rest)) scan)
          finds answers in
      rw c.returns
        (refl, ring, w, run ∙ ap (λ r. (ok r, set_ring ring m')) is_found, at_lba, at_off)
