-- ===== src/Fat/Log/Create.antt =====
-- `create`: a new log file on a card in working order.
use barelog.Prelude.{
  ℕ, suc, ◌+◌, ◌-◌, ◌*◌, ◌^◌, ◌≤◌, ◌<◌, ◌≡◌, ◌≢◌, ◌⊎◌, inl, refl, sym, ap, ◌∙◌, List, ◌∷◌, arith,
  length, u16, u32, le→ltb, ==_refl, ne→==,
}
use barelog.Prelude.Run.{Result, ok, and_then}
use barelog.Config.{config_save}
use barelog.Device.{IsReliable}
use barelog.Machine.{Hardware, Machine, Fat32Vol, Fat32Logfile, set_ring, read_sector, write_sector}
use barelog.Fat.{clus_to_lba, chain_end_mark, fat_write_entry}
use barelog.Fat.Entry.View.{OutsideFat}
use barelog.Fat.Entry.Write.{with_disk}
use barelog.Fat.Log.Ready.{Ready, clusters, fat_of}
use barelog.Fat.Log.Chain.{
  first_free, last_of, head_of, Agree, AllFree, IsChain, IsChain-Agree, NotIn, NotIn-AllFree,
}
use barelog.Fat.Log.DirEntry.{length-new_dir_entry}
use barelog.Fat.Log.NewChain.{alloc_chain-NewChain}
use barelog.Fat.Log.FileSectors.{erased_for, enter, fill, fat_of-Agree}
use barelog.Fat.Log.ZeroFill.{zeros}
use barelog.Fat.Log.{ScanVars}
use barelog.Fat.Log.Open.{Alloc, no_alloc, alloc_chain, zero_fill, new_dir_entry, create}

module _ (hw : Hardware) where
  -- The `logfile` of a new file.
  abbrev pub new_file : Alloc → ScanVars → ℕ → ℕ → Fat32Vol → Fat32Logfile
  new_file a v prealloc_sz n_sectors vol =
      let cur = clus_to_lba vol a.first_clus in
      record {
        first_clus = a.first_clus;
        last_clus = a.last_clus;
        cur_lba = cur;
        end_lba = u32 (cur + n_sectors);
        dir_lba = v.empty_lba;
        dir_offset = v.empty_off;
        bytes_written = 0;
        prealloc_size = prealloc_sz;
      }

  -- `cfg->log_num++; config_save(cfg)`
  abbrev pub counted : Machine hw → Machine hw
  counted m =
      let c = record m.cfg { log_num = u16 (m.cfg.log_num + 1) } in
      record m { cfg = c; eeprom = config_save hw.ee c m.eeprom }

  -- The calls that `create` makes, in order, when all of them succeed.
  create_steps :
      (fuel prealloc_sz n_sectors n : ℕ) (name : List ℕ) (v : ScanVars) (a : Alloc)
      (m m1 m2 m3 m4 m5 : Machine hw)
      → v.empty_lba ≢ 0
      → alloc_chain hw fuel n 2 no_alloc m ≡ (ok a, m1)
      → n ≤ a.found_clus
      → fat_write_entry hw a.last_clus chain_end_mark m1 ≡ (ok tt, m2)
      → let file = new_file a v prealloc_sz n_sectors m2.vol in
        zero_fill hw (file.end_lba - file.cur_lba) file.cur_lba (erased_for hw file m2)
          ≡ (ok tt, m3)
        → read_sector v.empty_lba m3 ≡ (ok tt, m4)
        → write_sector v.empty_lba
            (set_ring (new_dir_entry name a.first_clus prealloc_sz v.empty_off m4.uart.ring) m4)
          ≡ (ok tt, m5)
        → create hw fuel prealloc_sz n_sectors n name v m ≡ (ok tt, counted m5)
  unfolding create
  create_steps fuel prealloc_sz n_sectors n name v a m m1 m2 m3 m4 m5 dir alloc found mark fills
        read write =
      rw
        (
          create,
          ne→== v.empty_lba 0 dir,
          alloc,
          and_then,
          le→ltb a.found_clus n found,
          mark,
          fills,
          read,
        )
        (ap (λ (r : Result (Unit {0}) × Machine hw). and_then r (λ _ m6. (ok tt, counted m6)))
          write)

module _ (hw : Hardware) (rel : IsReliable hw.dev) where
  open rel use {capacity, sector}

  -- The first sector of the first cluster that is free.
  abbrev pub start_of : ℕ → ℕ → Machine hw → ℕ
  start_of left n m =
      clus_to_lba m.vol (head_of 0 (first_free (fat_of hw rel m.vol m.disk) left n 2))

  -- There is room for a file of `n` clusters: enough free ones, the sectors from the first one on lie
  -- behind the FAT copies and on the card, and the free directory entry lies apart from both.
  pub record HasRoom (left n n_sectors : ℕ) (v : ScanVars) (m : Machine hw) : Type 0 where
    pub ready : Ready hw rel m
    pub room : 2 + left ≡ clusters hw rel m
    pub some : 0 < n
    pub enough : length (first_free (fat_of hw rel m.vol m.disk) left n 2) ≡ n
    pub sectors : 0 < n_sectors
    pub behind_fat : m.vol.fat_lba + m.vol.num_fats * m.vol.fat_sz32 ≤ start_of left n m
    pub on_card : start_of left n m + n_sectors ≤ capacity
    pub no_wrap : start_of left n m + n_sectors < 2 ^ 32
    pub dir_some : v.empty_lba ≢ 0
    pub dir_on_card : v.empty_lba < capacity
    pub dir_no_fat : OutsideFat hw rel m.vol v.empty_lba
    pub dir_apart :
        (v.empty_lba < start_of left n m) ⊎ (start_of left n m + n_sectors ≤ v.empty_lba)

  -- What a new file leaves.
  pub record Created (left prealloc_sz n_sectors n : ℕ) (name : List ℕ) (v : ScanVars)
      (m : Machine hw) : Type 0 where
    pub alloc : Alloc
    pub rest : List ℕ
    pub ring : List ℕ
    pub disk : hw.dev.Disk
    pub returns : create hw (suc left) prealloc_sz n_sectors n name v m ≡ (
      ok tt,
      counted hw (record (with_disk hw ring disk m) {
        logfile = new_file hw alloc v prealloc_sz n_sectors m.vol;
      }),
    )
    pub size : length ring ≡ 1024
    pub first_ones : first_free (fat_of hw rel m.vol m.disk) left n 2 ≡ alloc.first_clus ∷ rest
    pub were_free : AllFree (fat_of hw rel m.vol m.disk) (alloc.first_clus ∷ rest)
    pub ends : alloc.last_clus ≡ last_of alloc.first_clus rest
    pub chained : IsChain (fat_of hw rel m.vol disk) chain_end_mark alloc.first_clus rest
    pub others :
        (x : ℕ)
        → x < clusters hw rel m
        → NotIn x (alloc.first_clus ∷ rest)
        → fat_of hw rel m.vol disk x ≡ fat_of hw rel m.vol m.disk x
    pub entry :
        sector disk v.empty_lba
        ≡ new_dir_entry name alloc.first_clus prealloc_sz v.empty_off (sector m.disk v.empty_lba)
    pub zeroed :
        (k : ℕ) → start_of left n m ≤ k → k < start_of left n m + n_sectors → sector disk k ≡ zeros
    pub kept :
        (k : ℕ)
        → OutsideFat hw rel m.vol k
        → k ≢ v.empty_lba
        → (k < start_of left n m) ⊎ (start_of left n m + n_sectors ≤ k)
        → sector disk k ≡ sector m.disk k

  -- With room for it, `create` returns 0 and has made the file: the FAT leads from the first cluster
  -- through the first `n` free ones to the end mark, its other entries as before; the directory sector
  -- has the new entry and is else as it was; the file's sectors hold zeros; every other sector outside
  -- the FAT is as before; `logfile` describes the file, and the next log number is saved.
  pub create-Created :
      (left prealloc_sz n_sectors n : ℕ) (name : List ℕ) (v : ScanVars) (m : Machine hw)
      → HasRoom left n n_sectors v m
      → Created left prealloc_sz n_sectors n name v m
  create-Created left prealloc_sz n_sectors n name v m h =
      let new = alloc_chain-NewChain hw rel left n m h.ready h.room h.some h.enough in
      let a = new.alloc in
      let cur : ℕ = start_of left n m in
      let first : head_of 0 (first_free (fat_of hw rel m.vol m.disk) left n 2) ≡ a.first_clus =
        ap (head_of 0) new.first_ones in
      let start : clus_to_lba m.vol a.first_clus ≡ cur = ap (clus_to_lba m.vol) (sym first) in
      let m2 : Machine hw = with_disk hw new.ring new.disk m in
      let file : Fat32Logfile = new_file hw a v prealloc_sz n_sectors m.vol in
      let z = fill hw rel cur n_sectors file m2 start refl h.sectors h.on_card h.no_wrap in
      let m3 : Machine hw = with_disk hw new.ring z.disk (erased_for hw file m2) in
      let dir : ℕ = v.empty_lba in
      let e =
        enter hw rel dir v.empty_off a.first_clus prealloc_sz name m3 h.dir_on_card new.size in
      let ring : List ℕ = new_dir_entry name a.first_clus prealloc_sz v.empty_off e.got in
      let old : sector z.disk dir ≡ sector m.disk dir =
        z.outside dir h.dir_apart ∙ new.beyond dir h.dir_no_fat in
      let other : (k : ℕ) → k ≢ dir → sector e.disk k ≡ sector z.disk k =
        λ k ne. e.sectors k ∙ rw (ne→== dir k (λ e. ne (sym e))) in
      let fat_kept : Agree 0 (clusters hw rel m) (fat_of hw rel m.vol e.disk)
          (fat_of hw rel m.vol new.disk) =
        fat_of-Agree hw rel m e.disk new.disk h.ready (λ s lo hi.
          other s (λ e. omega (arith, e, lo, hi, h.dir_no_fat))
          ∙ z.outside s (inl (omega (arith, hi, h.behind_fat)))) in
      record {
        alloc = a;
        rest = new.rest;
        ring = ring;
        disk = e.disk;
        returns =
            create_steps hw (suc left) prealloc_sz n_sectors n name v a m new.linked m2 m3
              (set_ring e.got m3) (with_disk hw ring e.disk m3) h.dir_some new.allocates
              (omega (arith, new.all_found)) new.closes z.returns e.reads e.writes;
        size = length-new_dir_entry name a.first_clus prealloc_sz v.empty_off e.got ∙ e.size;
        first_ones = new.first_ones;
        were_free = new.were_free;
        ends = new.ends;
        chained =
            IsChain-Agree (fat_of hw rel m.vol e.disk) (fat_of hw rel m.vol new.disk) chain_end_mark
              (clusters hw rel m) a.first_clus new.rest fat_kept new.ordered.1 new.ordered.2
              new.chained;
        others = λ x lt out. fat_kept x (omega arith) lt ∙ new.others x lt out;
        entry =
            e.sectors dir
            ∙ rw (==_refl dir) (ap (new_dir_entry name a.first_clus prealloc_sz v.empty_off) old);
        zeroed = λ k lo hi. other k (λ e. omega (arith, e, lo, hi, h.dir_apart)) ∙ z.inside k lo hi;
        kept = λ k out ne apart. other k ne ∙ z.outside k apart ∙ new.beyond k out;
      }

  -- The sectors are taken as contiguous, the clusters are not: a cluster in use whose first sector lies
  -- among the file's sectors keeps its FAT entry, and after `create`, which returns 0, this sector
  -- holds zeros.
  pub create_overwrites :
      (left prealloc_sz n_sectors n x : ℕ) (name : List ℕ) (v : ScanVars) (m : Machine hw)
      → HasRoom left n n_sectors v m
      → x < clusters hw rel m
      → fat_of hw rel m.vol m.disk x ≢ 0
      → start_of left n m ≤ clus_to_lba m.vol x
      → clus_to_lba m.vol x < start_of left n m + n_sectors
      → let (result, m') = create hw (suc left) prealloc_sz n_sectors n name v m in
        (result ≡ ok tt)
        × (fat_of hw rel m.vol m'.disk x ≡ fat_of hw rel m.vol m.disk x)
        × (sector m'.disk (clus_to_lba m.vol x) ≡ zeros)
  create_overwrites left prealloc_sz n_sectors n x name v m h lt used lo hi =
      let c = create-Created left prealloc_sz n_sectors n name v m h in
      let apart =
        NotIn-AllFree (fat_of hw rel m.vol m.disk) x (c.alloc.first_clus ∷ c.rest) c.were_free
          used in
      rw c.returns (refl, c.others x lt apart, c.zeroed (clus_to_lba m.vol x) lo hi)
