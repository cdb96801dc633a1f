-- ===== src/Fat/Log/Directory/Opened.antt =====
-- `fat32_open_log` where the name of the log number is new.
use barelog.Prelude.{
  ℕ, suc, ◌+◌, ◌-◌, ◌/◌, ◌≤◌, ◌<◌, ◌≡◌, ◌⊎◌, sym, ap, subst, ◌∙◌, none, some, List, arith, length,
  u16, u32, sub32,
}
use barelog.Prelude.Run.{ok, and_then}
use barelog.Config.{config_prealloc_bytes}
use barelog.Device.{IsReliable}
use barelog.Fat.{clus_to_lba}
use barelog.Fat.Log.Chain.{head_of}
use barelog.Fat.Entry.View.{OutsideFat}
use barelog.Fat.Log.{Scan, ScanVars, done, found, make_logname, scan_root_dir}
use barelog.Fat.Log.Create.{HasRoom, start_of, create-Created}
use barelog.Fat.Log.Directory.{Slot, find_slot, open_slot, Answers}
use barelog.Fat.Log.Directory.Found.{HasSlot, scan_root_dir-create}
use barelog.Fat.Log.Directory.Reads.{scan_root_dir-Answers}
use barelog.Fat.Log.Open.{behind, find_name, create, fat32_open_log}
use barelog.Machine.{Hardware, Machine, set_ring}

-- The file that the configuration and the volume ask for.
module _ {hw : Hardware} (m : Machine hw) where
  abbrev pub file_size : ℕ
  file_size = config_prealloc_bytes m.cfg.prealloc_code

  abbrev pub file_sectors : ℕ
  file_sectors = file_size / 512

  abbrev pub file_clusters : ℕ
  file_clusters = sub32 (u32 (file_sectors + m.vol.sec_per_clus)) 1 / m.vol.sec_per_clus

  abbrev pub log_name : List ℕ
  log_name = make_logname m.cfg.log_num

-- What the scan has noted of an open slot.
abbrev pub noted : Slot → ScanVars
noted o = record { found_lba = 0; found_off = 0; empty_lba = o.lba; empty_off = o.off }

module _ (hw : Hardware) where
  find_name_new :
      (left fuel size sectors : ℕ) (name : List ℕ) (v w : ScanVars) (m m1 : Machine hw)
      → scan_root_dir hw fuel (log_name m) v m ≡ (ok (done w), m1)
      → find_name hw (suc left) fuel size sectors name v m ≡ (ok (behind (log_name m) w), m1)
  unfolding find_name
  find_name_new left fuel size sectors name v w m m1 scan = rw (find_name, scan, and_then)

  open_steps :
      (fuel : ℕ) (name : List ℕ) (v w : ScanVars) (m m1 : Machine hw)
      → m.cfg.log_num < 65535
      → scan_root_dir hw fuel (log_name m) v m ≡ (ok (done w), m1)
      → fat32_open_log hw fuel name v m
        ≡ create hw fuel (file_size m) (file_sectors m) (file_clusters m) (log_name m) w m1
  unfolding fat32_open_log
  open_steps fuel name v w m m1 lt scan = rw (
    fat32_open_log,
    ap (λ k. find_name hw k fuel (file_size m) (file_sectors m) name v m)
          {x = 65535 - m.cfg.log_num} {y = suc (65534 - m.cfg.log_num)} (omega arith)
        ∙ find_name_new (65534 - m.cfg.log_num) fuel (file_size m) (file_sectors m) name v w m m1
            scan,
    and_then,
  )

module _ (hw : Hardware) (rel : IsReliable hw.dev) where
  absent_answer :
      (name : List ℕ) (o : Slot) (scan : Scan) (slots : List Slot)
      → find_slot name slots ≡ none
      → open_slot name slots ≡ some o
      → Answers (find_slot name slots) (open_slot name slots) scan
      → Answers none (some o) scan
  absent_answer name o scan slots absent opens answers =
      subst (λ s. Answers none s scan) opens
        (subst (λ f. Answers f (open_slot name slots) scan) absent answers)

  next_number : (n : ℕ) → n < 65535 → u16 (n + 1) ≡ n + 1
  next_number n lt = omega arith

  -- The scan changes the ring and notes the slot.
  room_noted :
      (left n n_sectors : ℕ) (w : ScanVars) (o : Slot) (m : Machine hw) (ring : List ℕ)
      → HasRoom hw rel left n n_sectors (noted o) m
      → length ring ≡ 1024
      → w.empty_lba ≡ o.lba
      → HasRoom hw rel left n n_sectors w (set_ring ring m)
  room_noted left n n_sectors w o m ring h size at = record {
    ready = record { fits = h.ready.fits; size = size; entries = h.ready.entries };
    room = h.room;
    some = h.some;
    enough = h.enough;
    sectors = h.sectors;
    behind_fat = h.behind_fat;
    on_card = h.on_card;
    no_wrap = h.no_wrap;
    dir_some = λ e. h.dir_some (sym at ∙ e);
    dir_on_card = omega (arith, at, h.dir_on_card);
    dir_no_fat = subst (OutsideFat hw rel m.vol) (sym at) h.dir_no_fat;
    dir_apart =
        subst (λ l. (l < start_of hw rel left n m) ⊎ (start_of hw rel left n m + n_sectors ≤ l))
          (sym at) h.dir_apart;
  }

  slot_noted :
      (left n n_sectors : ℕ) (name : List ℕ) (w : ScanVars) (o : Slot) (m : Machine hw)
      (ring rest : List ℕ) (mark : ℕ)
      → HasSlot hw rel left n n_sectors name (noted o) m rest mark o
      → w.empty_lba ≡ o.lba
      → w.empty_off ≡ o.off
      → HasSlot hw rel left n n_sectors name w (set_ring ring m) rest mark o
  slot_noted left n n_sectors name w o m ring rest mark s at_lba at_off = record {
    eleven = s.eleven;
    used = s.used;
    kept = s.kept;
    card = s.card;
    chain = s.chain;
    marks = s.marks;
    absent = s.absent;
    opens = s.opens;
    lba = at_lba;
    off = at_off;
    apart = s.apart;
  }

  -- On a reliable card that holds the FAT copies, with a ring of 1024 bytes: the root directory is
  -- a chain of clusters of the volume on the card; the log number is below 65535, no slot of the
  -- directory has its name, and a slot is open; enough clusters are free for a file of the
  -- configured size, and as many sectors as it has, from the first free cluster on without a gap,
  -- lie behind the FAT copies, on the card and below 2^32; and every sector of the directory lies
  -- outside the FAT copies and outside these sectors. Then fat32_open_log, with fuel for a look at
  -- every cluster and above the number of the directory's, returns 0, a scan for the name with
  -- fuel above that number then finds it in the open slot, the file begins empty at the first free
  -- cluster, and the log number is the next one.
  pub fat32_open_log_creates :
      (left fuel : ℕ) (name rest : List ℕ) (v v' : ScanVars) (m : Machine hw) (mark : ℕ) (o : Slot)
      → m.cfg.log_num < 65535
      → HasRoom hw rel left (file_clusters m) (file_sectors m) (noted o) m
      → HasSlot hw rel left (file_clusters m) (file_sectors m) (log_name m) (noted o) m rest mark o
      → length rest + 1 < suc left
      → length rest + 1 < fuel
      → let (result, m') = fat32_open_log hw (suc left) name v m in
        (result ≡ ok tt)
        × (m'.cfg.log_num ≡ m.cfg.log_num + 1)
        × (m'.logfile.bytes_written ≡ 0)
        × (m'.logfile.cur_lba ≡ start_of hw rel left (file_clusters m) m)
        × (ring : List ℕ) × (w : ScanVars) × (scan_root_dir hw fuel (log_name m) v' m'
            ≡ (ok (found w), set_ring ring m'))
        × (w.found_lba ≡ o.lba)
        × (w.found_off ≡ o.off)
  fat32_open_log_creates left fuel name rest v v' m mark o lt h s enough enough' =
      let (ring, scan, size, upper, run, answers) =
        scan_root_dir-Answers hw rel (suc left) (log_name m) rest mark v m (omega (arith, s.eleven))
          h.ready enough s.card s.chain s.marks in
      let (w, is_done, at_lba, at_off) =
        absent_answer (log_name m) o scan _ s.absent s.opens answers in
      let m1 : Machine hw = set_ring ring m in
      let h1 = room_noted left (file_clusters m) (file_sectors m) w o m ring h size at_lba in
      let s1 =
        slot_noted left (file_clusters m) (file_sectors m) (log_name m) w o m ring rest mark s
          at_lba at_off in
      let c =
        create-Created hw rel left (file_size m) (file_sectors m) (file_clusters m) (log_name m) w
          m1 h1 in
      let finds =
        scan_root_dir-create hw rel left (file_size m) (file_sectors m) (file_clusters m) fuel
          (log_name m) w v' m1 rest mark o h1 s1 enough' in
      rw
        (open_steps hw (suc left) name v w m m1 lt
          (run ∙ ap (λ r. (ok r, set_ring ring m)) is_done))
        (
          finds.0,
          ap (λ r. r.1.cfg.log_num) c.returns ∙ next_number m.cfg.log_num lt,
          ap (λ r. r.1.logfile.bytes_written) c.returns,
          ap (λ r. r.1.logfile.cur_lba) c.returns
              ∙ sym (ap (λ l. clus_to_lba m.vol (head_of 0 l)) c.first_ones),
          finds.1,
          finds.2,
          finds.3,
          finds.4,
          finds.5,
        )
