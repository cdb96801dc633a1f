-- ===== src/Fat/Log/Open.antt =====
-- fat32_log.c, second part: `fat32_open_log`.
use barelog.Prelude.{
  ℕ, zero, suc, ◌+◌, ◌-◌, ◌*◌, ◌/◌, true, false, List, [], ◌∷◌, u16, u32, sub32, shr, low_bits,
  from_le16, replicate, overlay, set, ltb, ◌==◌, if◌then◌else◌,
}
use barelog.Prelude.Bytes.{get_le16, get_le32, put_le16, put_le32}
use barelog.Prelude.Run.{out_of_fuel, Run, pure, fail, ◌>>=◌, ◌>>◌}
use barelog.Config.{config_prealloc_bytes, config_save, eeprom_off_rec_lo, eeprom_off_rec_hi}
use barelog.Machine.{
  Hardware, Machine, set_ring, gets, modify, read_sector, write_sector, write_zero_sector, erase,
}
use barelog.Fat.{clus_to_lba, end_of_chain, chain_end_mark, fat_read_entry, fat_write_entry}
use barelog.Fat.Log.{ScanVars, searching, done, found, make_logname, scan_root_dir}

-- Fields of the `struct dir_entry` at `off`.
abbrev pub dir_fst_clus_hi : List ℕ → ℕ → ℕ
dir_fst_clus_hi buf off = get_le16 buf (off + 20)

abbrev pub dir_fst_clus_lo : List ℕ → ℕ → ℕ
dir_fst_clus_lo buf off = get_le16 buf (off + 26)

abbrev pub dir_file_size : List ℕ → ℕ → ℕ
dir_file_size buf off = get_le32 buf (off + 28)

-- Bytes copied into a buffer from `off` on.
unfoldable pub copy_at : ℕ → List ℕ → List ℕ → List ℕ
copy_at zero bytes buf = overlay bytes buf
copy_at (suc off) bytes [] = []
copy_at (suc off) bytes (x ∷ buf) = x ∷ copy_at off bytes buf

-- `memset(de, 0, 32)` and the stores of the new directory entry.
unfoldable pub new_dir_entry : List ℕ → ℕ → ℕ → ℕ → List ℕ → List ℕ
unfolding copy_at
new_dir_entry name first_clus prealloc_sz off buf =
    let b0 = copy_at off (replicate 32 0) buf in
    let b1 = copy_at off name b0 in
    let b2 = set b1 (off + 11) 0x20 in
    let b3 = put_le16 b2 (off + 20) (u16 (shr first_clus 16)) in
    let b4 = put_le16 b3 (off + 26) (low_bits first_clus 16) in put_le32 b4 (off + 28) prealloc_sz

-- `prev_clus`, `first_clus`, `last_clus`, `found_clus` of the allocation loop.
pub record Alloc : Type 0 where
  pub prev_clus : ℕ
  pub first_clus : ℕ
  pub last_clus : ℕ
  pub found_clus : ℕ

abbrev pub no_alloc : Alloc
no_alloc = record { prev_clus = 0; first_clus = 0; last_clus = 0; found_clus = 0 }

abbrev pub take_clus : Alloc → ℕ → Alloc
take_clus a c = record {
  prev_clus = c;
  first_clus = if a.found_clus == 0 then c else a.first_clus;
  last_clus = c;
  found_clus = u32 (a.found_clus + 1);
}

-- How the search for a name ends: at `return 0` after a resumption, or behind the loop with the
-- variables `name`, `found_lba`, `found_off`, `empty_lba`, `empty_off`.
pub data Search : Type 0 where
  resumed : Search
  behind : List ℕ → ScanVars → Search

module _ (hw : Hardware) where
  abbrev pub set_log_num : ℕ → Machine hw → Machine hw
  set_log_num n m = record m { cfg = record m.cfg { log_num = n } }

  -- The walk along the chain of the resumed file; the result is its last cluster.
  unfoldable pub walk_chain : ℕ → ℕ → ℕ → Run (Machine hw) ℕ
  walk_chain zero c next m = (out_of_fuel, m)
  walk_chain (suc fuel) c next m = elim (ltb next end_of_chain) [
    | false ↦ pure c m
    | true ↦ (do entry ← fat_read_entry hw next; walk_chain fuel next entry) m
  ]

  -- The two halves of the recovery record, joined.
  abbrev pub recovered : Machine hw → ℕ
  recovered m =
      let byte = λ (a : ℕ). hw.ee.read_byte a m.eeprom in
      let lo = from_le16 (byte eeprom_off_rec_lo) (byte (eeprom_off_rec_lo + 1)) in
      let hi = from_le16 (byte eeprom_off_rec_hi) (byte (eeprom_off_rec_hi + 1)) in lo + hi * 65536

  -- The branch for a file whose size is `prealloc_sz`.
  unfoldable pub resume : ℕ → ℕ → ℕ → ScanVars → Run (Machine hw) (Unit {0})
  resume fuel prealloc_sz n_sectors v = do
    modify (λ m.
        let bw = recovered m in
        let hi = dir_fst_clus_hi m.uart.ring v.found_off in
        let first = hi * 65536 + dir_fst_clus_lo m.uart.ring v.found_off in
        record m {
          logfile = record m.logfile {
            first_clus = first;
            cur_lba = u32 (clus_to_lba m.vol first + bw / 512);
            end_lba = u32 (clus_to_lba m.vol first + n_sectors);
            dir_lba = v.found_lba;
            dir_offset = v.found_off;
            bytes_written = bw;
            prealloc_size = prealloc_sz;
          };
        })
    first ← gets (λ m. m.logfile.first_clus)
    last ← walk_chain fuel first first
    modify (λ m. record m { logfile = record m.logfile { last_clus = last } })

  -- `while (cfg->log_num < 65535U)` with `left = 65535 - log_num` rounds to go.
  unfoldable pub find_name : ℕ → ℕ → ℕ → ℕ → List ℕ → ScanVars → Run (Machine hw) Search
  find_name zero fuel prealloc_sz n_sectors name v m = pure (behind name v) m
  find_name (suc left) fuel prealloc_sz n_sectors name v m =
      (do
        name ← gets (λ m. make_logname m.cfg.log_num)
        r ← scan_root_dir hw fuel name v
        elim r [
          | searching v' g ↦ pure (behind name v')
          | done v' ↦ pure (behind name v')
          | found v' ↦ (do
            read_sector v'.found_lba
            size ← gets (λ m. dir_file_size m.uart.ring v'.found_off)
            elim (size == prealloc_sz) [
              | true ↦ (do resume fuel prealloc_sz n_sectors v'; pure resumed)
              | false ↦ (do
                modify (λ m. set_log_num (u16 (m.cfg.log_num + 1)) m)
                find_name left fuel prealloc_sz n_sectors name v')
            ])
        ])
        m

  -- `for (c = 2; found_clus < n_clus; c++)`; the fuel bounds the clusters looked at.
  unfoldable pub alloc_chain : ℕ → ℕ → ℕ → Alloc → Run (Machine hw) Alloc
  alloc_chain zero n_clus c a m = (out_of_fuel, m)
  alloc_chain (suc fuel) n_clus c a m = elim (ltb a.found_clus n_clus) [
    | false ↦ pure a m
    | true ↦
        (do
          val ← fat_read_entry hw c
          elim (val == 0) [
            | false ↦ alloc_chain fuel n_clus (u32 (c + 1)) a
            | true ↦ (do
              (if a.prev_clus == 0 then pure tt else fat_write_entry hw a.prev_clus c)
              alloc_chain fuel n_clus (u32 (c + 1)) (take_clus a c))
          ])
          m
  ]

  -- `for (i = ...; i < ...; i++) sd_write_zero_sector(i)` with `left` sectors to go.
  unfoldable pub zero_fill : ℕ → ℕ → Run (Machine hw) (Unit {0})
  zero_fill zero i m = pure tt m
  zero_fill (suc left) i m = (do write_zero_sector i; zero_fill left (i + 1)) m

  -- From the check of `empty_lba` to the end.
  unfoldable pub create : ℕ → ℕ → ℕ → ℕ → List ℕ → ScanVars → Run (Machine hw) (Unit {0})
  create fuel prealloc_sz n_sectors n_clus name v = if v.empty_lba == 0 then fail 1 else (do
    a ← alloc_chain fuel n_clus 2 no_alloc
    (if ltb a.found_clus n_clus then fail 1 else pure tt)
    fat_write_entry hw a.last_clus chain_end_mark
    modify (λ m.
        let cur = clus_to_lba m.vol a.first_clus in
        record m {
          logfile = record {
            first_clus = a.first_clus;
            last_clus = a.last_clus;
            cur_lba = cur;
            end_lba = u32 (cur + n_sectors);
            dir_lba = v.empty_lba;
            dir_offset = v.empty_off;
            bytes_written = 0;
            prealloc_size = prealloc_sz;
          };
        })
    cur ← gets (λ m. m.logfile.cur_lba)
    end ← gets (λ m. m.logfile.end_lba)
    erase cur (sub32 end 1)
    zero_fill (end - cur) cur
    read_sector v.empty_lba
    modify (λ m. set_ring (new_dir_entry name a.first_clus prealloc_sz v.empty_off m.uart.ring) m)
    write_sector v.empty_lba
    modify (λ m. set_log_num (u16 (m.cfg.log_num + 1)) m)
    modify (λ m. record m { eeprom = config_save hw.ee m.cfg m.eeprom }))

  -- `name` and `v` are what the uninitialised local variables happen to hold.
  unfoldable pub fat32_open_log : ℕ → List ℕ → ScanVars → Run (Machine hw) (Unit {0})
  fat32_open_log fuel name v m =
      let prealloc_sz = config_prealloc_bytes m.cfg.prealloc_code in
      let n_sectors = prealloc_sz / 512 in
      let spc = m.vol.sec_per_clus in
      let n_clus = sub32 (u32 (n_sectors + spc)) 1 / spc in
      (do
        r ← find_name (65535 - m.cfg.log_num) fuel prealloc_sz n_sectors name v
        elim r [
          | resumed ↦ pure tt
          | behind name' v' ↦ create fuel prealloc_sz n_sectors n_clus name' v'
        ])
        m
