-- ===== src/Logger/Flush.antt =====
-- `log_flush` as a whole: the padded sector, the directory entry, the recovery record.
use barelog.Prelude.{
  ℕ, ◌+◌, ◌-◌, ◌*◌, ◌^◌, ◌≤◌, ◌<◌, ◌≡◌, ◌≢◌, refl, sym, ap, ◌∙◌, List, [], ◌++◌, arith, length,
  take, none, byte_of, u32, lt→ltb, ◌==◌, ==_refl, ne→==, if◌then◌else◌, overlay, append-nil,
}
use barelog.Prelude.Bytes.{put_le32, take-set, take-overlay, length-set4}
use barelog.Prelude.Run.{Result, ok, and_then, ignored}
use barelog.Device.{IsReliable}
use barelog.Eeprom.{IsMemory}
use barelog.Config.{config_read}
use barelog.Uart.{Uart, available, uart_consume}
use barelog.Uart.Contents.{IsValid}
use barelog.Machine.{Hardware, Machine, set_ring, put_sector, took_sector}
use barelog.Fat.Entry.Write.{with_disk}
use barelog.Fat.Log.Append.{Span, fat32_append_sector, fat32_flush}
use barelog.Fat.Log.Open.{recovered}
use barelog.Logger.{consume, flush_ring, log_flush, pad_sector, save_recovery}
use barelog.Logger.Drained.{appended, fat32_append_sector_room}
use barelog.Logger.Pad.Sector.{padded, pad_sector-padded, length-pad_sector, length-padded}
use barelog.Logger.Recovery.{save_recovery-recovered}

-- Consuming everything empties the ring.
pub emptied : (u : Uart) → IsValid u → available (uart_consume (available u) u) ≡ 0
unfolding uart_consume
emptied u v = let h = v.head_in in let t = v.tail_in in omega arith

module _ (hw : Hardware) (rel : IsReliable hw.dev) where
  open rel use {capacity, sector, store, length-sector, read_ok, write_ok, sector-store}

  -- The directory sector with the file's size.
  abbrev pub sized : Machine hw → List ℕ
  sized m =
      put_le32 (sector m.disk m.logfile.dir_lba) (m.logfile.dir_offset + 28) m.logfile.bytes_written

  -- What `fat32_flush` leaves.
  pub record SizeStored (m : Machine hw) : Type 0 where
    pub ring : List ℕ
    pub disk : hw.dev.Disk
    pub returns : fat32_flush hw m ≡ (ok tt, with_disk hw ring disk m)
    pub sectors :
        (k : ℕ) → sector disk k ≡ (if m.logfile.dir_lba == k then sized m else sector m.disk k)

  flush_steps :
      (m m1 : Machine hw) (got : List ℕ)
      → took_sector m (hw.dev.sd_read_sector m.logfile.dir_lba m.disk) ≡ (ok tt, set_ring got m)
      → let ring = put_le32 got (m.logfile.dir_offset + 28) m.logfile.bytes_written in
        put_sector
            (set_ring ring m)
            (hw.dev.sd_write_sector m.logfile.dir_lba (take 512 ring) m.disk)
          ≡ (ok tt, m1)
        → fat32_flush hw m ≡ (ok tt, m1)
  unfolding fat32_flush
  flush_steps m m1 got read write = rw (fat32_flush, read, and_then) write

  pub fat32_flush-SizeStored :
      (m : Machine hw) → m.logfile.dir_lba < capacity → length m.uart.ring ≡ 1024 → SizeStored m
  fat32_flush-SizeStored m lt size =
      let dir : ℕ = m.logfile.dir_lba in
      let at : ℕ = m.logfile.dir_offset + 28 in
      let old : List ℕ = sector m.disk dir in
      let got : List ℕ = overlay old m.uart.ring in
      let ring : List ℕ = put_le32 got at m.logfile.bytes_written in
      let prefix : take 512 got ≡ old =
        ap (λ n. take n got) (sym (length-sector m.disk dir))
        ∙ take-overlay old m.uart.ring (omega (arith, length-sector m.disk dir, size)) in
      let bytes : take 512 ring ≡ sized m =
        take-put_le32 512 got at m.logfile.bytes_written
        ∙ ap (λ b. put_le32 b at m.logfile.bytes_written) prefix in
      let whole : length (take 512 ring) ≡ 512 =
        ap (length {A = ℕ}) bytes
        ∙ length-set4 old at (byte_of m.logfile.bytes_written 0) (byte_of m.logfile.bytes_written 1)
            (byte_of m.logfile.bytes_written 2) (byte_of m.logfile.bytes_written 3)
        ∙ length-sector m.disk dir in
      record {
        ring = ring;
        disk = store dir (take 512 ring) m.disk;
        returns =
            flush_steps m (with_disk hw ring (store dir (take 512 ring) m.disk) m) got
              (ap (took_sector m) (read_ok dir m.disk lt))
              (ap (put_sector (set_ring ring m)) (write_ok dir (take 512 ring) m.disk lt whole));
        sectors = λ k.
            sector-store dir k (take 512 ring) m.disk whole
            ∙ ap (λ b. if dir == k then b else sector m.disk k) bytes;
      }
    where
      take-put_le32 :
          (n : ℕ) (buf : List ℕ) (at v : ℕ)
          → take n (put_le32 buf at v) ≡ put_le32 (take n buf) at v
      take-put_le32 n buf at v = simp (take-set {0})

  abbrev first_sector : Span
  first_sector = record { at = 0; len = 512 }

  pub flush_ring_lem :
      (fuel : ℕ) (m : Machine hw) (bytes : List ℕ)
      → 0 < available m.uart
      → m.logfile.cur_lba < m.logfile.end_lba
      → m.logfile.cur_lba < capacity
      → let after = pad_sector m.uart.ring_tail (available m.uart) m.uart.ring in
        take 512 after ≡ bytes
        → length bytes ≡ 512
        → flush_ring hw fuel m
          ≡ (ok tt, consume hw (available m.uart) (appended hw rel 512 bytes (set_ring after m)))
  unfolding flush_ring
  flush_ring_lem fuel m bytes some room card same size =
      let after : List ℕ = pad_sector m.uart.ring_tail (available m.uart) m.uart.ring in
      let m1 : Machine hw = set_ring after m in
      let whole : take 512 after ++ [] ≡ bytes = append-nil (take 512 after) ∙ same in
      let append : fat32_append_sector hw fuel first_sector none m1
          ≡ (ok tt, appended hw rel 512 bytes m1) =
        fat32_append_sector_room hw rel fuel first_sector none m1 room card
          (ap (length {A = ℕ}) whole ∙ size)
        ∙ ap (λ b. (ok tt, appended hw rel 512 b m1)) whole in
      rw (flush_ring, lt→ltb 0 (available m.uart) some)
        (ap
          (λ (r : Result (Unit {0}) × Machine hw).
            and_then (ignored r) (λ _ m'. (ok tt, consume hw (available m.uart) m')))
          append)

  pub log_flush_steps :
      (fuel : ℕ) (m m1 m2 : Machine hw)
      → flush_ring hw fuel m ≡ (ok tt, m1)
      → fat32_flush hw m1 ≡ (ok tt, m2)
      → log_flush hw fuel m
        ≡ (ok tt, record m2 { eeprom = save_recovery hw m2.logfile.bytes_written m2.eeprom })
  unfolding log_flush
  log_flush_steps fuel m m1 m2 drain sized = rw (log_flush, drain, and_then, sized)

  -- The idle flush of a valid ring with 1 to 512 bytes, of which at most half lie behind the wrap,
  -- with room in the file, on a reliable card and over an EEPROM that is a memory, where the next
  -- sector of the file and the sector of the directory entry are different ones on the card, and
  -- the byte count still fits in 32 bits when it has grown by 512: log_flush returns and leaves
  -- the ring empty; the next sector of the file holds the bytes of the ring, in order, padded with
  -- zeros; the size in the directory entry and the recovery record are the byte count, which has
  -- grown by 512; no other sector and nothing of the stored configuration has changed.
  pub log_flush_lem :
      (fuel : ℕ) (m : Machine hw) (k : ℕ)
      → IsMemory hw.ee
      → IsValid m.uart
      → 0 < available m.uart
      → available m.uart ≤ 512
      → available m.uart ≤ 2 * (1024 - m.uart.ring_tail)
      → m.logfile.cur_lba < m.logfile.end_lba
      → m.logfile.cur_lba < capacity
      → m.logfile.dir_lba < capacity
      → m.logfile.cur_lba ≢ m.logfile.dir_lba
      → m.logfile.bytes_written + 512 < 2 ^ 32
      → k ≢ m.logfile.cur_lba
      → k ≢ m.logfile.dir_lba
      → let (r, m') = log_flush hw fuel m in
        (r ≡ ok tt)
        × (available m'.uart ≡ 0)
        × (sector m'.disk m.logfile.cur_lba ≡ padded m.uart)
        × (sector m'.disk m.logfile.dir_lba
            ≡ put_le32
                (sector m.disk m.logfile.dir_lba)
                (m.logfile.dir_offset + 28)
                (m.logfile.bytes_written + 512))
        × (sector m'.disk k ≡ sector m.disk k)
        × (recovered hw m' ≡ m.logfile.bytes_written + 512)
        × (config_read hw.ee m'.eeprom ≡ config_read hw.ee m.eeprom)
  unfolding uart_consume
  log_flush_lem fuel m k mem v some fits short room card dir_card apart wide not_cur not_dir =
      let cur : ℕ = m.logfile.cur_lba in
      let dir : ℕ = m.logfile.dir_lba in
      let n : ℕ = available m.uart in
      let after : List ℕ = pad_sector m.uart.ring_tail n m.uart.ring in
      let whole : length (padded m.uart) ≡ 512 = length-padded m.uart fits in
      let m1 : Machine hw = consume hw n (appended hw rel 512 (padded m.uart) (set_ring after m)) in
      let s =
        fat32_flush-SizeStored m1 dir_card
          (length-pad_sector m.uart.ring_tail n m.uart.ring ∙ v.size) in
      let grown : u32 (m.logfile.bytes_written + 512) ≡ m.logfile.bytes_written + 512 =
        omega arith in
      let filed : (j : ℕ)
          → sector m1.disk j ≡ (if cur == j then padded m.uart else sector m.disk j) =
        λ j. sector-store cur j (padded m.uart) m.disk whole in
      let m2 : Machine hw = with_disk hw s.ring s.disk m1 in
      let saved =
        save_recovery-recovered hw mem (u32 (m.logfile.bytes_written + 512)) m2 (omega arith) in
      rw
        (log_flush_steps fuel m m1 m2
          (flush_ring_lem fuel m (padded m.uart) some room card
            (pad_sector-padded m.uart v fits short) whole)
          s.returns)
        (
          refl,
          emptied m.uart v,
          s.sectors cur ∙ rw (ne→== dir cur (λ e. apart (sym e))) (filed cur ∙ rw (==_refl cur)),
          s.sectors dir
              ∙ rw (==_refl dir) (
                  rw grown (
                    ap (λ b. put_le32 b (m.logfile.dir_offset + 28) (m.logfile.bytes_written + 512))
                      (filed dir ∙ rw (ne→== cur dir apart)))),
          s.sectors k
              ∙ rw (ne→== dir k (λ e. not_dir (sym e)))
                  (filed k ∙ rw (ne→== cur k (λ e. not_cur (sym e)))),
          saved.0 ∙ grown,
          saved.1,
        )
