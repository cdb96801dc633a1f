-- ===== src/Logger/Overflow.antt =====
-- `log_flush` on a ring that holds more bytes than one sector.
use barelog.Prelude.{
  ℕ, ◌+◌, ◌^◌, ◌<◌, ◌≡◌, ◌≢◌, refl, sym, ◌∙◌, List, arith, length, length-take, take, u32, ne→==,
}
use barelog.Prelude.Run.{ok}
use barelog.Device.{IsReliable}
use barelog.Eeprom.{IsMemory}
use barelog.Uart.{available, uart_consume}
use barelog.Uart.Contents.{IsValid}
use barelog.Machine.{Hardware, Machine, set_ring}
use barelog.Fat.Entry.Write.{with_disk}
use barelog.Fat.Log.Open.{recovered}
use barelog.Logger.{consume, log_flush, pad_sector}
use barelog.Logger.Drained.{appended}
use barelog.Logger.Flush.{emptied, fat32_flush-SizeStored, flush_ring_lem, log_flush_steps}
use barelog.Logger.Pad.Sector.{length-pad_sector}
use barelog.Logger.Recovery.{save_recovery-recovered}

module _ (hw : Hardware) (rel : IsReliable hw.dev) where
  open rel use {capacity, sector, sector-store}

  -- From a valid ring with more than 512 bytes, with room in the file, on a reliable card and over an
  -- EEPROM that is a memory, with a byte count that still fits in 32 bits when it has grown by 512:
  -- `log_flush` returns and leaves the ring empty, and yet the byte count and the recovery record have
  -- grown by 512 only, and every sector but the next of the file and the one of its directory entry is
  -- as it was.
  pub log_flush_loses :
      (fuel : ℕ) (m : Machine hw) (k : ℕ)
      → IsMemory hw.ee
      → IsValid m.uart
      → 512 < available m.uart
      → m.logfile.cur_lba < m.logfile.end_lba
      → m.logfile.cur_lba < capacity
      → m.logfile.dir_lba < capacity
      → m.logfile.bytes_written + 512 < 2 ^ 32
      → k ≢ m.logfile.cur_lba
      → k ≢ m.logfile.dir_lba
      → let (r, m') = log_flush hw fuel m in
        (r ≡ ok tt)
        × (available m'.uart ≡ 0)
        × (m'.logfile.bytes_written ≡ m.logfile.bytes_written + 512)
        × (recovered hw m' ≡ m.logfile.bytes_written + 512)
        × (sector m'.disk k ≡ sector m.disk k)
  unfolding uart_consume
  log_flush_loses fuel m k mem v many room card dir_card wide not_cur not_dir =
      let cur : ℕ = m.logfile.cur_lba in
      let dir : ℕ = m.logfile.dir_lba in
      let n : ℕ = available m.uart in
      let after : List ℕ = pad_sector m.uart.ring_tail n m.uart.ring in
      let size : length after ≡ 1024 = length-pad_sector m.uart.ring_tail n m.uart.ring ∙ v.size in
      let whole : length (take 512 after) ≡ 512 = omega (arith, length-take 512 after, size) in
      let m1 : Machine hw =
        consume hw n (appended hw rel 512 (take 512 after) (set_ring after m)) in
      let s = fat32_flush-SizeStored hw rel m1 dir_card size in
      let grown : u32 (m.logfile.bytes_written + 512) ≡ m.logfile.bytes_written + 512 =
        omega arith in
      let m2 : Machine hw = with_disk hw s.ring s.disk m1 in
      let saved =
        save_recovery-recovered hw mem (u32 (m.logfile.bytes_written + 512)) m2 (omega arith) in
      rw
        (log_flush_steps hw rel fuel m m1 m2
          (flush_ring_lem hw rel fuel m (take 512 after) (omega arith) room card refl whole)
          s.returns)
        (
          refl,
          emptied m.uart v,
          grown,
          saved.0 ∙ grown,
          s.sectors k
              ∙ rw (ne→== dir k (λ e. not_dir (sym e))) (
                  sector-store cur k (take 512 after) m.disk whole
                  ∙ rw (ne→== cur k (λ e. not_cur (sym e))) refl),
        )
