-- ===== src/MainNew/Flushes.antt =====
-- The idle flush of main_new.c, behind the timer interrupt.
use barelog.Prelude.{
  ℕ, suc, ◌+◌, ◌-◌, ◌*◌, ◌^◌, ◌≤◌, ◌<◌, ◌≡◌, ◌≢◌, refl, ap, arith, lt→leb, lt→ltb,
}
use barelog.Prelude.Run.{ok, and_then}
use barelog.Avr.{Bits, Registers, timer_isr}
use barelog.Device.{IsReliable}
use barelog.Eeprom.{IsMemory}
use barelog.Fat.Log.Open.{recovered}
use barelog.Logger.{drained, log_process, log_flush}
use barelog.Logger.Flush.{log_flush_lem}
use barelog.Logger.Pad.Sector.{padded}
use barelog.Machine.{Hardware, Machine}
use barelog.MainNew.{main_round}
use barelog.Uart.{available}
use barelog.Uart.Contents.{IsValid}

module _ (hw : Hardware) (rel : IsReliable hw.dev) (io : Bits) where
  open rel use {sector, capacity}

  process_low :
      (rounds fuel : ℕ) (m : Machine hw)
      → available m.uart < 512
      → log_process hw (suc rounds) fuel m ≡ (ok drained, m)
  unfolding log_process
  process_low rounds fuel m h = rw (log_process, lt→leb 512 (available m.uart) h)

  round_flushes :
      (rounds fuel : ℕ) (m m' : Machine hw) (r : Registers)
      → available m.uart < 512
      → log_flush hw fuel m ≡ (ok tt, m')
      → main_round hw io (suc rounds) fuel (record { machine = m; registers = timer_isr io r })
        ≡ (ok drained, record { machine = m'; registers = record r { timer_pending = 0 } })
  unfolding main_round
  round_flushes rounds fuel m m' r low flushes = rw (
    main_round,
    process_low rounds fuel m low,
    and_then,
    lt→ltb (available m.uart) 512 low,
    flushes,
  )

  -- On a reliable card and over an EEPROM that is a memory, with room in the file for one sector,
  -- a valid ring with fewer than 512 bytes, at least one, of which at most half lie behind the
  -- wrap, where the next sector of the file and the sector of the directory entry are different
  -- ones on the card, and the byte count still fits in 32 bits when it has grown by 512: the first
  -- round of the main loop of main_new.c after a timer interrupt clears the flag of the timer,
  -- leaves the ring empty, has written its bytes, padded with zeros, to the next sector of the
  -- file, and the recovery record holds the byte count grown by 512.
  pub main_round_lem :
      (rounds fuel : ℕ) (m : Machine hw) (r : Registers)
      → IsMemory hw.ee
      → IsValid m.uart
      → 0 < available m.uart
      → available m.uart < 512
      → available m.uart ≤ 2 * (1024 - m.uart.ring_tail)
      → m.logfile.cur_lba < m.logfile.end_lba
      → m.logfile.cur_lba < capacity
      → m.logfile.dir_lba < capacity
      → m.logfile.cur_lba ≢ m.logfile.dir_lba
      → m.logfile.bytes_written + 512 < 2 ^ 32
      → let (d, f) =
          main_round hw io (suc rounds) fuel (record { machine = m; registers = timer_isr io r }) in
        (d ≡ ok drained)
        × (f.registers.timer_pending ≡ 0)
        × (available f.machine.uart ≡ 0)
        × (sector f.machine.disk m.logfile.cur_lba ≡ padded m.uart)
        × (recovered hw f.machine ≡ m.logfile.bytes_written + 512)
  main_round_lem rounds fuel m r mem v some low short room card dir_card apart wide =
      let other : ℕ = m.logfile.cur_lba + m.logfile.dir_lba + 1 in
      let (done, empty, stored, dir, kept, saved, cfg) =
        log_flush_lem hw rel fuel m other mem v some (omega (arith, low)) short room card dir_card
          apart wide (λ e. omega (arith, e)) (λ e. omega (arith, e)) in
      let m' : Machine hw = (log_flush hw fuel m).1 in
      rw (round_flushes rounds fuel m m' r low (ap (λ x. (x, m')) done))
        (refl, refl, empty, stored, saved)
