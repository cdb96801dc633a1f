-- ===== src/Examples/Flush.antt =====
-- The idle flush of 400 bytes across the wrap, and of 600 bytes.
use barelog.Prelude.{◌≡◌, arith}
use barelog.Prelude.Bytes.{put_le32}
use barelog.Prelude.Run.{ok}
use barelog.Bench.{bench, cells-IsMemory, memory_card-IsReliable}
use barelog.Config.{config_read}
use barelog.Eeprom.{cells}
use barelog.Fat.Log.Open.{recovered}
use barelog.Logger.{log_flush}
use barelog.Logger.Flush.{log_flush_lem}
use barelog.Logger.Overflow.{log_flush_loses}
use barelog.Logger.Pad.Sector.{padded}
use barelog.Machine.{Machine}
use barelog.Uart.{available}
use barelog.Examples.{machine, blank, full_ring-IsValid}
use barelog.Examples.Logging.{short_ring, short_ring-IsValid}

abbrev pub idle : Machine bench
idle = record machine { uart = short_ring }

log_flush_lem_example :
    let (r, m') = log_flush bench 0 idle in
    (r ≡ ok tt)
    × (available m'.uart ≡ 0)
    × (memory_card-IsReliable.sector m'.disk 240 ≡ padded short_ring)
    × (memory_card-IsReliable.sector m'.disk 232
        ≡ put_le32 (memory_card-IsReliable.sector idle.disk 232) 92 4096)
    × (memory_card-IsReliable.sector m'.disk 300 ≡ memory_card-IsReliable.sector idle.disk 300)
    × (recovered bench m' ≡ 4096)
    × (config_read cells m'.eeprom ≡ config_read cells blank)
unfolding memory_card-IsReliable
log_flush_lem_example =
    log_flush_lem bench memory_card-IsReliable 0 idle 300 cells-IsMemory short_ring-IsValid
      (omega arith) (omega arith) (omega arith) (omega arith) (omega arith) (omega arith)
      (λ e. omega (arith, e)) (omega arith) (λ e. omega (arith, e)) (λ e. omega (arith, e))

log_flush_loses_example :
    let (r, m') = log_flush bench 0 machine in
    (r ≡ ok tt)
    × (available m'.uart ≡ 0)
    × (m'.logfile.bytes_written ≡ 4096)
    × (recovered bench m' ≡ 4096)
    × (memory_card-IsReliable.sector m'.disk 300 ≡ memory_card-IsReliable.sector machine.disk 300)
unfolding memory_card-IsReliable
log_flush_loses_example =
    log_flush_loses bench memory_card-IsReliable 0 machine 300 cells-IsMemory full_ring-IsValid
      (omega arith) (omega arith) (omega arith) (omega arith) (omega arith) (λ e. omega (arith, e))
      (λ e. omega (arith, e))
