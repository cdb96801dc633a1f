-- ===== src/Examples/MainLoop.antt =====
-- The two main loops on the ring of the idle flush, and the two boots.
use barelog.Prelude.{◌≡◌, refl, true, false, List, [], ◌∷◌, arith, ltb, if◌then◌else◌}
use barelog.Prelude.Run.{ok}
use barelog.Avr.{timer_isr}
use barelog.Bench.{bench, cells-IsMemory, memory_card-IsReliable}
use barelog.Boot.{boot}
use barelog.Boot.Idle.{Firmware, Event, rx, timer, round, run, main_round_never_flushes}
use barelog.Examples.{machine}
use barelog.Examples.Chip.{atmega, after_reset}
use barelog.Examples.Flush.{idle}
use barelog.Examples.Logging.{short_ring, short_ring-IsValid}
use barelog.Fat.Log.{ScanVars}
use barelog.Fat.Log.Open.{recovered}
use barelog.Logger.{drained, log_process, log_flush}
use barelog.Logger.Frame.{log_keeps}
use barelog.Logger.Pad.Sector.{padded}
use barelog.MainNew.{main}
use barelog.MainNew.Boots.{Agrees, main-boot}
use barelog.MainNew.Flushes.{main_round_lem}
use barelog.Uart.{available}

abbrev powered : Firmware bench
powered = record { machine = idle; registers = after_reset }

-- A byte, an interrupt of the timer, a round, another interrupt.
abbrev events : List Event
events = rx 0x41 ∷ timer ∷ round ∷ timer ∷ []

main_round_never_flushes_example :
    let m = (run bench atmega 1 0 events powered).machine in
    (m.flush_pending ≡ false)
    × (barelog.Boot.main_round bench 2 0 m
        ≡ (if ltb (available m.uart) 512 then (ok drained, m) else log_process bench 2 0 m))
main_round_never_flushes_example = main_round_never_flushes bench atmega 1 0 events powered refl

main_round_lem_example :
    let (d, f) =
      barelog.MainNew.main_round bench atmega 2 0
        (record { machine = idle; registers = timer_isr atmega after_reset }) in
    (d ≡ ok drained)
    × (f.registers.timer_pending ≡ 0)
    × (available f.machine.uart ≡ 0)
    × (memory_card-IsReliable.sector f.machine.disk 240 ≡ padded short_ring)
    × (recovered bench f.machine ≡ 4096)
unfolding memory_card-IsReliable
main_round_lem_example =
    main_round_lem bench memory_card-IsReliable atmega 1 0 idle after_reset cells-IsMemory
      short_ring-IsValid (omega arith) (omega arith) (omega arith) (omega arith) (omega arith)
      (omega arith) (λ e. omega (arith, e)) (omega arith)

log_keeps_example :
    let m1 = (log_process bench 2 0 idle).1 in
    let m2 = (log_flush bench 0 idle).1 in
    (m1.flush_pending ≡ false)
    × (m1.cfg ≡ machine.cfg)
    × (m1.vol ≡ machine.vol)
    × (m2.flush_pending ≡ false)
    × (m2.cfg ≡ machine.cfg)
    × (m2.vol ≡ machine.vol)
log_keeps_example = log_keeps 2 0 idle

abbrev locals : ScanVars
locals = record { found_lba = 0; found_off = 0; empty_lba = 0; empty_off = 0 }

main-boot_example :
    Agrees atmega after_reset
      (boot bench 9 [] locals true idle)
      (main bench atmega 9 [] locals true powered)
main-boot_example = main-boot bench atmega 9 [] locals true powered
