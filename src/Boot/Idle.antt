-- ===== src/Boot/Idle.antt =====
-- The idle flush of main.c and log.c on the ATmega328P, among the interrupts.
use barelog.Prelude.{
  ℕ, suc, ◌≡◌, refl, ap, ◌∙◌, true, false, ◌&&◌, List, [], ◌∷◌, ltb, ltb→lt, lt→leb, Bool-cases,
  inl, inr, if◌then◌else◌,
}
use barelog.Prelude.Run.{Result, ok, err, out_of_fuel, Run, pure, and_then, ◌>>◌}
use barelog.Avr.{Bits, Registers, timer_isr}
use barelog.Boot.{main_round}
use barelog.Logger.{
  Drain, escape, drained, log_process, log_flush, log_flush_pending, log_clear_flush_pending,
}
use barelog.Logger.Frame.{log_keeps}
use barelog.Machine.{Hardware, Machine, modify}
use barelog.Uart.{available, rx_isr}

-- A byte arrives, Timer1 matches, or the main loop takes a round.
pub data Event : Type 0 where
  rx : ℕ → Event
  timer round : Event

-- The memory and the registers; `timer_pending` stands with the registers.
pub record Firmware (hw : Hardware) : Type 0 where
  pub machine : Machine hw
  pub registers : Registers

module _ (hw : Hardware) (io : Bits) (rounds fuel : ℕ) where
  pub step : Event → Firmware hw → Firmware hw
  step (rx byte) f = record f { machine = record f.machine { uart = rx_isr byte f.machine.uart } }
  step timer f = record f { registers = timer_isr io f.registers }
  step round f = record f { machine = (main_round hw (suc rounds) fuel f.machine).1 }

  pub run : List Event → Firmware hw → Firmware hw
  run [] f = f
  run (e ∷ events) f = run events (step e f)

  -- The step behind `log_process` where the flag is not set.
  after_drain : Drain → Run (Machine hw) Drain
  after_drain r = elim r [
    | escape ↦ pure escape
    | drained ↦ (λ m. elim (log_flush_pending hw m && ltb (available m.uart) 512) [
      | false ↦ pure drained m
      | true ↦ (do modify (log_clear_flush_pending hw); log_flush hw fuel; pure drained) m
    ])
  ]

  after_drain_quiet :
      (r : Result Drain × Machine hw) → r.1.flush_pending ≡ false → and_then r after_drain ≡ r
  unfolding after_drain
  after_drain_quiet (ok escape, m) quiet = refl
  after_drain_quiet (ok drained, m) quiet = rw quiet
  after_drain_quiet (err n, m) quiet = refl
  after_drain_quiet (out_of_fuel, m) quiet = refl

  main_round_quiet :
      (m : Machine hw)
      → m.flush_pending ≡ false
      → main_round hw (suc rounds) fuel m ≡ log_process hw (suc rounds) fuel m
  unfolding main_round after_drain
  main_round_quiet m quiet =
      after_drain_quiet (log_process hw (suc rounds) fuel m)
        ((log_keeps (suc rounds) fuel m).0 ∙ quiet)

  run_quiet :
      (events : List Event) (f : Firmware hw)
      → f.machine.flush_pending ≡ false
      → (run events f).machine.flush_pending ≡ false
  unfolding run step
  run_quiet [] f quiet = quiet
  run_quiet (rx byte ∷ events) f quiet = run_quiet events (step (rx byte) f) quiet
  run_quiet (timer ∷ events) f quiet = run_quiet events (step timer f) quiet
  run_quiet (round ∷ events) f quiet = run_quiet events (step round f) (
      ap (λ r. r.1.flush_pending) (main_round_quiet f.machine quiet)
      ∙ (log_keeps (suc rounds) fuel f.machine).0
      ∙ quiet)

  log_process_low :
      (m : Machine hw)
      → ltb (available m.uart) 512 ≡ true
      → log_process hw (suc rounds) fuel m ≡ (ok drained, m)
  unfolding log_process
  log_process_low m h = rw (log_process, lt→leb 512 (available m.uart) (ltb→lt _ _ h))

  -- From a state whose flag of the idle flush is clear, as it is at power-on: after any sequence of
  -- received bytes, timer interrupts and rounds of the main loop of main.c the flag is still clear,
  -- the next round is `log_process` alone, and with fewer than 512 bytes in the ring it does
  -- nothing, so the idle flush never runs.
  pub main_round_never_flushes :
      (events : List Event) (f : Firmware hw)
      → f.machine.flush_pending ≡ false
      → let m = (run events f).machine in
        (m.flush_pending ≡ false)
        × (main_round hw (suc rounds) fuel m ≡ (
            if ltb (available m.uart) 512
            then (ok drained, m)
            else log_process hw (suc rounds) fuel m))
  main_round_never_flushes events f quiet =
      let m : Machine hw = (run events f).machine in
      let still = run_quiet events f quiet in
      (
        still,
        main_round_quiet m still ∙ elim (Bool-cases (ltb (available m.uart) 512)) [
          | inl low ↦ log_process_low m low ∙ rw low refl
          | inr high ↦ rw high refl
        ],
      )
