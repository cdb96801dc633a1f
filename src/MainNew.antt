-- ===== src/MainNew.antt =====
-- main_new.c: the boot sequence and the main loop over the functions of platform.h, here those of
-- platform_atmega328p.c. Its log_new.c has the drain and the flush of log.c.
pub mod Boots
pub mod Flushes
use barelog.Prelude.{
  ℕ, zero, suc, Bool, true, false, not, ◌&&◌, List, [], ◌∷◌, test_bit, ltb, ◌==◌, if◌then◌else◌,
}
use barelog.Prelude.Run.{Result, ok, err, out_of_fuel, Run, pure, ◌>>=◌, ◌>>◌}
use barelog.Avr.{
  Bits, Registers, spi_init, uart_init, timer_init, timer_flush_pending, timer_clear_pending,
  gpio_led_init, gpio_led_toggle,
}
use barelog.Boot.{
  Boot, halted, logging, no_fuel, err_sd_init, err_fat_mount, err_fat_open, init_card,
}
use barelog.Boot.Idle.{Firmware}
use barelog.Config.{config_defaults, config_save, config_load}
use barelog.Fat.Log.{ScanVars}
use barelog.Fat.Log.Open.{fat32_open_log}
use barelog.Fat.Mount.{fat32_mount}
use barelog.Logger.{Drain, escape, drained, log_process, log_flush}
use barelog.Machine.{Hardware, Machine}
use barelog.Uart.{available}

-- Where the boot stands: how it ends, the memory and registers, the bytes sent.
pub record Started (hw : Hardware) : Type 0 where
  pub outcome : Boot
  pub firmware : Firmware hw
  pub sent : List ℕ

module _ (hw : Hardware) (io : Bits) where
  abbrev pub set_registers : (Registers → Registers) → Firmware hw → Firmware hw
  set_registers g f = record f { registers = g f.registers }

  -- The delays do nothing else.
  unfoldable pub blink_n : ℕ → Registers → Registers
  blink_n zero r = r
  blink_n (suc n) r = blink_n n (gpio_led_toggle io (gpio_led_toggle io r))

  -- The configuration, and the factory reset if RX is held low.
  unfoldable pub load_config : Bool → Firmware hw → Firmware hw
  load_config rx_low f =
      let (c, e) = config_load hw.ee f.machine.eeprom in
      if rx_low && not (test_bit c.flags 0)
      then record {
        machine = record f.machine {
          cfg = config_defaults;
          eeprom = config_save hw.ee config_defaults e;
        };
        registers = blink_n 5 f.registers;
      }
      else record f { machine = record f.machine { cfg = c; eeprom = e } }

  -- `error_halt`, up to its first group of blinks.
  abbrev pub error_halt : ℕ → Firmware hw → Started hw
  error_halt code f = record {
    outcome = halted code;
    firmware = set_registers (blink_n code) f;
    sent = [];
  }

  -- `if (step() != 0) error_halt(code)`, then the rest.
  abbrev pub or_halt :
      ℕ → Registers → Result (Unit {0}) × Machine hw → (Firmware hw → Started hw) → Started hw
  or_halt code r (ok _, m) rest = rest (record { machine = m; registers = r })
  or_halt code r (err n, m) rest = error_halt code (record { machine = m; registers = r })
  or_halt code r (out_of_fuel, m) rest = record {
    outcome = no_fuel;
    firmware = record { machine = m; registers = r };
    sent = [];
  }

  -- From `uart_init` on. `TCNT1` is the counter in the memory as well as a register.
  abbrev pub start_logging : Firmware hw → Started hw
  start_logging f = record {
    outcome = logging;
    firmware = record {
      machine = record f.machine { tcnt1 = 0 };
      registers = timer_init io (uart_init io f.machine.cfg.baud f.registers);
    };
    sent = b'1' ∷ b'2' ∷ b'<' ∷ [];
  }

  -- `main` up to its loop, without the watchdog, power saving, the pin PD0 and the canary;
  -- `platform_init` does nothing.
  unfoldable pub main : ℕ → List ℕ → ScanVars → Bool → Firmware hw → Started hw
  main fuel name v rx_low f0 =
      let f1 = load_config rx_low (set_registers (gpio_led_init io) f0) in
      let f2 = set_registers (spi_init io) f1 in
      or_halt err_sd_init f2.registers (init_card hw f2.machine) λ f3.
        or_halt err_fat_mount f3.registers (fat32_mount hw f3.machine) λ f4.
          or_halt err_fat_open f4.registers (fat32_open_log hw fuel name v f4.machine) start_logging

  -- A call on the memory.
  abbrev pub on_machine : {A : Type 0} → Run (Machine hw) A → Run (Firmware hw) A
  on_machine g f = let (r, m) = g f.machine in (r, record f { machine = m })

  -- One round of the loop; the canary and the sleep are left out.
  unfoldable pub main_round : ℕ → ℕ → Run (Firmware hw) Drain
  main_round rounds fuel = do
    r ← on_machine (log_process hw rounds fuel)
    elim r [
      | escape ↦ pure escape
      | drained ↦ (λ f.
          elim (not (timer_flush_pending io f.registers == 0)
            && ltb (available f.machine.uart) 512) [
              | false ↦ pure drained f
              | true ↦
                  (do on_machine (log_flush hw fuel); pure drained)
                    (set_registers (timer_clear_pending io) f)
            ])
    ]
