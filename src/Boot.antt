-- ===== src/Boot.antt =====
-- main.c: the boot sequence and the main loop.
pub mod Idle
use barelog.Prelude.{
  ℕ, Bool, true, false, not, ◌&&◌, List, [], ◌∷◌, ◌++◌, test_bit, ltb, if◌then◌else◌,
}
use barelog.Prelude.Run.{Result, ok, err, out_of_fuel, Run, pure, ◌>>=◌, ◌>>◌}
use barelog.Config.{config_defaults, config_save, config_load}
use barelog.Uart.{Usart, uart_init, available}
use barelog.Machine.{Hardware, Machine, modify}
use barelog.Fat.Mount.{fat32_mount}
use barelog.Fat.Log.{ScanVars}
use barelog.Fat.Log.Open.{fat32_open_log}
use barelog.Logger.{
  Drain, escape, drained, log_process, log_flush, log_flush_pending, log_clear_flush_pending,
}

-- What the outside sees of the boot: the blinks of `blink_n`, the register setting of
-- `uart_init`, the bytes sent.
pub data Signal : Type 0 where
  blink : ℕ → Signal
  usart : Usart → Signal
  sent : ℕ → Signal

-- How the boot ends: in `error_halt` with its code, in the main loop, or with the fuel used up.
pub data Boot : Type 0 where
  halted : ℕ → Boot
  logging : Boot
  no_fuel : Boot

abbrev pub err_sd_init : ℕ
err_sd_init = 3

abbrev pub err_fat_mount : ℕ
err_fat_mount = 4

abbrev pub err_fat_open : ℕ
err_fat_open = 5

abbrev pub err_stack : ℕ
err_stack = 6

-- The state of the boot after a stage.
pub record Stage (hw : Hardware) : Type 0 where
  pub outcome : Boot
  pub machine : Machine hw
  pub signals : List Signal

module _ (hw : Hardware) where
  -- Steps 5 and 6: the configuration, and the factory reset if RX is held low.
  unfoldable pub load_config : Bool → Machine hw → Machine hw × List Signal
  load_config rx_low m =
      let (c, e) = config_load hw.ee m.eeprom in
      if rx_low && not (test_bit c.flags 0)
      then (
        record m { cfg = config_defaults; eeprom = config_save hw.ee config_defaults e },
        blink 5 ∷ [],
      )
      else (record m { cfg = c; eeprom = e }, [])

  -- `if (step() != 0) error_halt(code)`, then the rest.
  abbrev pub or_halt :
      ℕ → List Signal → Result (Unit {0}) × Machine hw → (Machine hw → Stage hw) → Stage hw
  or_halt code seen (ok _, m) rest = rest m
  or_halt code seen (err n, m) rest = record {
    outcome = halted code;
    machine = m;
    signals = seen ++ (blink code ∷ []);
  }
  or_halt code seen (out_of_fuel, m) rest = record {
    outcome = no_fuel;
    machine = m;
    signals = seen;
  }

  abbrev pub init_card : Run (Machine hw) (Unit {0})
  init_card m = let (r, d) = hw.dev.sd_init m.disk in (r, record m { disk = d })

  -- Steps 5 to 14 of `main`. `name` and `v` are the uninitialised locals of `fat32_open_log`.
  unfoldable pub boot : ℕ → List ℕ → ScanVars → Bool → Machine hw → Stage hw
  boot fuel name v rx_low m0 =
      let (m1, seen) = load_config rx_low m0 in
      or_halt err_sd_init seen (init_card m1) λ m2.
        or_halt err_fat_mount seen (fat32_mount hw m2) λ m3.
          or_halt err_fat_open seen (fat32_open_log hw fuel name v m3) λ m4. record {
            outcome = logging;
            machine = record m4 { tcnt1 = 0 };
            signals =
                seen ++ (usart (uart_init m4.cfg.baud) ∷ sent b'1' ∷ sent b'2' ∷ sent b'<' ∷ []);
          }

  -- One round of the main loop: `log_process`, then the idle flush if the timer has fired and less
  -- than a sector is pending. `escape` means that command mode was entered.
  unfoldable pub main_round : ℕ → ℕ → Run (Machine hw) Drain
  main_round rounds fuel = do
    r ← log_process hw rounds fuel
    elim r [
      | escape ↦ pure escape
      | drained ↦ (λ m. elim (log_flush_pending hw m && ltb (available m.uart) 512) [
        | false ↦ pure drained m
        | true ↦ (do modify (log_clear_flush_pending hw); log_flush hw fuel; pure drained) m
      ])
    ]
