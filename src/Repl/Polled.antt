-- ===== src/Repl/Polled.antt =====
-- repl_new.c, and the entry of repl.c: command mode over the status and data registers of the
-- serial port. The names of the commands, the line buffer and the digits are those of repl.c.
pub mod Primitives
pub mod Keys
pub mod Reading
pub mod Refines
pub mod Enter
use barelog.Prelude.{
  ℕ, zero, suc, ◌+◌, ◌-◌, ◌/◌, Bool, true, false, ◌||◌, Option, none, some, List, [], ◌∷◌, get_or,
  set, ltb, test_bit, ◌==◌,
}
use barelog.Prelude.Run.{Result, ok, err, out_of_fuel, Run, pure, ◌>>=◌, ◌>>◌}
use barelog.Machine.{Hardware, Machine, set_ring}
use barelog.Avr.{Bits, Peripheral, uart_putc, uart_puts_P, uart_getc_poll}
use barelog.Fat.{
  fat32_vol_part_lba, fat32_vol_fat_lba, fat32_vol_fat_sz32, fat32_vol_num_fats, fat32_vol_data_lba,
  fat32_vol_sec_per_clus, fat32_vol_tot_sec,
}
use barelog.Fat.Mount.{fat32_mount}
use barelog.Fat.Trim.{fat32_trim_free, fat32_trim_full, fat32_trim_fuller}
use barelog.Logger.{log_flush}
use barelog.Repl.{
  line_buf, line_buf_max, Command, help, disk, init, sync, reset, trim_free, trim_fuller, trim_full,
  unknown, parse_command,
}
use barelog.Repl.Handlers.{Exit, rebooted, spinning, is_reset, init_disk}
use barelog.Repl.Text.{String, codes}

-- The memory of the firmware and the serial port.
pub record Console (hw : Hardware) (p : Peripheral) : Type 0 where
  pub machine : Machine hw
  pub port : p.State

-- `polls` is the fuel for the polls of each byte. Each function keeps the state where it stops.
module _ (hw : Hardware) (io : Bits) (p : Peripheral) (polls : ℕ) where
  -- The port after a transmission, if this ends.
  abbrev pub transmitted : Console hw p → Option p.State → Result (Unit {0}) × Console hw p
  transmitted q none = (out_of_fuel, q)
  transmitted q (some s) = (ok tt, record q { port = s })

  abbrev pub received : Console hw p → Option (ℕ × p.State) → Result (Option ℕ) × Console hw p
  received q none = (ok none, q)
  received q (some (c, s)) = (ok (some c), record q { port = s })

  -- `none` where the receiver delivers nothing for as long as it is polled.
  unfoldable pub repl_getc : Run (Console hw p) (Option ℕ)
  repl_getc q = received q (uart_getc_poll io p polls q.port)

  unfoldable pub repl_putc : ℕ → Run (Console hw p) (Unit {0})
  repl_putc c q = transmitted q (uart_putc io p polls c q.port)

  unfoldable pub repl_puts_P : String → Run (Console hw p) (Unit {0})
  repl_puts_P text q = transmitted q (uart_puts_P io p polls (codes text) q.port)

  unfoldable pub repl_crlf : Run (Console hw p) (Unit {0})
  repl_crlf = do repl_putc 0x0D; repl_putc 0x0A

  -- `while (i > 0) repl_putc(buf[--i])`
  unfoldable pub put_digits : List ℕ → Run (Console hw p) (Unit {0})
  put_digits [] = pure tt
  put_digits (d ∷ digits) = do repl_putc d; put_digits digits

  -- `out_of_fuel` also stands for an overrun of the digit buffer.
  unfoldable pub repl_putu32 : ℕ → Run (Console hw p) (Unit {0})
  repl_putu32 v q = elim (barelog.Repl.repl_putu32 v) [
    | none ↦ (out_of_fuel, q)
    | some digits ↦ put_digits digits q
  ]

  -- `LINE_BUF[len] = c`
  abbrev pub store : ℕ → ℕ → Run (Console hw p) (Unit {0})
  store len c q = (
    ok tt,
    record q { machine = set_ring (set q.machine.uart.ring (line_buf + len) c) q.machine },
  )

  -- The loop of `repl_read_line` for at most `keys` keys, of which the last may wait in vain; the
  -- result is whether a line was completed.
  unfoldable pub read_keys : ℕ → ℕ → Run (Console hw p) Bool
  read_keys zero len q = (out_of_fuel, q)
  read_keys (suc keys) len q =
      (do
        key ← repl_getc
        elim key [
          | none ↦ pure false
          | some c ↦ elim (c == 0x0D || c == 0x0A) [
            | true ↦ (do store len 0; repl_crlf; pure true)
            | false ↦ elim (c == 0x7F || c == 0x08) [
              | true ↦ elim (ltb 0 len) [
                | true ↦ (do
                  repl_putc 0x08
                  repl_putc 0x20
                  repl_putc 0x08
                  read_keys keys (len - 1))
                | false ↦ read_keys keys len
              ]
              | false ↦ elim (ltb len line_buf_max) [
                | true ↦ (do store len c; repl_putc c; read_keys keys (len + 1))
                | false ↦ read_keys keys len
              ]
            ]
          ]
        ])
        q

  unfoldable pub repl_read_line : ℕ → Run (Console hw p) Bool
  repl_read_line keys = read_keys keys 0

  -- A call on the memory; its return code comes back as a value.
  abbrev pub after_call :
      {A : Type 0} → Console hw p → Result A × Machine hw → Result Bool × Console hw p
  after_call q (ok a, m) = (ok true, record q { machine = m })
  after_call q (err n, m) = (ok false, record q { machine = m })
  after_call q (out_of_fuel, m) = (out_of_fuel, record q { machine = m })

  abbrev pub call : {A : Type 0} → Run (Machine hw) A → Run (Console hw p) Bool
  call f q = after_call q (f q.machine)

  abbrev pub put_field : String → (Machine hw → ℕ) → Run (Console hw p) (Unit {0})
  put_field name value q = (do repl_puts_P name; repl_putu32 (value q.machine); repl_crlf) q

  abbrev pub answer : Bool → Run (Console hw p) (Unit {0})
  answer true = repl_puts_P "ok\r\n"
  answer false = repl_puts_P "!\r\n"

  unfoldable pub cmd_help : Run (Console hw p) (Unit {0})
  cmd_help =
      repl_puts_P "?\r\ndisk\r\ninit\r\nsync\r\nreset\r\ntrim free\r\ntrim full\r\ntrim fuller\r\n"

  unfoldable pub cmd_disk : Run (Console hw p) (Unit {0})
  cmd_disk = do
    put_field "part_lba=" (fat32_vol_part_lba hw)
    put_field "fat_lba=" (fat32_vol_fat_lba hw)
    put_field "fat_sz32=" (fat32_vol_fat_sz32 hw)
    put_field "num_fats=" (fat32_vol_num_fats hw)
    put_field "data_lba=" (fat32_vol_data_lba hw)
    put_field "sec/clus=" (fat32_vol_sec_per_clus hw)
    put_field "tot_sec=" (fat32_vol_tot_sec hw)
    put_field "size_mb=" (λ m. fat32_vol_tot_sec hw m / 2048)

  unfoldable pub cmd_init : Run (Console hw p) (Unit {0})
  cmd_init = do good ← call (do init_disk hw; fat32_mount hw); answer good

  unfoldable pub cmd_sync : ℕ → Run (Console hw p) (Unit {0})
  cmd_sync fuel = do call (log_flush hw fuel); repl_puts_P "ok\r\n"

  unfoldable pub cmd_reset : Run (Console hw p) (Unit {0})
  cmd_reset = repl_puts_P "reset\r\n"

  unfoldable pub cmd_trim_free : Run (Console hw p) (Unit {0})
  cmd_trim_free = do
    repl_puts_P "trimming free...\r\n"
    good ← call (fat32_trim_free hw)
    answer good

  unfoldable pub cmd_trim_full : Run (Console hw p) (Unit {0})
  cmd_trim_full = do
    repl_puts_P "trimming data...\r\n"
    call (fat32_trim_full hw)
    repl_puts_P "ok\r\n"

  unfoldable pub cmd_trim_fuller : Run (Console hw p) (Unit {0})
  cmd_trim_fuller = do
    repl_puts_P "trimming card...\r\n"
    call (fat32_trim_fuller hw)
    repl_puts_P "ok\r\n"

  unfoldable pub run_command : ℕ → Command → Run (Console hw p) (Unit {0})
  run_command fuel help = cmd_help
  run_command fuel disk = cmd_disk
  run_command fuel init = cmd_init
  run_command fuel sync = cmd_sync fuel
  run_command fuel reset = cmd_reset
  run_command fuel trim_free = cmd_trim_free
  run_command fuel trim_fuller = cmd_trim_fuller
  run_command fuel trim_full = cmd_trim_full
  run_command fuel unknown = repl_puts_P "!\r\n"

  -- The result is whether the watchdog now reboots.
  unfoldable pub repl_dispatch : ℕ → Run (Console hw p) Bool
  repl_dispatch fuel q =
      let c = parse_command q.machine.uart.ring in (do run_command fuel c; pure (is_reset hw c)) q

  -- The loop of `repl_enter`, for at most `lines` lines of at most `keys` keys.
  unfoldable pub repl_loop : ℕ → ℕ → ℕ → Run (Console hw p) Exit
  repl_loop zero keys fuel q = (out_of_fuel, q)
  repl_loop (suc lines) keys fuel q =
      (do
        line ← repl_read_line keys
        elim line [
          | false ↦ pure spinning
          | true ↦ (λ q. elim (get_or q.machine.uart.ring line_buf 0 == 0) [
            | true ↦ (do repl_putc b'>'; repl_loop lines keys fuel) q
            | false ↦
                (do
                  done ← repl_dispatch fuel
                  elim done [
                    | true ↦ pure rebooted
                    | false ↦ (do repl_putc b'>'; repl_loop lines keys fuel)
                  ])
                  q
          ])
        ])
        q

  -- From the call of `log_flush` on.
  unfoldable pub repl_enter : ℕ → ℕ → ℕ → Run (Console hw p) Exit
  repl_enter lines keys fuel = do
    call (log_flush hw fuel)
    repl_puts_P "\r\n>"
    repl_loop lines keys fuel

  -- `if (UCSR0A & (1 << RXC0)) (void)UDR0;` of repl.c, and then its `repl_enter`, which goes on as
  -- the one of repl_new.c.
  unfoldable pub discard_pending : Run (Console hw p) (Unit {0})
  discard_pending q = elim (test_bit (p.status q.port).0 io.rxc0) [
    | true ↦ (ok tt, record q { port = (p.receive (p.status q.port).1).1 })
    | false ↦ (ok tt, record q { port = (p.status q.port).1 })
  ]

  unfoldable pub enter_discarding : ℕ → ℕ → ℕ → Run (Console hw p) Exit
  enter_discarding lines keys fuel = do discard_pending; repl_enter lines keys fuel
