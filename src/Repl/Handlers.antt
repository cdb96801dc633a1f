-- ===== src/Repl/Handlers.antt =====
-- The command handlers of repl.c, `repl_dispatch` and `repl_enter`.
use barelog.Prelude.{
  ℕ, zero, suc, ◌/◌, Bool, true, false, none, some, List, [], ◌∷◌, ◌++◌, get_or, drop, ◌==◌,
  if◌then◌else◌,
}
use barelog.Prelude.Run.{Result, ok, err, out_of_fuel, Run, pure, ◌>>=◌, ◌>>◌}
use barelog.Machine.{Hardware, Machine, set_ring}
use barelog.Fat.{
  fat32_vol_part_lba, fat32_vol_fat_lba, fat32_vol_fat_sz32, fat32_vol_num_fats, fat32_vol_data_lba,
  fat32_vol_sec_per_clus, fat32_vol_tot_sec,
}
use barelog.Fat.Mount.{fat32_mount}
use barelog.Fat.Trim.{fat32_trim_free, fat32_trim_full, fat32_trim_fuller}
use barelog.Logger.{log_flush}
use barelog.Repl.{
  Line, waiting, entered, line_buf, read_line, repl_putu32, Command, help, disk, init, sync, reset,
  trim_free, trim_fuller, trim_full, unknown, parse_command,
}
use barelog.Repl.Text.{String, codes}

-- The machine with what the receiver has still to deliver and what was sent.
pub record Session (hw : Hardware) : Type 0 where
  pub machine : Machine hw
  pub input : List ℕ
  pub output : List ℕ

-- How command mode ends: `reset` reboots, or the loop spins for input that does not come.
pub data Exit : Type 0 where
  rebooted spinning : Exit

module _ (hw : Hardware) where
  abbrev pub put_bytes : List ℕ → Run (Session hw) (Unit {0})
  put_bytes bytes s = (ok tt, record s { output = s.output ++ bytes })

  -- `repl_puts_P`
  abbrev pub puts : String → Run (Session hw) (Unit {0})
  puts text = put_bytes (codes text)

  abbrev pub crlf : Run (Session hw) (Unit {0})
  crlf = put_bytes (0x0D ∷ 0x0A ∷ [])

  -- `out_of_fuel` stands for an overrun of the digit buffer.
  abbrev pub put_number : ℕ → Run (Session hw) (Unit {0})
  put_number v s = elim (repl_putu32 v) [
    | none ↦ (out_of_fuel, s)
    | some digits ↦ put_bytes digits s
  ]

  -- A call on the machine; its return code comes back as a value.
  abbrev pub after_call :
      {A : Type 0} → Session hw → Result A × Machine hw → Result Bool × Session hw
  after_call s (ok a, m) = (ok true, record s { machine = m })
  after_call s (err n, m) = (ok false, record s { machine = m })
  after_call s (out_of_fuel, m) = (out_of_fuel, record s { machine = m })

  abbrev pub call : {A : Type 0} → Run (Machine hw) A → Run (Session hw) Bool
  call f s = after_call s (f s.machine)

  abbrev pub put_field : String → (Machine hw → ℕ) → Run (Session hw) (Unit {0})
  put_field name value s = (do puts name; put_number (value s.machine); crlf) s

  abbrev pub answer : Bool → Run (Session hw) (Unit {0})
  answer true = puts "ok\r\n"
  answer false = puts "!\r\n"

  unfoldable pub cmd_help : Run (Session hw) (Unit {0})
  cmd_help = puts "?\r\ndisk\r\ninit\r\nsync\r\nreset\r\ntrim free\r\ntrim full\r\ntrim fuller\r\n"

  unfoldable pub cmd_disk : Run (Session hw) (Unit {0})
  cmd_disk = do
    put_field "part_lba=" (fat32_vol_part_lba hw)
    put_field "fat_lba=" (fat32_vol_fat_lba hw)
    put_field "fat_sz32=" (fat32_vol_fat_sz32 hw)
    put_field "num_fats=" (fat32_vol_num_fats hw)
    put_field "data_lba=" (fat32_vol_data_lba hw)
    put_field "sec/clus=" (fat32_vol_sec_per_clus hw)
    put_field "tot_sec=" (fat32_vol_tot_sec hw)
    put_field "size_mb=" (λ m. fat32_vol_tot_sec hw m / 2048)

  -- `sd_init()` on the disk of the machine.
  abbrev pub init_disk : Run (Machine hw) (Unit {0})
  init_disk m = let (r, d) = hw.dev.sd_init m.disk in (r, record m { disk = d })

  unfoldable pub cmd_init : Run (Session hw) (Unit {0})
  cmd_init = do good ← call (do init_disk; fat32_mount hw); answer good

  unfoldable pub cmd_sync : ℕ → Run (Session hw) (Unit {0})
  cmd_sync fuel = do call (log_flush hw fuel); puts "ok\r\n"

  unfoldable pub cmd_reset : Run (Session hw) (Unit {0})
  cmd_reset = puts "reset\r\n"

  unfoldable pub cmd_trim_free : Run (Session hw) (Unit {0})
  cmd_trim_free = do puts "trimming free...\r\n"; good ← call (fat32_trim_free hw); answer good

  unfoldable pub cmd_trim_full : Run (Session hw) (Unit {0})
  cmd_trim_full = do puts "trimming data...\r\n"; call (fat32_trim_full hw); puts "ok\r\n"

  unfoldable pub cmd_trim_fuller : Run (Session hw) (Unit {0})
  cmd_trim_fuller = do puts "trimming card...\r\n"; call (fat32_trim_fuller hw); puts "ok\r\n"

  unfoldable pub run_command : ℕ → Command → Run (Session hw) (Unit {0})
  run_command fuel help = cmd_help
  run_command fuel disk = cmd_disk
  run_command fuel init = cmd_init
  run_command fuel sync = cmd_sync fuel
  run_command fuel reset = cmd_reset
  run_command fuel trim_free = cmd_trim_free
  run_command fuel trim_fuller = cmd_trim_fuller
  run_command fuel trim_full = cmd_trim_full
  run_command fuel unknown = puts "!\r\n"

  abbrev pub is_reset : Command → Bool
  is_reset reset = true
  is_reset _ = false

  -- `repl_dispatch`; the result is whether the watchdog now reboots.
  unfoldable pub repl_dispatch : ℕ → Run (Session hw) Bool
  repl_dispatch fuel s =
      let c = parse_command s.machine.uart.ring in (do run_command fuel c; pure (is_reset c)) s

  -- `repl_read_line` on the session; the result is whether a line was completed.
  abbrev pub took_line : Session hw → Line → Result Bool × Session hw
  took_line s (waiting ring echo) = (
    ok false,
    record s { machine = set_ring ring s.machine; input = []; output = s.output ++ echo },
  )
  took_line s (entered ring rest echo) = (
    ok true,
    record s { machine = set_ring ring s.machine; input = rest; output = s.output ++ echo },
  )

  unfoldable pub repl_read_line : Run (Session hw) Bool
  repl_read_line s = took_line s (read_line s.input 0 s.machine.uart.ring [])

  -- The loop of `repl_enter`, for at most `lines` lines.
  unfoldable pub repl_loop : ℕ → ℕ → Run (Session hw) Exit
  repl_loop zero fuel s = (out_of_fuel, s)
  repl_loop (suc lines) fuel s =
      (do
        line ← repl_read_line
        elim line [
          | false ↦ pure spinning
          | true ↦ (λ s. elim (get_or s.machine.uart.ring line_buf 0 == 0) [
            | true ↦ (do put_bytes (b'>' ∷ []); repl_loop lines fuel) s
            | false ↦
                (do
                  done ← repl_dispatch fuel
                  elim done [
                    | true ↦ pure rebooted
                    | false ↦ (do put_bytes (b'>' ∷ []); repl_loop lines fuel)
                  ])
                  s
          ])
        ])
        s

  -- `pending` says whether a byte waits in the receiver on entry; it is discarded.
  unfoldable pub repl_enter : ℕ → ℕ → Bool → Run (Session hw) Exit
  repl_enter lines fuel pending = do
    (λ s. (ok tt, record s { input = if pending then drop 1 s.input else s.input }))
    call (log_flush hw fuel)
    puts "\r\n>"
    repl_loop lines fuel
