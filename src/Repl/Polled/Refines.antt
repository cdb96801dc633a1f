-- ===== src/Repl/Polled/Refines.antt =====
-- Command mode over the registers against command mode over a list of bytes: the
-- handlers.
use barelog.Prelude.{ℕ, ◌/◌, ◌≡◌, refl, Bool, true, false, [], ◌∷◌, arith}
use barelog.Prelude.Run.{Result, ok, err, out_of_fuel, Run, pure, ◌>>◌}
use barelog.Machine.{Hardware, Machine}
use barelog.Avr.{Bits, Peripheral}
use barelog.Fat.{
  fat32_vol_part_lba, fat32_vol_fat_lba, fat32_vol_fat_sz32, fat32_vol_num_fats, fat32_vol_data_lba,
  fat32_vol_sec_per_clus, fat32_vol_tot_sec,
}
use barelog.Fat.Mount.{fat32_mount}
use barelog.Fat.Trim.{fat32_trim_free, fat32_trim_full, fat32_trim_fuller}
use barelog.Logger.{log_flush}
use barelog.Repl.{
  Line, waiting, entered, line_buf, line_buf_max, read_line, Command, help, disk, init, sync, reset,
  trim_free, trim_fuller, trim_full, unknown, parse_command,
}
use barelog.Repl.Handlers.{
  Session, Exit, rebooted, spinning, is_reset, init_disk, put_bytes, puts, put_number, took_line,
}
use barelog.Repl.Commands.{NoNul}
use barelog.Repl.Polled.{
  Console, repl_getc, repl_putc, repl_puts_P, repl_crlf, repl_putu32, read_keys, repl_read_line,
  received, cmd_help, cmd_disk, cmd_init, cmd_sync, cmd_reset, cmd_trim_free, cmd_trim_full,
  cmd_trim_fuller, run_command, repl_dispatch, repl_loop, repl_enter, discard_pending,
  enter_discarding,
}
use barelog.Repl.Polled.Primitives.{
  IsSerial, session, seen, Fits, Refines, bind-Refines, pure-Refines, Sends-Refines,
  repl_putc-Sends, repl_puts_P-Sends, repl_crlf-Sends, repl_putu32-Refines,
}
use barelog.Repl.Text.{String, codes}

module _ (hw : Hardware) (io : Bits) (p : Peripheral) (polls : ℕ) (t : IsSerial io p polls) where
  pub puts-Refines :
      {keys : ℕ} (text : String)
      → NoNul (codes text)
      → Refines hw io p polls t keys (puts hw text) (repl_puts_P hw io p polls text)
  puts-Refines text n = Sends-Refines hw io p polls t (repl_puts_P-Sends hw io p polls t text n)

  pub call-Refines :
      {A : Type 0} {keys : ℕ} (f : Run (Machine hw) A)
      → Refines hw io p polls t keys
          (barelog.Repl.Handlers.call hw f)
          (barelog.Repl.Polled.call hw io p polls f)
  call-Refines {A} {keys} f = record {
    same = λ q few. returned q (f q.machine);
    fits = λ q few. returned_fits q few (f q.machine);
  }
    where
      returned :
          (q : Console hw p) (r : Result A × Machine hw)
          → barelog.Repl.Handlers.after_call hw (session hw io p polls t q) r
            ≡ seen hw io p polls t (barelog.Repl.Polled.after_call hw io p polls q r)
      returned q (ok a, m) = refl
      returned q (err n, m) = refl
      returned q (out_of_fuel, m) = refl

      returned_fits :
          (q : Console hw p)
          → Fits hw io p polls t keys q
          → (r : Result A × Machine hw)
          → Fits hw io p polls t keys (barelog.Repl.Polled.after_call hw io p polls q r).1
      returned_fits q few (ok a, m) = few
      returned_fits q few (err n, m) = few
      returned_fits q few (out_of_fuel, m) = few

  -- A step that depends on the memory.
  pub gets-Refines :
      {A B : Type 0} {keys : ℕ} (value : Machine hw → B) {f : B → Run (Session hw) A}
      {g : B → Run (Console hw p) A}
      → ((b : B) → Refines hw io p polls t keys (f b) (g b))
      → Refines hw io p polls t keys (λ s. f (value s.machine) s) (λ q. g (value q.machine) q)
  gets-Refines value h = record {
    same = λ q few. (h (value q.machine)).same q few;
    fits = λ q few. (h (value q.machine)).fits q few;
  }

  pub then-Refines :
      {A B : Type 0} {keys : ℕ} {f : Run (Session hw) A} {g : Run (Console hw p) A}
      {k : Run (Session hw) B} {k' : Run (Console hw p) B}
      → Refines hw io p polls t keys f g
      → Refines hw io p polls t keys k k'
      → Refines hw io p polls t keys (f >> k) (g >> k')
  then-Refines first rest = bind-Refines hw io p polls t first (λ _. rest)

  crlf-Refines :
      {keys : ℕ}
      → Refines hw io p polls t keys (put_bytes hw (0x0D ∷ 0x0A ∷ [])) (repl_crlf hw io p polls)
  crlf-Refines = Sends-Refines hw io p polls t (repl_crlf-Sends hw io p polls t)

  put_field-Refines :
      {keys : ℕ} (name : String) (value : Machine hw → ℕ)
      → NoNul (codes name)
      → Refines hw io p polls t keys
          (barelog.Repl.Handlers.put_field hw name value)
          (barelog.Repl.Polled.put_field hw io p polls name value)
  put_field-Refines {keys} name value n =
      gets-Refines value
        {f = λ v. puts hw name >> (put_number hw v >> put_bytes hw (0x0D ∷ 0x0A ∷ []))}
        {g = λ v.
          repl_puts_P hw io p polls name
          >> (repl_putu32 hw io p polls v >> repl_crlf hw io p polls)}
        (λ v.
          then-Refines (puts-Refines name n)
            (then-Refines (repl_putu32-Refines hw io p polls t v) crlf-Refines))

  answer-Refines :
      {keys : ℕ} (good : Bool)
      → Refines hw io p polls t keys
          (barelog.Repl.Handlers.answer hw good)
          (barelog.Repl.Polled.answer hw io p polls good)
  answer-Refines true = puts-Refines "ok\r\n" (ground arith)
  answer-Refines false = puts-Refines "!\r\n" (ground arith)

  run_command-Refines :
      {keys : ℕ} (fuel : ℕ) (c : Command)
      → Refines hw io p polls t keys
          (barelog.Repl.Handlers.run_command hw fuel c)
          (run_command hw io p polls fuel c)
  unfolding run_command cmd_help cmd_disk cmd_init cmd_sync cmd_reset cmd_trim_free cmd_trim_full
      cmd_trim_fuller barelog.Repl.Handlers.run_command barelog.Repl.Handlers.cmd_help
      barelog.Repl.Handlers.cmd_disk barelog.Repl.Handlers.cmd_init barelog.Repl.Handlers.cmd_sync
      barelog.Repl.Handlers.cmd_reset barelog.Repl.Handlers.cmd_trim_free
      barelog.Repl.Handlers.cmd_trim_full barelog.Repl.Handlers.cmd_trim_fuller
  run_command-Refines fuel help =
      puts-Refines "?\r\ndisk\r\ninit\r\nsync\r\nreset\r\ntrim free\r\ntrim full\r\ntrim fuller\r\n"
        (ground arith)
  run_command-Refines fuel disk =
      then-Refines (put_field-Refines "part_lba=" (fat32_vol_part_lba hw) (ground arith)) (
        then-Refines (put_field-Refines "fat_lba=" (fat32_vol_fat_lba hw) (ground arith)) (
          then-Refines (put_field-Refines "fat_sz32=" (fat32_vol_fat_sz32 hw) (ground arith)) (
            then-Refines (put_field-Refines "num_fats=" (fat32_vol_num_fats hw) (ground arith)) (
              then-Refines (put_field-Refines "data_lba=" (fat32_vol_data_lba hw) (ground arith)) (
                then-Refines
                  (put_field-Refines "sec/clus=" (fat32_vol_sec_per_clus hw) (ground arith))
                  (then-Refines (put_field-Refines "tot_sec=" (fat32_vol_tot_sec hw) (ground arith))
                    (put_field-Refines "size_mb=" (λ m. fat32_vol_tot_sec hw m / 2048)
                      (ground arith))))))))
  run_command-Refines fuel init =
      bind-Refines hw io p polls t (call-Refines (init_disk hw >> fat32_mount hw)) answer-Refines
  run_command-Refines fuel sync =
      then-Refines (call-Refines (log_flush hw fuel)) (puts-Refines "ok\r\n" (ground arith))
  run_command-Refines fuel reset = puts-Refines "reset\r\n" (ground arith)
  run_command-Refines fuel trim_free =
      then-Refines (puts-Refines "trimming free...\r\n" (ground arith))
        (bind-Refines hw io p polls t (call-Refines (fat32_trim_free hw)) answer-Refines)
  run_command-Refines fuel trim_full =
      then-Refines (puts-Refines "trimming data...\r\n" (ground arith))
        (then-Refines (call-Refines (fat32_trim_full hw)) (puts-Refines "ok\r\n" (ground arith)))
  run_command-Refines fuel trim_fuller =
      then-Refines (puts-Refines "trimming card...\r\n" (ground arith))
        (then-Refines (call-Refines (fat32_trim_fuller hw)) (puts-Refines "ok\r\n" (ground arith)))
  run_command-Refines fuel unknown = puts-Refines "!\r\n" (ground arith)

  pub repl_dispatch-Refines :
      {keys : ℕ} (fuel : ℕ)
      → Refines hw io p polls t keys
          (barelog.Repl.Handlers.repl_dispatch hw fuel)
          (repl_dispatch hw io p polls fuel)
  unfolding repl_dispatch barelog.Repl.Handlers.repl_dispatch
  repl_dispatch-Refines fuel =
      gets-Refines (λ m. parse_command m.uart.ring)
        {f = λ c. barelog.Repl.Handlers.run_command hw fuel c >> pure (is_reset hw c)}
        {g = λ c. run_command hw io p polls fuel c >> pure (is_reset hw c)}
        (λ c.
          then-Refines (run_command-Refines fuel c) (pure-Refines hw io p polls t (is_reset hw c)))

  pub prompt-Refines :
      {A : Type 0} {keys : ℕ} {k : Run (Session hw) A} {k' : Run (Console hw p) A}
      → Refines hw io p polls t keys k k'
      → Refines hw io p polls t keys
          (put_bytes hw (b'>' ∷ []) >> k)
          (repl_putc hw io p polls b'>' >> k')
  prompt-Refines rest =
      then-Refines (Sends-Refines hw io p polls t (repl_putc-Sends hw io p polls t b'>')) rest
