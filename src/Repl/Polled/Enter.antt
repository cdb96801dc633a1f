-- ===== src/Repl/Polled/Enter.antt =====
-- Command mode over the registers against command mode over a list of bytes: the loop
-- and the entry.
use barelog.Prelude.{
  ℕ, zero, suc, ◌≤◌, ◌<◌, ◌≡◌, refl, sym, ap, ap₂, ◌∙◌, Bool, true, false, Bool-cases, inl, inr,
  List, [], ◌∷◌, arith, length, drop, get_or, test_bit, ◌==◌, if◌then◌else◌,
}
use barelog.Prelude.Run.{ok, Run, pure, and_then, ◌>>=◌, ◌>>◌}
use barelog.Machine.{Hardware}
use barelog.Avr.{Bits, Peripheral}
use barelog.Logger.{log_flush}
use barelog.Repl.{
  Line, waiting, entered, line_buf, line_buf_max, read_line, Command, help, disk, init, sync, reset,
  trim_free, trim_fuller, trim_full, unknown, parse_command,
}
use barelog.Repl.Handlers.{
  Session, Exit, rebooted, spinning, is_reset, init_disk, put_bytes, puts, put_number, took_line,
}
use barelog.Repl.Polled.{
  Console, repl_putc, repl_dispatch, repl_loop, repl_enter, discard_pending, enter_discarding,
}
use barelog.Repl.Polled.Primitives.{
  returned, and_then-seen, IsSerial, session, seen, Fits, Refines, bind-Refines, pure-Refines,
}
use barelog.Repl.Polled.Reading.{repl_read_line-Refines}
use barelog.Repl.Polled.Refines.{
  gets-Refines, then-Refines, prompt-Refines, repl_dispatch-Refines, call-Refines, puts-Refines,
}

module _ (hw : Hardware) (io : Bits) (p : Peripheral) (polls : ℕ) (t : IsSerial io p polls) where
  bool-Refines :
      {A : Type 0} {keys : ℕ} {f : Run (Session hw) Bool} {g : Run (Console hw p) Bool}
      (k : Bool → Run (Session hw) A) (k' : Bool → Run (Console hw p) A)
      → Refines hw io p polls t keys f g
      → Refines hw io p polls t keys (k false) (k' false)
      → Refines hw io p polls t keys (k true) (k' true)
      → Refines hw io p polls t keys (f >>= k) (g >>= k')
  bool-Refines {A} {keys} {f} {g} k k' first no_case yes_case =
      bind-Refines hw io p polls t first either
    where
      either : (b : Bool) → Refines hw io p polls t keys (k b) (k' b)
      either false = no_case
      either true = yes_case

  -- The next lines, and the loop behind a dispatch.
  module _ {keys : ℕ} (again : Run (Session hw) Exit) (again' : Run (Console hw p) Exit)
      (rest : Refines hw io p polls t keys again again') (fuel : ℕ) where
    entered-Refines :
        (empty : Bool)
        → Refines hw io p polls t {A = Exit} keys
            (λ s. elim empty [
              | true ↦ (put_bytes hw (b'>' ∷ []) >> again) s
              | false ↦
                  (do
                    done ← barelog.Repl.Handlers.repl_dispatch hw fuel
                    elim done [
                      | true ↦ pure rebooted
                      | false ↦ (put_bytes hw (b'>' ∷ []) >> again)
                    ])
                    s
            ])
            (λ q. elim empty [
              | true ↦ (repl_putc hw io p polls b'>' >> again') q
              | false ↦
                  (do
                    done ← repl_dispatch hw io p polls fuel
                    elim done [
                      | true ↦ pure rebooted
                      | false ↦ (repl_putc hw io p polls b'>' >> again')
                    ])
                    q
            ])
    entered-Refines true = prompt-Refines hw io p polls t rest
    entered-Refines false =
        bool-Refines _ _ (repl_dispatch-Refines hw io p polls t fuel)
          (prompt-Refines hw io p polls t rest) (pure-Refines hw io p polls t rebooted)

  repl_loop-Refines :
      {keys : ℕ} (lines fuel : ℕ)
      → Refines hw io p polls t keys
          (barelog.Repl.Handlers.repl_loop hw lines fuel)
          (repl_loop hw io p polls lines keys fuel)
  unfolding repl_loop barelog.Repl.Handlers.repl_loop
  repl_loop-Refines zero fuel = record { same = λ q few. refl; fits = λ q few. few }
  repl_loop-Refines {keys} (suc lines) fuel =
      let again = barelog.Repl.Handlers.repl_loop hw lines fuel in
      let again' = repl_loop hw io p polls lines keys fuel in
      let next = entered-Refines again again' (repl_loop-Refines lines fuel) fuel in
      bool-Refines _ _ (repl_read_line-Refines hw io p polls t)
        (pure-Refines hw io p polls t spinning)
        (gets-Refines hw io p polls t (λ m. get_or m.uart.ring line_buf 0 == 0) next)

  -- Behind the discarded byte.
  abbrev flush_and_loop : ℕ → ℕ → Run (Session hw) Exit
  flush_and_loop lines fuel = do
    barelog.Repl.Handlers.call hw (log_flush hw fuel)
    puts hw "\r\n>"
    barelog.Repl.Handlers.repl_loop hw lines fuel

  flushed-Refines :
      {keys : ℕ} (lines fuel : ℕ)
      → Refines hw io p polls t keys
          (flush_and_loop lines fuel)
          (repl_enter hw io p polls lines keys fuel)
  unfolding repl_enter
  flushed-Refines lines fuel =
      then-Refines hw io p polls t (call-Refines hw io p polls t (log_flush hw fuel)) (
        then-Refines hw io p polls t (puts-Refines hw io p polls t "\r\n>" (ground arith))
          (repl_loop-Refines lines fuel))

  -- What `repl_enter` of repl.c discards: one of the bytes to come, if a poll shows one.
  abbrev discarded : Bool → Run (Session hw) (Unit {0})
  discarded pending s = (ok tt, record s { input = if pending then drop 1 s.input else s.input })

  discard_pending-discarded :
      (q : Console hw p)
      → discarded (test_bit (p.status q.port).0 io.rxc0) (session hw io p polls t q)
        ≡ seen hw io p polls t (discard_pending hw io p polls q)
  discard_pending-discarded q = elim (Bool-cases (test_bit (p.status q.port).0 io.rxc0)) [
    | inl shows ↦ takes_one (t.pending q.port) refl shows
    | inr quiet ↦
        unfold discard_pending in
        rw (discard_pending, quiet)
          (ap₂ (returned hw io p polls t q.machine) (sym (t.pending-status q.port))
            (sym (t.out.sent-status q.port)))
  ]
    where
      takes_one :
          (bytes : List ℕ)
          → t.pending q.port ≡ bytes
          → test_bit (p.status q.port).0 io.rxc0 ≡ true
          → discarded (test_bit (p.status q.port).0 io.rxc0) (session hw io p polls t q)
            ≡ seen hw io p polls t (discard_pending hw io p polls q)
      takes_one [] nothing shows = absurd (grind (arith, sym shows ∙ t.idle q.port nothing))
      takes_one (c ∷ rest) more shows =
          let (byte, left) = t.takes c rest q.port shows more in
          unfold discard_pending in
          rw (discard_pending, shows)
            (ap₂ (returned hw io p polls t q.machine) (ap (drop 1) more ∙ sym left)
              (sym (t.out.sent-status q.port) ∙ sym (t.sent-receive (p.status q.port).1)))

  length_rest :
      (b : Bool) (bytes : List ℕ) → length (if b then drop 1 bytes else bytes) ≤ length bytes
  length_rest true [] = omega arith
  length_rest true (c ∷ bytes) = omega arith
  length_rest false bytes = omega arith

  discard_pending-Fits :
      (keys : ℕ) (q : Console hw p)
      → Fits hw io p polls t keys q
      → Fits hw io p polls t keys (discard_pending hw io p polls q).1
  discard_pending-Fits keys q few =
      let o = ap (λ r. length r.1.input) (discard_pending-discarded q) in
      let shorter = length_rest (test_bit (p.status q.port).0 io.rxc0) (t.pending q.port) in
      omega (arith, few, o, shorter)

  -- Over a port that keeps the bytes it has still to deliver, fewer than the keys that are allowed
  -- for, and is ready to send within the polls that are allowed for: `repl_enter` of repl_new.c
  -- ends as the one on the session does that discards nothing, with the same memory, the same
  -- bytes sent and the same bytes to come; and `repl_enter` of repl.c as the one that discards a
  -- byte exactly if the first poll shows RXC0.
  pub repl_enter_refines :
      (lines keys fuel : ℕ) (q : Console hw p)
      → length (t.pending q.port) < keys
      → (barelog.Repl.Handlers.repl_enter hw lines fuel false (session hw io p polls t q)
          ≡ seen hw io p polls t (repl_enter hw io p polls lines keys fuel q))
        × (barelog.Repl.Handlers.repl_enter hw lines fuel
              (test_bit (p.status q.port).0 io.rxc0)
              (session hw io p polls t q)
            ≡ seen hw io p polls t (enter_discarding hw io p polls lines keys fuel q))
  unfolding barelog.Repl.Handlers.repl_enter enter_discarding
  repl_enter_refines lines keys fuel q few =
      let flushed = flushed-Refines lines fuel in
      (
        flushed.same q few,
        ap (λ r. and_then r (λ _. flush_and_loop lines fuel)) (discard_pending-discarded q)
            ∙ (and_then-seen hw io p polls t keys (λ _. flush_and_loop lines fuel)
                (λ _. repl_enter hw io p polls lines keys fuel) (λ _. flushed)
                (discard_pending hw io p polls q) (discard_pending-Fits keys q few)).0,
      )
