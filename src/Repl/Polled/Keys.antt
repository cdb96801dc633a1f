-- ===== src/Repl/Polled/Keys.antt =====
-- One key in the line reader of repl_new.c and in the one over the list of the bytes to come.
use barelog.Prelude.{
  ℕ, suc, ◌+◌, ◌-◌, ◌≡◌, sym, ap, ◌∙◌, true, false, ◌||◌, none, some, List, [], ◌∷◌, ◌++◌, set, ltb,
  ◌==◌,
}
use barelog.Prelude.Run.{ok, pure, and_then, ◌>>◌}
use barelog.Machine.{Hardware, set_ring}
use barelog.Avr.{Bits, Peripheral, await, uart_getc_poll}
use barelog.Avr.Transmit.{await_returns, await_spins}
use barelog.Repl.{entered, line_buf, line_buf_max, read_line}
use barelog.Repl.Polled.{Console, repl_getc, repl_putc, repl_crlf, read_keys, received}
use barelog.Repl.Polled.Primitives.{IsSerial, observed, observed-status}

module _ (hw : Hardware) (io : Bits) (p : Peripheral) (polls : ℕ) (t : IsSerial io p polls) where
  uart_getc_poll-await :
      (s s1 : p.State)
      → await io p polls io.rxc0 s ≡ some s1
      → uart_getc_poll io p polls s ≡ some (p.receive s1)
  unfolding uart_getc_poll
  uart_getc_poll-await s s1 h = rw (uart_getc_poll, h)

  uart_getc_poll_spins :
      (s : p.State) → await io p polls io.rxc0 s ≡ none → uart_getc_poll io p polls s ≡ none
  unfolding uart_getc_poll
  uart_getc_poll_spins s h = rw (uart_getc_poll, h)

  pub repl_getc_takes :
      (c : ℕ) (rest : List ℕ) (q : Console hw p)
      → t.pending q.port ≡ c ∷ rest
      → (s : p.State) × (repl_getc hw io p polls q ≡ (ok (some c), record q { port = s }))
        × (t.out.sent s ≡ t.out.sent q.port)
        × (t.pending s ≡ rest)
  unfolding repl_getc
  repl_getc_takes c rest q more =
      let w =
        await_returns io p (observed hw io p polls t) io.rxc0 polls (t.turn q.port) q.port
          (observed-status hw io p polls t) (t.turn-lt q.port) (t.comes c rest q.port more) in
      let s1 = (p.status w.0).1 in
      let here : t.pending w.0 ≡ c ∷ rest = sym (t.pending-status w.0) ∙ ap (λ o. o.1) w.3 ∙ more in
      let (byte, left) = t.takes c rest w.0 w.2 here in
      (
        (p.receive s1).1,
        ap (received hw io p polls q) (uart_getc_poll-await q.port s1 w.1)
            ∙ ap (λ b. (ok (some b), record q { port = (p.receive s1).1 })) byte,
        t.sent-receive s1 ∙ ap (λ o. o.0) w.3,
        left,
      )

  pub repl_getc_waits :
      (q : Console hw p) → t.pending q.port ≡ [] → repl_getc hw io p polls q ≡ (ok none, q)
  unfolding repl_getc
  repl_getc_waits q nothing = ap (received hw io p polls q) (
      uart_getc_poll_spins q.port (
        await_spins io p t.pending io.rxc0 polls q.port t.pending-status
          (λ s e. t.idle s (e ∙ nothing))))

  pub waits :
      (len keys : ℕ) (q : Console hw p)
      → repl_getc hw io p polls q ≡ (ok none, q)
      → read_keys hw io p polls (suc keys) len q ≡ (ok false, q)
  unfolding read_keys
  waits len keys q none_comes = rw (read_keys, none_comes, and_then)

  -- The kinds of key, in the two readers, where `c` has been taken and `s` is the port behind it.
  module _ (c len : ℕ) (input ring echo : List ℕ) (keys : ℕ) (q : Console hw p) (s : p.State)
      (got : repl_getc hw io p polls q ≡ (ok (some c), record q { port = s })) where
    pub ends :
        (c == 0x0D || c == 0x0A) ≡ true
        → (read_line (c ∷ input) len ring echo
            ≡ entered (set ring (line_buf + len) 0) input (echo ++ (0x0D ∷ 0x0A ∷ [])))
          × (read_keys hw io p polls (suc keys) len q
              ≡ (repl_crlf hw io p polls >> pure true) (record {
                machine = set_ring (set q.machine.uart.ring (line_buf + len) 0) q.machine;
                port = s;
              }))
    unfolding read_line read_keys
    ends h = (rw (read_line, h), rw (read_keys, got, and_then, h))

    pub erases :
        (c == 0x0D || c == 0x0A) ≡ false
        → (c == 0x7F || c == 0x08) ≡ true
        → ltb 0 len ≡ true
        → (read_line (c ∷ input) len ring echo
            ≡ read_line input (len - 1) ring (echo ++ (0x08 ∷ 0x20 ∷ 0x08 ∷ [])))
          × (read_keys hw io p polls (suc keys) len q
              ≡ (do
                repl_putc hw io p polls 0x08
                repl_putc hw io p polls 0x20
                repl_putc hw io p polls 0x08
                read_keys hw io p polls keys (len - 1))
                  (record q { port = s }))
    unfolding read_line read_keys
    erases h b l = (rw (read_line, h, b, l), rw (read_keys, got, and_then, h, b, l))

    pub erases_nothing :
        (c == 0x0D || c == 0x0A) ≡ false
        → (c == 0x7F || c == 0x08) ≡ true
        → ltb 0 len ≡ false
        → (read_line (c ∷ input) len ring echo ≡ read_line input len ring echo)
          × (read_keys hw io p polls (suc keys) len q
              ≡ read_keys hw io p polls keys len (record q { port = s }))
    unfolding read_line read_keys
    erases_nothing h b l = (rw (read_line, h, b, l), rw (read_keys, got, and_then, h, b, l))

    pub appends :
        (c == 0x0D || c == 0x0A) ≡ false
        → (c == 0x7F || c == 0x08) ≡ false
        → ltb len line_buf_max ≡ true
        → (read_line (c ∷ input) len ring echo
            ≡ read_line input (len + 1) (set ring (line_buf + len) c) (echo ++ (c ∷ [])))
          × (read_keys hw io p polls (suc keys) len q
              ≡ (repl_putc hw io p polls c >> read_keys hw io p polls keys (len + 1)) (record {
                machine = set_ring (set q.machine.uart.ring (line_buf + len) c) q.machine;
                port = s;
              }))
    unfolding read_line read_keys
    appends h b l = (rw (read_line, h, b, l), rw (read_keys, got, and_then, h, b, l))

    pub drops :
        (c == 0x0D || c == 0x0A) ≡ false
        → (c == 0x7F || c == 0x08) ≡ false
        → ltb len line_buf_max ≡ false
        → (read_line (c ∷ input) len ring echo ≡ read_line input len ring echo)
          × (read_keys hw io p polls (suc keys) len q
              ≡ read_keys hw io p polls keys len (record q { port = s }))
    unfolding read_line read_keys
    drops h b l = (rw (read_line, h, b, l), rw (read_keys, got, and_then, h, b, l))
