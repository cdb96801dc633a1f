-- ===== src/Repl/Polled/Primitives.antt =====
-- The serial port as the session of Repl.Handlers sees it, and the functions of repl_new.c that
-- read and write single bytes and texts.
use barelog.Prelude.{
  ℕ, ◌<◌, ◌≡◌, refl, sym, ap, ap₂, subst, ◌∙◌, true, false, none, some, List, [], ◌∷◌, ◌++◌, arith,
  append-nil, append_assoc, length, test_bit, ne→==,
}
use barelog.Prelude.Run.{Result, ok, err, out_of_fuel, Run, pure, and_then}
use barelog.Machine.{Hardware, Machine}
use barelog.Avr.{Bits, Peripheral, uart_putc, uart_puts_P}
use barelog.Avr.Transmit.{IsTransmitter, polled, await_returns, uart_putc-await, puts_more}
use barelog.Repl.Commands.{NoNul}
use barelog.Repl.Handlers.{Session, put_bytes, put_number}
use barelog.Repl.Polled.{
  Console, repl_putc, repl_puts_P, repl_crlf, put_digits, repl_putu32, transmitted,
}
use barelog.Repl.Text.{String, codes}

-- A port that records what it sends and keeps the bytes that it has still to deliver: a poll and a
-- transmission leave them there, once a poll shows RXC0 a read takes the first of them, and while
-- there are any RXC0 shows within `polls` polls, and never when there are none.
pub record IsSerial (io : Bits) (p : Peripheral) (polls : ℕ) : Type 0 where
  pub out : IsTransmitter p polls io.udre0
  pub pending : p.State → List ℕ
  pub pending-put : (c : ℕ) (s : p.State) → pending (p.put c s) ≡ pending s
  pub pending-status : (s : p.State) → pending (p.status s).1 ≡ pending s
  pub sent-receive : (s : p.State) → out.sent (p.receive s).1 ≡ out.sent s
  pub takes :
      (c : ℕ) (rest : List ℕ) (s : p.State)
      → test_bit (p.status s).0 io.rxc0 ≡ true
      → pending s ≡ c ∷ rest
      → ((p.receive (p.status s).1).0 ≡ c) × (pending (p.receive (p.status s).1).1 ≡ rest)
  pub turn : p.State → ℕ
  pub turn-lt : (s : p.State) → turn s < polls
  pub comes :
      (c : ℕ) (rest : List ℕ) (s : p.State)
      → pending s ≡ c ∷ rest
      → test_bit (p.status (polled p (turn s) s)).0 io.rxc0 ≡ true
  pub idle : (s : p.State) → pending s ≡ [] → test_bit (p.status s).0 io.rxc0 ≡ false

module _ (hw : Hardware) (io : Bits) (p : Peripheral) (polls : ℕ) (t : IsSerial io p polls) where
  -- The session that a console is in, and a result with its session.
  abbrev pub session : Console hw p → Session hw
  session q = record { machine = q.machine; input = t.pending q.port; output = t.out.sent q.port }

  abbrev pub seen : {A : Type 0} → Result A × Console hw p → Result A × Session hw
  seen (r, q) = (r, session q)

  abbrev pub Fits : ℕ → Console hw p → Type 0
  Fits keys q = length (t.pending q.port) < keys

  -- On a console with fewer than `keys` bytes to come, the polled function does what the function
  -- on the session does, and fewer than `keys` bytes are then to come.
  pub record Refines {A : Type 0} (keys : ℕ) (f : Run (Session hw) A) (g : Run (Console hw p) A)
      : Type 0 where
    pub same : (q : Console hw p) → Fits keys q → f (session q) ≡ seen (g q)
    pub fits : (q : Console hw p) → Fits keys q → Fits keys (g q).1

  pub and_then-seen :
      {A B : Type 0} (keys : ℕ) (k : A → Run (Session hw) B) (k' : A → Run (Console hw p) B)
      → ((a : A) → Refines keys (k a) (k' a))
      → (r : Result A × Console hw p) → Fits keys r.1
      → (and_then (seen r) k ≡ seen (and_then r k')) × Fits keys (and_then r k').1
  and_then-seen keys k k' h (ok a, q) fits = ((h a).same q fits, (h a).fits q fits)
  and_then-seen keys k k' h (err n, q) fits = (refl, fits)
  and_then-seen keys k k' h (out_of_fuel, q) fits = (refl, fits)

  pub bind-Refines :
      {A B : Type 0} {keys : ℕ} {f : Run (Session hw) A} {g : Run (Console hw p) A}
      {k : A → Run (Session hw) B} {k' : A → Run (Console hw p) B}
      → Refines keys f g
      → ((a : A) → Refines keys (k a) (k' a))
      → Refines keys (λ s. and_then (f s) k) (λ q. and_then (g q) k')
  bind-Refines {A} {B} {keys} {f} {g} {k} {k'} first rest = record {
    same = λ q few.
        ap (λ r. and_then r k) (first.same q few)
        ∙ (and_then-seen keys k k' rest (g q) (first.fits q few)).0;
    fits = λ q few. (and_then-seen keys k k' rest (g q) (first.fits q few)).1;
  }

  pub pure-Refines : {A : Type 0} {keys : ℕ} (a : A) → Refines keys (pure a) (pure a)
  pure-Refines a = record { same = λ q few. refl; fits = λ q few. few }

  -- The function returns, has sent the bytes, and has done nothing else that the session shows.
  pub record Sends (bytes : List ℕ) (g : Run (Console hw p) (Unit {0})) : Type 0 where
    pub sends :
        (q : Console hw p)
        → (s : p.State) × (g q ≡ (ok tt, record q { port = s }))
          × (t.out.sent s ≡ t.out.sent q.port ++ bytes)
          × (t.pending s ≡ t.pending q.port)

  abbrev pub returned : Machine hw → List ℕ → List ℕ → Result (Unit {0}) × Session hw
  returned m i o = (ok tt, record { machine = m; input = i; output = o })

  pub Sends-Refines :
      {keys : ℕ} {bytes : List ℕ} {g : Run (Console hw p) (Unit {0})}
      → Sends bytes g
      → Refines keys (put_bytes hw bytes) g
  Sends-Refines {keys} {bytes} {g} h = record {
    same = λ q few.
        let (s, run, sent, kept) = h.sends q in
        ap₂ (returned q.machine) (sym kept) (sym sent) ∙ sym (ap seen run);
    fits = λ q few.
        let (s, run, sent, kept) = h.sends q in
        subst (λ r. Fits keys r.1) (sym run) (omega (arith, few, ap length kept));
  }

  pub Sends-append :
      {a b : List ℕ} {g g' : Run (Console hw p) (Unit {0})}
      → Sends a g
      → Sends b g'
      → Sends (a ++ b) (λ q. and_then (g q) (λ _. g'))
  Sends-append {a} {b} {g} {g'} first rest = record {
    sends = λ q.
        let (s, run, sent, kept) = first.sends q in
        let (s', run', sent', kept') = rest.sends (record q { port = s }) in
        (
          s',
          ap (λ r. and_then r (λ _. g')) run ∙ run',
          sent' ∙ ap (λ l. l ++ b) sent ∙ append_assoc (t.out.sent q.port) a b,
          kept' ∙ kept,
        );
  }

  -- What a transmission leaves.
  abbrev pub observed : p.State → List ℕ × List ℕ
  observed s = (t.out.sent s, t.pending s)

  pub observed-status : (s : p.State) → observed (p.status s).1 ≡ observed s
  observed-status s = ap₂ (λ a b. (a, b)) (t.out.sent-status s) (t.pending-status s)

  uart_putc_sends :
      (c : ℕ) (s : p.State)
      → (s' : p.State) × (uart_putc io p polls c s ≡ some s')
        × (t.out.sent s' ≡ t.out.sent s ++ (c ∷ []))
        × (t.pending s' ≡ t.pending s)
  uart_putc_sends c s =
      let w =
        await_returns io p observed io.udre0 polls (t.out.turn s) s observed-status
          (t.out.turn-lt s) (t.out.ready s) in
      let s1 = (p.status w.0).1 in
      (
        p.put c s1,
        uart_putc-await io p polls c s s1 w.1,
        t.out.sent-put c w.0 w.2 ∙ ap (λ o. o.0 ++ (c ∷ [])) w.3,
        t.pending-put c s1 ∙ ap (λ o. o.1) w.3,
      )

  uart_puts_P_sends :
      (text : List ℕ) (s : p.State)
      → NoNul text
      → (s' : p.State) × (uart_puts_P io p polls text s ≡ some s')
        × (t.out.sent s' ≡ t.out.sent s ++ text)
        × (t.pending s' ≡ t.pending s)
  uart_puts_P_sends [] s n = unfold uart_puts_P in (s, refl, sym (append-nil (t.out.sent s)), refl)
  uart_puts_P_sends (c ∷ text) s n =
      let w = uart_putc_sends c s in
      let rest = uart_puts_P_sends text w.0 n.1 in
      (
        rest.0,
        puts_more io p polls c text s w.0 (ne→== c 0 n.0) w.1 ∙ rest.1,
        rest.2 ∙ ap (λ l. l ++ text) w.2 ∙ append_assoc (t.out.sent s) (c ∷ []) text,
        rest.3 ∙ w.3,
      )

  pub repl_putc-Sends : (c : ℕ) → Sends (c ∷ []) (repl_putc hw io p polls c)
  repl_putc-Sends c = record {
    sends = λ q.
        let w = uart_putc_sends c q.port in
        (w.0, unfold repl_putc in ap (transmitted hw io p polls q) w.1, w.2, w.3);
  }

  pub repl_puts_P-Sends :
      (text : String) → NoNul (codes text) → Sends (codes text) (repl_puts_P hw io p polls text)
  repl_puts_P-Sends text n = record {
    sends = λ q.
        let w = uart_puts_P_sends (codes text) q.port n in
        (w.0, unfold repl_puts_P in ap (transmitted hw io p polls q) w.1, w.2, w.3);
  }

  pub repl_crlf-Sends : Sends (0x0D ∷ 0x0A ∷ []) (repl_crlf hw io p polls)
  unfolding repl_crlf
  repl_crlf-Sends = Sends-append (repl_putc-Sends 0x0D) (repl_putc-Sends 0x0A)

  put_digits-Sends : (digits : List ℕ) → Sends digits (put_digits hw io p polls digits)
  unfolding put_digits
  put_digits-Sends [] = record {
    sends = λ q. (q.port, refl, sym (append-nil (t.out.sent q.port)), refl);
  }
  put_digits-Sends (d ∷ digits) =
      Sends-append {a = d ∷ []} (repl_putc-Sends d) (put_digits-Sends digits)

  pub repl_putu32-Refines :
      {keys : ℕ} (v : ℕ) → Refines keys (put_number hw v) (repl_putu32 hw io p polls v)
  unfolding repl_putu32
  repl_putu32-Refines {keys} v =
      elim (barelog.Repl.repl_putu32 v)
        as (λ d.
          Refines {A = Unit {0}} keys
            (λ s. elim d [ none ↦ (out_of_fuel, s) | some digits ↦ put_bytes hw digits s ])
            (λ q. elim d [
              | none ↦ (out_of_fuel, q)
              | some digits ↦ put_digits hw io p polls digits q
            ])) [
              | none ↦ record { same = λ q few. refl; fits = λ q few. few }
              | some digits ↦ Sends-Refines (put_digits-Sends digits)
            ]
