-- ===== src/Repl/Polled/Reading.antt =====
-- The line reader of repl_new.c against the one over the list of the bytes to come.
use barelog.Prelude.{
  ℕ, zero, suc, ◌+◌, ◌-◌, ◌≤◌, ◌<◌, ◌≡◌, refl, sym, ap, ◌∙◌, true, false, ◌||◌, Bool-cases, inl,
  inr, List, [], ◌∷◌, ◌++◌, arith, append-nil, append_assoc, length, set, ltb, ◌==◌,
}
use barelog.Prelude.Run.{Run, Result, ok, pure, and_then, ◌>>◌}
use barelog.Machine.{Hardware, set_ring}
use barelog.Avr.{Bits, Peripheral}
use barelog.Repl.{Line, waiting, entered, line_buf, line_buf_max, read_line}
use barelog.Repl.Handlers.{Session, took_line}
use barelog.Repl.Polled.{Console, repl_putc, read_keys, repl_read_line}
use barelog.Repl.Polled.Primitives.{
  IsSerial, session, seen, Fits, Refines, Sends, repl_putc-Sends, repl_crlf-Sends,
}
use barelog.Repl.Polled.Keys.{
  repl_getc_takes, repl_getc_waits, waits, ends, erases, erases_nothing, appends, drops,
}

module _ (hw : Hardware) (io : Bits) (p : Peripheral) (polls : ℕ) (t : IsSerial io p polls) where
  -- A transmission, and what follows it.
  sent_then :
      {A : Type 0} {bytes : List ℕ} {g : Run (Console hw p) (Unit {0})}
      → Sends hw io p polls t bytes g
      → (k : Run (Console hw p) A) (q : Console hw p)
      → (s : p.State) × ((g >> k) q ≡ k (record q { port = s }))
        × (t.out.sent s ≡ t.out.sent q.port ++ bytes)
        × (t.pending s ≡ t.pending q.port)
  sent_then h k q =
      let (s, run, sent, kept) = h.sends q in (s, ap (λ r. and_then r (λ _. k)) run, sent, kept)

  abbrev rubout : List ℕ
  rubout = 0x08 ∷ 0x20 ∷ 0x08 ∷ []

  rubout_then :
      {A : Type 0} (k : Run (Console hw p) A) (q : Console hw p)
      → (s : p.State) × ((do
        repl_putc hw io p polls 0x08
        repl_putc hw io p polls 0x20
        repl_putc hw io p polls 0x08
        k)
            q
          ≡ k (record q { port = s }))
        × (t.out.sent s ≡ t.out.sent q.port ++ rubout)
        × (t.pending s ≡ t.pending q.port)
  rubout_then k q =
      let back = repl_putc-Sends hw io p polls t 0x08 in
      let a = sent_then back (do repl_putc hw io p polls 0x20; repl_putc hw io p polls 0x08; k) q in
      let q1 : Console hw p = record q { port = a.0 } in
      let b =
        sent_then (repl_putc-Sends hw io p polls t 0x20) (do repl_putc hw io p polls 0x08; k) q1 in
      let q2 : Console hw p = record q { port = b.0 } in
      let c = sent_then back k q2 in
      (
        c.0,
        a.1 ∙ b.1 ∙ c.1,
        c.2
            ∙ ap (λ o. o ++ (0x08 ∷ [])) (b.2 ∙ ap (λ o. o ++ (0x20 ∷ [])) a.2)
            ∙ append_assoc (t.out.sent q.port ++ (0x08 ∷ [])) (0x20 ∷ []) (0x08 ∷ [])
            ∙ append_assoc (t.out.sent q.port) (0x08 ∷ []) (0x20 ∷ 0x08 ∷ []),
        c.3 ∙ b.3 ∙ a.3,
      )

  -- What the rest of a line does, in a session `s` of which `echo` has been sent since: the two
  -- readers agree, and no byte comes to those still to come.
  abbrev Reads : Session hw → Console hw p → List ℕ → ℕ → List ℕ → ℕ → Type 0
  Reads s q input len echo keys =
      (took_line hw s (read_line input len q.machine.uart.ring echo)
        ≡ seen hw io p polls t (read_keys hw io p polls keys len q))
      × (length (t.pending (read_keys hw io p polls keys len q).1.port) ≤ length input)

  -- A session and a console in the same state.
  record Meets (s : Session hw) (q : Console hw p) (input echo : List ℕ) : Type 0 where
    pub memory : set_ring q.machine.uart.ring s.machine ≡ q.machine
    pub left : t.pending q.port ≡ input
    pub said : t.out.sent q.port ≡ s.output ++ echo

  Meets-eq :
      {A : Type 0} (r : Result A) (s : Session hw) (q : Console hw p) (input echo : List ℕ)
      → Meets s q input echo
      → (
        r,
        record s {
          machine = set_ring q.machine.uart.ring s.machine;
          input = input;
          output = s.output ++ echo;
        },
      )
        ≡ seen hw io p polls t (r, q)
  Meets-eq r s q input echo m =
      λ i. (r, record { machine = m.memory i; input = sym m.left i; output = sym m.said i })

  Meets-sent :
      (s : Session hw) (q : Console hw p) (input echo bytes ring : List ℕ) (port : p.State)
      → Meets s q input echo
      → t.out.sent port ≡ t.out.sent q.port ++ bytes
      → t.pending port ≡ t.pending q.port
      → Meets s (record { machine = set_ring ring q.machine; port = port }) input (echo ++ bytes)
  Meets-sent s q input echo bytes ring port m sent kept = record {
    memory = ap (set_ring ring) m.memory;
    left = kept ∙ m.left;
    said = sent ∙ ap (λ o. o ++ bytes) m.said ∙ append_assoc s.output echo bytes;
  }

  after_key :
      (c len len' : ℕ) (input echo echo' : List ℕ) (keys : ℕ) (s : Session hw) (q q' : Console hw p)
      → read_line (c ∷ input) len q.machine.uart.ring echo
        ≡ read_line input len' q'.machine.uart.ring echo'
      → read_keys hw io p polls (suc keys) len q ≡ read_keys hw io p polls keys len' q'
      → Reads s q' input len' echo' keys
      → Reads s q (c ∷ input) len echo (suc keys)
  after_key c len len' input echo echo' keys s q q' line run rest = (
    ap (took_line hw s) line ∙ rest.0 ∙ ap (seen hw io p polls t) (sym run),
    omega (arith, rest.1, ap (λ r. length (t.pending r.1.port)) run),
  )

  at_end :
      (c len : ℕ) (input echo : List ℕ) (keys : ℕ) (s : Session hw) (q : Console hw p)
      → Meets s q (c ∷ input) echo
      → (c == 0x0D || c == 0x0A) ≡ true
      → Reads s q (c ∷ input) len echo (suc keys)
  at_end c len input echo keys s q m h =
      let g = repl_getc_takes hw io p polls t c input q m.left in
      let e = ends hw io p polls t c len input q.machine.uart.ring echo keys q g.0 g.1 h in
      let ring : List ℕ = set q.machine.uart.ring (line_buf + len) 0 in
      let w =
        sent_then (repl_crlf-Sends hw io p polls t) (pure true)
          (record { machine = set_ring ring q.machine; port = g.0 }) in
      let q' : Console hw p = record { machine = set_ring ring q.machine; port = w.0 } in
      let m' =
        Meets-sent s (record q { port = g.0 }) input echo (0x0D ∷ 0x0A ∷ []) ring w.0
          (record { memory = m.memory; left = g.3; said = g.2 ∙ m.said }) w.2 w.3 in
      (
        ap (took_line hw s) e.0
            ∙ Meets-eq (ok true) s q' input (echo ++ (0x0D ∷ 0x0A ∷ [])) m'
            ∙ ap (seen hw io p polls t) (sym (e.1 ∙ w.1)),
        omega (arith, ap (λ r. length (t.pending r.1.port)) (e.1 ∙ w.1), ap length m'.left),
      )

  reads :
      (input : List ℕ) (len : ℕ) (echo : List ℕ) (keys : ℕ) (s : Session hw) (q : Console hw p)
      → Meets s q input echo
      → length input < keys
      → Reads s q input len echo keys
  reads input len echo zero s q m few = absurd (omega arith)
  reads [] len echo (suc keys) s q m few =
      let run = waits hw io p polls t len keys q (repl_getc_waits hw io p polls t q m.left) in
      (
        unfold read_line in Meets-eq (ok false) s q [] echo m ∙ ap (seen hw io p polls t) (sym run),
        omega (arith, ap (λ r. length (t.pending r.1.port)) run, ap length m.left),
      )
  reads (c ∷ input) len echo (suc keys) s q m few =
      let ring : List ℕ = q.machine.uart.ring in
      let g = repl_getc_takes hw io p polls t c input q m.left in
      let q1 : Console hw p = record q { port = g.0 } in
      let m1 : Meets s q1 input echo = record {
        memory = m.memory;
        left = g.3;
        said = g.2 ∙ m.said;
      } in
      elim (Bool-cases (c == 0x0D || c == 0x0A)) [
        | inl h ↦ at_end c len input echo keys s q m h
        | inr h ↦ elim (Bool-cases (c == 0x7F || c == 0x08)) [
          | inl b ↦ elim (Bool-cases (ltb 0 len)) [
            | inl l ↦
                let k = erases hw io p polls t c len input ring echo keys q g.0 g.1 h b l in
                let w = rubout_then (read_keys hw io p polls keys (len - 1)) q1 in
                let q2 : Console hw p = record q { port = w.0 } in
                after_key c len (len - 1) input echo (echo ++ rubout) keys s q q2 k.0 (k.1 ∙ w.1) (
                  reads input (len - 1) (echo ++ rubout) keys s q2
                    (Meets-sent s q1 input echo rubout ring w.0 m1 w.2 w.3) (omega (arith, few)))
            | inr l ↦
                let k = erases_nothing hw io p polls t c len input ring echo keys q g.0 g.1 h b l in
                after_key c len len input echo echo keys s q q1 k.0 k.1
                  (reads input len echo keys s q1 m1 (omega (arith, few)))
          ]
          | inr b ↦ elim (Bool-cases (ltb len line_buf_max)) [
            | inl l ↦
                let k = appends hw io p polls t c len input ring echo keys q g.0 g.1 h b l in
                let ring' : List ℕ = set ring (line_buf + len) c in
                let w =
                  sent_then (repl_putc-Sends hw io p polls t c)
                    (read_keys hw io p polls keys (len + 1))
                    (record { machine = set_ring ring' q.machine; port = g.0 }) in
                let q2 : Console hw p = record { machine = set_ring ring' q.machine; port = w.0 } in
                after_key c len (len + 1) input echo (echo ++ (c ∷ [])) keys s q q2 k.0 (k.1 ∙ w.1)
                  (reads input (len + 1) (echo ++ (c ∷ [])) keys s q2
                    (Meets-sent s q1 input echo (c ∷ []) ring' w.0 m1 w.2 w.3) (omega (arith, few)))
            | inr l ↦
                let k = drops hw io p polls t c len input ring echo keys q g.0 g.1 h b l in
                after_key c len len input echo echo keys s q q1 k.0 k.1
                  (reads input len echo keys s q1 m1 (omega (arith, few)))
          ]
        ]
      ]

  pub repl_read_line-Refines :
      {keys : ℕ}
      → Refines hw io p polls t keys
          (barelog.Repl.Handlers.repl_read_line hw)
          (repl_read_line hw io p polls keys)
  unfolding repl_read_line barelog.Repl.Handlers.repl_read_line
  repl_read_line-Refines {keys} = record {
    same = λ q few. (line q few).0;
    fits = λ q few. omega (arith, few, (line q few).1);
  }
    where
      line :
          (q : Console hw p)
          → Fits hw io p polls t keys q
          → Reads (session hw io p polls t q) q (t.pending q.port) 0 [] keys
      line q few =
          reads (t.pending q.port) 0 [] keys (session hw io p polls t q) q
            (record { memory = refl; left = refl; said = sym (append-nil (t.out.sent q.port)) }) few
