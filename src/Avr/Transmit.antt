-- ===== src/Avr/Transmit.antt =====
-- The polled transmitter.
use barelog.Prelude.{
  ℕ, zero, suc, ◌<◌, ◌≡◌, refl, sym, ap, ◌∙◌, true, false, Bool-cases, inl, inr, none, some, List,
  [], ◌∷◌, ◌++◌, arith, append-nil, append_assoc, test_bit, ◌==◌,
}
use barelog.Avr.{Bits, Peripheral, await, uart_putc, uart_puts_P}

-- The bytes before the first NUL.
unfoldable pub until_nul : List ℕ → List ℕ
until_nul [] = []
until_nul (c ∷ text) = elim (c == 0) [ true ↦ [] | false ↦ c ∷ until_nul text ]

until_nul-end : (c : ℕ) (text : List ℕ) → (c == 0) ≡ true → until_nul (c ∷ text) ≡ []
unfolding until_nul
until_nul-end c text h = rw (until_nul, h)

until_nul-more :
    (c : ℕ) (text : List ℕ) → (c == 0) ≡ false → until_nul (c ∷ text) ≡ c ∷ until_nul text
unfolding until_nul
until_nul-more c text h = rw (until_nul, h)

module _ (p : Peripheral) where
  open p use {State, status, put}

  -- The state after `n` readings of the status register.
  abbrev pub polled : ℕ → State → State
  polled zero s = s
  polled (suc n) s = polled n (status s).1

  -- A transmitter that shows bit `k` within `fuel` polls, and, of a byte put after a poll that has
  -- shown it, records that it is sent. What it makes of another byte is left open.
  pub record IsTransmitter (fuel k : ℕ) : Type 0 where
    pub sent : State → List ℕ
    pub sent-put :
        (c : ℕ) (s : State)
        → test_bit (status s).0 k ≡ true
        → sent (put c (status s).1) ≡ sent (status s).1 ++ (c ∷ [])
    pub sent-status : (s : State) → sent (status s).1 ≡ sent s
    pub turn : State → ℕ
    pub turn-lt : (s : State) → turn s < fuel
    pub ready : (s : State) → test_bit (status (polled (turn s) s)).0 k ≡ true

module _ (io : Bits) (p : Peripheral) where
  open p use {State, status, put}

  await_now :
      (k fuel : ℕ) (s : State)
      → test_bit (status s).0 k ≡ true
      → await io p (suc fuel) k s ≡ some (status s).1
  unfolding await
  await_now k fuel s h = rw (await, h)

  await_later :
      (k fuel : ℕ) (s : State)
      → test_bit (status s).0 k ≡ false
      → await io p (suc fuel) k s ≡ await io p fuel k (status s).1
  unfolding await
  await_later k fuel s h = rw (await, h)

  -- What a poll leaves as it is, the polls of `await` leave as it is; its last poll shows the bit.
  pub await_returns :
      {O : Type 0} (seen : State → O) (k fuel n : ℕ) (s : State)
      → ((s : State) → seen (status s).1 ≡ seen s)
      → n < fuel
      → test_bit (status (polled p n s)).0 k ≡ true
      → (s0 : State) × (await io p fuel k s ≡ some (status s0).1)
        × (test_bit (status s0).0 k ≡ true)
        × (seen (status s0).1 ≡ seen s)
  await_returns seen k zero n s keep lt h = absurd (omega arith)
  await_returns seen k (suc fuel) zero s keep lt h = (s, await_now k fuel s h, h, keep s)
  await_returns seen k (suc fuel) (suc n) s keep lt h =
      elim (Bool-cases (test_bit (status s).0 k)) [
        | inl now ↦ (s, await_now k fuel s now, now, keep s)
        | inr later ↦
            let rest = await_returns seen k fuel n (status s).1 keep (omega arith) h in
            (rest.0, await_later k fuel s later ∙ rest.1, rest.2, rest.3 ∙ keep s)
      ]

  -- A bit that no poll shows.
  pub await_spins :
      {O : Type 0} (seen : State → O) (k fuel : ℕ) (s : State)
      → ((s : State) → seen (status s).1 ≡ seen s)
      → ((s' : State) → seen s' ≡ seen s → test_bit (status s').0 k ≡ false)
      → await io p fuel k s ≡ none
  await_spins seen k zero s keep never = unfold await in refl
  await_spins seen k (suc fuel) s keep never =
      await_later k fuel s (never s refl)
      ∙ await_spins seen k fuel (status s).1 keep (λ s' e. never s' (e ∙ keep s))

  pub uart_putc-await :
      (fuel c : ℕ) (s s1 : State)
      → await io p fuel io.udre0 s ≡ some s1
      → uart_putc io p fuel c s ≡ some (put c s1)
  unfolding uart_putc
  uart_putc-await fuel c s s1 h = rw (uart_putc, h)

  uart_putc_returns :
      (fuel : ℕ) (t : IsTransmitter p fuel io.udre0) (c : ℕ) (s : State)
      → (s' : State) × (uart_putc io p fuel c s ≡ some s') × (t.sent s' ≡ t.sent s ++ (c ∷ []))
  uart_putc_returns fuel t c s =
      let w =
        await_returns t.sent io.udre0 fuel (t.turn s) s t.sent-status (t.turn-lt s) (t.ready s) in
      let s1 = (status w.0).1 in
      (
        put c s1,
        uart_putc-await fuel c s s1 w.1,
        t.sent-put c w.0 w.2 ∙ ap (λ l. l ++ (c ∷ [])) w.3,
      )

  pub puts_end :
      (fuel c : ℕ) (text : List ℕ) (s : State)
      → (c == 0) ≡ true
      → uart_puts_P io p fuel (c ∷ text) s ≡ some s
  unfolding uart_puts_P
  puts_end fuel c text s h = rw (uart_puts_P, h)

  pub puts_more :
      (fuel c : ℕ) (text : List ℕ) (s s1 : State)
      → (c == 0) ≡ false
      → uart_putc io p fuel c s ≡ some s1
      → uart_puts_P io p fuel (c ∷ text) s ≡ uart_puts_P io p fuel text s1
  unfolding uart_puts_P
  puts_more fuel c text s s1 h sends = rw (uart_puts_P, h, sends)

  -- With a transmitter that is always ready within fuel polls, and known to send a byte only if it
  -- is put right after a poll that has shown UDRE0, uart_puts_P returns, and has sent the bytes of
  -- the string before its first NUL, in order, behind what was sent before.
  pub uart_puts_P-sends :
      (fuel : ℕ) (t : IsTransmitter p fuel io.udre0) (text : List ℕ) (s : State)
      → (s' : State) × (uart_puts_P io p fuel text s ≡ some s')
        × (t.sent s' ≡ t.sent s ++ until_nul text)
  uart_puts_P-sends fuel t [] s =
      unfold uart_puts_P in unfold until_nul in (s, refl, sym (append-nil (t.sent s)))
  uart_puts_P-sends fuel t (c ∷ text) s = elim (Bool-cases (c == 0)) [
    | inl nul ↦
        (s, puts_end fuel c text s nul, rw (until_nul-end c text nul) (sym (append-nil (t.sent s))))
    | inr more ↦
        let w = uart_putc_returns fuel t c s in
        let rest = uart_puts_P-sends fuel t text w.0 in
        (
          rest.0,
          puts_more fuel c text s w.0 more w.1 ∙ rest.1,
          rw (until_nul-more c text more) (
              rest.2
              ∙ ap (λ l. l ++ until_nul text) w.2
              ∙ append_assoc (t.sent s) (c ∷ []) (until_nul text)),
        )
  ]
