-- ===== src/MainNew/Boots.antt =====
-- The boot of main_new.c against the boot of main.c.
use barelog.Prelude.{
  ℕ, zero, suc, ◌+◌, ◌^◌, ◌≡◌, refl, sym, ap, ◌∙◌, Bool, true, false, List, [], ◌∷◌, ◌++◌, arith,
  append-nil, append_assoc, not, ◌&&◌, test_bit, if◌then◌else◌,
}
use barelog.Prelude.Run.{Result, ok, err, out_of_fuel}
use barelog.Config.{Config, config_defaults, config_save, config_load}
use barelog.Avr.{Bits, Registers, spi_init, uart_init, timer_init, gpio_led_init}
use barelog.Boot.{
  Signal, blink, usart, sent, Stage, logging, init_card, err_sd_init, err_fat_mount, err_fat_open,
  boot,
}
use barelog.Fat.Mount.{fat32_mount}
use barelog.Fat.Log.Open.{fat32_open_log}
use barelog.Boot.Idle.{Firmware}
use barelog.Fat.Log.{ScanVars}
use barelog.Machine.{Hardware, Machine}
use barelog.MainNew.{Started, blink_n, main}

-- The bytes and the blinks among the signals of main.c.
pub bytes_sent : List Signal → List ℕ
bytes_sent [] = []
bytes_sent (sent c ∷ signals) = c ∷ bytes_sent signals
bytes_sent (blink n ∷ signals) = bytes_sent signals
bytes_sent (usart u ∷ signals) = bytes_sent signals

pub blinks : List Signal → ℕ
blinks [] = 0
blinks (sent c ∷ signals) = blinks signals
blinks (blink n ∷ signals) = n + blinks signals
blinks (usart u ∷ signals) = blinks signals

-- The writes to PIND that toggle a pin, and no other, `2 * n` times.
pub pulses : ℕ → ℕ → List ℕ
pulses pin zero = []
pulses pin (suc n) = 2 ^ pin ∷ 2 ^ pin ∷ pulses pin n

pulses-add : (pin a b : ℕ) → pulses pin (a + b) ≡ pulses pin a ++ pulses pin b
unfolding pulses
pulses-add pin zero b = ap (pulses pin) {x = 0 + b} {y = b} (omega arith)
pulses-add pin (suc a) b =
    ap (pulses pin) {x = suc a + b} {y = suc (a + b)} (omega arith)
    ∙ ap (λ l. 2 ^ pin ∷ 2 ^ pin ∷ l) (pulses-add pin a b)

-- Both boots end alike, with the same memory and the same bytes sent, and every blink has toggled
-- the pin of the LED, and no other, twice.
pub record Agrees {hw : Hardware} (io : Bits) (before : Registers) (s : Stage hw) (n : Started hw)
    : Type 0 where
  pub outcome : n.outcome ≡ s.outcome
  pub machine : n.firmware.machine ≡ s.machine
  pub sent : n.sent ≡ bytes_sent s.signals
  pub toggles :
      n.firmware.registers.pind_writes ≡ before.pind_writes ++ pulses io.pd5 (blinks s.signals)

module _ (hw : Hardware) (io : Bits) where
  toggles-blink_n :
      (n : ℕ) (r : Registers) → (blink_n hw io n r).pind_writes ≡ r.pind_writes ++ pulses io.pd5 n
  unfolding blink_n pulses
  toggles-blink_n zero r = sym (append-nil r.pind_writes)
  toggles-blink_n (suc n) r =
      let one : List ℕ = 2 ^ io.pd5 ∷ [] in
      toggles-blink_n n _
      ∙ append_assoc (r.pind_writes ++ one) one (pulses io.pd5 n)
      ∙ append_assoc r.pind_writes one (one ++ pulses io.pd5 n)

  -- The writes of some blinks behind those of others.
  more_pulses :
      (before now later : List ℕ) (a n total : ℕ)
      → now ≡ before ++ pulses io.pd5 a
      → later ≡ now ++ pulses io.pd5 n
      → total ≡ a + n
      → later ≡ before ++ pulses io.pd5 total
  more_pulses before now later a n total h k e =
      k
      ∙ ap (λ l. l ++ pulses io.pd5 n) h
      ∙ append_assoc before (pulses io.pd5 a) (pulses io.pd5 n)
      ∙ ap (λ l. before ++ l) (sym (ap (pulses io.pd5) e ∙ pulses-add io.pd5 a n))

  bytes_sent-append : (a b : List Signal) → bytes_sent (a ++ b) ≡ bytes_sent a ++ bytes_sent b
  unfolding bytes_sent
  bytes_sent-append [] b = refl
  bytes_sent-append (sent c ∷ a) b = ap (λ l. c ∷ l) (bytes_sent-append a b)
  bytes_sent-append (blink n ∷ a) b = bytes_sent-append a b
  bytes_sent-append (usart u ∷ a) b = bytes_sent-append a b

  blinks-append : (a b : List Signal) → blinks (a ++ b) ≡ blinks a + blinks b
  unfolding blinks
  blinks-append [] b = omega arith
  blinks-append (sent c ∷ a) b = blinks-append a b
  blinks-append (blink n ∷ a) b = omega (arith, blinks-append a b)
  blinks-append (usart u ∷ a) b = blinks-append a b

  -- Nothing sent so far, and two toggles for each blink.
  record Silent (before r : Registers) (seen : List Signal) : Type 0 where
    pub none_sent : bytes_sent seen ≡ []
    pub toggled : r.pind_writes ≡ before.pind_writes ++ pulses io.pd5 (blinks seen)

  or_halt-Agrees :
      (before r : Registers) (seen : List Signal) (code : ℕ) (x : Result (Unit {0}) × Machine hw)
      (rest : Machine hw → Stage hw) (rest' : Firmware hw → Started hw)
      → Silent before r seen
      → ((m : Machine hw)
          → Agrees io before (rest m) (rest' (record { machine = m; registers = r })))
      → Agrees io before
          (barelog.Boot.or_halt hw code seen x rest)
          (barelog.MainNew.or_halt hw io code r x rest')
  unfolding bytes_sent blinks
  or_halt-Agrees before r seen code (ok u, m) rest rest' s go = go m
  or_halt-Agrees before r seen code (err n, m) rest rest' s go = record {
    outcome = refl;
    machine = refl;
    sent = sym (bytes_sent-append seen (blink code ∷ []) ∙ ap (λ l. l ++ []) s.none_sent);
    toggles =
        more_pulses before.pind_writes r.pind_writes (blink_n hw io code r).pind_writes
          (blinks seen) code (blinks (seen ++ (blink code ∷ []))) s.toggled (toggles-blink_n code r)
          (omega (arith, blinks-append seen (blink code ∷ [])));
  }
  or_halt-Agrees before r seen code (out_of_fuel, m) rest rest' s go = record {
    outcome = refl;
    machine = refl;
    sent = sym s.none_sent;
    toggles = s.toggled;
  }

  -- The last stage of `Boot.boot`.
  abbrev to_logging : List Signal → Machine hw → Stage hw
  to_logging seen m = record {
    outcome = logging;
    machine = record m { tcnt1 = 0 };
    signals =
        seen
        ++ (usart (barelog.Uart.uart_init m.cfg.baud) ∷ sent b'1' ∷ sent b'2' ∷ sent b'<' ∷ []);
  }

  start_logging-Agrees :
      (before r : Registers) (seen : List Signal) (m : Machine hw)
      → Silent before r seen
      → Agrees io before
          (to_logging seen m)
          (barelog.MainNew.start_logging hw io (record { machine = m; registers = r }))
  unfolding bytes_sent blinks timer_init uart_init
  start_logging-Agrees before r seen m s =
      let banner : List Signal =
        usart (barelog.Uart.uart_init m.cfg.baud) ∷ sent b'1' ∷ sent b'2' ∷ sent b'<' ∷ [] in
      record {
        outcome = refl;
        machine = refl;
        sent = sym (bytes_sent-append seen banner ∙ ap (λ l. l ++ bytes_sent banner) s.none_sent);
        toggles =
            s.toggled
            ∙ ap (λ n. before.pind_writes ++ pulses io.pd5 n) {x = blinks seen}
                {y = blinks (seen ++ banner)} (omega (arith, blinks-append seen banner));
      }

  -- The two branches of `load_config`.
  loaded_by :
      (reset : Bool) (c : Config) (e : hw.ee.Mem) (f : Firmware hw) (before : Registers)
      → f.registers.pind_writes ≡ before.pind_writes
      → let kept : Machine hw = record f.machine { cfg = c; eeprom = e } in
        let fresh : Machine hw = record f.machine {
          cfg = config_defaults;
          eeprom = config_save hw.ee config_defaults e;
        } in
        let old : Machine hw × List Signal = if reset then (fresh, blink 5 ∷ []) else (kept, []) in
        let new : Firmware hw =
          if reset
          then record { machine = fresh; registers = blink_n hw io 5 f.registers }
          else record f { machine = kept } in
        (new.machine ≡ old.0) × Silent before new.registers old.1
  unfolding bytes_sent blinks pulses
  loaded_by true c e f before same = (
    refl,
    record {
      none_sent = refl;
      toggled =
          toggles-blink_n 5 f.registers
          ∙ rw same
              (ap (λ n. before.pind_writes ++ pulses io.pd5 n) {x = 5} {y = 5 + 0} (omega arith));
    },
  )
  loaded_by false c e f before same =
      (refl, record { none_sent = refl; toggled = same ∙ sym (append-nil before.pind_writes) })

  load_config-Silent :
      (rx_low : Bool) (f : Firmware hw) (before : Registers)
      → f.registers.pind_writes ≡ before.pind_writes
      → let (m, seen) = barelog.Boot.load_config hw rx_low f.machine in
        let f' = barelog.MainNew.load_config hw io rx_low f in
        (f'.machine ≡ m) × Silent before f'.registers seen
  unfolding barelog.Boot.load_config barelog.MainNew.load_config
  load_config-Silent rx_low f before same =
      let (c, e) = config_load hw.ee f.machine.eeprom in
      loaded_by (rx_low && not (test_bit c.flags 0)) c e f before same

  -- The stages behind `load_config`, from equal memories.
  mounted-Agrees :
      (fuel : ℕ) (name : List ℕ) (v : ScanVars) (before r : Registers) (seen : List Signal)
      (m : Machine hw)
      → Silent before r seen
      → Agrees io before
          (barelog.Boot.or_halt hw err_sd_init seen (init_card hw m) λ m2.
            barelog.Boot.or_halt hw err_fat_mount seen (fat32_mount hw m2) λ m3.
              barelog.Boot.or_halt hw err_fat_open seen
                (fat32_open_log hw fuel name v m3)
                λ m4. to_logging seen m4)
          (barelog.MainNew.or_halt hw io err_sd_init r (init_card hw m) λ f3.
            barelog.MainNew.or_halt hw io err_fat_mount f3.registers
              (fat32_mount hw f3.machine)
              λ f4.
                barelog.MainNew.or_halt hw io err_fat_open f4.registers
                  (fat32_open_log hw fuel name v f4.machine)
                  (barelog.MainNew.start_logging hw io))
  mounted-Agrees fuel name v before r seen m s =
      or_halt-Agrees before r seen err_sd_init (init_card hw m) _ _ s λ m2.
        or_halt-Agrees before r seen err_fat_mount (fat32_mount hw m2) _ _ s λ m3.
          or_halt-Agrees before r seen err_fat_open (fat32_open_log hw fuel name v m3) _ _ s
            λ m4. start_logging-Agrees before r seen m4 s

  -- Whatever the card and the EEPROM do, main of main_new.c up to its loop ends as main of main.c
  -- does, with the same memory and the same bytes sent, and for every blink there it writes to
  -- PIND twice the bit of the LED's pin, and nothing else.
  pub main-boot :
      (fuel : ℕ) (name : List ℕ) (v : ScanVars) (rx_low : Bool) (f : Firmware hw)
      → Agrees io f.registers
          (boot hw fuel name v rx_low f.machine)
          (main hw io fuel name v rx_low f)
  unfolding boot main spi_init
  main-boot fuel name v rx_low f =
      let led : Firmware hw = record f { registers = gpio_led_init io f.registers } in
      let (same, silent) = load_config-Silent rx_low led f.registers refl in
      let loaded : Firmware hw = barelog.MainNew.load_config hw io rx_low led in
      rw (← same) (
        mounted-Agrees fuel name v f.registers (spi_init io loaded.registers)
          (barelog.Boot.load_config hw rx_low f.machine).1 loaded.machine
          (record { none_sent = silent.none_sent; toggled = silent.toggled }))
