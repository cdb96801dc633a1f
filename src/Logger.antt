-- ===== src/Logger.antt =====
-- log.c: escape detection, the drain of the ring to the card, the idle flush.
pub mod Escape
pub mod Spans
pub mod Pad
pub mod Drained
pub mod Recovery
pub mod Flush
pub mod Overflow
pub mod Frame
use barelog.Prelude.{
  ℕ, zero, suc, ◌+◌, ◌-◌, ◌*◌, Bool, true, false, Option, none, some, List, [], ◌∷◌, u8, u16, shr,
  low_bits, get_or, set, ltb, leb, ◌==◌, if◌then◌else◌,
}
use barelog.Prelude.Run.{out_of_fuel, Result, ok, Run, pure, ignore, ◌>>=◌, ◌>>◌}
use barelog.Config.{Config, eeprom_off_rec_lo, eeprom_off_rec_hi}
use barelog.Uart.{Uart, ring_size, available, uart_consume}
use barelog.Machine.{Hardware, Machine, set_ring, gets, modify}
use barelog.Fat.Log.Append.{
  Span, span_bytes, opt_bytes, fat32_append_sector, fat32_flush, fat32_bytes_written,
}

-- `scan_escape` on the bytes of a buffer: the return value and `log_state.esc_seen` after it.
unfoldable pub scan_escape : Config → ℕ → List ℕ → Bool × ℕ
scan_escape cfg esc_seen [] = (false, esc_seen)
scan_escape cfg esc_seen (b ∷ buf) =
    let seen : ℕ = u8 (esc_seen + 1) in
    elim (b == cfg.esc_char) [
      | true ↦ elim (leb cfg.esc_count seen) [
        | true ↦ (true, seen)
        | false ↦ scan_escape cfg seen buf
      ]
      | false ↦ scan_escape cfg 0 buf
    ]

-- The two spans that cover `n` bytes from `tail` on; the second only where the ring wraps.
unfoldable pub spans : ℕ → ℕ → Span × Option Span
spans tail n =
    let span1 = ring_size - tail in
    if leb n span1
    then (record { at = tail; len = n }, none)
    else (record { at = tail; len = span1 }, some (record { at = 0; len = n - span1 }))

-- `for (k = from; ...; k++) ring[dst + k] = ring[src + k]`, `left` rounds to go: in order, in place.
unfoldable pub copy_ring : ℕ → ℕ → ℕ → List ℕ → List ℕ
copy_ring zero dst src ring = ring
copy_ring (suc left) dst src ring =
    copy_ring left (dst + 1) (src + 1) (set ring dst (get_or ring src 0))

-- `for (j = from; j < 512; j++) pad[j] = 0`
unfoldable pub zero_ring : ℕ → ℕ → List ℕ → List ℕ
zero_ring zero from ring = ring
zero_ring (suc left) from ring = zero_ring left (from + 1) (set ring from 0)

-- The three loops that build the padded sector in `ring[0..511]`.
unfoldable pub pad_sector : ℕ → ℕ → List ℕ → List ℕ
unfolding spans copy_ring zero_ring
pad_sector tail avail ring =
    let (a, b) = spans tail avail in
    let r1 : List ℕ = elim b [ none ↦ ring | some s ↦ copy_ring s.len a.len s.at ring ] in
    let r2 = copy_ring a.len 0 a.at r1 in zero_ring (512 - avail) avail r2

-- How one round of `log_process` ends: `repl_enter` is called, or the sector was handled.
pub data Drain : Type 0 where
  escape drained : Drain

module _ (hw : Hardware) where
  abbrev pub consume : ℕ → Machine hw → Machine hw
  consume n m = record m { uart = uart_consume n m.uart }

  -- The four bytes of the recovery record.
  unfoldable pub save_recovery : ℕ → hw.ee.Mem → hw.ee.Mem
  save_recovery bw e0 =
      let lo = low_bits bw 16 in
      let hi = u16 (shr bw 16) in
      let e1 = hw.ee.update_byte eeprom_off_rec_lo (low_bits lo 8) e0 in
      let e2 = hw.ee.update_byte (eeprom_off_rec_lo + 1) (shr lo 8) e1 in
      let e3 = hw.ee.update_byte eeprom_off_rec_hi (low_bits hi 8) e2 in
      hw.ee.update_byte (eeprom_off_rec_hi + 1) (shr hi 8) e3

  -- `if (avail > 0) { ... }` of `log_flush`.
  unfoldable pub flush_ring : ℕ → Run (Machine hw) (Unit {0})
  flush_ring fuel m =
      let avail = available m.uart in
      elim (ltb 0 avail) [
        | false ↦ pure tt m
        | true ↦
            (do
              modify (λ m. set_ring (pad_sector m.uart.ring_tail avail m.uart.ring) m)
              ignore (fat32_append_sector hw fuel (record { at = 0; len = 512 }) none)
              modify (consume avail))
              m
      ]

  unfoldable pub log_flush : ℕ → Run (Machine hw) (Unit {0})
  log_flush fuel m =
      (do
        flush_ring fuel
        ignore (fat32_flush hw)
        modify (λ m. record m { eeprom = save_recovery (fat32_bytes_written hw m) m.eeprom }))
        m

  abbrev pub scan_span : List ℕ → Run (Machine hw) Bool
  scan_span bytes m =
      let (hit, seen) = scan_escape m.cfg m.esc_seen bytes in (ok hit, record m { esc_seen = seen })

  -- The body of the loop of `log_process`. `repl_enter` does not return, so its call is an outcome.
  unfoldable pub log_round : ℕ → Run (Machine hw) Drain
  log_round fuel m =
      let (a, b) = spans m.uart.ring_tail 512 in
      (do
        hit ← scan_span (span_bytes m.uart.ring a)
        elim hit [
          | true ↦ pure escape
          | false ↦ (do
            hit' ← scan_span (opt_bytes m.uart.ring b)
            elim hit' [
              | true ↦ pure escape
              | false ↦ (do
                ignore (fat32_append_sector hw fuel a b)
                modify (consume 512)
                modify (λ m. record m { tcnt1 = 0 })
                pure drained)
            ])
        ])
        m

  -- `while (uart_available() >= 512)`. The ring holds fewer than 1024 bytes, so one round empties
  -- it below 512 and two are enough; more run only if interrupts refill it.
  unfoldable pub log_process : ℕ → ℕ → Run (Machine hw) Drain
  log_process zero fuel m = (out_of_fuel, m)
  log_process (suc rounds) fuel m = elim (leb 512 (available m.uart)) [
    | false ↦ pure drained m
    | true ↦
        (do r ← log_round fuel; elim r [ escape ↦ pure escape | drained ↦ log_process rounds fuel ])
          m
  ]

  abbrev pub log_flush_pending : Machine hw → Bool
  log_flush_pending m = m.flush_pending

  abbrev pub log_clear_flush_pending : Machine hw → Machine hw
  log_clear_flush_pending m = record m { flush_pending = false }
