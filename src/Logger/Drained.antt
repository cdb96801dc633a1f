-- ===== src/Logger/Drained.antt =====
-- `log_process`: what one drain of the ring does to the card, and that two tests of its loop are
-- enough.
use barelog.Prelude.{
  ℕ, suc, ◌+◌, ◌≤◌, ◌<◌, ◌≡◌, ap, ◌∙◌, length-take, Bool, Option, List, ◌++◌, arith, length, take,
  drop, ltb, ◌||◌, refl, if◌then◌else◌, lt→leb, le→leb, Bool-cases, inl, inr, ltb→lt, tests,
}
use barelog.Prelude.Run.{ok, pure, ignore, ◌>>=◌}
use barelog.Device.{IsReliable}
use barelog.Uart.{available, uart_consume}
use barelog.Uart.Contents.{IsValid, contents, length-contents, uart_consume-contents}
use barelog.Machine.{Hardware, Machine}
use barelog.Fat.Log.Append.{Span, opt_len, advance, span_bytes, opt_bytes, fat32_append_sector}
use barelog.Logger.{escape, drained, scan_escape, spans, consume, log_round, log_process}
use barelog.Logger.Escape.{scan_escape-append}
use barelog.Logger.Spans.{spans-contents}

module _ (hw : Hardware) (rel : IsReliable hw.dev) where
  open rel use {capacity, store}

  -- The memory after the oldest `n` bytes, which `bytes` are, have been written to the next
  -- sector of the log file.
  abbrev pub appended : ℕ → List ℕ → Machine hw → Machine hw
  appended n bytes m = advance hw n (record m { disk = store m.logfile.cur_lba bytes m.disk })

  -- With room in the file and on the card, `fat32_append_sector` writes the bytes of the two spans
  -- to the sector at `cur_lba` and no other, and advances `cur_lba` and the byte count.
  pub fat32_append_sector_room :
      (fuel : ℕ) (a : Span) (b : Option Span) (m : Machine hw)
      → m.logfile.cur_lba < m.logfile.end_lba
      → m.logfile.cur_lba < capacity
      → let bytes = span_bytes m.uart.ring a ++ opt_bytes m.uart.ring b in
        length bytes ≡ 512
        → fat32_append_sector hw fuel a b m ≡ (ok tt, appended (a.len + opt_len b) bytes m)
  unfolding fat32_append_sector
  fat32_append_sector_room fuel a b m room inside size = rw (
    lt→leb m.logfile.end_lba m.logfile.cur_lba room,
    rel.write_zc_lem m.logfile.cur_lba (span_bytes m.uart.ring a) (opt_bytes m.uart.ring b) m.disk
        size,
    rel.write_ok m.logfile.cur_lba (span_bytes m.uart.ring a ++ opt_bytes m.uart.ring b) m.disk
        inside size,
  )

  -- The escape count and the outcome of scanning the oldest 512 bytes.
  abbrev pub scanned : Machine hw → Bool × ℕ
  scanned m = scan_escape m.cfg m.esc_seen (take 512 (contents m.uart))

  -- The memory after a sector has been drained.
  abbrev pub drained_to : Machine hw → Machine hw
  drained_to m =
      let m' =
        consume hw 512
          (appended 512 (take 512 (contents m.uart)) (record m { esc_seen = (scanned m).1 })) in
      record m' { tcnt1 = 0 }

  -- The outcome of the two scans, which are one scan of the two spans.
  round_scans :
      (fuel : ℕ) (m : Machine hw)
      → let (a, b) = spans m.uart.ring_tail 512 in
        let s =
          scan_escape m.cfg m.esc_seen (span_bytes m.uart.ring a ++ opt_bytes m.uart.ring b) in
        let m' = record m { esc_seen = s.1 } in
        log_round hw fuel m ≡ (
          if s.0
          then (ok escape, m')
          else (ignore (fat32_append_sector hw fuel a b)
                >>= (λ _ m. (ok drained, record (consume hw 512 m) { tcnt1 = 0 })))
              m')
  unfolding log_round
  round_scans fuel m =
      let xs : List ℕ = span_bytes m.uart.ring (spans m.uart.ring_tail 512).0 in
      let ys : List ℕ = opt_bytes m.uart.ring (spans m.uart.ring_tail 512).1 in
      let joined = scan_escape-append m.cfg m.esc_seen xs ys in
      let first = scan_escape m.cfg m.esc_seen xs in
      elim (Bool-cases first.0) [
        | inl h ↦ rw (joined, h)
        | inr h ↦ elim (Bool-cases (scan_escape m.cfg first.1 ys).0) [
          | inl h' ↦ rw (joined, h, h')
          | inr h' ↦ rw (joined, h, h')
        ]
      ]

  -- With at least 512 bytes in the ring and room in the file, one round scans the oldest 512 bytes
  -- as one buffer; if they complete the escape sequence it stops there and keeps the ring,
  -- otherwise exactly those bytes are written to the sector at `cur_lba`, the ring drops them, and
  -- `cur_lba` and the byte count advance by one sector.
  pub log_round_lem :
      (fuel : ℕ) (m : Machine hw)
      → IsValid m.uart
      → 512 ≤ available m.uart
      → m.logfile.cur_lba < m.logfile.end_lba
      → m.logfile.cur_lba < capacity
      → log_round hw fuel m ≡ (
          if (scanned m).0
          then (ok escape, record m { esc_seen = (scanned m).1 })
          else (ok drained, drained_to m))
  log_round_lem fuel m v enough room inside =
      let (a, b) = spans m.uart.ring_tail 512 in
      let (bytes, len, within) = spans-contents 512 v enough in
      let size : length (take 512 (contents m.uart)) ≡ 512 =
        omega (arith, length-take 512 (contents m.uart), length-contents m.uart) in
      let m' : Machine hw = record m { esc_seen = (scanned m).1 } in
      let append = fat32_append_sector_room fuel a b m' room inside (ap length bytes ∙ size) in
      round_scans fuel m ∙ rw (bytes, append, len, bytes)

  low_after :
      (m : Machine hw)
      → IsValid m.uart
      → 512 ≤ available m.uart
      → available (drained_to m).uart < 512
  unfolding uart_consume
  low_after m v enough = omega arith

  process_low :
      (rounds fuel : ℕ) (m : Machine hw)
      → available m.uart < 512
      → log_process hw (suc rounds) fuel m ≡ (ok drained, m)
  unfolding log_process
  process_low rounds fuel m h = rw (log_process, lt→leb 512 (available m.uart) h)

  process_enough :
      (rounds fuel : ℕ) (m : Machine hw)
      → 512 ≤ available m.uart
      → log_process hw (suc rounds) fuel m
        ≡ (log_round hw fuel
              >>= (λ r. elim r [ escape ↦ pure escape | drained ↦ log_process hw rounds fuel ]))
            m
  unfolding log_process
  process_enough rounds fuel m h = rw (log_process, le→leb 512 (available m.uart) h)

  -- `log_process` on a ring that nothing refills, with room in the file for one sector: two tests of
  -- its loop are enough. Below 512 bytes it does nothing. From 512 on it either stops at a complete
  -- escape sequence among the oldest 512 bytes, with the ring untouched, or writes exactly those to
  -- the sector at `cur_lba`, and the ring then holds the rest of its bytes.
  pub log_process_lem :
      (rounds fuel : ℕ) (m : Machine hw)
      → IsValid m.uart
      → m.logfile.cur_lba < m.logfile.end_lba
      → m.logfile.cur_lba < capacity
      → (log_process hw (suc (suc rounds)) fuel m ≡ (
          if ltb (available m.uart) 512
          then (ok drained, m)
          else if (scanned m).0
          then (ok escape, record m { esc_seen = (scanned m).1 })
          else (ok drained, drained_to m)))
        × (contents (log_process hw (suc (suc rounds)) fuel m).1.uart ≡ (
            if ltb (available m.uart) 512 || (scanned m).0
            then contents m.uart
            else drop 512 (contents m.uart)))
  log_process_lem rounds fuel m v room inside = elim (Bool-cases (ltb (available m.uart) 512)) [
    | inl h ↦ rw (h, process_low (suc rounds) fuel m (ltb→lt (available m.uart) 512 h)) (refl, refl)
    | inr h ↦
        let enough : 512 ≤ available m.uart = grind tests in
        let round = log_round_lem fuel m v enough room inside in
        let start = process_enough (suc rounds) fuel m enough in
        elim (Bool-cases (scanned m).0) [
          | inl hit ↦ rw (h, start, round, hit) (refl, refl)
          | inr miss ↦
              rw
                (
                  h,
                  start,
                  round,
                  miss,
                  process_low rounds fuel (drained_to m) (low_after m v enough),
                )
                (refl, uart_consume-contents 512 v enough)
        ]
  ]
