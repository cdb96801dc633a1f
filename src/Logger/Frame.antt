-- ===== src/Logger/Frame.antt =====
-- What the drain and the idle flush leave alone: the flag of the idle flush, the configuration and
-- the volume, whatever the card does.
use barelog.Prelude.{
  ℕ, zero, suc, ◌+◌, ◌-◌, ◌≡◌, refl, ap, ◌∙◌, Bool, true, false, Option, none, List, ◌==◌, leb, ltb,
  u32, sub32, if◌then◌else◌,
}
use barelog.Prelude.Run.{
  Result, ok, err, out_of_fuel, Run, and_then, ignored, ignore, pure, ◌>>=◌, ◌>>◌,
}
use barelog.Config.{Config}
use barelog.Machine.{
  Hardware, Machine, Fat32Vol, set_ring, took_sector, read_sector, write_sector, write_zero_sector,
  erase, gets, modify,
}
use barelog.Prelude.Bytes.{put_le32}
use barelog.Fat.{
  clus_to_lba, chain_end_mark, patch_entry, fat_offset, fat_read_entry, fat_write_entry, write_copy,
  write_copies,
}
use barelog.Fat.Log.Append.{
  Span, span_bytes, opt_bytes, opt_len, advance, write_spans, fat32_bytes_written, find_free,
  extend, fat32_append_sector, fat32_flush,
}
use barelog.Fat.Log.Open.{zero_fill}
use barelog.Logger.{
  Drain, escape, drained, consume, scan_span, save_recovery, spans, pad_sector, flush_ring,
  log_flush, log_round, log_process,
}
use barelog.Uart.{available}

module _ {hw : Hardware} where
  unfoldable pub fixed : Machine hw → Bool × Config × Fat32Vol
  fixed m = (m.flush_pending, m.cfg, m.vol)

  pub record Keeps {A : Type 0} (f : Run (Machine hw) A) : Type 0 where
    pub kept : (m : Machine hw) → fixed (f m).1 ≡ fixed m

  and_then-fixed :
      {A B : Type 0} (m : Machine hw) (r : Result A × Machine hw) (k : A → Run (Machine hw) B)
      → fixed r.1 ≡ fixed m
      → ((a : A) → Keeps (k a))
      → fixed (and_then r k).1 ≡ fixed m
  and_then-fixed m (ok a, m') k e h = (h a).kept m' ∙ e
  and_then-fixed m (err n, m') k e h = e
  and_then-fixed m (out_of_fuel, m') k e h = e

  bind-Keeps :
      {A B : Type 0} {f : Run (Machine hw) A} {k : A → Run (Machine hw) B}
      → Keeps f
      → ((a : A) → Keeps (k a))
      → Keeps (λ m. and_then (f m) k)
  bind-Keeps {A} {B} {f} {k} first rest = record {
    kept = λ m. and_then-fixed m (f m) k (first.kept m) rest;
  }

  then-Keeps :
      {A B : Type 0} {f : Run (Machine hw) A} {k : Run (Machine hw) B}
      → Keeps f
      → Keeps k
      → Keeps (λ m. and_then (f m) (λ _. k))
  then-Keeps first rest = bind-Keeps first (λ _. rest)

  ignore-Keeps : {A : Type 0} {f : Run (Machine hw) A} → Keeps f → Keeps (ignore f)
  ignore-Keeps {A} {f} h = record { kept = λ m. ignored_fixed (f m) ∙ h.kept m }
    where
      ignored_fixed : (r : Result A × Machine hw) → fixed (ignored r).1 ≡ fixed r.1
      ignored_fixed (ok a, m) = refl
      ignored_fixed (err n, m) = refl
      ignored_fixed (out_of_fuel, m) = refl

  read_sector-Keeps : (lba : Machine hw → ℕ) → Keeps (λ m. read_sector (lba m) m)
  unfolding fixed
  read_sector-Keeps lba = record { kept = λ m. took m (hw.dev.sd_read_sector (lba m) m.disk) }
    where
      took :
          (m : Machine hw) (r : Result (List ℕ) × hw.dev.Disk) → fixed (took_sector m r).1 ≡ fixed m
      took m (ok bytes, d) = refl
      took m (err n, d) = refl
      took m (out_of_fuel, d) = refl

  -- A step that leaves the three alone as it stands.
  modify-Keeps :
      {f : Machine hw → Machine hw} → ((m : Machine hw) → fixed (f m) ≡ fixed m) → Keeps (modify f)
  modify-Keeps h = record { kept = h }

  either-Keeps :
      {A : Type 0} {f g : Run (Machine hw) A} (b : Bool)
      → Keeps f
      → Keeps g
      → Keeps (elim b [ true ↦ f | false ↦ g ])
  either-Keeps true yes_case no_case = yes_case
  either-Keeps false yes_case no_case = no_case

  fat_read_entry-Keeps : (clus : ℕ) → Keeps (fat_read_entry hw clus)
  unfolding fat_read_entry
  fat_read_entry-Keeps clus = bind-Keeps (read_sector-Keeps _) (λ _. record { kept = λ m. refl })

  find_free-Keeps : (fuel c : ℕ) → Keeps (find_free hw fuel c)
  unfolding find_free
  find_free-Keeps zero c = record { kept = λ m. refl }
  find_free-Keeps (suc fuel) c = bind-Keeps (fat_read_entry-Keeps c) λ val.
      either-Keeps (val == 0) (record { kept = λ m. refl }) (find_free-Keeps fuel (u32 (c + 1)))

  gets-Keeps : {A : Type 0} (g : Machine hw → A) → Keeps (gets g)
  gets-Keeps g = record { kept = λ m. refl }

  erase-Keeps : (s e : ℕ) → Keeps (erase {hw = hw} s e)
  unfolding fixed
  erase-Keeps s e = record { kept = λ m. refl }

  write_zero_sector-Keeps : (lba : ℕ) → Keeps (write_zero_sector {hw = hw} lba)
  unfolding fixed
  write_zero_sector-Keeps lba = record { kept = λ m. refl }

  write_spans-Keeps : (a : Span) (b : Option Span) → Keeps (write_spans hw a b)
  unfolding fixed
  write_spans-Keeps a b = record { kept = λ m. refl }

  write_sector-Keeps : (lba : ℕ) → Keeps (write_sector lba)
  unfolding fixed
  write_sector-Keeps lba = record { kept = λ m. refl }

  write_copy-Keeps : (clus val fsec : ℕ) → Keeps (write_copy hw clus val fsec)
  unfolding write_copy fixed
  write_copy-Keeps clus val fsec = then-Keeps (read_sector-Keeps (λ _. fsec)) (
      then-Keeps
        (modify-Keeps {f = λ m. set_ring (patch_entry m.uart.ring (fat_offset clus) val) m}
          (λ m. refl))
        (write_sector-Keeps fsec))

  write_copies-Keeps : (left f clus val : ℕ) → Keeps (write_copies hw left f clus val)
  unfolding write_copies
  write_copies-Keeps zero f clus val = record { kept = λ m. refl }
  write_copies-Keeps (suc left) f clus val =
      then-Keeps (record { kept = λ m. (write_copy-Keeps clus val _).kept m })
        (write_copies-Keeps left (f + 1) clus val)

  fat_write_entry-Keeps : (clus val : ℕ) → Keeps (fat_write_entry hw clus val)
  unfolding fat_write_entry
  fat_write_entry-Keeps clus val = record {
    kept = λ m. (write_copies-Keeps m.vol.num_fats 0 clus val).kept m;
  }

  zero_fill-Keeps : (left i : ℕ) → Keeps (zero_fill hw left i)
  unfolding zero_fill fixed
  zero_fill-Keeps zero i = record { kept = λ m. refl }
  zero_fill-Keeps (suc left) i =
      then-Keeps (write_zero_sector-Keeps i) (zero_fill-Keeps left (i + 1))

  extend-Keeps : (fuel : ℕ) → Keeps (extend hw fuel)
  unfolding extend fixed
  extend-Keeps fuel = bind-Keeps (find_free-Keeps fuel 2) λ c.
      bind-Keeps (gets-Keeps (λ m. m.logfile.last_clus)) λ last.
        then-Keeps (fat_write_entry-Keeps last c) (
          then-Keeps (fat_write_entry-Keeps c chain_end_mark) (
            bind-Keeps (gets-Keeps (λ m. clus_to_lba m.vol c)) λ lba.
              bind-Keeps (gets-Keeps (λ m. u32 (lba + m.vol.sec_per_clus))) λ end.
                then-Keeps (erase-Keeps lba (sub32 end 1)) (
                  then-Keeps (zero_fill-Keeps (end - lba) lba) (
                    modify-Keeps
                      {f = λ m. record m {
                        logfile = record m.logfile { end_lba = end; last_clus = c };
                      }}
                      (λ m. refl)))))

  fat32_append_sector-Keeps :
      (fuel : ℕ) (a : Span) (b : Option Span) → Keeps (fat32_append_sector hw fuel a b)
  unfolding fat32_append_sector fixed
  fat32_append_sector-Keeps fuel a b =
      then-Keeps (record { kept = λ m. room m (leb m.logfile.end_lba m.logfile.cur_lba) })
        (then-Keeps (write_spans-Keeps a b)
          (modify-Keeps {f = advance hw (a.len + opt_len b)} (λ m. refl)))
    where
      room :
          (m : Machine hw) (full : Bool)
          → fixed ((if full then extend hw fuel else pure tt) m).1 ≡ fixed m
      room m true = (extend-Keeps fuel).kept m
      room m false = refl

  flush_ring-Keeps : (fuel : ℕ) → Keeps (flush_ring hw fuel)
  unfolding flush_ring fixed
  flush_ring-Keeps fuel = record {
    kept = λ m. (flush m (available m.uart) (ltb 0 (available m.uart))).kept m;
  }
    where
      flush :
          (m : Machine hw) (avail : ℕ) (some_left : Bool)
          → Keeps {A = Unit {0}} (λ m. elim some_left [
            | false ↦ pure tt m
            | true ↦
                (do
                  modify (λ m. set_ring (pad_sector m.uart.ring_tail avail m.uart.ring) m)
                  ignore (fat32_append_sector hw fuel (record { at = 0; len = 512 }) none)
                  modify (consume hw avail))
                  m
          ])
      flush m avail false = record { kept = λ m. refl }
      flush m avail true =
          then-Keeps
            (modify-Keeps {f = λ m. set_ring (pad_sector m.uart.ring_tail avail m.uart.ring) m}
              (λ m. refl))
            (then-Keeps (ignore-Keeps (fat32_append_sector-Keeps fuel _ none))
              (modify-Keeps {f = consume hw avail} (λ m. refl)))

  fat32_flush-Keeps : Keeps (fat32_flush hw)
  unfolding fat32_flush fixed
  fat32_flush-Keeps = record { kept = λ m. (on m.logfile.dir_lba).kept m }
    where
      patched : Machine hw → Machine hw
      patched m =
          set_ring (put_le32 m.uart.ring (m.logfile.dir_offset + 28) m.logfile.bytes_written) m

      on : (lba : ℕ) → Keeps (do read_sector lba; modify patched; write_sector lba)
      on lba =
          then-Keeps (read_sector-Keeps (λ _. lba))
            (then-Keeps (modify-Keeps {f = patched} (λ m. refl)) (write_sector-Keeps lba))

  pub log_flush-Keeps : (fuel : ℕ) → Keeps (log_flush hw fuel)
  unfolding log_flush fixed
  log_flush-Keeps fuel = then-Keeps (flush_ring-Keeps fuel) (
      then-Keeps (ignore-Keeps fat32_flush-Keeps) (
        modify-Keeps
          {f = λ m. record m { eeprom = save_recovery hw (fat32_bytes_written hw m) m.eeprom }}
          (λ m. refl)))

  pure-Keeps : {A : Type 0} (a : A) → Keeps (pure {S = Machine hw} a)
  pure-Keeps a = record { kept = λ m. refl }

  scan_span-Keeps : (bytes : List ℕ) → Keeps (scan_span hw bytes)
  unfolding fixed
  scan_span-Keeps bytes = record { kept = λ m. refl }

  ended :
      {f : Run (Machine hw) Drain}
      → Keeps f
      → (r : Drain) → Keeps (elim r [ escape ↦ pure escape | drained ↦ f ])
  ended again escape = pure-Keeps escape
  ended again drained = again

  log_round-Keeps : (fuel : ℕ) → Keeps (log_round hw fuel)
  unfolding log_round
  log_round-Keeps fuel = record { kept = λ m. (round m (spans m.uart.ring_tail 512)).kept m }
    where
      round :
          (m : Machine hw) (ab : Span × Option Span)
          → Keeps (do
            hit ← scan_span hw (span_bytes m.uart.ring ab.0)
            elim hit [
              | true ↦ pure escape
              | false ↦ (do
                hit' ← scan_span hw (opt_bytes m.uart.ring ab.1)
                elim hit' [
                  | true ↦ pure escape
                  | false ↦ (do
                    ignore (fat32_append_sector hw fuel ab.0 ab.1)
                    modify (consume hw 512)
                    modify (λ m. record m { tcnt1 = 0 })
                    pure drained)
                ])
            ])
      round m ab = bind-Keeps (scan_span-Keeps (span_bytes m.uart.ring ab.0)) λ hit.
          either-Keeps hit (pure-Keeps escape) (
            bind-Keeps (scan_span-Keeps (opt_bytes m.uart.ring ab.1)) λ hit'.
              either-Keeps hit' (pure-Keeps escape) (
                then-Keeps (ignore-Keeps (fat32_append_sector-Keeps fuel ab.0 ab.1)) (
                  then-Keeps (modify-Keeps {f = consume hw 512} (λ m. unfold fixed in refl)) (
                    then-Keeps
                      (modify-Keeps {f = λ m. record m { tcnt1 = 0 }} (λ m. unfold fixed in refl))
                      (pure-Keeps drained)))))

  pub log_process-Keeps : (rounds fuel : ℕ) → Keeps (log_process hw rounds fuel)
  unfolding log_process
  log_process-Keeps zero fuel = record { kept = λ m. refl }
  log_process-Keeps (suc rounds) fuel = record {
    kept = λ m. (next (leb 512 (available m.uart)) (log_process-Keeps rounds fuel)).kept m;
  }
    where
      next :
          (full : Bool)
          → Keeps (log_process hw rounds fuel)
          → Keeps {A = Drain} (λ m. elim full [
            | false ↦ pure drained m
            | true ↦
                (do
                  r ← log_round hw fuel
                  elim r [ escape ↦ pure escape | drained ↦ log_process hw rounds fuel ])
                  m
          ])
      next false again = pure-Keeps drained
      next true again = bind-Keeps (log_round-Keeps fuel) (ended again)

  -- Whatever the card answers, and for any fuel, `log_process` and `log_flush` leave the flag of the
  -- idle flush, the configuration and the volume as they are.
  pub log_keeps :
      (rounds fuel : ℕ) (m : Machine hw)
      → let m1 = (log_process hw rounds fuel m).1 in
        let m2 = (log_flush hw fuel m).1 in
        (m1.flush_pending ≡ m.flush_pending)
        × (m1.cfg ≡ m.cfg)
        × (m1.vol ≡ m.vol)
        × (m2.flush_pending ≡ m.flush_pending)
        × (m2.cfg ≡ m.cfg)
        × (m2.vol ≡ m.vol)
  unfolding fixed
  log_keeps rounds fuel m =
      let p = (log_process-Keeps rounds fuel).kept m in
      let q = (log_flush-Keeps fuel).kept m in
      (
        ap (λ k. k.0) p,
        ap (λ k. k.1) p,
        ap (λ k. k.2) p,
        ap (λ k. k.0) q,
        ap (λ k. k.1) q,
        ap (λ k. k.2) q,
      )
