-- ===== src/Fat/Log/ZeroFill.antt =====
-- `zero_fill` on a card in working order.
use native.Mathlib.Decide.{ℕ_discrete}
use barelog.Prelude.{
  ℕ, zero, suc, ◌+◌, ◌≤◌, ◌<◌, ◌≡◌, ◌⊎◌, refl, ◌∙◌, List, arith, replicate, length-replicate, ◌==◌,
  ==_iff, ne→==, if◌then◌else◌,
}
use barelog.Prelude.Run.{ok, and_then}
use barelog.Device.{IsReliable}
use barelog.Machine.{Hardware, Machine}
use barelog.Fat.Entry.Write.{with_disk}
use barelog.Fat.Log.Open.{zero_fill}

abbrev pub zeros : List ℕ
zeros = replicate 512 0

module _ (hw : Hardware) (rel : IsReliable hw.dev) where
  open rel use {capacity, sector, store, write_ok, write_zero_lem, sector-store}

  -- `left` sectors from `i` on hold zeros, every other sector is as before, and of the memory only
  -- the disk has changed.
  pub record Zeroed (left i : ℕ) (m : Machine hw) : Type 0 where
    pub disk : hw.dev.Disk
    pub returns : zero_fill hw left i m ≡ (ok tt, with_disk hw m.uart.ring disk m)
    pub inside : (s : ℕ) → i ≤ s → s < i + left → sector disk s ≡ zeros
    pub outside : (s : ℕ) → (s < i) ⊎ (i + left ≤ s) → sector disk s ≡ sector m.disk s

  zero_round :
      (left i : ℕ) (m : Machine hw)
      → i < capacity
      → zero_fill hw (suc left) i m
        ≡ zero_fill hw left (i + 1) (with_disk hw m.uart.ring (store i zeros m.disk) m)
  unfolding zero_fill
  zero_round left i m lt = rw (
    zero_fill,
    write_zero_lem i m.disk,
    write_ok i zeros m.disk lt (length-replicate {A = ℕ} 512 0),
    and_then,
  )

  sector-zeros :
      (i s : ℕ) (d : hw.dev.Disk)
      → sector (store i zeros d) s ≡ (if i == s then zeros else sector d s)
  sector-zeros i s d = sector-store i s zeros d (length-replicate {A = ℕ} 512 0)

  pub zero_fill-Zeroed : (left i : ℕ) (m : Machine hw) → i + left ≤ capacity → Zeroed left i m
  zero_fill-Zeroed zero i m h = record {
    disk = m.disk;
    returns = unfold zero_fill in refl;
    inside = λ s lo lt. absurd (omega arith);
    outside = λ s out. refl;
  }
  zero_fill-Zeroed (suc left) i m h =
      let d : hw.dev.Disk = store i zeros m.disk in
      let rest = zero_fill-Zeroed left (i + 1) (with_disk hw m.uart.ring d m) (omega arith) in
      record {
        disk = rest.disk;
        returns = zero_round left i m (omega arith) ∙ rest.returns;
        inside = λ s lo lt. elim (ℕ_discrete i s) [
          | yes e ↦
              rest.outside s (omega (arith, e)) ∙ sector-zeros i s m.disk ∙ rw ((==_iff i s).1 e)
          | no ne ↦ rest.inside s (omega (arith, ne)) (omega arith)
        ];
        outside = λ s out.
            rest.outside s (omega arith)
            ∙ sector-zeros i s m.disk
            ∙ rw (ne→== i s (λ e. omega (arith, e, out)));
      }
