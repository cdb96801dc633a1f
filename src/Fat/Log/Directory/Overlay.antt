-- ===== src/Fat/Log/Directory/Overlay.antt =====
-- A sector in the ring is scanned as the sector on the card.
use barelog.Prelude.{
  ℕ, zero, suc, ◌+◌, ◌*◌, ◌≤◌, ◌≡◌, refl, Bool, List, [], ◌∷◌, arith, length, overlay,
  get_or-overlay_lt,
}
use barelog.Fat.Log.{Scan, searching, done, found, ScanVars, name_matches, scan_entry, scan_sector}

-- A sector that was read into the ring is scanned as the sector.
module _ (bytes ring name : List ℕ) (whole : length bytes ≡ 512) (size : length ring ≡ 1024) where
  name_matches-overlay :
      (e : ℕ) (text : List ℕ)
      → e + length text ≤ 512
      → name_matches (overlay bytes ring) e text ≡ name_matches bytes e text
  unfolding name_matches
  name_matches-overlay e [] h = refl
  name_matches-overlay e (c ∷ text) h = rw (
    get_or-overlay_lt bytes ring e 0 (omega (arith, h, whole)) (omega (arith, h, size)),
    name_matches-overlay (e + 1) text (omega (arith, h)),
  )

  scan_entry-overlay :
      (lba e : ℕ) (v : ScanVars) (got_empty : Bool)
      → e + 32 ≤ 512
      → length name ≤ 32
      → scan_entry name (overlay bytes ring) lba e v got_empty
        ≡ scan_entry name bytes lba e v got_empty
  unfolding scan_entry
  scan_entry-overlay lba e v got_empty h short = rw (
    get_or-overlay_lt bytes ring e 0 (omega (arith, h, whole)) (omega (arith, h, size)),
    get_or-overlay_lt bytes ring (e + 11) 0 (omega (arith, h, whole)) (omega (arith, h, size)),
    name_matches-overlay e name (omega (arith, h, short)),
  )

  pub scan_sector-overlay :
      (left lba e : ℕ) (v : ScanVars) (got_empty : Bool)
      → e + left * 32 ≤ 512
      → length name ≤ 32
      → scan_sector left name (overlay bytes ring) lba e v got_empty
        ≡ scan_sector left name bytes lba e v got_empty
  unfolding scan_sector
  scan_sector-overlay zero lba e v got_empty h short = refl
  scan_sector-overlay (suc left) lba e v got_empty h short =
      rw (scan_sector, scan_entry-overlay lba e v got_empty (omega (arith, h)) short)
        (go (scan_entry name bytes lba e v got_empty)
          (λ v g. scan_sector-overlay left lba (e + 32) v g (omega (arith, h)) short))
    where
      go :
          (r : Scan)
          → ((v : ScanVars) (g : Bool)
              → scan_sector left name (overlay bytes ring) lba (e + 32) v g
                ≡ scan_sector left name bytes lba (e + 32) v g)
          → (elim r [
            | searching v' g ↦ scan_sector left name (overlay bytes ring) lba (e + 32) v' g
            | done v' ↦ done v'
            | found v' ↦ found v'
          ])
            ≡ (elim r [
              | searching v' g ↦ scan_sector left name bytes lba (e + 32) v' g
              | done v' ↦ done v'
              | found v' ↦ found v'
            ])
      go (searching v g) more = more v g
      go (done v) more = refl
      go (found v) more = refl
