-- ===== src/Fat/Log.antt =====
-- fat32_log.c, first part: file names and the scan of the root directory.
pub mod Chain
pub mod Ready
pub mod Alloc
pub mod NewChain
pub mod DirEntry
pub mod ZeroFill
pub mod FileSectors
pub mod Create
pub mod FindFree
pub mod Extend
pub mod Names
pub mod Directory
pub mod Open
pub mod Append
use barelog.Prelude.{
  ℕ, zero, suc, ◌+◌, ◌-◌, ◌*◌, ◌/◌, ◌%◌, Bool, true, false, not, ◌&&◌, ◌||◌, List, [], ◌∷◌, ◌++◌,
  u8, u32, get_or, ltb, leb, test_bit, ◌==◌, if◌then◌else◌,
}
use barelog.Prelude.Run.{Result, ok, err, out_of_fuel, Run, pure, fail, ◌>>=◌, ◌>>◌}
use barelog.Machine.{Hardware, Machine, Fat32Vol, gets, modify, read_sector}
use barelog.Fat.{clus_to_lba, end_of_chain, fat_read_entry}

-- The digits of `name[3..7]`, filled from the right: `left` to go, `acc` filled.
unfoldable pub fill_digits : ℕ → ℕ → List ℕ → List ℕ
fill_digits zero n acc = acc
fill_digits (suc left) n acc = fill_digits left (n / 10) (u8 (b'0' + u8 (n % 10)) ∷ acc)

unfoldable pub make_logname : ℕ → List ℕ
unfolding fill_digits
make_logname num = b'L' ∷ b'O' ∷ b'G' ∷ (fill_digits 5 num [] ++ (b'T' ∷ b'X' ∷ b'T' ∷ []))

-- The variables of the caller that `scan_root_dir` writes through its pointers.
pub record ScanVars : Type 0 where
  pub found_lba : ℕ
  pub found_off : ℕ
  pub empty_lba : ℕ
  pub empty_off : ℕ

-- Where the scan stands: going on, at `goto done`, or at `return 1`.
pub data Scan : Type 0 where
  searching : ScanVars → Bool → Scan
  done : ScanVars → Scan
  found : ScanVars → Scan

-- `for (j = 0; j < 11; j++)`: the bytes at `e` against the name.
unfoldable pub name_matches : List ℕ → ℕ → List ℕ → Bool
name_matches buf e [] = true
name_matches buf e (c ∷ name) = get_or buf e 0 == c && name_matches buf (e + 1) name

abbrev pub note_empty : ScanVars → ℕ → ℕ → ScanVars
note_empty v lba e = record v { empty_lba = lba; empty_off = e }

abbrev pub note_found : ScanVars → ℕ → ℕ → ScanVars
note_found v lba e = record v { found_lba = lba; found_off = e }

-- One directory entry, at `e` in the sector `lba`.
unfoldable pub scan_entry : List ℕ → List ℕ → ℕ → ℕ → ScanVars → Bool → Scan
unfolding name_matches
scan_entry name buf lba e v got_empty =
    let first = get_or buf e 0 in
    let attr = get_or buf (e + 11) 0 in
    if first == 0x00
    then done (if got_empty then v else note_empty v lba e)
    else if first == 0xE5
    then (if got_empty then searching v true else searching (note_empty v lba e) true)
    else if test_bit attr 3
    then searching v got_empty
    else if test_bit attr 4
    then searching v got_empty
    else if name_matches buf e name
    then found (note_found v lba e)
    else searching v got_empty

-- `for (e = 0; e < 512; e += 32)` with `left` entries to go.
unfoldable pub scan_sector : ℕ → List ℕ → List ℕ → ℕ → ℕ → ScanVars → Bool → Scan
unfolding scan_entry
scan_sector zero name buf lba e v got_empty = searching v got_empty
scan_sector (suc left) name buf lba e v got_empty = elim (scan_entry name buf lba e v got_empty) [
  | searching v' g ↦ scan_sector left name buf lba (e + 32) v' g
  | done v' ↦ done v'
  | found v' ↦ found v'
]

-- `return -1` on any error of the card.
abbrev pub minus_one : {S A : Type 0} → Result A × S → Result A × S
minus_one (ok a, s) = (ok a, s)
minus_one (err n, s) = (err 1, s)
minus_one (out_of_fuel, s) = (out_of_fuel, s)

module _ (hw : Hardware) where
  -- `for (s = 0; s < vol.sec_per_clus; s++)` with `left` sectors to go.
  unfoldable pub scan_cluster : ℕ → List ℕ → ℕ → ℕ → ScanVars → Bool → Run (Machine hw) Scan
  scan_cluster zero name lba s v got_empty m = pure (searching v got_empty) m
  scan_cluster (suc left) name lba s v got_empty m =
      (do
        (λ m. minus_one (read_sector (u32 (lba + s)) m))
        r ← gets (λ m. scan_sector 16 name m.uart.ring (u32 (lba + s)) 0 v got_empty)
        elim r [
          | searching v' g ↦ scan_cluster left name lba (s + 1) v' g
          | done v' ↦ pure (done v')
          | found v' ↦ pure (found v')
        ])
        m

  -- `while (clus >= 2 && clus < 0x0FFFFFF8)`; the fuel bounds the length of the chain.
  unfoldable pub scan_chain : ℕ → List ℕ → ℕ → ScanVars → Bool → Run (Machine hw) Scan
  scan_chain zero name clus v got_empty m = (out_of_fuel, m)
  scan_chain (suc fuel) name clus v got_empty m = elim (leb 2 clus && ltb clus end_of_chain) [
    | false ↦ pure (done v) m
    | true ↦
        (do
          r ← scan_cluster m.vol.sec_per_clus name (clus_to_lba m.vol clus) 0 v got_empty
          elim r [
            | searching v' g ↦ (do
              next ← (λ m. minus_one (fat_read_entry hw clus m))
              scan_chain fuel name next v' g)
            | done v' ↦ pure (done v')
            | found v' ↦ pure (found v')
          ])
          m
  ]

  -- The outcome is `found` for the return code 1 and `done` for 0.
  unfoldable pub scan_root_dir : ℕ → List ℕ → ScanVars → Run (Machine hw) Scan
  scan_root_dir fuel name v m =
      scan_chain fuel name m.vol.root_clus (record v { found_lba = 0; empty_lba = 0 }) false m
