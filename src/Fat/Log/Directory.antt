-- ===== src/Fat/Log/Directory.antt =====
-- A directory as the list of its slots: the reference for the scan of the root directory.
pub mod Answers
pub mod Overlay
pub mod Cluster
pub mod Reads
pub mod Placed
pub mod Kinds
pub mod Entered
pub mod Found
pub mod Opened
use barelog.Prelude.{
  ℕ, zero, suc, ◌+◌, ◌≡◌, refl, sym, ap, ◌∙◌, Bool, true, false, ◌||◌, Bool-cases, inl, inr, Option,
  none, some, List, [], ◌∷◌, ◌++◌, get_or, test_bit, ◌==◌, if◌then◌else◌,
}
use barelog.Fat.Log.{
  Scan, searching, done, found, ScanVars, note_empty, note_found, name_matches, scan_entry,
  scan_sector,
}

-- An entry of a directory sector: the address of the sector, the offset, and the sector.
pub record Slot : Type 0 where
  pub lba : ℕ
  pub off : ℕ
  pub bytes : List ℕ

-- The mark of the end, a deleted entry, the file of the name, any other entry.
pub data Kind : Type 0 where
  ends deleted named other : Kind

unfoldable pub kind_of : List ℕ → Slot → Kind
kind_of name s =
    let first = get_or s.bytes s.off 0 in
    let attr = get_or s.bytes (s.off + 11) 0 in
    if first == 0x00
    then ends
    else if first == 0xE5
    then deleted
    else if test_bit attr 3 || test_bit attr 4
    then other
    else if name_matches s.bytes s.off name
    then named
    else other

-- The first slot of the name before the end of the directory.
unfoldable pub find_slot : List ℕ → List Slot → Option Slot
find_slot name [] = none
find_slot name (s ∷ slots) = elim (kind_of name s) [
  | ends ↦ none
  | deleted ↦ find_slot name slots
  | named ↦ some s
  | other ↦ find_slot name slots
]

-- The first slot that a new entry can take: a deleted one, or the one at the end.
unfoldable pub open_slot : List ℕ → List Slot → Option Slot
open_slot name [] = none
open_slot name (s ∷ slots) = elim (kind_of name s) [
  | ends ↦ some s
  | deleted ↦ some s
  | named ↦ open_slot name slots
  | other ↦ open_slot name slots
]

-- The answer of a scan: the slot of the name; or that there is none, with the open slot, or with
-- the address 0 if no slot is open.
abbrev pub Answers : Option Slot → Option Slot → Scan → Type 0
Answers (some s) slot r =
    (v : ScanVars) × (r ≡ found v) × (v.found_lba ≡ s.lba) × (v.found_off ≡ s.off)
Answers none (some o) r =
    (v : ScanVars) × (r ≡ done v) × (v.empty_lba ≡ o.lba) × (v.empty_off ≡ o.off)
Answers none none r = (v : ScanVars) × (r ≡ done v) × (v.empty_lba ≡ 0)

-- The scan, slot by slot.
unfoldable pub scan_slots : List ℕ → List Slot → ScanVars → Bool → Scan
scan_slots name [] v got_empty = searching v got_empty
scan_slots name (s ∷ slots) v got_empty = elim (scan_entry name s.bytes s.lba s.off v got_empty) [
  | searching v' g ↦ scan_slots name slots v' g
  | done v' ↦ done v'
  | found v' ↦ found v'
]

-- What follows the scan of some slots.
abbrev pub and_scan : Scan → (ScanVars → Bool → Scan) → Scan
and_scan (searching v g) k = k v g
and_scan (done v) k = done v
and_scan (found v) k = found v

pub scan_slots-append :
    (name : List ℕ) (a b : List Slot) (v : ScanVars) (got_empty : Bool)
    → scan_slots name (a ++ b) v got_empty
      ≡ and_scan (scan_slots name a v got_empty) (scan_slots name b)
unfolding scan_slots
scan_slots-append name [] b v got_empty = refl
scan_slots-append name (s ∷ a) b v got_empty =
    go (scan_entry name s.bytes s.lba s.off v got_empty) (scan_slots-append name a b)
  where
    go :
        (r : Scan)
        → ((v : ScanVars) (g : Bool)
            → scan_slots name (a ++ b) v g ≡ and_scan (scan_slots name a v g) (scan_slots name b))
        → (elim r [
          | searching v' g ↦ scan_slots name (a ++ b) v' g
          | done v' ↦ done v'
          | found v' ↦ found v'
        ])
          ≡ and_scan
              (elim r [
                | searching v' g ↦ scan_slots name a v' g
                | done v' ↦ done v'
                | found v' ↦ found v'
              ])
              (scan_slots name b)
    go (searching v g) more = more v g
    go (done v) more = refl
    go (found v) more = refl

-- The 16 slots of a sector.
unfoldable pub slots_from : ℕ → ℕ → List ℕ → ℕ → List Slot
slots_from zero lba bytes e = []
slots_from (suc left) lba bytes e =
    record { lba = lba; off = e; bytes = bytes } ∷ slots_from left lba bytes (e + 32)

pub scan_sector-scan_slots :
    (left : ℕ) (name bytes : List ℕ) (lba e : ℕ) (v : ScanVars) (got_empty : Bool)
    → scan_sector left name bytes lba e v got_empty
      ≡ scan_slots name (slots_from left lba bytes e) v got_empty
unfolding scan_sector scan_slots slots_from
scan_sector-scan_slots zero name bytes lba e v got_empty = refl
scan_sector-scan_slots (suc left) name bytes lba e v got_empty =
    go (scan_entry name bytes lba e v got_empty)
      (scan_sector-scan_slots left name bytes lba (e + 32))
  where
    go :
        (r : Scan)
        → ((v : ScanVars) (g : Bool)
            → scan_sector left name bytes lba (e + 32) v g
              ≡ scan_slots name (slots_from left lba bytes (e + 32)) v g)
        → (elim r [
          | searching v' g ↦ scan_sector left name bytes lba (e + 32) v' g
          | done v' ↦ done v'
          | found v' ↦ found v'
        ])
          ≡ (elim r [
            | searching v' g ↦ scan_slots name (slots_from left lba bytes (e + 32)) v' g
            | done v' ↦ done v'
            | found v' ↦ found v'
          ])
    go (searching v g) more = more v g
    go (done v) more = refl
    go (found v) more = refl
