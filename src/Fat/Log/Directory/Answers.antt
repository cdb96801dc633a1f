-- ===== src/Fat/Log/Directory/Answers.antt =====
-- What the scan answers, on a directory as the list of its slots.
use barelog.Prelude.{
  ℕ, ◌+◌, ◌≡◌, refl, Bool, true, false, ◌||◌, none, some, List, [], ◌∷◌, get_or, test_bit, ◌==◌,
  if◌then◌else◌,
}
use barelog.Fat.Log.{
  Scan, searching, done, found, ScanVars, note_empty, note_found, name_matches, scan_entry,
}
use barelog.Fat.Log.Directory.{
  Slot, Kind, ends, deleted, named, other, kind_of, find_slot, open_slot, Answers, scan_slots,
}

-- One slot in the scan, by its kind.
abbrev step_of : Kind → Slot → ScanVars → Bool → Scan
step_of ends s v g = done (if g then v else note_empty v s.lba s.off)
step_of deleted s v g = searching (if g then v else note_empty v s.lba s.off) true
step_of named s v g = found (note_found v s.lba s.off)
step_of other s v g = searching v g

scan_entry-kind_of :
    (name : List ℕ) (s : Slot) (v : ScanVars) (got_empty : Bool)
    → scan_entry name s.bytes s.lba s.off v got_empty ≡ step_of (kind_of name s) s v got_empty
unfolding scan_entry kind_of
scan_entry-kind_of name s v got_empty =
    go (get_or s.bytes s.off 0 == 0x00) (get_or s.bytes s.off 0 == 0xE5)
      (test_bit (get_or s.bytes (s.off + 11) 0) 3) (test_bit (get_or s.bytes (s.off + 11) 0) 4)
      (name_matches s.bytes s.off name) got_empty
  where
    go :
        (is_end is_deleted label folder same got : Bool)
        → (if is_end
            then done (if got then v else note_empty v s.lba s.off)
            else if is_deleted
            then (if got then searching v true else searching (note_empty v s.lba s.off) true)
            else if label
            then searching v got
            else if folder
            then searching v got
            else if same
            then found (note_found v s.lba s.off)
            else searching v got)
          ≡ step_of
              (if is_end
                then ends
                else if is_deleted
                then deleted
                else if label || folder
                then other
                else if same
                then named
                else other)
              s
              v
              got
    go true is_deleted label folder same got = refl
    go false true label folder same true = refl
    go false true label folder same false = refl
    go false false true folder same got = refl
    go false false false true same got = refl
    go false false false false true got = refl
    go false false false false false got = refl

-- At the end of the directory's clusters the scan answers that there is no such name.
abbrev pub settle : Scan → Scan
settle (searching v g) = done v
settle (done v) = done v
settle (found v) = found v

-- With an open slot noted.
noted-Answers :
    (name : List ℕ) (slots : List Slot) (v : ScanVars) (o : Slot)
    → v.empty_lba ≡ o.lba
    → v.empty_off ≡ o.off
    → Answers (find_slot name slots) (some o) (settle (scan_slots name slots v true))
unfolding find_slot scan_slots
noted-Answers name [] v o lba off = (v, refl, lba, off)
noted-Answers name (s ∷ slots) v o lba off =
    rw (settle, scan_slots, scan_entry-kind_of name s v true)
      (go (kind_of name s) (noted-Answers name slots v o lba off))
  where
    go :
        (k : Kind)
        → Answers (find_slot name slots) (some o) (settle (scan_slots name slots v true))
        → Answers
            (elim k [
              | ends ↦ none
              | deleted ↦ find_slot name slots
              | named ↦ some s
              | other ↦ find_slot name slots
            ])
            (some o)
            (settle (elim (step_of k s v true) [
              | searching v' g ↦ scan_slots name slots v' g
              | done v' ↦ done v'
              | found v' ↦ found v'
            ]))
    go ends more = (v, refl, lba, off)
    go deleted more = more
    go named more = (note_found v s.lba s.off, refl, refl, refl)
    go other more = more

-- What the scan answers, on a directory as the list of its slots.
pub settle-Answers :
    (name : List ℕ) (slots : List Slot) (v : ScanVars)
    → v.empty_lba ≡ 0
    → Answers (find_slot name slots) (open_slot name slots) (settle (scan_slots name slots v false))
unfolding find_slot open_slot scan_slots
settle-Answers name [] v zero_lba = (v, refl, zero_lba)
settle-Answers name (s ∷ slots) v zero_lba =
    rw (settle, scan_slots, scan_entry-kind_of name s v false)
      (go (kind_of name s) (settle-Answers name slots v zero_lba)
        (noted-Answers name slots (note_empty v s.lba s.off) s refl refl))
  where
    go :
        (k : Kind)
        → Answers
            (find_slot name slots)
            (open_slot name slots)
            (settle (scan_slots name slots v false))
        → Answers
            (find_slot name slots)
            (some s)
            (settle (scan_slots name slots (note_empty v s.lba s.off) true))
        → Answers
            (elim k [
              | ends ↦ none
              | deleted ↦ find_slot name slots
              | named ↦ some s
              | other ↦ find_slot name slots
            ])
            (elim k [
              | ends ↦ some s
              | deleted ↦ some s
              | named ↦ open_slot name slots
              | other ↦ open_slot name slots
            ])
            (settle (elim (step_of k s v false) [
              | searching v' g ↦ scan_slots name slots v' g
              | done v' ↦ done v'
              | found v' ↦ found v'
            ]))
    go ends more marked = (note_empty v s.lba s.off, refl, refl, refl)
    go deleted more marked = marked
    go named more marked = (note_found v s.lba s.off, refl, refl, refl)
    go other more marked = more
