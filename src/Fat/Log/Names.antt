-- ===== src/Fat/Log/Names.antt =====
-- The names of the log files: one for each number, and the scan tells them apart.
use barelog.Prelude.{
  ℕ, zero, suc, ◌+◌, ◌/◌, ◌^◌, ◌%◌, ◌<◌, ◌≡◌, ◌≢◌, ◌⊎◌, inl, inr, refl, sym, ap, ◌∙◌, Bool,
  Bool-cases, true, false, ◌&&◌, List, [], ◌∷◌, arith, length, get_or, ◌==◌, ==_iff, ne→==,
}
use barelog.Fat.Log.{ScanVars, searching, found, make_logname, name_matches, note_found, scan_entry}
use barelog.Fat.Log.DirEntry.{reads_name, reads_attr, scan_entry_found, name_matches_lem}
use barelog.Fat.Log.Open.{new_dir_entry}

length-make_logname : (n : ℕ) → length (make_logname n) ≡ 11
unfolding make_logname
length-make_logname n = refl

make_logname_first : (n : ℕ) → get_or (make_logname n) 0 0 ≡ 0x4C
unfolding make_logname
make_logname_first n = refl

-- The five digits.
make_logname-digits :
    (n : ℕ)
    → (get_or (make_logname n) 3 0 ≡ 48 + n / 10000 % 10)
      × (get_or (make_logname n) 4 0 ≡ 48 + n / 1000 % 10)
      × (get_or (make_logname n) 5 0 ≡ 48 + n / 100 % 10)
      × (get_or (make_logname n) 6 0 ≡ 48 + n / 10 % 10)
      × (get_or (make_logname n) 7 0 ≡ 48 + n % 10)
unfolding make_logname
make_logname-digits n = (omega arith, omega arith, omega arith, omega arith, omega arith)

digits_unique :
    (a b : ℕ)
    → a < 100000
    → b < 100000
    → a / 10000 % 10 ≡ b / 10000 % 10
    → a / 1000 % 10 ≡ b / 1000 % 10
    → a / 100 % 10 ≡ b / 100 % 10
    → a / 10 % 10 ≡ b / 10 % 10
    → a % 10 ≡ b % 10
    → a ≡ b
digits_unique a b ha hb d4 d3 d2 d1 d0 = omega arith

both : (p q : Bool) → (p && q) ≡ true → (p ≡ true) × (q ≡ true)
both p q h = ground arith

-- A name that matches agrees byte by byte.
name_matches_sound :
    (buf : List ℕ) (e : ℕ) (name : List ℕ) (i : ℕ)
    → name_matches buf e name ≡ true
    → i < length name
    → get_or buf (e + i) 0 ≡ get_or name i 0
unfolding name_matches
name_matches_sound buf e [] i h lt = absurd (omega arith)
name_matches_sound buf e (c ∷ name) zero h lt =
    ap (λ j. get_or buf j 0) {x = e + 0} {y = e} (omega arith)
    ∙ (==_iff (get_or buf e 0) c).0 (both (get_or buf e 0 == c) (name_matches buf (e + 1) name) h).0
name_matches_sound buf e (c ∷ name) (suc i) h lt =
    ap (λ j. get_or buf j 0) {x = e + suc i} {y = e + 1 + i} (omega arith)
    ∙ name_matches_sound buf (e + 1) name i
        (both (get_or buf e 0 == c) (name_matches buf (e + 1) name) h).1 (omega arith)

scan_entry_passes :
    (name buf : List ℕ) (lba off : ℕ) (v : ScanVars) (got_empty : Bool)
    → get_or buf off 0 ≢ 0x00
    → get_or buf off 0 ≢ 0xE5
    → get_or buf (off + 11) 0 ≡ 0x20
    → name_matches buf off name ≡ false
    → scan_entry name buf lba off v got_empty ≡ searching v got_empty
unfolding scan_entry
scan_entry_passes name buf lba off v got_empty used kept attr differs =
    rw (ne→== (get_or buf off 0) 0x00 used, ne→== (get_or buf off 0) 0xE5 kept, attr, differs)

-- A name that matches the entry of log number `a` is the one of `a`.
matching_number :
    (a b : ℕ) (buf : List ℕ) (off : ℕ)
    → a < 100000
    → b < 100000
    → ((i : ℕ) → i < 11 → get_or buf (off + i) 0 ≡ get_or (make_logname a) i 0)
    → name_matches buf off (make_logname b) ≡ true
    → a ≡ b
matching_number a b buf off ha hb reads same =
    let at : (i : ℕ) → i < 11 → get_or (make_logname a) i 0 ≡ get_or (make_logname b) i 0 = λ i lt.
      sym (reads i lt)
      ∙ name_matches_sound buf off (make_logname b) i same (omega (arith, length-make_logname b)) in
    let da = make_logname-digits a in
    let db = make_logname-digits b in
    digits_unique a b ha hb (omega (arith, at 3 (omega arith), da.0, db.0))
      (omega (arith, at 4 (omega arith), da.1, db.1))
      (omega (arith, at 5 (omega arith), da.2, db.2))
      (omega (arith, at 6 (omega arith), da.3, db.3))
      (omega (arith, at 7 (omega arith), da.4, db.4))

-- The entry written for one log number, at an offset with 32 bytes behind it: the scan for that
-- number's name finds it, and the scan for the name of any other 16-bit number goes on past it.
pub scan_entry_tells_apart :
    (a b : ℕ) (buf : List ℕ) (first_clus prealloc_sz lba off : ℕ) (v : ScanVars) (got_empty : Bool)
    → a < 2 ^ 16
    → b < 2 ^ 16
    → a ≢ b
    → off + 31 < length buf
    → first_clus < 2 ^ 32
    → prealloc_sz < 2 ^ 32
    → let entry = new_dir_entry (make_logname a) first_clus prealloc_sz off buf in
      (scan_entry (make_logname a) entry lba off v got_empty ≡ found (note_found v lba off))
      × (scan_entry (make_logname b) entry lba off v got_empty ≡ searching v got_empty)
scan_entry_tells_apart a b buf first_clus prealloc_sz lba off v got_empty ha hb ne room c32 s32 =
    let name : List ℕ = make_logname a in
    let entry : List ℕ = new_dir_entry name first_clus prealloc_sz off buf in
    let reads = reads_name name first_clus prealloc_sz off buf room (length-make_logname a) in
    let first : get_or entry off 0 ≡ 0x4C =
      ap (λ j. get_or entry j 0) {x = off} {y = off + 0} (omega arith)
      ∙ reads 0 (omega arith)
      ∙ make_logname_first a in
    let attr = reads_attr name first_clus prealloc_sz off buf room (length-make_logname a) in
    let used : get_or entry off 0 ≢ 0x00 = λ e. omega (arith, e, first) in
    let kept : get_or entry off 0 ≢ 0xE5 = λ e. omega (arith, e, first) in
    (
      scan_entry_found name entry lba off v got_empty used kept attr (
          name_matches_lem entry off name (λ i lt. reads i (omega (arith, length-make_logname a)))),
      scan_entry_passes (make_logname b) entry lba off v got_empty used kept attr
          (differs (Bool-cases (name_matches entry off (make_logname b)))),
    )
  where
    differs :
        (name_matches
              (new_dir_entry (make_logname a) first_clus prealloc_sz off buf)
              off
              (make_logname b)
            ≡ true)
          ⊎ (name_matches
                (new_dir_entry (make_logname a) first_clus prealloc_sz off buf)
                off
                (make_logname b)
              ≡ false)
        → name_matches
            (new_dir_entry (make_logname a) first_clus prealloc_sz off buf)
            off
            (make_logname b)
          ≡ false
    differs (inl same) = absurd (
        ne (
          matching_number a b (new_dir_entry (make_logname a) first_clus prealloc_sz off buf) off
            (omega arith) (omega arith)
            (reads_name (make_logname a) first_clus prealloc_sz off buf room
              (length-make_logname a))
            same))
    differs (inr other) = other
