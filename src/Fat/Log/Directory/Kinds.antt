-- ===== src/Fat/Log/Directory/Kinds.antt =====
-- The kinds of slots, and the two searches by the kind of the first slot.
use barelog.Prelude.{
  ℕ, suc, ◌+◌, ◌≤◌, ◌<◌, ◌≡◌, ◌≢◌, refl, sym, ap, ◌∙◌, Bool, true, false, Option, none, some, List,
  [], ◌∷◌, arith, length, get_or, ne→==,
}
use barelog.Fat.Log.{name_matches}
use barelog.Fat.Log.DirEntry.{name_matches_lem, reads_attr, reads_name}
use barelog.Fat.Log.Directory.{
  Slot, Kind, ends, deleted, named, other, kind_of, find_slot, open_slot,
}
use barelog.Fat.Log.Directory.Placed.{IsPlaced, AllSlots}
use barelog.Fat.Log.Open.{new_dir_entry}

abbrev pub is_open : Kind → Bool
is_open ends = true
is_open deleted = true
is_open named = false
is_open other = false

module _ (name : List ℕ) (eleven : length name ≡ 11) where
  -- The kind depends on the 32 bytes of the slot.
  name_matches-kept :
      (bytes bytes' : List ℕ) (e : ℕ) (text : List ℕ)
      → ((i : ℕ) → i < length text → get_or bytes' (e + i) 0 ≡ get_or bytes (e + i) 0)
      → name_matches bytes' e text ≡ name_matches bytes e text
  unfolding name_matches
  name_matches-kept bytes bytes' e [] same = refl
  name_matches-kept bytes bytes' e (c ∷ text) same = rw (
    ap (λ j. get_or bytes' j 0) {x = e} {y = e + 0} (omega arith)
        ∙ same 0 (omega arith)
        ∙ ap (λ j. get_or bytes j 0) {x = e + 0} {y = e} (omega arith),
    name_matches-kept bytes bytes' (e + 1) text (λ i lt.
        ap (λ j. get_or bytes' j 0) {x = e + 1 + i} {y = e + suc i} (omega arith)
        ∙ same (suc i) (omega (arith, lt))
        ∙ ap (λ j. get_or bytes j 0) {x = e + suc i} {y = e + 1 + i} (omega arith)),
  )

  pub kind_of-kept :
      (s : Slot) (bytes : List ℕ)
      → ((i : ℕ) → s.off ≤ i → i < s.off + 32 → get_or bytes i 0 ≡ get_or s.bytes i 0)
      → kind_of name (record s { bytes = bytes }) ≡ kind_of name s
  unfolding kind_of
  kind_of-kept s bytes same = rw (
    same s.off (omega arith) (omega arith),
    same (s.off + 11) (omega arith) (omega arith),
    name_matches-kept s.bytes bytes s.off name
        (λ i lt. same (s.off + i) (omega arith) (omega (arith, lt, eleven))),
  )

  pub kind_of-new_dir_entry :
      (s : Slot) (first_clus prealloc_sz : ℕ)
      → get_or name 0 0 ≢ 0x00
      → get_or name 0 0 ≢ 0xE5
      → s.off + 31 < length s.bytes
      → kind_of name (record s { bytes = new_dir_entry name first_clus prealloc_sz s.off s.bytes })
        ≡ named
  unfolding kind_of
  kind_of-new_dir_entry s first_clus prealloc_sz used kept room =
      let entry : List ℕ = new_dir_entry name first_clus prealloc_sz s.off s.bytes in
      let at0 : get_or entry s.off 0 ≡ get_or name 0 0 =
        ap (λ j. get_or entry j 0) {x = s.off} {y = s.off + 0} (omega arith)
        ∙ reads_name name first_clus prealloc_sz s.off s.bytes room eleven 0 (omega arith) in
      rw (
        ne→== (get_or entry s.off 0) 0x00 (λ e. used (sym at0 ∙ e)),
        ne→== (get_or entry s.off 0) 0xE5 (λ e. kept (sym at0 ∙ e)),
        reads_attr name first_clus prealloc_sz s.off s.bytes room eleven,
        name_matches_lem entry s.off name (λ i lt.
            reads_name name first_clus prealloc_sz s.off s.bytes room eleven i
              (omega (arith, lt, eleven))),
      )

  -- The two searches, by the kind of the first slot.
  abbrev pub find_by : Kind → Slot → Option Slot → Option Slot
  find_by ends s rest = none
  find_by deleted s rest = rest
  find_by named s rest = some s
  find_by other s rest = rest

  abbrev pub open_by : Kind → Slot → Option Slot → Option Slot
  open_by ends s rest = some s
  open_by deleted s rest = some s
  open_by named s rest = rest
  open_by other s rest = rest

  pub find_cons :
      (s : Slot) (slots : List Slot) (k : Kind)
      → kind_of name s ≡ k
      → find_slot name (s ∷ slots) ≡ find_by k s (find_slot name slots)
  unfolding find_slot
  find_cons s slots k e = rw (find_slot, e) (go k)
    where
      go :
          (k : Kind)
          → (elim k as (λ _. Option Slot) [
            | ends ↦ none
            | deleted ↦ find_slot name slots
            | named ↦ some s
            | other ↦ find_slot name slots
          ])
            ≡ find_by k s (find_slot name slots)
      go ends = refl
      go deleted = refl
      go named = refl
      go other = refl

  pub open_cons :
      (s : Slot) (slots : List Slot) (k : Kind)
      → kind_of name s ≡ k
      → open_slot name (s ∷ slots) ≡ open_by k s (open_slot name slots)
  unfolding open_slot
  open_cons s slots k e = rw (open_slot, e) (go k)
    where
      go :
          (k : Kind)
          → (elim k as (λ _. Option Slot) [
            | ends ↦ some s
            | deleted ↦ some s
            | named ↦ open_slot name slots
            | other ↦ open_slot name slots
          ])
            ≡ open_by k s (open_slot name slots)
      go ends = refl
      go deleted = refl
      go named = refl
      go other = refl

  pub open_nil : open_slot name [] ≡ none
  unfolding open_slot
  open_nil = refl

  -- What the open slot is.
  abbrev pub OpenAt : (ℕ → List ℕ) → Option Slot → Type 0
  OpenAt sec none = Unit
  OpenAt sec (some o) = IsPlaced sec o × (is_open (kind_of name o) ≡ true)

  pub open_slot-OpenAt :
      (sec : ℕ → List ℕ) (slots : List Slot)
      → AllSlots (IsPlaced sec) slots
      → OpenAt sec (open_slot name slots)
  open_slot-OpenAt sec [] placed = unfold open_slot in tt
  open_slot-OpenAt sec (s ∷ slots) placed =
      go (kind_of name s) refl (open_slot-OpenAt sec slots placed.1)
    where
      go :
          (k : Kind)
          → kind_of name s ≡ k
          → OpenAt sec (open_slot name slots)
          → OpenAt sec (open_slot name (s ∷ slots))
      go ends e more = rw (open_cons s slots ends e) (placed.0, ap is_open e)
      go deleted e more = rw (open_cons s slots deleted e) (placed.0, ap is_open e)
      go named e more = rw (open_cons s slots named e) more
      go other e more = rw (open_cons s slots other e) more
