-- ===== src/Fat/Log/Directory/Entered.antt =====
-- A directory after a new entry has been written to its open slot.
use barelog.Prelude.{
  ℕ, ◌+◌, ◌*◌, ◌≤◌, ◌<◌, ◌≡◌, ◌≢◌, ◌⊎◌, refl, sym, ap, ◌∙◌, Bool, true, false, Bool-cases, inl, inr,
  Option, none, some, List, [], ◌∷◌, arith, length, get_or, ◌==◌, ==_iff,
}
use barelog.Fat.Log.DirEntry.{keeps_rest}
use barelog.Fat.Log.Directory.{
  Slot, Kind, ends, deleted, named, other, kind_of, find_slot, open_slot,
}
use barelog.Fat.Log.Directory.Placed.{reread, IsPlaced, AllSlots}
use barelog.Fat.Log.Open.{new_dir_entry}
use barelog.Fat.Log.Directory.Kinds.{
  is_open, kind_of-kept, kind_of-new_dir_entry, find_cons, open_cons, open_nil,
}

abbrev is_some : Option Slot → Bool
is_some none = false
is_some (some s) = true

abbrev or_else : Slot → Option Slot → Slot
or_else d none = d
or_else d (some s) = s

module _ (name : List ℕ) (eleven : length name ≡ 11) where
  -- The sectors before and after the entry is written to the slot `o`.
  module _ (sec sec' : ℕ → List ℕ) (o : Slot) (first_clus prealloc_sz : ℕ)
      (whole : (l : ℕ) → length (sec l) ≡ 512) (used : get_or name 0 0 ≢ 0x00)
      (kept : get_or name 0 0 ≢ 0xE5)
      (written : sec' o.lba ≡ new_dir_entry name first_clus prealloc_sz o.off (sec o.lba))
      (placed_o : IsPlaced sec o) (is_open_o : is_open (kind_of name o) ≡ true) where
    room : o.off + 31 < length (sec o.lba)
    room = omega (arith, whole o.lba, placed_o.at, placed_o.inside)

    kind_of-written : kind_of name (record o { bytes = sec' o.lba }) ≡ named
    kind_of-written =
        ap (λ b. kind_of name (record o { bytes = b }))
          (written ∙ ap (new_dir_entry name first_clus prealloc_sz o.off) (sym placed_o.holds))
        ∙ kind_of-new_dir_entry name eleven o first_clus prealloc_sz used kept
            (omega (arith, room, ap length placed_o.holds))

    -- A slot of another kind is not the one at `o`, and keeps its kind.
    kind_of-other :
        (s : Slot)
        → IsPlaced sec s
        → (s.lba ≢ o.lba → sec' s.lba ≡ sec s.lba)
        → kind_of name s ≡ other
        → kind_of name (record s { bytes = sec' s.lba }) ≡ other
    kind_of-other s placed unmoved e = elim (Bool-cases (s.lba == o.lba)) [
      | inr away ↦
          ap (λ b. kind_of name (record s { bytes = b }))
            (unmoved (λ same. absurd (grind (arith, away, (==_iff s.lba o.lba).1 same)))
              ∙ sym placed.holds)
          ∙ e
      | inl here ↦
          let at : s.lba ≡ o.lba = (==_iff s.lba o.lba).0 here in
          let bytes : o.bytes ≡ s.bytes = placed_o.holds ∙ ap sec (sym at) ∙ sym placed.holds in
          let apart : s.off ≢ o.off = λ off. clash (
            (λ i. kind_of name (record { lba = sym at i; off = sym off i; bytes = bytes i }))
            ∙ e) in
          kind_of-kept name eleven s (sec' s.lba) (λ i lo hi.
            ap (λ l. get_or (sec' l) i 0) at
            ∙ ap (λ b. get_or b i 0) written
            ∙ keeps_rest name first_clus prealloc_sz o.off (sec o.lba) room eleven i
                (outside s.off o.off i placed.nth placed_o.nth placed.at placed_o.at apart lo hi)
            ∙ ap (λ b. get_or b i 0) (sym placed_o.holds ∙ bytes))
          ∙ e
    ]
      where
        clash : kind_of name o ≢ other
        clash same = absurd (grind (arith, sym is_open_o ∙ ap is_open same))

        outside :
            (a b i n k : ℕ)
            → a ≡ n * 32
            → b ≡ k * 32
            → a ≢ b
            → a ≤ i
            → i < a + 32
            → (i < b) ⊎ (b + 31 < i)
        outside a b i n k ha hb ne lo hi = omega (arith, ha, hb, ne, lo, hi)

    -- The name is now found, and in that slot.
    pub find_slot-reread :
        (slots : List Slot)
        → AllSlots (IsPlaced sec) slots
        → AllSlots (λ s. s.lba ≢ o.lba → sec' s.lba ≡ sec s.lba) slots
        → find_slot name slots ≡ none
        → open_slot name slots ≡ some o
        → find_slot name (reread sec' slots) ≡ some (record o { bytes = sec' o.lba })
    unfolding reread
    find_slot-reread [] placed unmoved f h =
        absurd (grind (arith, ap is_some (sym (open_nil name eleven) ∙ h)))
    find_slot-reread (s ∷ slots) placed unmoved f h =
        go (kind_of name s) refl (find_slot-reread slots placed.1 unmoved.1)
      where
        at_open :
            open_slot name (s ∷ slots) ≡ some s
            → find_slot name (record s { bytes = sec' s.lba } ∷ reread sec' slots)
              ≡ some (record o { bytes = sec' o.lba })
        at_open first =
            let same : s ≡ o = ap (or_else s) (sym first ∙ h) in
            let new : Slot = record s { bytes = sec' s.lba } in
            find_cons name eleven new (reread sec' slots) named
              (ap (λ x. kind_of name (record x { bytes = sec' x.lba })) same ∙ kind_of-written)
            ∙ ap (λ (x : Slot). some (record x { bytes = sec' x.lba })) same

        go :
            (k : Kind)
            → kind_of name s ≡ k
            → (find_slot name slots ≡ none
                → open_slot name slots ≡ some o
                → find_slot name (reread sec' slots) ≡ some (record o { bytes = sec' o.lba }))
            → find_slot name (record s { bytes = sec' s.lba } ∷ reread sec' slots)
              ≡ some (record o { bytes = sec' o.lba })
        go ends e more = at_open (open_cons name eleven s slots ends e)
        go deleted e more = at_open (open_cons name eleven s slots deleted e)
        go named e more =
            absurd (grind (arith, ap is_some (sym (find_cons name eleven s slots named e) ∙ f)))
        go other e more =
            find_cons name eleven (record s { bytes = sec' s.lba }) (reread sec' slots) other
              (kind_of-other s placed.0 unmoved.0 e)
            ∙ more (sym (find_cons name eleven s slots other e) ∙ f)
                (sym (open_cons name eleven s slots other e) ∙ h)
