-- ===== src/Fat/Entry/View.antt =====
-- The FAT as a map from clusters to 28-bit entries: `fat_write_entry` is an update of that map.
use native.Mathlib.Decide.{ℕ_discrete, dec_lt}
use barelog.Prelude.{
  ℕ, ◌+◌, ◌*◌, ◌/◌, ◌^◌, ◌≤◌, ◌<◌, ◌≡◌, ◌≢◌, ◌⊎◌, sym, ap, subst, ◌∙◌, List, arith, length, drop,
  ==_refl, ne→==, ◌==◌, if◌then◌else◌,
}
use barelog.Prelude.Run.{ok}
use barelog.Device.{IsReliable}
use barelog.Machine.{Hardware, Machine, Fat32Vol}
use barelog.Fat.{fat_offset, entry_at, patch_entry, fat_write_entry}
use barelog.Fat.Entry.{Fits, HasEntry, copy_sector, fat_entry}
use barelog.Fat.Entry.Bytes.{entry_at-patch_entry, get_or-patch_entry_ne}
use barelog.Fat.Entry.Write.{with_disk, Mirrored, fat_write_entry-Mirrored}

-- A patch leaves the entries at other offsets alone.
pub entry_at-patch_entry_ne :
    (buf : List ℕ) (off val other : ℕ)
    → (other + 3 < off) ⊎ (off + 3 < other)
    → entry_at (patch_entry buf off val) other ≡ entry_at buf other
entry_at-patch_entry_ne buf off val other h = rw (
  get_or-patch_entry_ne buf off val other (omega arith),
  get_or-patch_entry_ne buf off val (other + 1) (omega arith),
  get_or-patch_entry_ne buf off val (other + 2) (omega arith),
  get_or-patch_entry_ne buf off val (other + 3) (omega arith),
)

offset_apart :
    (a b : ℕ)
    → a ≢ b
    → a / 128 ≡ b / 128
    → (fat_offset b + 3 < fat_offset a) ⊎ (fat_offset a + 3 < fat_offset b)
offset_apart a b ne e = omega arith

-- Entries in sectors apart stay apart on any two copies.
digit_unique : (n g g' a b : ℕ) → a < n → b < n → a + g * n ≡ b + g' * n → a ≡ b
digit_unique n g g' a b ha hb e = elim (dec_lt g g') [
  | yes lt ↦ absurd (grind arith)
  | no ge ↦ elim (dec_lt g' g) [
    | yes lt ↦ absurd (grind arith)
    | no ge' ↦ let same : g ≡ g' = omega arith in omega (arith, ap (λ (t : ℕ). t * n) same)
  ]
]

row_lt : (x g w n : ℕ) → x < w → g < n → x + g * w < n * w
row_lt x g w n hx hg = grind arith

copy_sector-apart :
    (vol : Fat32Vol) (clus other g g' : ℕ)
    → HasEntry vol clus
    → HasEntry vol other
    → clus / 128 ≢ other / 128
    → copy_sector vol other g ≢ copy_sector vol clus g'
copy_sector-apart vol clus other g g' h h' ne e =
    ne (sym (digit_unique vol.fat_sz32 g g' (other / 128) (clus / 128) h' h (omega arith)))

module _ (hw : Hardware) (rel : IsReliable hw.dev) where
  open rel use {capacity, sector, length-sector}

  -- Each entry of copy `g` after the write.
  fat_entry-Mirrored :
      (clus val g other : ℕ) (m : Machine hw) {result : _}
      → (w : Mirrored hw rel clus val 0 m.vol.num_fats m result) → HasEntry m.vol clus
      → HasEntry m.vol other
      → g < m.vol.num_fats
      → val < 2 ^ 28
      → fat_entry hw rel m.vol w.disk g other
        ≡ (if other == clus then val else fat_entry hw rel m.vol m.disk g other)
  fat_entry-Mirrored clus val g other m w has has' lt small =
      let at = copy_sector m.vol in
      let inside = w.inside g (omega arith) lt in
      elim (ℕ_discrete clus other) [
        | yes e ↦
            subst
              (λ o.
                fat_entry hw rel m.vol w.disk g o
                ≡ (if o == clus then val else fat_entry hw rel m.vol m.disk g o))
              e
              (rw (==_refl clus, inside)
                (entry_at-patch_entry (sector m.disk (at clus g)) (fat_offset clus) val
                  (omega (arith, length-sector m.disk (at clus g))) small))
        | no ne ↦
            rw (ne→== other clus (λ e. ne (sym e))) (elim (ℕ_discrete (clus / 128) (other / 128)) [
              | yes q ↦
                  let same : at clus g ≡ at other g = omega arith in
                  ap (λ s. entry_at (sector w.disk s) (fat_offset other)) (sym same)
                  ∙ ap (λ b. entry_at b (fat_offset other)) inside
                  ∙ entry_at-patch_entry_ne (sector m.disk (at clus g)) (fat_offset clus) val
                      (fat_offset other) (offset_apart clus other ne q)
                  ∙ ap (λ s. entry_at (sector m.disk s) (fat_offset other)) same
              | no q ↦
                  ap (λ b. entry_at b (fat_offset other))
                    (w.outside (at other g)
                      (λ g' _ _. copy_sector-apart m.vol clus other g g' has has' q))
            ])
      ]

  -- The sector is of no FAT copy.
  abbrev pub OutsideFat : Fat32Vol → ℕ → Type 0
  OutsideFat vol k = (k < vol.fat_lba) ⊎ (vol.fat_lba + vol.num_fats * vol.fat_sz32 ≤ k)

  copy_sector-inside :
      (vol : Fat32Vol) (clus g k : ℕ)
      → HasEntry vol clus
      → g < vol.num_fats
      → OutsideFat vol k
      → k ≢ copy_sector vol clus g
  copy_sector-inside vol clus g k has lt out e =
      let below = row_lt (clus / 128) g vol.fat_sz32 vol.num_fats has lt in omega (arith, e, out)

  -- What a write of an entry leaves, with the FAT seen as a map and the disk outside it.
  pub record Updates (clus val : ℕ) (m : Machine hw) : Type 0 where
    pub ring : List ℕ
    pub disk : hw.dev.Disk
    pub returns : fat_write_entry hw clus val m ≡ (ok tt, with_disk hw ring disk m)
    pub size : length ring ≡ 1024
    pub upper : drop 512 ring ≡ drop 512 m.uart.ring
    pub entries :
        (g other : ℕ)
        → g < m.vol.num_fats
        → HasEntry m.vol other
        → fat_entry hw rel m.vol disk g other
          ≡ (if other == clus then val else fat_entry hw rel m.vol m.disk g other)
    pub beyond : (k : ℕ) → OutsideFat m.vol k → sector disk k ≡ sector m.disk k

  pub fat_write_entry-Updates :
      (clus val : ℕ) (m : Machine hw)
      → Fits m.vol capacity
      → HasEntry m.vol clus
      → length m.uart.ring ≡ 1024
      → val < 2 ^ 28
      → Updates clus val m
  fat_write_entry-Updates clus val m fits has size small =
      let w = fat_write_entry-Mirrored hw rel clus val m fits has size in
      record {
        ring = w.ring;
        disk = w.disk;
        returns = w.returns;
        size = w.size;
        upper = w.upper;
        entries = λ g other lt has'. fat_entry-Mirrored clus val g other m w has has' lt small;
        beyond = λ k out. w.outside k (λ g lo lt. copy_sector-inside m.vol clus g k has lt out);
      }

  -- On a card in working order, `fat_write_entry` is an update of the FAT seen as a map, on every
  -- copy of it: the written cluster then reads back as `val`, every other cluster as before.
  pub fat_write_entry-updates :
      (clus val : ℕ) (m : Machine hw)
      → Fits m.vol capacity
      → HasEntry m.vol clus
      → length m.uart.ring ≡ 1024
      → val < 2 ^ 28
      → (ring : List ℕ) × (d : hw.dev.Disk) × (fat_write_entry hw clus val m
          ≡ (ok tt, with_disk hw ring d m))
        × (length ring ≡ 1024)
        × ((g other : ℕ)
            → g < m.vol.num_fats
            → HasEntry m.vol other
            → fat_entry hw rel m.vol d g other
              ≡ (if other == clus then val else fat_entry hw rel m.vol m.disk g other))
  fat_write_entry-updates clus val m fits has size small =
      let w = fat_write_entry-Updates clus val m fits has size small in
      (w.ring, w.disk, w.returns, w.size, w.entries)
