-- ===== src/Fat/Log/DirEntry.antt =====
-- The directory entry of a new log file, and the reading of it by the scan and by a resumption.
use barelog.Prelude.{
  ℕ, zero, suc, ◌+◌, ◌*◌, ◌^◌, ◌≤◌, ◌<◌, ◌≡◌, ◌≢◌, ◌⊎◌, refl, sym, ap, ap₂, ◌∙◌, Bool, true, List,
  [], ◌∷◌, arith, length, take, set, get_or, replicate, overlay, u16, shr, low_bits, byte_of,
  from_le16, from_le16-bytes, ==_iff, ne→==, length-set, length-overlay, length-replicate,
  get_or-set_self, get_or-set_ne, get_or-overlay_lt, get_or-overlay_ge,
}
use barelog.Prelude.Bytes.{
  take-set, get_le16, get_le32, put_le16, put_le32, get_le32-put_le32, get_or-set4_ne,
}
use barelog.Fat.Log.{ScanVars, found, name_matches, note_found, scan_entry}
use barelog.Fat.Log.Open.{copy_at, new_dir_entry, dir_fst_clus_hi, dir_fst_clus_lo, dir_file_size}

take-overlay_all :
    (n : ℕ) (bytes buf : List ℕ) → take n (overlay bytes buf) ≡ overlay bytes (take n buf)
take-overlay_all n [] buf = refl
take-overlay_all zero (b ∷ bytes) buf = refl
take-overlay_all (suc n) (b ∷ bytes) [] = refl
take-overlay_all (suc n) (b ∷ bytes) (x ∷ buf) = ap (λ t. b ∷ t) (take-overlay_all n bytes buf)

take-copy_at :
    (n off : ℕ) (bytes buf : List ℕ)
    → take n (copy_at off bytes buf) ≡ copy_at off bytes (take n buf)
unfolding copy_at
take-copy_at n zero bytes buf = take-overlay_all n bytes buf
take-copy_at zero (suc off) bytes buf = refl
take-copy_at (suc n) (suc off) bytes [] = refl
take-copy_at (suc n) (suc off) bytes (x ∷ buf) = ap (λ t. x ∷ t) (take-copy_at n off bytes buf)

length-copy_at : (off : ℕ) (bytes buf : List ℕ) → length (copy_at off bytes buf) ≡ length buf
unfolding copy_at
length-copy_at zero bytes buf = length-overlay bytes buf
length-copy_at (suc off) bytes [] = refl
length-copy_at (suc off) bytes (x ∷ buf) = ap (λ n. suc n) (length-copy_at off bytes buf)

copy_at-inside :
    (off i : ℕ) (bytes buf : List ℕ)
    → i < length bytes
    → off + length bytes ≤ length buf
    → get_or (copy_at off bytes buf) (off + i) 0 ≡ get_or bytes i 0
unfolding copy_at
copy_at-inside zero i bytes buf h k =
    ap (λ j. get_or (overlay bytes buf) j 0) {x = 0 + i} {y = i} (omega arith)
    ∙ get_or-overlay_lt bytes buf i 0 h (omega arith)
copy_at-inside (suc off) i bytes [] h k = absurd (omega arith)
copy_at-inside (suc off) i bytes (x ∷ buf) h k =
    ap (λ j. get_or (x ∷ copy_at off bytes buf) j 0) {x = suc off + i} {y = suc (off + i)}
      (omega arith)
    ∙ copy_at-inside off i bytes buf h (omega arith)

copy_at-outside :
    (off i : ℕ) (bytes buf : List ℕ)
    → (i < off) ⊎ (off + length bytes ≤ i)
    → get_or (copy_at off bytes buf) i 0 ≡ get_or buf i 0
unfolding copy_at
copy_at-outside zero i bytes buf h = get_or-overlay_ge bytes buf i 0 (omega arith)
copy_at-outside (suc off) i bytes [] h = refl
copy_at-outside (suc off) zero bytes (x ∷ buf) h = refl
copy_at-outside (suc off) (suc i) bytes (x ∷ buf) h = copy_at-outside off i bytes buf (omega arith)

put_le16-outside :
    (buf : List ℕ) (at v i : ℕ)
    → (i < at) ⊎ (at + 1 < i)
    → get_or (put_le16 buf at v) i 0 ≡ get_or buf i 0
put_le16-outside buf at v i h =
    get_or-set_ne (set buf at (byte_of v 0)) (at + 1) i (byte_of v 1) 0 (omega arith)
    ∙ get_or-set_ne buf at i (byte_of v 0) 0 (omega arith)

get_le16-put_le16 :
    (buf : List ℕ) (at v : ℕ)
    → at + 1 < length buf
    → v < 2 ^ 16
    → get_le16 (put_le16 buf at v) at ≡ v
get_le16-put_le16 buf at v h small =
    ap₂ from_le16
      (get_or-set_ne (set buf at (byte_of v 0)) (at + 1) at (byte_of v 1) 0 (omega arith)
        ∙ get_or-set_self buf at (byte_of v 0) 0 (omega arith))
      (get_or-set_self (set buf at (byte_of v 0)) (at + 1) (byte_of v 1) 0
        (omega (arith, length-set buf at (byte_of v 0))))
    ∙ from_le16-bytes v small

-- A name whose bytes stand in the buffer matches.
pub name_matches_lem :
    (buf : List ℕ) (e : ℕ) (name : List ℕ)
    → ((i : ℕ) → i < length name → get_or buf (e + i) 0 ≡ get_or name i 0)
    → name_matches buf e name ≡ true
unfolding name_matches
name_matches_lem buf e [] h = refl
name_matches_lem buf e (c ∷ name) h =
    let here : get_or buf e 0 ≡ c =
      ap (λ j. get_or buf j 0) {x = e} {y = e + 0} (omega arith) ∙ h 0 (omega arith) in
    let rest = name_matches_lem buf (e + 1) name (λ i lt.
      ap (λ j. get_or buf j 0) {x = e + 1 + i} {y = e + suc i} (omega arith)
      ∙ h (suc i) (omega arith)) in
    rw ((==_iff (get_or buf e 0) c).1 here) rest

pub scan_entry_found :
    (name buf : List ℕ) (lba off : ℕ) (v : ScanVars) (got_empty : Bool)
    → get_or buf off 0 ≢ 0x00
    → get_or buf off 0 ≢ 0xE5
    → get_or buf (off + 11) 0 ≡ 0x20
    → name_matches buf off name ≡ true
    → scan_entry name buf lba off v got_empty ≡ found (note_found v lba off)
unfolding scan_entry
scan_entry_found name buf lba off v got_empty used kept attr same =
    rw (ne→== (get_or buf off 0) 0x00 used, ne→== (get_or buf off 0) 0xE5 kept, attr, same)

-- The stages of the entry's construction.
module _ (name : List ℕ) (first_clus prealloc_sz off : ℕ) (buf : List ℕ) where
  abbrev named : List ℕ
  named = copy_at off name (copy_at off (replicate 32 0) buf)

  abbrev with_attr : List ℕ
  with_attr = set named (off + 11) 0x20

  abbrev with_hi : List ℕ
  with_hi = put_le16 with_attr (off + 20) (u16 (shr first_clus 16))

  abbrev with_lo : List ℕ
  with_lo = put_le16 with_hi (off + 26) (low_bits first_clus 16)

  stages :
      new_dir_entry name first_clus prealloc_sz off buf ≡ put_le32 with_lo (off + 28) prealloc_sz
  unfolding new_dir_entry
  stages = refl

  length-with_lo : length with_lo ≡ length buf
  length-with_lo = omega (arith, length-set {0}, length-copy_at)

  module _ (room : off + 31 < length buf) (eleven : length name ≡ 11) where
    abbrev pub entry : List ℕ
    entry = new_dir_entry name first_clus prealloc_sz off buf

    before_size : (i : ℕ) → (i < off + 28) ⊎ (off + 31 < i) → get_or entry i 0 ≡ get_or with_lo i 0
    before_size i h =
        ap (λ b. get_or b i 0) stages
        ∙ get_or-set4_ne with_lo (off + 28) (byte_of prealloc_sz 0) (byte_of prealloc_sz 1)
            (byte_of prealloc_sz 2) (byte_of prealloc_sz 3) i (omega arith)

    before_attr :
        (i : ℕ) → (i < off + 20) ⊎ (off + 31 < i) → get_or entry i 0 ≡ get_or with_attr i 0
    before_attr i h =
        before_size i (omega arith)
        ∙ put_le16-outside with_hi (off + 26) (low_bits first_clus 16) i (omega arith)
        ∙ put_le16-outside with_attr (off + 20) (u16 (shr first_clus 16)) i (omega arith)

    reads_size : prealloc_sz < 2 ^ 32 → dir_file_size entry off ≡ prealloc_sz
    reads_size small =
        ap (λ b. get_le32 b (off + 28)) stages
        ∙ get_le32-put_le32 with_lo (off + 28) prealloc_sz (omega (arith, length-with_lo)) small

    reads_lo : dir_fst_clus_lo entry off ≡ low_bits first_clus 16
    reads_lo =
        ap₂ from_le16 (before_size (off + 26) (omega arith))
          (before_size (off + 26 + 1) (omega arith))
        ∙ get_le16-put_le16 with_hi (off + 26) (low_bits first_clus 16)
            (omega (arith, length-set {0}, length-copy_at)) (omega arith)

    reads_hi : dir_fst_clus_hi entry off ≡ u16 (shr first_clus 16)
    reads_hi =
        ap₂ from_le16
          (before_size (off + 20) (omega arith)
            ∙ put_le16-outside with_hi (off + 26) (low_bits first_clus 16) (off + 20) (omega arith))
          (before_size (off + 20 + 1) (omega arith)
            ∙ put_le16-outside with_hi (off + 26) (low_bits first_clus 16) (off + 20 + 1)
                (omega arith))
        ∙ get_le16-put_le16 with_attr (off + 20) (u16 (shr first_clus 16))
            (omega (arith, length-set {0}, length-copy_at)) (omega arith)

    pub reads_attr : get_or entry (off + 11) 0 ≡ 0x20
    reads_attr =
        before_attr (off + 11) (omega arith)
        ∙ get_or-set_self named (off + 11) 0x20 0 (omega (arith, length-copy_at))

    pub reads_name : (i : ℕ) → i < 11 → get_or entry (off + i) 0 ≡ get_or name i 0
    reads_name i lt =
        before_attr (off + i) (omega arith)
        ∙ get_or-set_ne named (off + 11) (off + i) 0x20 0 (omega arith)
        ∙ copy_at-inside off i name (copy_at off (replicate 32 0) buf) (omega arith)
            (omega (arith, length-copy_at))

    pub keeps_rest : (i : ℕ) → (i < off) ⊎ (off + 31 < i) → get_or entry i 0 ≡ get_or buf i 0
    keeps_rest i h =
        before_attr i (omega arith)
        ∙ get_or-set_ne named (off + 11) i 0x20 0 (omega arith)
        ∙ copy_at-outside off i name (copy_at off (replicate 32 0) buf) (omega arith)
        ∙ copy_at-outside off i (replicate 32 0) buf (omega (arith, length-replicate {A = ℕ} 32 0))

-- The entry that `fat32_open_log` writes for a name of eleven bytes, the first of them no mark of a
-- free or deleted entry, at an offset with 32 bytes behind it: the scan finds it under that name,
-- a resumption reads back the 32-bit first cluster and size, and no other byte of the buffer is
-- changed.
pub scan_entry-new_dir_entry :
    (name buf : List ℕ) (first_clus prealloc_sz lba off i : ℕ) (v : ScanVars) (got_empty : Bool)
    → length name ≡ 11
    → get_or name 0 0 ≢ 0x00
    → get_or name 0 0 ≢ 0xE5
    → off + 31 < length buf
    → first_clus < 2 ^ 32
    → prealloc_sz < 2 ^ 32
    → (i < off) ⊎ (off + 31 < i)
    → let entry = new_dir_entry name first_clus prealloc_sz off buf in
      (scan_entry name entry lba off v got_empty ≡ found (note_found v lba off))
      × (dir_fst_clus_hi entry off * 65536 + dir_fst_clus_lo entry off ≡ first_clus)
      × (dir_file_size entry off ≡ prealloc_sz)
      × (get_or entry i 0 ≡ get_or buf i 0)
scan_entry-new_dir_entry name buf first_clus prealloc_sz lba off i v got_empty eleven used kept room
      c32 s32 out =
    let entry : List ℕ = new_dir_entry name first_clus prealloc_sz off buf in
    let at0 : get_or entry off 0 ≡ get_or name 0 0 =
      ap (λ j. get_or entry j 0) {x = off} {y = off + 0} (omega arith)
      ∙ reads_name name first_clus prealloc_sz off buf room eleven 0 (omega arith) in
    (
      scan_entry_found name entry lba off v got_empty (λ e. used (sym at0 ∙ e))
          (λ e. kept (sym at0 ∙ e)) (reads_attr name first_clus prealloc_sz off buf room eleven)
          (name_matches_lem entry off name
            (λ j lt. reads_name name first_clus prealloc_sz off buf room eleven j (omega arith))),
      omega (
        arith,
        reads_hi name first_clus prealloc_sz off buf room eleven,
        reads_lo name first_clus prealloc_sz off buf room eleven,
      ),
      reads_size name first_clus prealloc_sz off buf room eleven s32,
      keeps_rest name first_clus prealloc_sz off buf room eleven i out,
    )

pub take-new_dir_entry :
    (n : ℕ) (name : List ℕ) (first_clus prealloc_sz off : ℕ) (buf : List ℕ)
    → take n (new_dir_entry name first_clus prealloc_sz off buf)
      ≡ new_dir_entry name first_clus prealloc_sz off (take n buf)
unfolding new_dir_entry
take-new_dir_entry n name first_clus prealloc_sz off buf = simp (take-set {0}, take-copy_at)

pub length-new_dir_entry :
    (name : List ℕ) (first_clus prealloc_sz off : ℕ) (buf : List ℕ)
    → length (new_dir_entry name first_clus prealloc_sz off buf) ≡ length buf
length-new_dir_entry name first_clus prealloc_sz off buf =
    ap (length {A = ℕ}) (stages name first_clus prealloc_sz off buf)
    ∙ omega (arith, length-set {0}, length-copy_at)
