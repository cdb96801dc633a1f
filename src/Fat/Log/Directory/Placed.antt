-- ===== src/Fat/Log/Directory/Placed.antt =====
-- The slots of a directory on two disks.
use barelog.Prelude.{
  ℕ, zero, suc, ◌+◌, ◌*◌, ◌≤◌, ◌<◌, ◌≡◌, refl, ap, ap₂, ◌∙◌, List, [], ◌∷◌, ◌++◌, arith, u32,
}
use barelog.Device.{IsReliable}
use barelog.Fat.{clus_to_lba}
use barelog.Fat.Log.Directory.{Slot, slots_from}
use barelog.Fat.Log.Directory.Cluster.{cluster_slots, dir_slots}
use barelog.Machine.{Hardware, Fat32Vol}

-- The same slots, read again.
unfoldable pub reread : (ℕ → List ℕ) → List Slot → List Slot
reread sec [] = []
reread sec (s ∷ slots) = record s { bytes = sec s.lba } ∷ reread sec slots

-- The slot is one of the sixteen of its sector.
pub record IsPlaced (sec : ℕ → List ℕ) (s : Slot) : Type 0 where
  pub holds : s.bytes ≡ sec s.lba
  pub nth : ℕ
  pub at : s.off ≡ nth * 32
  pub inside : nth < 16

abbrev pub AllSlots : (Slot → Type 0) → List Slot → Type 0
AllSlots P [] = Unit
AllSlots P (s ∷ slots) = P s × AllSlots P slots

pub AllSlots-append :
    (P : Slot → Type 0) (a b : List Slot) → AllSlots P a → AllSlots P b → AllSlots P (a ++ b)
AllSlots-append P [] b h k = k
AllSlots-append P (s ∷ a) b h k = (h.0, AllSlots-append P a b h.1 k)

reread-append :
    (sec : ℕ → List ℕ) (a b : List Slot) → reread sec (a ++ b) ≡ reread sec a ++ reread sec b
unfolding reread
reread-append sec [] b = refl
reread-append sec (s ∷ a) b = ap (λ l. record s { bytes = sec s.lba } ∷ l) (reread-append sec a b)

reread-slots_from :
    (sec : ℕ → List ℕ) (left lba : ℕ) (bytes : List ℕ) (e : ℕ)
    → reread sec (slots_from left lba bytes e) ≡ slots_from left lba (sec lba) e
unfolding reread slots_from
reread-slots_from sec zero lba bytes e = refl
reread-slots_from sec (suc left) lba bytes e =
    ap (λ l. record { lba = lba; off = e; bytes = sec lba } ∷ l)
      (reread-slots_from sec left lba bytes (e + 32))

slots_from-IsPlaced :
    (sec : ℕ → List ℕ) (left lba e n : ℕ)
    → e ≡ n * 32
    → n + left ≤ 16
    → AllSlots (IsPlaced sec) (slots_from left lba (sec lba) e)
unfolding slots_from
slots_from-IsPlaced sec zero lba e n h k = tt
slots_from-IsPlaced sec (suc left) lba e n h k = (
  record { holds = refl; nth = n; at = h; inside = omega arith },
  slots_from-IsPlaced sec left lba (e + 32) (suc n) (omega arith) (omega arith),
)

module _ (hw : Hardware) (rel : IsReliable hw.dev) where
  open rel use {sector}

  reread-cluster_slots :
      (d d' : hw.dev.Disk) (left lba s : ℕ)
      → reread (sector d') (cluster_slots hw rel d left lba s) ≡ cluster_slots hw rel d' left lba s
  unfolding cluster_slots
  reread-cluster_slots d d' zero lba s = unfold reread in refl
  reread-cluster_slots d d' (suc left) lba s =
      reread-append (sector d') (slots_from 16 (u32 (lba + s)) (sector d (u32 (lba + s))) 0)
        (cluster_slots hw rel d left lba (s + 1))
      ∙ ap₂ (λ (a b : List Slot). a ++ b)
          (reread-slots_from (sector d') 16 (u32 (lba + s)) (sector d (u32 (lba + s))) 0)
          (reread-cluster_slots d d' left lba (s + 1))

  cluster_slots-IsPlaced :
      (d : hw.dev.Disk) (left lba s : ℕ)
      → AllSlots (IsPlaced (sector d)) (cluster_slots hw rel d left lba s)
  unfolding cluster_slots
  cluster_slots-IsPlaced d zero lba s = tt
  cluster_slots-IsPlaced d (suc left) lba s =
      AllSlots-append (IsPlaced (sector d)) _ _
        (slots_from-IsPlaced (sector d) 16 (u32 (lba + s)) 0 0 (omega arith) (omega arith))
        (cluster_slots-IsPlaced d left lba (s + 1))

  -- On another disk the directory has the same slots, read from that disk.
  pub reread-dir_slots :
      (vol : Fat32Vol) (d d' : hw.dev.Disk) (c : ℕ) (rest : List ℕ)
      → reread (sector d') (dir_slots hw rel vol d c rest) ≡ dir_slots hw rel vol d' c rest
  unfolding dir_slots
  reread-dir_slots vol d d' c [] = reread-cluster_slots d d' vol.sec_per_clus (clus_to_lba vol c) 0
  reread-dir_slots vol d d' c (c' ∷ rest) =
      reread-append (sector d') (cluster_slots hw rel d vol.sec_per_clus (clus_to_lba vol c) 0)
        (dir_slots hw rel vol d c' rest)
      ∙ ap₂ (λ (a b : List Slot). a ++ b)
          (reread-cluster_slots d d' vol.sec_per_clus (clus_to_lba vol c) 0)
          (reread-dir_slots vol d d' c' rest)

  pub dir_slots-IsPlaced :
      (vol : Fat32Vol) (d : hw.dev.Disk) (c : ℕ) (rest : List ℕ)
      → AllSlots (IsPlaced (sector d)) (dir_slots hw rel vol d c rest)
  unfolding dir_slots
  dir_slots-IsPlaced vol d c [] = cluster_slots-IsPlaced d vol.sec_per_clus (clus_to_lba vol c) 0
  dir_slots-IsPlaced vol d c (c' ∷ rest) =
      AllSlots-append (IsPlaced (sector d)) _ _
        (cluster_slots-IsPlaced d vol.sec_per_clus (clus_to_lba vol c) 0)
        (dir_slots-IsPlaced vol d c' rest)
