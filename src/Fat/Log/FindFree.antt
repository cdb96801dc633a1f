-- ===== src/Fat/Log/FindFree.antt =====
-- The search of the extension for a free cluster.
use native.Mathlib.Decide.{ℕ_discrete}
use barelog.Prelude.{
  ℕ, zero, suc, ◌+◌, ◌^◌, ◌≤◌, ◌<◌, ◌≡◌, ◌≢◌, sym, ap, ◌∙◌, List, [], ◌∷◌, arith, length, drop, u32,
  ==_iff, ne→==,
}
use barelog.Prelude.Run.{ok, and_then}
use barelog.Device.{IsReliable}
use barelog.Machine.{Hardware, Machine}
use barelog.Fat.{fat_read_entry}
use barelog.Fat.Entry.Write.{with_disk}
use barelog.Fat.Log.Ready.{
  Ready, clusters, fat_of, after_read, after_read-Ready, read_lem, read_upper,
}
use barelog.Fat.Log.Append.{find_free}
use barelog.Fat.Log.Chain.{first_free, first_free-end, first_free-free, first_free-used}

module _ (hw : Hardware) (rel : IsReliable hw.dev) where
  find_free_step :
      (fuel c val : ℕ) (m m1 : Machine hw)
      → c + 1 < 2 ^ 32
      → val ≢ 0
      → fat_read_entry hw c m ≡ (ok val, m1)
      → find_free hw (suc fuel) c m ≡ find_free hw fuel (c + 1) m1
  unfolding find_free
  find_free_step fuel c val m m1 small used read =
      let next : u32 (c + 1) ≡ c + 1 = omega arith in
      rw (find_free, read, and_then, ne→== val 0 used, next)

  find_free_here :
      (fuel c val : ℕ) (m m1 : Machine hw)
      → val ≡ 0
      → fat_read_entry hw c m ≡ (ok val, m1)
      → find_free hw (suc fuel) c m ≡ (ok c, m1)
  unfolding find_free
  find_free_here fuel c val m m1 free read = rw (find_free, read, and_then, (==_iff val 0).1 free)

  -- What the search for a free cluster leaves.
  pub record Found (fuel at c : ℕ) (m : Machine hw) : Type 0 where
    pub ring : List ℕ
    pub returns : find_free hw fuel at m ≡ (ok c, with_disk hw ring m.disk m)
    pub size : length ring ≡ 1024
    pub upper : drop 512 ring ≡ drop 512 m.uart.ring
    pub before : at ≤ c
    pub in_fat : c < clusters hw rel m

  -- The search ends at the first free cluster.
  pub find_free-Found :
      (left at c : ℕ) (m : Machine hw)
      → Ready hw rel m
      → at + left ≡ clusters hw rel m
      → first_free (fat_of hw rel m.vol m.disk) left 1 at ≡ c ∷ []
      → Found left at c m
  find_free-Found zero at c m r room found =
      absurd
        (omega (arith, ap length (sym (first_free-end (fat_of hw rel m.vol m.disk) 1 at) ∙ found)))
  find_free-Found (suc left) at c m r room found =
      let fat : ℕ → ℕ = fat_of hw rel m.vol m.disk in
      let m1 : Machine hw = after_read hw rel at m in
      let r1 : Ready hw rel m1 = after_read-Ready hw rel at m r in
      let bound = r.entries in
      let read = read_lem hw rel at m r (omega arith) in
      elim (ℕ_discrete (fat at) 0) [
        | yes free ↦
            let here : at ≡ c = head_eq (sym (first_free-free fat left 0 at free) ∙ found) in
            record {
              ring = m1.uart.ring;
              returns = find_free_here left at (fat at) m m1 free read ∙ ap (λ x. (ok x, m1)) here;
              size = r1.size;
              upper = read_upper hw rel at m;
              before = omega (arith, here);
              in_fat = omega (arith, here);
            }
        | no used ↦
            let rest =
              find_free-Found left (at + 1) c m1 r1 (omega arith)
                (sym (first_free-used fat left 1 at used) ∙ found) in
            record {
              ring = rest.ring;
              returns = find_free_step left at (fat at) m m1 (omega arith) used read ∙ rest.returns;
              size = rest.size;
              upper = rest.upper ∙ read_upper hw rel at m;
              before = omega (arith, rest.before);
              in_fat = rest.in_fat;
            }
      ]
    where
      head_eq : {x y : ℕ} {xs ys : List ℕ} → x ∷ xs ≡ y ∷ ys → x ≡ y
      head_eq e = ap (λ (l : List ℕ). elim l [ [] ↦ 0 | x ∷ xs ↦ x ]) e
