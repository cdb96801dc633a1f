-- ===== src/Logger/Pad/Copy.antt =====
-- The copy loops of `log_flush`: forward, one byte at a time, inside the ring.
use native.Mathlib.Decide.{ℕ_discrete}
use barelog.Prelude.{
  ℕ, zero, suc, ◌+◌, ◌≤◌, ◌<◌, ◌≡◌, ◌⊎◌, refl, sym, ◌∙◌, List, arith, length, get_or, set,
  length-set, get_or-set_self, get_or-set_ne, subst,
}
use barelog.Logger.{copy_ring, zero_ring}

pub length-copy_ring :
    (n dst src : ℕ) (ring : List ℕ) → length (copy_ring n dst src ring) ≡ length ring
unfolding copy_ring
length-copy_ring zero dst src ring = refl
length-copy_ring (suc n) dst src ring =
    length-copy_ring n (dst + 1) (src + 1) (set ring dst (get_or ring src 0))
    ∙ length-set ring dst (get_or ring src 0)

pub length-zero_ring : (n from : ℕ) (ring : List ℕ) → length (zero_ring n from ring) ≡ length ring
unfolding zero_ring
length-zero_ring zero from ring = refl
length-zero_ring (suc n) from ring =
    length-zero_ring n (from + 1) (set ring from 0) ∙ length-set ring from 0

-- A copy changes only its target.
pub copy_ring_outside :
    (n dst src : ℕ) (ring : List ℕ) (i : ℕ)
    → (i < dst) ⊎ (dst + n ≤ i)
    → get_or (copy_ring n dst src ring) i 0 ≡ get_or ring i 0
unfolding copy_ring
copy_ring_outside zero dst src ring i h = refl
copy_ring_outside (suc n) dst src ring i h =
    copy_ring_outside n (dst + 1) (src + 1) (set ring dst (get_or ring src 0)) i (omega arith)
    ∙ get_or-set_ne ring dst i (get_or ring src 0) 0 (omega arith)

-- A copy to lower addresses, or between disjoint ranges, moves every byte.
pub copy_ring_inside :
    (n dst src : ℕ) (ring : List ℕ) (k : ℕ)
    → (dst ≤ src) ⊎ (src + n ≤ dst)
    → dst + n ≤ length ring
    → k < n
    → get_or (copy_ring n dst src ring) (dst + k) 0 ≡ get_or ring (src + k) 0
unfolding copy_ring
copy_ring_inside zero dst src ring k h fit lt = absurd (omega arith)
copy_ring_inside (suc n) dst src ring zero h fit lt =
    let v : ℕ = get_or ring src 0 in
    let at : dst + 0 ≡ dst = omega arith in
    let from : src + 0 ≡ src = omega arith in
    rw (at, from)
      (copy_ring_outside n (dst + 1) (src + 1) (set ring dst v) dst (omega arith)
        ∙ get_or-set_self ring dst v 0 (omega arith))
copy_ring_inside (suc n) dst src ring (suc k) h fit lt =
    let v : ℕ = get_or ring src 0 in
    let at : dst + suc k ≡ dst + 1 + k = omega arith in
    let from : src + suc k ≡ src + 1 + k = omega arith in
    rw (at, from)
      (copy_ring_inside n (dst + 1) (src + 1) (set ring dst v) k (omega arith)
          (omega (arith, length-set ring dst v)) (omega arith)
        ∙ get_or-set_ne ring dst (src + 1 + k) v 0 (omega arith))

-- A copy to higher addresses that overlaps its source repeats it: from `dst` on the result has the
-- period `dst - src`.
pub copy_ring_overlap :
    (n src period : ℕ) (ring : List ℕ) (k : ℕ)
    → 0 < period
    → src + period + n ≤ length ring
    → k < n
    → get_or (copy_ring n (src + period) src ring) (src + period + k) 0
      ≡ get_or (copy_ring n (src + period) src ring) (src + k) 0
unfolding copy_ring
copy_ring_overlap zero src period ring k pos fit lt = absurd (omega arith)
copy_ring_overlap (suc n) src period ring zero pos fit lt =
    let v : ℕ = get_or ring src 0 in
    let next : List ℕ = set ring (src + period) v in
    let at : src + period + 0 ≡ src + period = omega arith in
    let from : src + 0 ≡ src = omega arith in
    rw (at, from)
      (copy_ring_outside n (src + period + 1) (src + 1) next (src + period) (omega arith)
        ∙ get_or-set_self ring (src + period) v 0 (omega arith)
        ∙ sym (
            copy_ring_outside n (src + period + 1) (src + 1) next src (omega arith)
            ∙ get_or-set_ne ring (src + period) src v 0 (omega arith)))
copy_ring_overlap (suc n) src period ring (suc k) pos fit lt =
    let v : ℕ = get_or ring src 0 in
    let next : List ℕ = set ring (src + period) v in
    let dst : src + period + 1 ≡ src + 1 + period = omega arith in
    let at : src + period + suc k ≡ src + 1 + period + k = omega arith in
    let from : src + suc k ≡ src + 1 + k = omega arith in
    rw (dst, at, from)
      (copy_ring_overlap n (src + 1) period next k pos
        (omega (arith, length-set ring (src + period) v)) (omega arith))

pub zero_ring_outside :
    (n from : ℕ) (ring : List ℕ) (i : ℕ)
    → (i < from) ⊎ (from + n ≤ i)
    → get_or (zero_ring n from ring) i 0 ≡ get_or ring i 0
unfolding zero_ring
zero_ring_outside zero from ring i h = refl
zero_ring_outside (suc n) from ring i h =
    zero_ring_outside n (from + 1) (set ring from 0) i (omega arith)
    ∙ get_or-set_ne ring from i 0 0 (omega arith)

pub zero_ring_inside :
    (n from : ℕ) (ring : List ℕ) (i : ℕ)
    → from + n ≤ length ring
    → from ≤ i
    → i < from + n
    → get_or (zero_ring n from ring) i 0 ≡ 0
unfolding zero_ring
zero_ring_inside zero from ring i fit lo hi = absurd (omega arith)
zero_ring_inside (suc n) from ring i fit lo hi = elim (ℕ_discrete from i) [
  | yes e ↦
      subst (λ j. get_or (zero_ring n (from + 1) (set ring from 0)) j 0 ≡ 0) e
        (zero_ring_outside n (from + 1) (set ring from 0) from (omega arith)
          ∙ get_or-set_self ring from 0 0 (omega arith))
  | no ne ↦
      zero_ring_inside n (from + 1) (set ring from 0) i (omega (arith, length-set ring from 0))
        (omega arith) (omega arith)
]
