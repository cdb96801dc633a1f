-- ===== src/Fat/Log/Chain.antt =====
-- Cluster chains in a FAT seen as a map from clusters to entries: the reference for the allocation
-- and for the walk along a chain.
use native.Mathlib.Decide.{ℕ_discrete}
use barelog.Prelude.{
  ℕ, zero, suc, ◌+◌, ◌≤◌, ◌<◌, ◌≡◌, ◌≢◌, refl, sym, ap, ◌∙◌, List, [], ◌∷◌, arith, length, ◌==◌,
  ==_refl, ne→==, if◌then◌else◌,
}

-- The first `n` free clusters from `c` on, `left` clusters to look at.
unfoldable pub first_free : (ℕ → ℕ) → ℕ → ℕ → ℕ → List ℕ
first_free fat zero n c = []
first_free fat (suc left) zero c = []
first_free fat (suc left) (suc n) c =
    let rest = first_free fat left n (c + 1) in
    let skip = first_free fat left (suc n) (c + 1) in if fat c == 0 then c ∷ rest else skip

-- One entry replaced.
abbrev pub update : (ℕ → ℕ) → ℕ → ℕ → ℕ → ℕ
update fat at val x = if x == at then val else fat x

-- The FAT after `prev` (0 for none) has been linked to the first of the clusters, and each of them
-- to the next.
pub link : (ℕ → ℕ) → ℕ → List ℕ → ℕ → ℕ
link fat prev [] x = fat x
link fat prev (c ∷ cs) x = link (λ y. if prev == 0 then fat y else update fat prev c y) c cs x

abbrev pub last_of : ℕ → List ℕ → ℕ
last_of d [] = d
last_of d (c ∷ cs) = last_of c cs

abbrev pub head_of : ℕ → List ℕ → ℕ
head_of d [] = d
head_of d (c ∷ cs) = c

-- Strictly increasing, above `lo` and below `hi`.
abbrev pub Between : ℕ → ℕ → List ℕ → Type 0
Between lo hi [] = Unit
Between lo hi (c ∷ cs) = (lo < c) × (c < hi) × Between c hi cs

abbrev pub AllFree : (ℕ → ℕ) → List ℕ → Type 0
AllFree fat [] = Unit
AllFree fat (c ∷ cs) = (fat c ≡ 0) × AllFree fat cs

-- From `c` the entries lead through the clusters in order, and the last one is marked `mark`.
abbrev pub IsChain : (ℕ → ℕ) → ℕ → ℕ → List ℕ → Type 0
IsChain fat mark c [] = fat c ≡ mark
IsChain fat mark c (d ∷ cs) = (fat c ≡ d) × IsChain fat mark d cs

-- The maps agree on a range of clusters.
abbrev pub Agree : ℕ → ℕ → (ℕ → ℕ) → (ℕ → ℕ) → Type 0
Agree lo hi f g = (x : ℕ) → lo ≤ x → x < hi → f x ≡ g x

pub first_free-none : (fat : ℕ → ℕ) (left c : ℕ) → first_free fat left 0 c ≡ []
unfolding first_free
first_free-none fat zero c = refl
first_free-none fat (suc left) c = refl

pub first_free-end : (fat : ℕ → ℕ) (n c : ℕ) → first_free fat 0 n c ≡ []
unfolding first_free
first_free-end fat n c = refl

pub first_free-free :
    (fat : ℕ → ℕ) (left n c : ℕ)
    → fat c ≡ 0
    → first_free fat (suc left) (suc n) c ≡ c ∷ first_free fat left n (c + 1)
unfolding first_free
first_free-free fat left n c h = rw h

pub first_free-used :
    (fat : ℕ → ℕ) (left n c : ℕ)
    → fat c ≢ 0
    → first_free fat (suc left) n c ≡ first_free fat left n (c + 1)
unfolding first_free
first_free-used fat left zero c h = sym (first_free-none fat left (c + 1))
first_free-used fat left (suc n) c h = rw (ne→== (fat c) 0 h)

pub first_free-Agree :
    (f g : ℕ → ℕ) (left n c : ℕ)
    → Agree c (c + left) f g
    → first_free f left n c ≡ first_free g left n c
first_free-Agree f g zero n c h = unfold first_free in refl
first_free-Agree f g (suc left) zero c h =
    first_free-none f (suc left) c ∙ sym (first_free-none g (suc left) c)
first_free-Agree f g (suc left) (suc n) c h =
    let here : f c ≡ g c = h c (omega arith) (omega arith) in
    let rest : Agree (c + 1) (c + 1 + left) f g = λ x lo hi. h x (omega arith) (omega arith) in
    elim (ℕ_discrete (g c) 0) [
      | yes e ↦
          first_free-free f left n c (here ∙ e)
          ∙ ap (λ l. c ∷ l) (first_free-Agree f g left n (c + 1) rest)
          ∙ sym (first_free-free g left n c e)
      | no e ↦
          first_free-used f left (suc n) c (λ k. e (sym here ∙ k))
          ∙ first_free-Agree f g left (suc n) (c + 1) rest
          ∙ sym (first_free-used g left (suc n) c e)
    ]

pub length-first_free : (fat : ℕ → ℕ) (left n c : ℕ) → length (first_free fat left n c) ≤ left
unfolding first_free
length-first_free fat zero n c = omega arith
length-first_free fat (suc left) zero c = omega arith
length-first_free fat (suc left) (suc n) c =
    one (fat c) (first_free fat left n (c + 1)) (first_free fat left (suc n) (c + 1)) left
      (length-first_free fat left n (c + 1)) (length-first_free fat left (suc n) (c + 1))
  where
    one :
        (v : ℕ) (xs ys : List ℕ) (l : ℕ)
        → length xs ≤ l
        → length ys ≤ l
        → length (if v == 0 then c ∷ xs else ys) ≤ suc l
    one v xs ys l h g = ground arith

-- The clusters found are free, in order and in range.
pub first_free-Between :
    (fat : ℕ → ℕ) (left n c lo : ℕ)
    → lo < c
    → Between lo (c + left) (first_free fat left n c) × AllFree fat (first_free fat left n c)
first_free-Between fat zero n c lo h = unfold first_free in (tt, tt)
first_free-Between fat (suc left) zero c lo h = rw (first_free-none fat (suc left) c) (tt, tt)
first_free-Between fat (suc left) (suc n) c lo h =
    let widen : c + 1 + left ≡ c + suc left = omega arith in
    elim (ℕ_discrete (fat c) 0) [
      | yes e ↦
          let rest = first_free-Between fat left n (c + 1) c (omega arith) in
          rw (first_free-free fat left n c e, ← widen) ((h, omega arith, rest.0), (e, rest.1))
      | no e ↦
          rw (first_free-used fat left (suc n) c e, ← widen)
            (first_free-Between fat left (suc n) (c + 1) lo (omega arith))
    ]

pub link-nil : (fat : ℕ → ℕ) (prev x : ℕ) → link fat prev [] x ≡ fat x
unfolding link
link-nil fat prev x = refl

pub link-cons :
    (fat : ℕ → ℕ) (prev c x : ℕ) (cs : List ℕ)
    → link fat prev (c ∷ cs) x ≡ link (λ y. if prev == 0 then fat y else update fat prev c y) c cs x
unfolding link
link-cons fat prev c x cs = refl

pub link-Agree :
    (f g : ℕ → ℕ) (hi prev : ℕ) (cs : List ℕ)
    → Agree 0 hi f g
    → Agree 0 hi (link f prev cs) (link g prev cs)
unfolding link
link-Agree f g hi prev [] h = h
link-Agree f g hi prev (c ∷ cs) h =
    link-Agree (λ y. if prev == 0 then f y else update f prev c y)
      (λ y. if prev == 0 then g y else update g prev c y) hi c cs
      (λ x lo lt. ap (λ v. if prev == 0 then v else if x == prev then c else v) (h x lo lt))

-- The cluster is none of these.
abbrev pub NotIn : ℕ → List ℕ → Type 0
NotIn x [] = Unit
NotIn x (c ∷ cs) = (x ≢ c) × NotIn x cs

pub NotIn-Between : (lo hi x : ℕ) (cs : List ℕ) → Between lo hi cs → x ≤ lo → NotIn x cs
NotIn-Between lo hi x [] b h = tt
NotIn-Between lo hi x (c ∷ cs) b h =
    ((λ e. omega (arith, e, b.0)), NotIn-Between c hi x cs b.2 (omega (arith, b.0)))

pub last_of-Between : (lo hi : ℕ) (cs : List ℕ) → Between lo hi cs → lo ≤ last_of lo cs
last_of-Between lo hi [] b = omega arith
last_of-Between lo hi (c ∷ cs) b = omega (arith, b.0, last_of-Between c hi cs b.2)

pub last_of-lt : (lo hi : ℕ) (cs : List ℕ) → lo < hi → Between lo hi cs → last_of lo cs < hi
last_of-lt lo hi [] h b = h
last_of-lt lo hi (c ∷ cs) h b = last_of-lt c hi cs b.1 b.2

-- Entries of other clusters than the linked ones stay as they are.
pub link_outside :
    (fat : ℕ → ℕ) (prev x : ℕ) (cs : List ℕ) → x ≢ prev → NotIn x cs → link fat prev cs x ≡ fat x
unfolding link
link_outside fat prev x [] ne n = refl
link_outside fat prev x (c ∷ cs) ne n =
    link_outside (λ y. if prev == 0 then fat y else update fat prev c y) c x cs n.0 n.1
    ∙ kept prev c x (fat x) ne
  where
    kept : (p d y v : ℕ) → y ≢ p → (if p == 0 then v else if y == p then d else v) ≡ v
    kept p d y v h = ground arith

-- Linked in increasing order and closed by `mark`, the clusters are a chain.
pub link-IsChain :
    (fat : ℕ → ℕ) (mark c hi : ℕ) (cs : List ℕ)
    → 0 < c
    → Between c hi cs
    → IsChain (update (link fat c cs) (last_of c cs) mark) mark c cs
unfolding link
link-IsChain fat mark c hi [] pos b = rw (==_refl c)
link-IsChain fat mark c hi (d ∷ cs) pos b =
    let fat' : ℕ → ℕ = λ y. if c == 0 then fat y else update fat c d y in
    let past : c ≢ last_of d cs = λ e. omega (arith, e, b.0, last_of-Between d hi cs b.2) in
    (
      rw (ne→== c (last_of d cs) past) (
          link_outside fat' d c cs (λ e. omega (arith, e, b.0))
            (NotIn-Between d hi c cs b.2 (omega (arith, b.0)))
          ∙ linked c d (fat c) pos),
      link-IsChain fat' mark d hi cs (omega (arith, b.0)) b.2,
    )
  where
    linked : (p e v : ℕ) → 0 < p → (if p == 0 then v else if p == p then e else v) ≡ e
    linked p e v h = ground arith

pub IsChain-Agree :
    (f g : ℕ → ℕ) (mark hi c : ℕ) (cs : List ℕ)
    → Agree 0 hi f g
    → c < hi
    → Between c hi cs
    → IsChain g mark c cs
    → IsChain f mark c cs
IsChain-Agree f g mark hi c [] same lt b h = same c (omega arith) lt ∙ h
IsChain-Agree f g mark hi c (d ∷ cs) same lt b h =
    (same c (omega arith) lt ∙ h.0, IsChain-Agree f g mark hi d cs same b.1 b.2 h.1)

-- A list that is not empty starts with its head.
pub head_of-cons :
    (d n : ℕ) (cs : List ℕ) → length cs ≡ n → 0 < n → (rest : List ℕ) × (cs ≡ head_of d cs ∷ rest)
head_of-cons d n [] e h = absurd (omega (arith, e))
head_of-cons d n (c ∷ cs) e h = (cs, refl)

-- A cluster in use is none of the free ones.
pub NotIn-AllFree : (fat : ℕ → ℕ) (x : ℕ) (cs : List ℕ) → AllFree fat cs → fat x ≢ 0 → NotIn x cs
NotIn-AllFree fat x [] free used = tt
NotIn-AllFree fat x (c ∷ cs) free used =
    ((λ e. used (ap fat e ∙ free.0)), NotIn-AllFree fat x cs free.1 used)
