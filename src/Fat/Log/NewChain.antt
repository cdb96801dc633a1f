-- ===== src/Fat/Log/NewChain.antt =====
-- The chain of a new log file, from the allocation to the mark at its end, and the walk along it
-- when the file is resumed.
use barelog.Prelude.{
  ℕ, zero, suc, ◌+◌, ◌^◌, ◌≤◌, ◌<◌, ◌≡◌, ◌≢◌, inl, refl, sym, subst, ap, ◌∙◌, List, [], ◌∷◌, arith,
  length, ◌==◌, ne→==, lt→ltb, le→ltb, if◌then◌else◌,
}
use barelog.Prelude.Run.{ok, and_then}
use barelog.Device.{IsReliable}
use barelog.Machine.{Hardware, Machine}
use barelog.Fat.{end_of_chain, chain_end_mark, fat_read_entry, fat_write_entry}
use barelog.Fat.Entry.Write.{with_disk}
use barelog.Fat.Entry.View.{OutsideFat, fat_write_entry-Updates}
use barelog.Fat.Log.Chain.{
  first_free, length-first_free, first_free-Between, update, link, link-cons, link_outside,
  link-IsChain, last_of, last_of-lt, head_of-cons, Between, AllFree, IsChain, IsChain-Agree, NotIn,
  Agree,
}
use barelog.Fat.Log.Ready.{clusters, fat_of, Ready, after_read, after_read-Ready, read_lem}
use barelog.Fat.Log.Alloc.{alloc_chain-Allocated}
use barelog.Fat.Log.Open.{Alloc, no_alloc, alloc_chain, walk_chain}

module _ (hw : Hardware) (rel : IsReliable hw.dev) where
  -- What the allocation of `n` clusters and the mark on the last of them leave.
  pub record NewChain (left n : ℕ) (m : Machine hw) : Type 0 where
    pub alloc : Alloc
    pub rest : List ℕ
    pub linked : Machine hw
    pub ring : List ℕ
    pub disk : hw.dev.Disk
    pub allocates : alloc_chain hw (suc left) n 2 no_alloc m ≡ (ok alloc, linked)
    pub all_found : alloc.found_clus ≡ n
    pub closes :
        fat_write_entry hw alloc.last_clus chain_end_mark linked ≡ (ok tt, with_disk hw ring disk m)
    pub size : length ring ≡ 1024
    pub first_ones : first_free (fat_of hw rel m.vol m.disk) left n 2 ≡ alloc.first_clus ∷ rest
    pub ends : alloc.last_clus ≡ last_of alloc.first_clus rest
    pub ordered : Between 1 (clusters hw rel m) (alloc.first_clus ∷ rest)
    pub were_free : AllFree (fat_of hw rel m.vol m.disk) (alloc.first_clus ∷ rest)
    pub chained : IsChain (fat_of hw rel m.vol disk) chain_end_mark alloc.first_clus rest
    pub others :
        (x : ℕ)
        → x < clusters hw rel m
        → NotIn x (alloc.first_clus ∷ rest)
        → fat_of hw rel m.vol disk x ≡ fat_of hw rel m.vol m.disk x
    pub beyond : (s : ℕ) → OutsideFat hw rel m.vol s → rel.sector disk s ≡ rel.sector m.disk s

  walk_step :
      (fuel c next val : ℕ) (m m1 : Machine hw)
      → next < end_of_chain
      → fat_read_entry hw next m ≡ (ok val, m1)
      → walk_chain hw (suc fuel) c next m ≡ walk_chain hw fuel next val m1
  unfolding walk_chain
  walk_step fuel c next val m m1 lt read =
      rw (walk_chain, lt→ltb next end_of_chain lt, read, and_then)

  walk_end :
      (fuel c next : ℕ) (m : Machine hw)
      → end_of_chain ≤ next
      → walk_chain hw (suc fuel) c next m ≡ (ok c, m)
  unfolding walk_chain
  walk_end fuel c next m h = rw (walk_chain, le→ltb next end_of_chain h)

  link_from_none :
      (fat : ℕ → ℕ) (c : ℕ) (cs : List ℕ) (x : ℕ) → link fat 0 (c ∷ cs) x ≡ link fat c cs x
  link_from_none fat c cs x = link-cons fat 0 c x cs

  NotIn-last_of : (x c : ℕ) (cs : List ℕ) → NotIn x (c ∷ cs) → x ≢ last_of c cs
  NotIn-last_of x c [] h = h.0
  NotIn-last_of x c (d ∷ cs) h = NotIn-last_of x d cs h.1

  -- On a reliable card that holds the FAT copies, with `n` > 0 free clusters among the ones from 2 on
  -- that the FAT has entries for: the allocation of `n` clusters returns the first and the last of
  -- the first `n` free clusters, and with the end mark on the last the FAT leads from the first through
  -- all of them, in increasing order, to the mark; the entry of every other cluster is as it was.
  pub alloc_chain-NewChain :
      (left n : ℕ) (m : Machine hw)
      → Ready hw rel m
      → 2 + left ≡ clusters hw rel m
      → 0 < n
      → length (first_free (fat_of hw rel m.vol m.disk) left n 2) ≡ n
      → NewChain left n m
  alloc_chain-NewChain left n m r room some enough =
      let fat : ℕ → ℕ = fat_of hw rel m.vol m.disk in
      let hi : ℕ = clusters hw rel m in
      let bound = r.entries in
      let small : n < 2 ^ 32 = omega (arith, sym enough, length-first_free fat left n 2) in
      let al =
        alloc_chain-Allocated hw rel left n 2 n no_alloc m r room (omega arith) small (inl refl)
          enough in
      let m1 : Machine hw = with_disk hw al.ring al.disk m in
      let made = first_free fat left n 2 in
      let split = head_of-cons 0 n made enough some in
      let rest : List ℕ = split.0 in
      let f : ℕ = al.alloc.first_clus in
      let found : made ≡ f ∷ rest = split.1 ∙ ap (λ x. x ∷ rest) (sym al.first) in
      let ends : al.alloc.last_clus ≡ last_of f rest = al.last ∙ ap (last_of 0) found in
      let shape : Between 1 hi (f ∷ rest) × AllFree fat (f ∷ rest) =
        subst (λ h. Between 1 h (f ∷ rest) × AllFree fat (f ∷ rest)) room
          (subst (λ l. Between 1 (2 + left) l × AllFree fat l) found
            (first_free-Between fat left n 2 1 (omega arith))) in
      let linked : Agree 0 hi (fat_of hw rel m.vol al.disk) (link fat f rest) = λ x lo lt.
        al.links x lo lt ∙ ap (λ l. link fat 0 l x) found ∙ link_from_none fat f rest x in
      let last_lt : al.alloc.last_clus < hi = rw ends (last_of-lt f hi rest shape.0.1 shape.0.2) in
      let w =
        fat_write_entry-Updates hw rel al.alloc.last_clus chain_end_mark m1 r.fits (omega arith)
          al.size (omega arith) in
      let after : Agree 0 hi (fat_of hw rel m.vol w.disk)
          (update (link fat f rest) (last_of f rest) chain_end_mark) =
        λ x lo lt.
          w.entries 0 x r.fits.some_fat (omega arith)
          ∙ ap (λ l. if x == l then chain_end_mark else fat_of hw rel m.vol al.disk x) ends
          ∙ ap (λ v. if x == last_of f rest then chain_end_mark else v) (linked x lo lt) in
      record {
        alloc = al.alloc;
        rest = rest;
        linked = m1;
        ring = w.ring;
        disk = w.disk;
        allocates = al.returns;
        beyond = λ s out. w.beyond s out ∙ al.beyond s out;
        all_found = omega (arith, al.found);
        closes = w.returns;
        size = w.size;
        first_ones = found;
        ends = ends;
        ordered = shape.0;
        were_free = shape.1;
        chained =
            IsChain-Agree (fat_of hw rel m.vol w.disk)
              (update (link fat f rest) (last_of f rest) chain_end_mark) chain_end_mark hi f rest
              after shape.0.1 shape.0.2
              (link-IsChain fat chain_end_mark f hi rest (omega (arith, shape.0.0)) shape.0.2);
        others = λ x lt out.
            after x (omega arith) lt
            ∙ rw (ne→== x (last_of f rest) (NotIn-last_of x f rest out))
                (link_outside fat f x rest out.0 out.1);
      }

  -- From the last cluster on, or further ahead, the walk needs one round for each cluster.
  pub walk_chain-IsChain :
      (fuel c d : ℕ) (cs : List ℕ) (m : Machine hw)
      → Ready hw rel m
      → clusters hw rel m ≤ end_of_chain
      → length cs + 1 < fuel
      → d < clusters hw rel m
      → Between d (clusters hw rel m) cs
      → IsChain (fat_of hw rel m.vol m.disk) chain_end_mark d cs
      → (ring : List ℕ) × (walk_chain hw fuel c d m
          ≡ (ok (last_of d cs), with_disk hw ring m.disk m))
        × (length ring ≡ 1024)
  walk_chain-IsChain zero c d cs m r small enough lt b chain = absurd (omega arith)
  walk_chain-IsChain (suc zero) c d cs m r small enough lt b chain = absurd (omega arith)
  walk_chain-IsChain (suc (suc fuel)) c d [] m r small enough lt b chain =
      let m1 : Machine hw = after_read hw rel d m in
      (
        m1.uart.ring,
        walk_step (suc fuel) c d (fat_of hw rel m.vol m.disk d) m m1 (omega arith)
              (read_lem hw rel d m r lt)
            ∙ ap (λ e. walk_chain hw (suc fuel) d e m1) chain
            ∙ walk_end fuel d chain_end_mark m1 (omega arith),
        (after_read-Ready hw rel d m r).size,
      )
  walk_chain-IsChain (suc (suc fuel)) c d (e ∷ cs) m r small enough lt b chain =
      let m1 : Machine hw = after_read hw rel d m in
      let rest =
        walk_chain-IsChain (suc fuel) d e cs m1 (after_read-Ready hw rel d m r) small (omega arith)
          b.1 b.2 chain.1 in
      (
        rest.0,
        walk_step (suc fuel) c d (fat_of hw rel m.vol m.disk d) m m1 (omega arith)
              (read_lem hw rel d m r lt)
            ∙ ap (λ x. walk_chain hw (suc fuel) d x m1) chain.0
            ∙ rest.1,
        rest.2,
      )

  -- What opening the file again leaves: the walk from the first cluster to the last.
  pub record Reopened (fuel left n : ℕ) (m : Machine hw) : Type 0 where
    pub new : NewChain left n m
    pub ring : List ℕ
    pub walks :
        walk_chain hw fuel new.alloc.first_clus new.alloc.first_clus
          (with_disk hw new.ring new.disk m)
        ≡ (ok new.alloc.last_clus, with_disk hw ring new.disk m)

  -- On a reliable card that holds the FAT copies, with `n` > 0 free clusters and every cluster number
  -- below the end-of-chain marks: the walk of a resumed file, from the first cluster of a chain of
  -- `n` clusters that the allocation has made, ends with the last one and an unchanged disk, for any
  -- fuel above `n`.
  pub walk_chain-alloc_chain :
      (fuel left n : ℕ) (m : Machine hw)
      → Ready hw rel m
      → 2 + left ≡ clusters hw rel m
      → clusters hw rel m ≤ end_of_chain
      → 0 < n
      → n < fuel
      → length (first_free (fat_of hw rel m.vol m.disk) left n 2) ≡ n
      → Reopened fuel left n m
  walk_chain-alloc_chain fuel left n m r room marks some enough free =
      let new = alloc_chain-NewChain left n m r room some free in
      let walk =
        walk_chain-IsChain fuel new.alloc.first_clus new.alloc.first_clus new.rest
          (with_disk hw new.ring new.disk m)
          (record { fits = r.fits; size = new.size; entries = r.entries }) marks
          (omega (arith, enough, ap length (sym new.first_ones) ∙ free)) new.ordered.1 new.ordered.2
          new.chained in
      record {
        new = new;
        ring = walk.0;
        walks = walk.1 ∙ ap (λ l. (ok l, with_disk hw walk.0 new.disk m)) (sym new.ends);
      }
