-- ===== src/Fat/Log/Alloc.antt =====
-- `alloc_chain` on a card in working order: it takes the first free clusters and links them.
use native.Mathlib.Decide.{ℕ_discrete}
use barelog.Prelude.{
  ℕ, zero, suc, ◌+◌, ◌^◌, ◌≤◌, ◌<◌, ◌≡◌, ◌≢◌, ◌⊎◌, inr, refl, sym, ap, ◌∙◌, Bool, true, false, List,
  arith, length, u32, ◌==◌, ==_iff, ne→==, lt→ltb, le→ltb, if◌then◌else◌,
}
use barelog.Prelude.Run.{Result, ok, and_then}
use barelog.Device.{IsReliable}
use barelog.Machine.{Hardware, Machine}
use barelog.Fat.{fat_read_entry, fat_write_entry}
use barelog.Fat.Entry.Write.{with_disk}
use barelog.Fat.Entry.View.{OutsideFat, fat_write_entry-Updates}
use barelog.Fat.Log.Chain.{
  first_free, update, link, last_of, head_of, Agree, first_free-none, first_free-end,
  first_free-free, first_free-used, first_free-Agree, link-Agree, link-nil, link-cons,
}
use barelog.Fat.Log.Open.{Alloc, take_clus, alloc_chain}
use barelog.Fat.Log.Ready.{clusters, fat_of, Ready, after_read, after_read-Ready, read_lem}

module _ (hw : Hardware) (rel : IsReliable hw.dev) where
  open rel use {capacity, sector, length-sector}

  -- One round, given what the read returns.
  module _ (fuel n c val : ℕ) (a : Alloc) (m m1 : Machine hw) (more : a.found_clus < n)
      (small : c + 1 < 2 ^ 32) (read : fat_read_entry hw c m ≡ (ok val, m1)) where
    next_c : u32 (c + 1) ≡ c + 1
    next_c = omega arith

    round_used : val ≢ 0 → alloc_chain hw (suc fuel) n c a m ≡ alloc_chain hw fuel n (c + 1) a m1
    unfolding alloc_chain
    round_used ne =
        rw (alloc_chain, lt→ltb a.found_clus n more, read, and_then, ne→== val 0 ne, next_c)

    round_first :
        val ≡ 0
        → a.prev_clus ≡ 0
        → alloc_chain hw (suc fuel) n c a m ≡ alloc_chain hw fuel n (c + 1) (take_clus a c) m1
    unfolding alloc_chain
    round_first free none = rw (
      alloc_chain,
      lt→ltb a.found_clus n more,
      read,
      and_then,
      (==_iff val 0).1 free,
      (==_iff a.prev_clus 0).1 none,
      next_c,
    )

    round_next :
        {m2 : Machine hw}
        → val ≡ 0
        → a.prev_clus ≢ 0
        → fat_write_entry hw a.prev_clus c m1 ≡ (ok tt, m2)
        → alloc_chain hw (suc fuel) n c a m ≡ alloc_chain hw fuel n (c + 1) (take_clus a c) m2
    unfolding alloc_chain
    round_next free some write = rw (
      alloc_chain,
      lt→ltb a.found_clus n more,
      read,
      and_then,
      (==_iff val 0).1 free,
      ne→== a.prev_clus 0 some,
      write,
      next_c,
    )

  alloc_done :
      (fuel n c : ℕ) (a : Alloc) (m : Machine hw)
      → n ≤ a.found_clus
      → alloc_chain hw (suc fuel) n c a m ≡ (ok a, m)
  unfolding alloc_chain
  alloc_done fuel n c a m h = rw (alloc_chain, le→ltb a.found_clus n h)

  -- What the allocation of `k` more clusters hw rel from `c` on leaves, `left` clusters hw rel to look at.
  pub record Allocated (left k c : ℕ) (a : Alloc) (m : Machine hw)
      (result : Result Alloc × Machine hw) : Type 0 where
    pub ring : List ℕ
    pub disk : hw.dev.Disk
    pub alloc : Alloc
    pub returns : result ≡ (ok alloc, with_disk hw ring disk m)
    pub size : length ring ≡ 1024
    pub found : alloc.found_clus ≡ a.found_clus + k
    pub first : alloc.first_clus ≡ (
        if a.found_clus == 0
        then head_of a.first_clus (first_free (fat_of hw rel m.vol m.disk) left k c)
        else a.first_clus)
    pub last :
        alloc.last_clus ≡ last_of a.last_clus (first_free (fat_of hw rel m.vol m.disk) left k c)
    pub links : Agree 0 (clusters hw rel m) (fat_of hw rel m.vol disk) (
        link
          (fat_of hw rel m.vol m.disk)
          a.prev_clus
          (first_free (fat_of hw rel m.vol m.disk) left k c))
    pub beyond : (s : ℕ) → OutsideFat hw rel m.vol s → sector disk s ≡ sector m.disk s

  if_same : (b : Bool) (x : ℕ) → (if b then x else x) ≡ x
  if_same true x = refl
  if_same false x = refl

  if_positive : (n x y : ℕ) → 0 < n → (if n == 0 then x else y) ≡ y
  if_positive n x y h = ground arith

  Allocated-none :
      (left c : ℕ) (a : Alloc) (m : Machine hw) → Ready hw rel m → Allocated left 0 c a m (ok a, m)
  Allocated-none left c a m r =
      let none = first_free-none (fat_of hw rel m.vol m.disk) left c in
      record {
        ring = m.uart.ring;
        disk = m.disk;
        alloc = a;
        returns = refl;
        size = r.size;
        found = omega arith;
        first = rw none (sym (if_same (a.found_clus == 0) a.first_clus));
        last = rw none;
        links = rw none (λ x lo hi. sym (link-nil (fat_of hw rel m.vol m.disk) a.prev_clus x));
        beyond = λ s out. refl;
      }

  -- The cluster `c` is in use.
  Allocated-used :
      (left k c : ℕ) (a : Alloc) (m : Machine hw) (result : Result Alloc × Machine hw)
      → fat_of hw rel m.vol m.disk c ≢ 0
      → Allocated left k (c + 1) a (after_read hw rel c m) result
      → Allocated (suc left) k c a m result
  Allocated-used left k c a m result used rest =
      let skip = first_free-used (fat_of hw rel m.vol m.disk) left k c used in
      record {
        ring = rest.ring;
        disk = rest.disk;
        alloc = rest.alloc;
        returns = rest.returns;
        size = rest.size;
        found = rest.found;
        first = rw skip rest.first;
        last = rw skip rest.last;
        links = rw skip rest.links;
        beyond = rest.beyond;
      }

  -- The cluster `c` is taken, and the FAT of `m2` has been linked to it.
  Allocated-taken :
      (left k c : ℕ) (a : Alloc) (m : Machine hw) (ring2 : List ℕ) (d2 : hw.dev.Disk)
      (result : Result Alloc × Machine hw)
      → fat_of hw rel m.vol m.disk c ≡ 0
      → c + 1 + left ≡ clusters hw rel m
      → a.found_clus + 1 < 2 ^ 32
      → Agree 0 (clusters hw rel m) (fat_of hw rel m.vol d2) (λ y.
        if a.prev_clus == 0
        then fat_of hw rel m.vol m.disk y
        else update (fat_of hw rel m.vol m.disk) a.prev_clus c y)
      → Agree (c + 1) (clusters hw rel m) (fat_of hw rel m.vol d2) (fat_of hw rel m.vol m.disk)
      → ((s : ℕ) → OutsideFat hw rel m.vol s → sector d2 s ≡ sector m.disk s)
      → Allocated left k (c + 1) (take_clus a c) (with_disk hw ring2 d2 m) result
      → Allocated (suc left) (suc k) c a m result
  Allocated-taken left k c a m ring2 d2 result free room small linked ahead far rest =
      let fat : ℕ → ℕ = fat_of hw rel m.vol m.disk in
      let count : u32 (a.found_clus + 1) ≡ a.found_clus + 1 = omega arith in
      let here = first_free-free fat left k c free in
      let same : first_free (fat_of hw rel m.vol d2) left k (c + 1)
          ≡ first_free fat left k (c + 1) =
        first_free-Agree (fat_of hw rel m.vol d2) fat left k (c + 1)
          (λ x lo hi. ahead x lo (omega arith)) in
      record {
        ring = rest.ring;
        disk = rest.disk;
        alloc = rest.alloc;
        returns = rest.returns;
        size = rest.size;
        found = omega (arith, rest.found);
        first = rw here (rest.first ∙ if_positive (u32 (a.found_clus + 1)) _ _ (omega arith));
        last = rw here (rest.last ∙ ap (last_of c) same);
        links = rw here (λ x lo hi.
            let cs : List ℕ = first_free fat left k (c + 1) in
            rest.links x lo hi
            ∙ ap (λ l. link (fat_of hw rel m.vol d2) c l x) same
            ∙ link-Agree (fat_of hw rel m.vol d2)
                (λ y. if a.prev_clus == 0 then fat y else update fat a.prev_clus c y)
                (clusters hw rel m) c cs linked x lo hi
            ∙ sym (link-cons fat a.prev_clus c x cs));
        beyond = λ s out. rest.beyond s out ∙ far s out;
      }

  -- A round that takes the cluster `c`.
  record Taken (fuel n c : ℕ) (a : Alloc) (m : Machine hw) : Type 0 where
    pub ring : List ℕ
    pub disk : hw.dev.Disk
    pub goes_on :
        alloc_chain hw (suc fuel) n c a m
        ≡ alloc_chain hw fuel n (c + 1) (take_clus a c) (with_disk hw ring disk m)
    pub size : length ring ≡ 1024
    pub linked : Agree 0 (clusters hw rel m) (fat_of hw rel m.vol disk) (λ y.
        if a.prev_clus == 0
        then fat_of hw rel m.vol m.disk y
        else update (fat_of hw rel m.vol m.disk) a.prev_clus c y)
    pub ahead :
        Agree (c + 1) (clusters hw rel m) (fat_of hw rel m.vol disk) (fat_of hw rel m.vol m.disk)
    pub beyond : (s : ℕ) → OutsideFat hw rel m.vol s → sector disk s ≡ sector m.disk s

  alloc_chain-Taken :
      (fuel n c : ℕ) (a : Alloc) (m : Machine hw)
      → Ready hw rel m
      → c < clusters hw rel m
      → a.found_clus < n
      → (a.prev_clus ≡ 0) ⊎ (a.prev_clus < c)
      → fat_of hw rel m.vol m.disk c ≡ 0
      → Taken fuel n c a m
  alloc_chain-Taken fuel n c a m r lt more prev free = elim (ℕ_discrete a.prev_clus 0) [
    | yes none ↦
        let bound = r.entries in
        let m1 : Machine hw = after_read hw rel c m in
        record {
          ring = m1.uart.ring;
          disk = m.disk;
          goes_on =
              round_first fuel n c (fat_of hw rel m.vol m.disk c) a m m1 more (omega arith)
                (read_lem hw rel c m r lt) free none;
          size = (after_read-Ready hw rel c m r).size;
          linked = λ x lo hi. rw ((==_iff a.prev_clus 0).1 none);
          ahead = λ x lo hi. refl;
          beyond = λ s out. refl;
        }
    | no some ↦
        let bound = r.entries in
        let before : a.prev_clus < c = omega (arith, prev, some) in
        let m1 : Machine hw = after_read hw rel c m in
        let r1 : Ready hw rel m1 = after_read-Ready hw rel c m r in
        let w =
          fat_write_entry-Updates hw rel a.prev_clus c m1 r1.fits (omega arith) r1.size
            (omega arith) in
        record {
          ring = w.ring;
          disk = w.disk;
          goes_on =
              round_next fuel n c (fat_of hw rel m.vol m.disk c) a m m1 more (omega arith)
                (read_lem hw rel c m r lt) free some w.returns;
          size = w.size;
          linked = λ x lo hi.
              rw (ne→== a.prev_clus 0 some) (w.entries 0 x r.fits.some_fat (omega arith));
          ahead = λ x lo hi.
              w.entries 0 x r.fits.some_fat (omega arith)
              ∙ rw (ne→== x a.prev_clus (λ e. omega (arith, e)));
          beyond = w.beyond;
        }
  ]

  -- With `k` free clusters hw rel ahead the loop returns, and has linked the first `k` of them.
  pub alloc_chain-Allocated :
      (left k c n : ℕ) (a : Alloc) (m : Machine hw)
      → Ready hw rel m
      → c + left ≡ clusters hw rel m
      → a.found_clus + k ≡ n
      → n < 2 ^ 32
      → (a.prev_clus ≡ 0) ⊎ (a.prev_clus < c)
      → length (first_free (fat_of hw rel m.vol m.disk) left k c) ≡ k
      → Allocated left k c a m (alloc_chain hw (suc left) n c a m)
  alloc_chain-Allocated left zero c n a m r room count small prev enough =
      rw (alloc_done left n c a m (omega arith)) (Allocated-none left c a m r)
  alloc_chain-Allocated zero (suc k) c n a m r room count small prev enough = absurd (
      omega (arith, sym enough ∙ ap length (first_free-end (fat_of hw rel m.vol m.disk) (suc k) c)))
  alloc_chain-Allocated (suc left) (suc k) c n a m r room count small prev enough =
      let fat : ℕ → ℕ = fat_of hw rel m.vol m.disk in
      let lt : c < clusters hw rel m = omega arith in
      let bound = r.entries in
      let read = read_lem hw rel c m r lt in
      let m1 : Machine hw = after_read hw rel c m in
      let r1 : Ready hw rel m1 = after_read-Ready hw rel c m r in
      elim (ℕ_discrete (fat c) 0) [
        | no used ↦
            rw (round_used (suc left) n c (fat c) a m m1 (omega arith) (omega arith) read used) (
              Allocated-used left (suc k) c a m _ used (
                alloc_chain-Allocated left (suc k) (c + 1) n a m1 r1 (omega arith) count small
                  (omega arith)
                  (ap length (sym (first_free-used fat left (suc k) c used)) ∙ enough)))
        | yes free ↦
            let t = alloc_chain-Taken (suc left) n c a m r lt (omega arith) prev free in
            let same =
              first_free-Agree (fat_of hw rel m.vol t.disk) fat left k (c + 1)
                (λ x lo hi. t.ahead x lo (omega arith)) in
            rw t.goes_on (
              Allocated-taken left k c a m t.ring t.disk _ free (omega arith) (omega arith) t.linked
                t.ahead t.beyond
                (alloc_chain-Allocated left k (c + 1) n (take_clus a c)
                  (with_disk hw t.ring t.disk m)
                  (record { fits = r.fits; size = t.size; entries = r.entries }) (omega arith)
                  (omega arith) small (inr (omega arith))
                  (ap length same
                    ∙ omega (arith, ap length (sym (first_free-free fat left k c free)) ∙ enough))))
      ]
