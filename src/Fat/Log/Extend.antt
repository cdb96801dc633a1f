-- ===== src/Fat/Log/Extend.antt =====
-- `fat32_append_sector` on a file whose allocation is used up.
use barelog.Prelude.{
  ℕ, ◌+◌, ◌-◌, ◌*◌, ◌^◌, ◌≤◌, ◌<◌, ◌≡◌, ◌≢◌, inl, refl, sym, ap, ◌∙◌, List, [], ◌∷◌, ◌++◌, arith,
  length, drop, Option, u32, sub32, le→leb, ==_refl, ne→==,
}
use barelog.Prelude.Run.{Result, ok, and_then}
use barelog.Device.{IsReliable}
use barelog.Machine.{Hardware, Machine, put_sector}
use barelog.Fat.{clus_to_lba, chain_end_mark, fat_write_entry}
use barelog.Fat.Entry.View.{OutsideFat, fat_write_entry-Updates}
use barelog.Fat.Entry.Write.{with_disk}
use barelog.Fat.Log.Ready.{Ready, clusters, fat_of}
use barelog.Fat.Log.Append.{
  Span, opt_len, span_bytes, opt_bytes, find_free, extend, advance, write_spans,
  fat32_append_sector,
}
use barelog.Fat.Log.FileSectors.{fat_of-Agree}
use barelog.Fat.Log.Chain.{Agree, first_free}
use barelog.Fat.Log.Open.{zero_fill}
use barelog.Fat.Log.ZeroFill.{zeros, zero_fill-Zeroed}
use barelog.Fat.Log.FindFree.{find_free-Found}

module _ (hw : Hardware) (rel : IsReliable hw.dev) where
  open rel use {capacity, sector, store, sector-store, sector-erase}

  -- The calls of the extension, in order, when all of them succeed.
  extend_steps :
      (fuel c : ℕ) (m m1 m2 m3 m4 : Machine hw)
      → find_free hw fuel 2 m ≡ (ok c, m1)
      → fat_write_entry hw m1.logfile.last_clus c m1 ≡ (ok tt, m2)
      → fat_write_entry hw c chain_end_mark m2 ≡ (ok tt, m3)
      → let lba = clus_to_lba m3.vol c in
        let end = u32 (lba + m3.vol.sec_per_clus) in
        zero_fill hw
            (end - lba)
            lba
            (record m3 { disk = hw.dev.sd_erase lba (sub32 end 1) m3.disk })
          ≡ (ok tt, m4)
        → extend hw fuel m ≡ (
          ok tt,
          record m4 {
            logfile = record m4.logfile {
              end_lba = u32 (clus_to_lba m3.vol c + m3.vol.sec_per_clus);
              last_clus = c;
            };
          },
        )
  unfolding extend
  extend_steps fuel c m m1 m2 m3 m4 search link mark clear =
      rw (extend, search, and_then, link, mark, clear)

  -- The calls of `fat32_append_sector` on a full file.
  append_steps :
      (fuel : ℕ) (a : Span) (b : Option Span) (m m1 m2 : Machine hw)
      → m.logfile.end_lba ≤ m.logfile.cur_lba
      → extend hw fuel m ≡ (ok tt, m1)
      → write_spans hw a b m1 ≡ (ok tt, m2)
      → fat32_append_sector hw fuel a b m ≡ (ok tt, advance hw (a.len + opt_len b) m2)
  unfolding fat32_append_sector
  append_steps fuel a b m m1 m2 full more write =
      rw (fat32_append_sector, le→leb m.logfile.end_lba m.logfile.cur_lba full, more, and_then)
        (ap
          (λ (r : Result (Unit {0}) × Machine hw).
            and_then r (λ _ m'. (ok tt, advance hw (a.len + opt_len b) m')))
          write)

  -- The file is full, and the card has room for one more cluster: `c` is the first free one, its
  -- sectors lie behind the FAT and on the card, and so does the sector at `cur_lba`.
  pub record HasSpare (left c : ℕ) (m : Machine hw) : Type 0 where
    pub ready : Ready hw rel m
    pub room : 2 + left ≡ clusters hw rel m
    pub found : first_free (fat_of hw rel m.vol m.disk) left 1 2 ≡ c ∷ []
    pub full : m.logfile.end_lba ≤ m.logfile.cur_lba
    pub last_in : m.logfile.last_clus < clusters hw rel m
    pub last_ne : m.logfile.last_clus ≢ c
    pub some : 0 < m.vol.sec_per_clus
    pub behind_fat : m.vol.fat_lba + m.vol.num_fats * m.vol.fat_sz32 ≤ clus_to_lba m.vol c
    pub on_card : clus_to_lba m.vol c + m.vol.sec_per_clus ≤ capacity
    pub no_wrap : clus_to_lba m.vol c + m.vol.sec_per_clus < 2 ^ 32
    pub cur_on_card : m.logfile.cur_lba < capacity
    pub cur_no_fat : OutsideFat hw rel m.vol m.logfile.cur_lba

  -- What an extension leaves.
  record Extended (left c : ℕ) (m : Machine hw) : Type 0 where
    pub ring : List ℕ
    pub disk : hw.dev.Disk
    pub returns : extend hw left m ≡ (
      ok tt,
      record (with_disk hw ring disk m) {
        logfile = record m.logfile {
          end_lba = u32 (clus_to_lba m.vol c + m.vol.sec_per_clus);
          last_clus = c;
        };
      },
    )
    pub size : length ring ≡ 1024
    pub upper : drop 512 ring ≡ drop 512 m.uart.ring
    pub linked : fat_of hw rel m.vol disk m.logfile.last_clus ≡ c
    pub marked : fat_of hw rel m.vol disk c ≡ chain_end_mark
    pub cleared : sector disk (clus_to_lba m.vol c) ≡ zeros

  extend-Extended : (left c : ℕ) (m : Machine hw) → HasSpare left c m → Extended left c m
  extend-Extended left c m h =
      let f = find_free-Found hw rel left 2 c m h.ready h.room h.found in
      let bound = h.ready.entries in
      let last : ℕ = m.logfile.last_clus in
      let last_in = h.last_in in
      let c_in = f.in_fat in
      let u =
        fat_write_entry-Updates hw rel last c (with_disk hw f.ring m.disk m) h.ready.fits
          (omega arith) f.size (omega arith) in
      let w =
        fat_write_entry-Updates hw rel c chain_end_mark (with_disk hw u.ring u.disk m) h.ready.fits
          (omega arith) u.size (omega arith) in
      let lba : ℕ = clus_to_lba m.vol c in
      let end : ℕ = u32 (lba + m.vol.sec_per_clus) in
      let card = h.on_card in
      let wide = h.no_wrap in
      let some = h.some in
      let m3 : Machine hw = record (with_disk hw w.ring w.disk m) {
        disk = hw.dev.sd_erase lba (sub32 end 1) w.disk;
      } in
      let z = zero_fill-Zeroed hw rel (end - lba) lba m3 (omega arith) in
      let kept : Agree 0 (clusters hw rel m) (fat_of hw rel m.vol z.disk)
          (fat_of hw rel m.vol w.disk) =
        fat_of-Agree hw rel m z.disk w.disk h.ready (λ s lo hi.
          z.outside s (inl (omega (arith, hi, h.behind_fat)))
          ∙ sector-erase lba (sub32 end 1) s w.disk (inl (omega (arith, hi, h.behind_fat)))) in
      record {
        ring = w.ring;
        disk = z.disk;
        returns =
            extend_steps left c m (with_disk hw f.ring m.disk m) (with_disk hw u.ring u.disk m)
              (with_disk hw w.ring w.disk m) (with_disk hw w.ring z.disk m3) f.returns u.returns
              w.returns z.returns;
        size = w.size;
        upper = w.upper ∙ u.upper ∙ f.upper;
        linked =
            kept last (omega arith) last_in
            ∙ w.entries 0 last h.ready.fits.some_fat (omega arith)
            ∙ rw (ne→== last c h.last_ne)
                (u.entries 0 last h.ready.fits.some_fat (omega arith) ∙ rw (==_refl last));
        marked =
            kept c (omega arith) c_in
            ∙ w.entries 0 c h.ready.fits.some_fat (omega arith)
            ∙ rw (==_refl c);
        cleared = z.inside lba (omega arith) (omega arith);
      }

  -- On a reliable card that holds the FAT copies, with a ring of 1024 bytes and fuel for a look at
  -- every cluster: the file is full, c is the first free cluster and another one than the file's
  -- last, a cluster of the volume; the sectors of c, at least one, lie behind the FAT copies, on
  -- the card and below 2^32; and the sector at cur_lba lies on the card, outside the FAT copies,
  -- and is not the first of c. Then fat32_append_sector of two spans of 512 bytes returns 0 and
  -- has linked c behind the last cluster, but it has written the spans, as the ring holds them at
  -- the end, its second half unchanged, to the sector at the old cur_lba; cur_lba is now the one
  -- after it, while end_lba is the end of c, the first sector of which still holds zeros.
  pub fat32_append_sector_astray :
      (left c : ℕ) (a : Span) (b : Option Span) (m : Machine hw)
      → HasSpare left c m
      → ((ring : List ℕ)
          → length ring ≡ 1024
          → length (span_bytes ring a ++ opt_bytes ring b) ≡ 512)
      → clus_to_lba m.vol c ≢ m.logfile.cur_lba
      → let (r, m') = fat32_append_sector hw left a b m in
        (r ≡ ok tt)
        × (fat_of hw rel m.vol m'.disk m.logfile.last_clus ≡ c)
        × (fat_of hw rel m.vol m'.disk c ≡ chain_end_mark)
        × (m'.logfile.last_clus ≡ c)
        × (m'.logfile.cur_lba ≡ u32 (m.logfile.cur_lba + 1))
        × (m'.logfile.end_lba ≡ clus_to_lba m.vol c + m.vol.sec_per_clus)
        × (drop 512 m'.uart.ring ≡ drop 512 m.uart.ring)
        × (sector m'.disk m.logfile.cur_lba ≡ span_bytes m'.uart.ring a ++ opt_bytes m'.uart.ring b)
        × (sector m'.disk (clus_to_lba m.vol c) ≡ zeros)
  fat32_append_sector_astray left c a b m h sized apart =
      let x = extend-Extended left c m h in
      let cur : ℕ = m.logfile.cur_lba in
      let wide = h.no_wrap in
      let bytes : List ℕ = span_bytes x.ring a ++ opt_bytes x.ring b in
      let whole : length bytes ≡ 512 = sized x.ring x.size in
      let m1 : Machine hw = record (with_disk hw x.ring x.disk m) {
        logfile = record m.logfile {
          end_lba = u32 (clus_to_lba m.vol c + m.vol.sec_per_clus);
          last_clus = c;
        };
      } in
      let d : hw.dev.Disk = store cur bytes x.disk in
      let other : (s : ℕ) → s ≢ cur → sector d s ≡ sector x.disk s =
        λ s ne. sector-store cur s bytes x.disk whole ∙ rw (ne→== cur s (λ e. ne (sym e))) in
      let kept : Agree 0 (clusters hw rel m) (fat_of hw rel m.vol d) (fat_of hw rel m.vol x.disk) =
        fat_of-Agree hw rel m d x.disk h.ready
          (λ s lo hi. other s (λ e. omega (arith, e, lo, hi, h.cur_no_fat))) in
      let c_in = (find_free-Found hw rel left 2 c m h.ready h.room h.found).in_fat in
      rw
        (append_steps left a b m m1 (record m1 { disk = d }) h.full x.returns
          (ap (put_sector m1) (
            rel.write_zc_lem cur (span_bytes x.ring a) (opt_bytes x.ring b) x.disk whole
            ∙ rel.write_ok cur bytes x.disk h.cur_on_card whole)))
        (
          refl,
          kept m.logfile.last_clus (omega arith) h.last_in ∙ x.linked,
          kept c (omega arith) c_in ∙ x.marked,
          refl,
          refl,
          omega arith,
          x.upper,
          sector-store cur cur bytes x.disk whole ∙ rw (==_refl cur),
          other (clus_to_lba m.vol c) apart ∙ x.cleared,
        )
