-- ===== src/Bench.antt =====
-- Hardware to run the firmware on: a card in memory, an array of cells.
pub mod Flash
use barelog.Prelude.{
  ℕ, ◌≡◌, refl, sym, ap, ◌∙◌, List, ◌++◌, arith, length, take, replicate, ltb, ◌==◌, if◌then◌else◌,
  lt→ltb, le→ltb, length-append, length-take, length-replicate, take-append_eq,
}
use barelog.Prelude.Run.{ok, err, Run}
use barelog.Device.{BlockDevice, IsReliable}
use barelog.Eeprom.{cells, IsMemory}
use barelog.Machine.{Hardware}

abbrev pub card_sectors : ℕ
card_sectors = 65536

-- A sector as 512 bytes.
abbrev pub as_sector : List ℕ → List ℕ
as_sector b = take 512 (b ++ replicate 512 0)

pub length-as_sector : (b : List ℕ) → length (as_sector b) ≡ 512
length-as_sector b = omega (
  arith,
  length-take 512 (b ++ replicate 512 0),
  length-append b (replicate 512 0),
  length-replicate {A = ℕ} 512 0,
)

as_sector_full : (b : List ℕ) → length b ≡ 512 → as_sector b ≡ b
as_sector_full b h =
    ap (λ n. take n (b ++ replicate 512 0)) (sym h) ∙ take-append_eq b (replicate 512 0)

abbrev write_card : ℕ → List ℕ → Run (ℕ → List ℕ) (Unit {0})
write_card l b d =
    if ltb l card_sectors then (ok tt, λ k. if l == k then b else d k) else (err 4, d)

-- A card that keeps its sectors in memory.
abbrev pub memory_card : BlockDevice
memory_card = record {
  Disk = ℕ → List ℕ;
  sd_init = λ d. (ok tt, d);
  sd_read_sector = λ l d. if ltb l card_sectors then (ok (as_sector (d l)), d) else (err 5, d);
  sd_write_sector = write_card;
  sd_write_sector_zc = λ l a b. write_card l (a ++ b);
  sd_write_zero_sector = λ l. write_card l (replicate 512 0);
  sd_erase = λ s e d. d;
}

pub sector-write_card :
    (l k : ℕ) (b : List ℕ) (d : ℕ → List ℕ)
    → length b ≡ 512
    → as_sector (if l == k then b else d k) ≡ (if l == k then b else as_sector (d k))
sector-write_card l k b d h = ground (arith, as_sector_full b h)

unfoldable pub memory_card-IsReliable : IsReliable memory_card
memory_card-IsReliable = record {
  capacity = card_sectors;
  sector = λ d l. as_sector (d l);
  store = λ l b d k. if l == k then b else d k;
  length-sector = λ d l. length-as_sector (d l);
  read_ok = λ l d h. rw (lt→ltb l card_sectors h);
  read_end = λ l d h. rw (le→ltb l card_sectors h);
  write_ok = λ l b d h e. rw (lt→ltb l card_sectors h);
  write_end = λ l b d h. rw (le→ltb l card_sectors h);
  write_zc_lem = λ l a b d h. refl;
  write_zero_lem = λ l d. refl;
  sector-store = λ l k b d h. sector-write_card l k b d h;
  sector-erase = λ s e k d h. refl;
}

pub cells-IsMemory : IsMemory cells
cells-IsMemory = record {
  read-lt = λ a m. omega arith;
  read-write = λ a b v m ha hb. ground arith;
  read-update = λ a b v m ha hb. ground arith;
  read_dword_lem = λ a m h. refl;
  read-write_dword = λ a b v m ha hb. ground arith;
}

abbrev pub bench : Hardware
bench = record { dev = memory_card; ee = cells }
