-- ===== src/Examples/Card.antt =====
-- The log file on a card, at concrete inputs.
use barelog.Prelude.{
  ℕ, ◌+◌, ◌*◌, ◌≡◌, ◌≢◌, ◌++◌, none, drop, length-append, length-take, length-drop, refl, inl, inr,
  true, List, [], ◌∷◌, arith, length, drop, replicate, get_or, ◌==◌, if◌then◌else◌,
  length-replicate,
}
use barelog.Bench.{bench, memory_card-IsReliable}
use barelog.Fat.Log.Ready.{Ready, fat_of}
use barelog.Fat.Log.Chain.{first_free}
use barelog.Fat.Log.NewChain.{NewChain, Reopened, alloc_chain-NewChain, walk_chain-alloc_chain}
use barelog.Fat.{chain_end_mark}
use barelog.Fat.Log.Append.{Span, span_bytes, opt_bytes, fat32_append_sector}
use barelog.Fat.Log.Extend.{HasSpare, fat32_append_sector_astray}
use barelog.Fat.Log.Create.{Created, HasRoom, start_of, create-Created, create_overwrites}
use barelog.Fat.Log.DirEntry.{scan_entry-new_dir_entry}
use barelog.Fat.Log.ZeroFill.{zeros}
use barelog.Fat.Log.Open.{create, new_dir_entry, dir_fst_clus_hi, dir_fst_clus_lo, dir_file_size}
use barelog.Fat.Log.Names.{scan_entry_tells_apart}
use barelog.Fat.Log.{ScanVars, searching, make_logname, found, note_found, scan_entry}
use barelog.Prelude.Run.{ok}
use barelog.Machine.{Machine}
use barelog.Examples.{machine}

-- Two FAT sectors; the clusters 0 to 4 and 6 are in use.
abbrev used : List ℕ
used =
    0xF8 ∷ 255 ∷ 255 ∷ 15 ∷ 255 ∷ 255 ∷ 255 ∷ 15 ∷ 255 ∷ 255 ∷ 255 ∷ 15 ∷ 4 ∷ 0 ∷ 0 ∷ 0 ∷ 255 ∷ 255
    ∷ 255 ∷ 15 ∷ 0 ∷ 0 ∷ 0 ∷ 0 ∷ 255 ∷ 255 ∷ 255 ∷ 15 ∷ []

abbrev pub small_card : Machine bench
small_card = record machine {
  uart = record machine.uart { ring = replicate 1024 0x41 };
  vol = record machine.vol { fat_sz32 = 1; data_lba = 34 };
  disk = λ l. if l == 32 then used else replicate 512 0;
}

pub small_card-Ready : Ready bench memory_card-IsReliable small_card
unfolding memory_card-IsReliable
small_card-Ready = record {
  fits = omega arith;
  size = length-replicate {A = ℕ} 1024 0x41;
  entries = omega arith;
}

three_free :
    length (first_free (fat_of bench memory_card-IsReliable small_card.vol small_card.disk) 126 3 2)
    ≡ 3
unfolding memory_card-IsReliable first_free
three_free = refl

alloc_chain-NewChain_example : NewChain bench memory_card-IsReliable 126 3 small_card
alloc_chain-NewChain_example =
    alloc_chain-NewChain bench memory_card-IsReliable 126 3 small_card small_card-Ready refl
      (omega arith) three_free

walk_chain-alloc_chain_example : Reopened bench memory_card-IsReliable 4 126 3 small_card
walk_chain-alloc_chain_example =
    walk_chain-alloc_chain bench memory_card-IsReliable 4 126 3 small_card small_card-Ready refl
      (omega arith) (omega arith) (omega arith) three_free

-- The root directory's first sector is full up to the entry at 64.
abbrev pub free_entry : ScanVars
free_entry = record { found_lba = 0; found_off = 0; empty_lba = 34; empty_off = 64 }

two_free :
    length (first_free (fat_of bench memory_card-IsReliable small_card.vol small_card.disk) 126 2 2)
    ≡ 2
unfolding memory_card-IsReliable first_free
two_free = refl

pub small_start : start_of bench memory_card-IsReliable 126 2 small_card ≡ 37
unfolding memory_card-IsReliable first_free
small_start = refl

pub small_card-HasRoom : HasRoom bench memory_card-IsReliable 126 2 2 free_entry small_card
unfolding memory_card-IsReliable
small_card-HasRoom = record {
  ready = small_card-Ready;
  room = refl;
  some = omega arith;
  enough = two_free;
  sectors = omega arith;
  behind_fat = rw small_start (omega arith);
  on_card = rw small_start (omega arith);
  no_wrap = rw small_start (omega arith);
  dir_some = λ e. omega (arith, e);
  dir_on_card = omega arith;
  dir_no_fat = inr (omega arith);
  dir_apart = rw small_start (inl (omega arith));
}

abbrev pub log_name : List ℕ
log_name = b'L' ∷ b'O' ∷ b'G' ∷ b'0' ∷ b'0' ∷ b'0' ∷ b'0' ∷ b'7' ∷ b'T' ∷ b'X' ∷ b'T' ∷ []

create-Created_example :
    Created bench memory_card-IsReliable 126 1024 2 2 log_name free_entry small_card
create-Created_example =
    create-Created bench memory_card-IsReliable 126 1024 2 2 log_name free_entry small_card
      small_card-HasRoom

six_used : fat_of bench memory_card-IsReliable small_card.vol small_card.disk 6 ≢ 0
unfolding memory_card-IsReliable
six_used = λ e. omega (arith, e)

create_overwrites_example :
    let (result, m') = create bench 127 1024 2 2 log_name free_entry small_card in
    (result ≡ ok tt)
    × (fat_of bench memory_card-IsReliable small_card.vol m'.disk 6
        ≡ fat_of bench memory_card-IsReliable small_card.vol small_card.disk 6)
    × (memory_card-IsReliable.sector m'.disk 38 ≡ zeros)
create_overwrites_example =
    create_overwrites bench memory_card-IsReliable 126 1024 2 2 6 log_name free_entry small_card
      small_card-HasRoom (omega arith) six_used (rw small_start (omega arith))
      (rw small_start (omega arith))

scan_entry-new_dir_entry_example :
    let entry = new_dir_entry log_name 70000 1048576 64 (replicate 1024 0x41) in
    (scan_entry log_name entry 34 64 free_entry true ≡ found (note_found free_entry 34 64))
    × (dir_fst_clus_hi entry 64 * 65536 + dir_fst_clus_lo entry 64 ≡ 70000)
    × (dir_file_size entry 64 ≡ 1048576)
    × (get_or entry 96 0 ≡ get_or (replicate 1024 0x41) 96 0)
scan_entry-new_dir_entry_example =
    scan_entry-new_dir_entry log_name (replicate 1024 0x41) 70000 1048576 34 64 96 free_entry true
      refl (λ e. omega (arith, e)) (λ e. omega (arith, e))
      (omega (arith, length-replicate {A = ℕ} 1024 0x41)) (omega arith) (omega arith)
      (inr (omega arith))

-- A full file whose last cluster is 4; the first free cluster is 5, at sector 37.
abbrev full_card : Machine bench
full_card = record small_card {
  logfile = record small_card.logfile { cur_lba = 50; end_lba = 50; last_clus = 4 };
}

next_free :
    first_free (fat_of bench memory_card-IsReliable full_card.vol full_card.disk) 126 1 2 ≡ 5 ∷ []
unfolding memory_card-IsReliable first_free
next_free = refl

full_card-HasSpare : HasSpare bench memory_card-IsReliable 126 5 full_card
unfolding memory_card-IsReliable
full_card-HasSpare = record {
  ready = record {
    fits = omega arith;
    size = length-replicate {A = ℕ} 1024 0x41;
    entries = omega arith;
  };
  room = refl;
  found = next_free;
  full = omega arith;
  last_in = omega arith;
  last_ne = λ e. omega (arith, e);
  some = omega arith;
  behind_fat = omega arith;
  on_card = omega arith;
  no_wrap = omega arith;
  cur_on_card = omega arith;
  cur_no_fat = inr (omega arith);
}

abbrev from_100 : Span
from_100 = record { at = 100; len = 512 }

from_100-sized :
    (ring : List ℕ)
    → length ring ≡ 1024
    → length (span_bytes ring from_100 ++ opt_bytes ring none) ≡ 512
from_100-sized ring size = omega (
  arith,
  size,
  length-append (span_bytes ring from_100) [],
  length-take 512 (drop 100 ring),
  length-drop 100 ring,
)

fat32_append_sector_astray_example :
    let (r, m') = fat32_append_sector bench 126 from_100 none full_card in
    (r ≡ ok tt)
    × (fat_of bench memory_card-IsReliable full_card.vol m'.disk 4 ≡ 5)
    × (fat_of bench memory_card-IsReliable full_card.vol m'.disk 5 ≡ chain_end_mark)
    × (m'.logfile.last_clus ≡ 5)
    × (m'.logfile.cur_lba ≡ 51)
    × (m'.logfile.end_lba ≡ 38)
    × (drop 512 m'.uart.ring ≡ drop 512 full_card.uart.ring)
    × (memory_card-IsReliable.sector m'.disk 50
        ≡ span_bytes m'.uart.ring from_100 ++ opt_bytes m'.uart.ring none)
    × (memory_card-IsReliable.sector m'.disk 37 ≡ zeros)
fat32_append_sector_astray_example =
    fat32_append_sector_astray bench memory_card-IsReliable 126 5 from_100 none full_card
      full_card-HasSpare from_100-sized (λ e. omega (arith, e))

scan_entry_tells_apart_example :
    let entry = new_dir_entry (make_logname 7) 5 1048576 64 (replicate 1024 0x41) in
    (scan_entry (make_logname 7) entry 34 64 free_entry true ≡ found (note_found free_entry 34 64))
    × (scan_entry (make_logname 8) entry 34 64 free_entry true ≡ searching free_entry true)
scan_entry_tells_apart_example =
    scan_entry_tells_apart 7 8 (replicate 1024 0x41) 5 1048576 34 64 free_entry true (omega arith)
      (omega arith) (λ e. omega (arith, e)) (omega (arith, length-replicate {A = ℕ} 1024 0x41))
      (omega arith) (omega arith)
