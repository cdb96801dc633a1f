-- ===== src/Examples/Opening.antt =====
-- `fat32_open_log` on an empty root directory of 64 sectors.
use barelog.Prelude.{
  ℕ, zero, suc, ◌+◌, ◌≤◌, ◌<◌, ◌≡◌, ◌⊎◌, inl, inr, refl, List, [], ◌++◌, arith, length, take,
  replicate, u32, length-replicate,
}
use barelog.Prelude.Run.{ok}
use barelog.Bench.{bench, memory_card-IsReliable}
use barelog.Config.{config_prealloc_bytes}
use barelog.Examples.Card.{small_card, free_entry}
use barelog.Fat.{chain_end_mark}
use barelog.Fat.Entry.View.{OutsideFat}
use barelog.Fat.Log.{ScanVars, found, make_logname, scan_root_dir}
use barelog.Fat.Log.Chain.{IsChain, first_free}
use barelog.Fat.Log.Create.{HasRoom, start_of}
use barelog.Fat.Log.Directory.{Slot, kind_of, slots_from, find_slot, open_slot}
use barelog.Fat.Log.Directory.Cluster.{cluster_slots, dir_slots}
use barelog.Fat.Log.Directory.Found.{HasSlot}
use barelog.Fat.Log.Directory.Opened.{file_clusters, log_name, noted, fat32_open_log_creates}
use barelog.Fat.Log.Directory.Placed.{AllSlots, AllSlots-append}
use barelog.Fat.Log.Directory.Reads.{OnCard}
use barelog.Fat.Log.Open.{fat32_open_log}
use barelog.Fat.Log.Ready.{Ready, fat_of}
use barelog.Machine.{Machine, set_ring}

-- Clusters of 64 sectors, and files of 1 MB: 32 clusters from cluster 5 on, at sector 226.
abbrev wide_card : Machine bench
wide_card = record small_card {
  vol = record small_card.vol { sec_per_clus = 64 };
  cfg = record small_card.cfg { prealloc_code = 0 };
}

wide_card-Ready : Ready bench memory_card-IsReliable wide_card
unfolding memory_card-IsReliable
wide_card-Ready = record {
  fits = omega arith;
  size = length-replicate {A = ℕ} 1024 0x41;
  entries = omega arith;
}

abbrev first_slot : Slot
first_slot = record { lba = 34; off = 0; bytes = take 512 (replicate 512 0 ++ replicate 512 0) }

enough_free :
    length (first_free (fat_of bench memory_card-IsReliable wide_card.vol wide_card.disk) 126 32 2)
    ≡ 32
unfolding memory_card-IsReliable first_free
enough_free = refl

wide_start : start_of bench memory_card-IsReliable 126 32 wide_card ≡ 226
unfolding memory_card-IsReliable first_free
wide_start = refl

wide_card-HasRoom : HasRoom bench memory_card-IsReliable 126 32 2048 (noted first_slot) wide_card
unfolding memory_card-IsReliable
wide_card-HasRoom = record {
  ready = wide_card-Ready;
  room = refl;
  some = omega arith;
  enough = enough_free;
  sectors = omega arith;
  behind_fat = rw wide_start (omega arith);
  on_card = rw wide_start (omega arith);
  no_wrap = rw wide_start (omega arith);
  dir_some = λ e. omega (arith, e);
  dir_on_card = omega arith;
  dir_no_fat = inr (omega arith);
  dir_apart = rw wide_start (inl (omega arith));
}

abbrev Apart : ℕ → Type 0
Apart l =
    OutsideFat bench memory_card-IsReliable wide_card.vol l
    × ((l < start_of bench memory_card-IsReliable 126 32 wide_card)
        ⊎ (start_of bench memory_card-IsReliable 126 32 wide_card + 2048 ≤ l))

sector-Apart :
    (left lba : ℕ) (bytes : List ℕ) (e : ℕ)
    → Apart lba
    → AllSlots (λ s. Apart s.lba) (slots_from left lba bytes e)
unfolding slots_from
sector-Apart zero lba bytes e h = tt
sector-Apart (suc left) lba bytes e h = (h, sector-Apart left lba bytes (e + 32) h)

cluster-Apart :
    (left s : ℕ)
    → s + left ≤ 64
    → AllSlots
        (λ s. Apart s.lba)
        (cluster_slots bench memory_card-IsReliable wide_card.disk left 34 s)
unfolding cluster_slots
cluster-Apart zero s h = tt
cluster-Apart (suc left) s h =
    AllSlots-append (λ s. Apart s.lba) (slots_from 16 (u32 (34 + s)) _ 0) _
      (sector-Apart 16 (u32 (34 + s)) _ 0
        (inr (omega (arith, h)), rw wide_start (inl (omega (arith, h)))))
      (cluster-Apart left (s + 1) (omega (arith, h)))

wide-OnCard : OnCard bench memory_card-IsReliable wide_card.vol 2 []
unfolding memory_card-IsReliable
wide-OnCard = record {
  low = omega arith;
  high = omega arith;
  has_entry = omega arith;
  sectors = λ i lt. omega (arith, lt);
}

wide-IsChain :
    IsChain (fat_of bench memory_card-IsReliable wide_card.vol wide_card.disk) chain_end_mark 2 []
unfolding memory_card-IsReliable
wide-IsChain = refl

wide-HasSlot :
    HasSlot bench memory_card-IsReliable 126 32 2048
      (log_name wide_card)
      (noted first_slot)
      wide_card
      []
      chain_end_mark
      first_slot
unfolding memory_card-IsReliable find_slot open_slot kind_of dir_slots cluster_slots slots_from
    make_logname
wide-HasSlot = record {
  eleven = refl;
  used = λ e. omega (arith, e);
  kept = λ e. omega (arith, e);
  card = wide-OnCard;
  chain = wide-IsChain;
  marks = omega arith;
  absent = refl;
  opens = refl;
  lba = refl;
  off = refl;
  apart = cluster-Apart 64 0 (omega arith);
}

fat32_open_log_creates_example :
    let (result, m') = fat32_open_log bench 127 [] free_entry wide_card in
    (result ≡ ok tt)
    × (m'.cfg.log_num ≡ 301)
    × (m'.logfile.bytes_written ≡ 0)
    × (m'.logfile.cur_lba
        ≡ start_of bench memory_card-IsReliable 126 (file_clusters wide_card) wide_card)
    × (ring : List ℕ) × (w : ScanVars) × (scan_root_dir bench 2 (log_name wide_card) free_entry m'
        ≡ (ok (found w), set_ring ring m'))
    × (w.found_lba ≡ 34)
    × (w.found_off ≡ 0)
unfolding config_prealloc_bytes
fat32_open_log_creates_example =
    fat32_open_log_creates bench memory_card-IsReliable 126 2 [] [] free_entry free_entry wide_card
      chain_end_mark first_slot (omega arith) wide_card-HasRoom wide-HasSlot (omega arith)
      (omega arith)
