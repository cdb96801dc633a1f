-- ===== src/Examples/Directory.antt =====
-- The scan of a root directory of one cluster whose first entry is the end mark.
use barelog.Prelude.{ℕ, ◌≡◌, refl, List, [], arith, length, drop}
use barelog.Prelude.Run.{ok}
use barelog.Bench.{bench, memory_card-IsReliable}
use barelog.Examples.Card.{small_card, small_card-Ready, free_entry, log_name}
use barelog.Fat.{chain_end_mark}
use barelog.Fat.Log.{Scan, scan_root_dir}
use barelog.Fat.Log.Chain.{IsChain}
use barelog.Fat.Log.Directory.{find_slot, open_slot, Answers}
use barelog.Fat.Log.Directory.Cluster.{dir_slots}
use barelog.Fat.Log.Directory.Reads.{OnCard, scan_root_dir-Answers}
use barelog.Fat.Log.Ready.{fat_of}
use barelog.Machine.{set_ring}

root-OnCard : OnCard bench memory_card-IsReliable small_card.vol 2 []
unfolding memory_card-IsReliable
root-OnCard = record {
  low = omega arith;
  high = omega arith;
  has_entry = omega arith;
  sectors = λ i lt. omega arith;
}

root-IsChain :
    IsChain (fat_of bench memory_card-IsReliable small_card.vol small_card.disk) chain_end_mark 2 []
unfolding memory_card-IsReliable
root-IsChain = refl

scan_root_dir-Answers_example :
    let slots = dir_slots bench memory_card-IsReliable small_card.vol small_card.disk 2 [] in
    (ring : List ℕ) × (scan : Scan) × (length ring ≡ 1024)
    × (drop 512 ring ≡ drop 512 small_card.uart.ring)
    × (scan_root_dir bench 2 log_name free_entry small_card ≡ (ok scan, set_ring ring small_card))
    × Answers (find_slot log_name slots) (open_slot log_name slots) scan
scan_root_dir-Answers_example =
    scan_root_dir-Answers bench memory_card-IsReliable 2 log_name [] chain_end_mark free_entry
      small_card (omega arith) small_card-Ready (omega arith) root-OnCard root-IsChain (omega arith)
