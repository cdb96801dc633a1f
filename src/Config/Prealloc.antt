-- ===== src/Config/Prealloc.antt =====
-- The pre-allocation table.
use barelog.Prelude.{ℕ, ◌*◌, ◌/◌, ◌≤◌, ◌≡◌, arith, ltb, if◌then◌else◌}
use barelog.Config.{config_prealloc_bytes}

-- Every code, known or not, gives a whole number of 512-byte sectors between 1 MB and 32 MB, and a
-- code above 4 gives the 8 MB of the default code 2.
pub config_prealloc_bytes_bounds :
    (code : ℕ)
    → (1024 * 1024 ≤ config_prealloc_bytes code)
      × (config_prealloc_bytes code ≤ 32 * 1024 * 1024)
      × (config_prealloc_bytes code / 512 * 512 ≡ config_prealloc_bytes code)
      × (config_prealloc_bytes code ≡ config_prealloc_bytes (if ltb 4 code then 2 else code))
unfolding config_prealloc_bytes
config_prealloc_bytes_bounds code = ground arith
