-- ===== src/VirtParts/NoCache.antt =====
-- `fal_init` of FlashDB/port/fal/src/fal.c where `check_and_update_part_cache` of fal_partition.c gets
-- no memory for its cache.
use flashdb_ko.Prelude.{
  ℕ, suc, ◌+◌, ◌*◌, ◌<◌, ◌≤◌, ◌≡◌, refl, List, [], none, some, true, false, length, lt→ltb, arith,
}
use flashdb_ko.MemBlk.Words.{word_in}
use flashdb_ko.Fal.{FalFlashDev, fal_flash_device_find}
use flashdb_ko.Fal.Table.{fal_part_magic_word}
use flashdb_ko.Fal.Table.Load.{Memory, finish_init, fal_part_table_flash_dev_name}
use flashdb_ko.Fal.Init.{DevInit, FalState, init_devices, fal_flash_init, fal_init}
use flashdb_ko.VirtParts.{virt_parts}
use flashdb_ko.VirtParts.Loaded.{entries_down, fal_partition_init-loaded}

-- The memory that the allocator hands out: all but the cache.
abbrev pub no_cache : {M : Type 0} → List ℕ → List ℕ → Memory M
no_cache new_part read_buf = record {
  new_part = some new_part;
  read_buf = read_buf;
  has_table = true;
  part_flash_cache = λ n. none;
}

-- Before the first call of `fal_init`.
abbrev pub before_init : {M : Type 0} → M → FalState M
before_init m = record {
  device = m;
  flash_init_ok = false;
  part = record {
    partition_table = [];
    partition_table_len = 0;
    part_flash_cache = [];
    init_ok = false;
  };
  init_ok = false;
}

fal_flash_init-first :
    {M : Type 0} (device_table : List (DevInit M)) (m0 m : M)
    → init_devices device_table m0 ≡ (true, m)
    → fal_flash_init device_table (before_init m0)
      ≡ (true, record (before_init m0) { device = m; flash_init_ok = true })
unfolding fal_flash_init
fal_flash_init-first device_table m0 m started = rw (fal_flash_init, started, started) refl

-- With a partition table, but no memory for the cache of the partitions' devices: the first call of
-- `fal_init` gives the number of the partitions and takes itself for started, as it does when all
-- goes well. The partitions are not started, and they have no cache.
pub fal_init-no_cache :
    {M : Type 0} (dev : FalFlashDev M) (m0 m : M) (cells : ℕ → ℕ) (n : ℕ)
    (device_table : List (DevInit M)) (devices : M → List (FalFlashDev M))
    (new_part read_buf : List ℕ)
    → init_devices device_table m0 ≡ (true, m)
    → fal_flash_device_find (devices m) fal_part_table_flash_dev_name ≡ some dev
    → dev.len ≡ 1024
    → ((offset : ℕ) (buf : List ℕ) → dev.read m offset buf ≡ virt_parts.read cells offset buf)
    → 64 * n + 64 ≤ 1024
    → ((k : ℕ) → k ≤ n → word_in cells (64 * k) ≡ fal_part_magic_word)
    → ((o : ℕ)
        → o < 1020
        → word_in cells o ≡ fal_part_magic_word
        → (k : ℕ) × (k ≤ n) × (o ≡ 64 * k))
    → length new_part ≡ 64
    → length read_buf ≡ 64
    → fal_init device_table devices (no_cache new_part read_buf) (before_init m0)
      ≡ some (
        some (suc n),
        record {
          device = m;
          flash_init_ok = true;
          part = record {
            partition_table = entries_down cells (suc n);
            partition_table_len = suc n;
            part_flash_cache = [];
            init_ok = false;
          };
          init_ok = true;
        },
      )
unfolding fal_init finish_init
fal_init-no_cache dev m0 m cells n device_table devices new_part read_buf started found sized_dev
      reads sized magic only size buf_size =
    let run =
      fal_partition_init-loaded dev m cells reads n sized magic (devices m) new_part read_buf
        (λ k. none) size buf_size found sized_dev only in
    let flash = fal_flash_init-first device_table m0 m started in
    rw (fal_init, flash, flash, run, flash, lt→ltb 0 (suc n) (omega arith)) refl
