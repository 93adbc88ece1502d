-- ===== src/Fal/Init.antt =====
-- The start of the flash abstraction layer: `fal_flash_init` of FlashDB/port/fal/src/fal_flash.c and
-- `fal_init` of FlashDB/port/fal/src/fal.c, with the functions of fal_partition.c that show and
-- replace the table.
use flashdb_ko.Prelude.{ℕ, List, [], ◌∷◌, Option, none, some, Bool, true, false, ltb, length}
use flashdb_ko.Fal.{FalFlashDev, FalPartition, check_and_update_part_cache}
use flashdb_ko.Fal.Table.Load.{Memory, PartState, fal_partition_init}

-- The devices' state and the static variables of fal_flash.c, fal_partition.c and fal.c.
pub record FalState (M : Type 0) : Type 0 where
  pub device : M
  pub flash_init_ok : Bool
  pub part : PartState M
  pub init_ok : Bool

-- `ops.init` of a device, which may be missing; a negative result is `none`.
abbrev pub DevInit : Type 0 → Type 0
DevInit M = Option (M → Option ℕ × M)

module _ {M : Type 0} where
  -- The loop of `fal_flash_init` over the device table: whether every `init` has succeeded. A device
  -- without one leaves the result of the device before, which is not negative.
  unfoldable pub init_devices : List (DevInit M) → M → Bool × M
  init_devices [] m = (true, m)
  init_devices (i ∷ table) m = elim i [
    | none ↦ init_devices table m
    | some init ↦
        let (ret, m') = init m in
        let rest = init_devices table m' in elim ret [ none ↦ (false, m') | some _ ↦ rest ]
  ]

  -- `fal_flash_init`: whether the result is 0, not negative, and the state after the call.
  unfoldable pub fal_flash_init : List (DevInit M) → FalState M → Bool × FalState M
  unfolding init_devices
  fal_flash_init device_table st =
      let (ok, device') = init_devices device_table st.device in
      elim st.flash_init_ok [
        | true ↦ (true, st)
        | false ↦ elim ok [
          | true ↦ (true, record st { device = device'; flash_init_ok = true })
          | false ↦ (false, record st { device = device' })
        ]
      ]

  -- `fal_init`: the result, with `none` inside for a negative one, and the state. The entries of the
  -- device table may depend on the devices' state, as the length of `mem_blk` does.
  unfoldable pub fal_init :
      List (DevInit M)
      → (M → List (FalFlashDev M))
      → Memory M
      → FalState M
      → Option (Option ℕ × FalState M)
  unfolding fal_flash_init
  fal_init device_table devices memory st =
      let (ok, st') = fal_flash_init device_table st in
      elim ok [
        | false ↦ some (none, record st' { init_ok = false })
        | true ↦ elim (fal_partition_init (devices st'.device) st'.device memory st'.part) [
          | none ↦ none
          | some (result, part') ↦
              some (some result, record st' { part = part'; init_ok = ltb 0 result })
        ]
      ]

  -- `fal_get_partition_table`
  unfoldable pub fal_get_partition_table : PartState M → List FalPartition × ℕ
  fal_get_partition_table st = (st.partition_table, st.partition_table_len)

  -- `fal_set_partition_table_temp`, which does not look at what `check_and_update_part_cache`
  -- returns. `fresh` is the cache that the allocator hands out; the entries of the cache that it has
  -- filled before a wrong offset are left out.
  unfoldable pub fal_set_partition_table_temp :
      List (FalFlashDev M)
      → Option (List (Option (FalFlashDev M)))
      → List FalPartition
      → PartState M
      → PartState M
  fal_set_partition_table_temp devices fresh table st =
      let cache : List (Option (FalFlashDev M)) = elim fresh [
        | none ↦ []
        | some f ↦ elim (check_and_update_part_cache devices table f) [ none ↦ f | some c ↦ c ]
      ] in
      record st {
        part_flash_cache = cache;
        partition_table_len = length table;
        partition_table = table;
      }
