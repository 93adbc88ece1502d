-- ===== src/Tests/Parts.antt =====
-- An instance of the theorem on the start of the partitions, and runs of it.
use flashdb_ko.Prelude.{
  ℕ, zero, suc, ◌*◌, ◌/◌, ◌%◌, ◌<◌, ◌≤◌, ◌≡◌, refl, subst, eq→==, List, [], ◌∷◌, Option, none, some,
  Bool, true, false, ◌==◌, ◌&&◌, ltb, if◌then◌else◌, replicate, all_below, all_below_sound, arith,
}
use flashdb_ko.Bytes.{le32}
use flashdb_ko.MemBlk.{write_cells}
use flashdb_ko.MemBlk.Words.{word_in}
use flashdb_ko.Fal.{str_eq, strn_eq, fal_flash_device_find}
use flashdb_ko.Fal.Table.{fal_part_magic_word}
use flashdb_ko.Fal.Table.Load.{
  PartState, Memory, finish_init, fal_partition_init, fal_part_table_flash_dev_name,
}
use flashdb_ko.VirtParts.{FlashMem, MtdInfo, virt_parts, detect_partition}
use flashdb_ko.Fal.Init.{init_devices, fal_init}
use flashdb_ko.VirtParts.Loaded.{entries_down, fal_partition_init-loaded}
use flashdb_ko.VirtParts.NoCache.{no_cache, before_init, fal_init-no_cache}

-- The name of the partition of the flash, which is the configured one too, and of the flash.
abbrev name : List ℕ
name = 102 ∷ 100 ∷ 98 ∷ []

abbrev chip : List ℕ
chip = 110 ∷ 111 ∷ 114 ∷ []

abbrev partition : MtdInfo
partition = record {
  name = name;
  size = 65536;
  master_ofs = 4096;
  master_name = chip;
  master_size = 131072;
  master_erasesize = 4096;
}

-- One MTD device.
abbrev one_device : ℕ → Option MtdInfo
one_device zero = some partition
one_device (suc i) = none

abbrev blank : FlashMem
blank = λ x. 0

abbrev detected : ℕ × FlashMem
detected = detect_partition one_device chip name 32768 blank

-- The test of an offset.
abbrev front : ℕ → Bool
front o =
    if word_in detected.1 o == fal_part_magic_word then o % 64 == 0 && ltb (o / 64) 2 else true

fronts : all_below 1020 front ≡ true
unfolding all_below detect_partition word_in write_cells le32 str_eq
fronts = refl

front-multiple :
    (o : ℕ)
    → (word_in detected.1 o == fal_part_magic_word) ≡ true
    → front o ≡ true
    → (o / 64 ≤ 1) × (o ≡ 64 * (o / 64))
front-multiple o hit e =
    let test : (o % 64 == 0 && ltb (o / 64) 2) ≡ true =
      subst (λ (b : Bool). (if b then o % 64 == 0 && ltb (o / 64) 2 else true) ≡ true) hit e in
    ground arith

only_fronts :
    (o : ℕ)
    → o < 1020
    → word_in detected.1 o ≡ fal_part_magic_word
    → (k : ℕ) × (k ≤ detected.0) × (o ≡ 64 * k)
unfolding detect_partition str_eq
only_fronts o low is_magic =
    let (few, at) =
      front-multiple o (eq→== (word_in detected.1 o) fal_part_magic_word is_magic)
        (all_below_sound 1020 front o fronts low) in
    (o / 64, few, at)

table_device :
    fal_flash_device_find (virt_parts ∷ []) fal_part_table_flash_dev_name ≡ some virt_parts
unfolding fal_flash_device_find virt_parts strn_eq
table_device = refl

abbrev memory : Memory FlashMem
memory = record {
  new_part = some (replicate 64 7);
  read_buf = replicate 64 7;
  has_table = true;
  part_flash_cache = λ n. some (replicate n none);
}

abbrev unstarted : PartState FlashMem
unstarted = record {
  partition_table = [];
  partition_table_len = 0;
  part_flash_cache = [];
  init_ok = false;
}

two_fronts :
    (o : ℕ)
    → o < 1020
    → word_in detected.1 o ≡ fal_part_magic_word
    → (k : ℕ) × (k ≤ 1) × (o ≡ 64 * k)
unfolding detect_partition str_eq
two_fronts = only_fronts

both_fronts : (k : ℕ) → k ≤ 1 → word_in detected.1 (64 * k) ≡ fal_part_magic_word
unfolding detect_partition str_eq word_in write_cells le32
both_fronts zero below = refl
both_fronts (suc zero) below = refl
both_fronts (suc (suc k)) below = absurd (omega (arith, below))

fal_init-no_cache_example :
    fal_init
      (none ∷ [])
      (λ (m : FlashMem). virt_parts ∷ [])
      (no_cache (replicate 64 7) (replicate 64 7))
      (before_init detected.1)
    ≡ some (
      some 2,
      record {
        device = detected.1;
        flash_init_ok = true;
        part = record {
          partition_table = entries_down detected.1 2;
          partition_table_len = 2;
          part_flash_cache = [];
          init_ok = false;
        };
        init_ok = true;
      },
    )
unfolding virt_parts init_devices detect_partition str_eq
fal_init-no_cache_example =
    fal_init-no_cache virt_parts detected.1 detected.1 detected.1 1 (none ∷ [])
      (λ (m : FlashMem). virt_parts ∷ []) (replicate 64 7) (replicate 64 7) refl table_device refl
      (λ offset buf. refl) (omega arith) both_fronts only_fronts refl refl

fal_partition_init-loaded_example :
    let st =
      finish_init (virt_parts ∷ []) detected.1 memory (record unstarted {
        partition_table = entries_down detected.1 2;
        partition_table_len = 2;
      }) in
    fal_partition_init (virt_parts ∷ []) detected.1 memory unstarted
    ≡ some (st.partition_table_len, st)
unfolding virt_parts
fal_partition_init-loaded_example =
    fal_partition_init-loaded virt_parts detected.1 detected.1 (λ offset buf. refl) 1 (omega arith)
      both_fronts (virt_parts ∷ []) (replicate 64 7) (replicate 64 7) (λ n. some (replicate n none))
      refl refl table_device refl two_fronts
