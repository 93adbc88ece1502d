-- ===== src/VirtParts/Loaded.antt =====
-- `fal_partition_init` of FlashDB/port/fal/src/fal_partition.c on the memory of `virt_parts`.
use flashdb_ko.Prelude.{
  ℕ, zero, suc, ◌+◌, ◌*◌, ◌<◌, ◌≤◌, ◌≡◌, ◌≢◌, refl, sym, ap, ◌∙◌, List, [], ◌∷◌, Option, none, some,
  true, false, ◌==◌, length, drop, Option-cases, ◌⊎◌, replicate, length-replicate, length-append,
  length-drop, subst, inl, inr, eq→==, ne→==_false, arith,
}
use flashdb_ko.Bytes.{word_at}
use flashdb_ko.MemBlk.{read_cells}
use flashdb_ko.MemBlk.Cells.{length-read_cells}
use flashdb_ko.MemBlk.Words.{word_in, word_at-read_cells}
use flashdb_ko.Fal.{FalFlashDev, FalPartition, fal_flash_device_find}
use flashdb_ko.Fal.Table.{fal_part_magic_word, find_table}
use flashdb_ko.Fal.Table.Search.{Found, Last, find_table-Last}
use flashdb_ko.Fal.Table.Load.{
  table_item_size, partition_of_bytes, clear, item_offset, count_entries, load_entries, Memory,
  PartState, finish_init, load_table, fal_partition_init, fal_part_table_flash_dev_name,
}
use flashdb_ko.VirtParts
use flashdb_ko.VirtParts.{virt_parts}

-- The entry `k` in the memory.
abbrev pub entry : (ℕ → ℕ) → ℕ → FalPartition
entry cells k = partition_of_bytes (read_cells cells (64 * k) 64)

-- The first `n` entries, the last one first.
unfoldable pub entries_down : (ℕ → ℕ) → ℕ → List FalPartition
entries_down cells zero = []
entries_down cells (suc n) = entry cells n ∷ entries_down cells n

length-clear : (n : ℕ) (bytes : List ℕ) → n ≤ length bytes → length (clear n bytes) ≡ length bytes
length-clear n bytes fits =
    length-append (replicate n 0) (drop n bytes)
    ∙ omega (arith, length-replicate {A = ℕ} n 0, length-drop n bytes)

read_inside :
    (cells : ℕ → ℕ) (offset : ℕ) (buf : List ℕ)
    → length buf ≡ 64
    → offset + 64 ≤ 1024
    → virt_parts.read cells offset buf ≡ (some 64, read_cells cells offset 64)
unfolding virt_parts VirtParts.read
read_inside cells offset buf size inside = ground arith

read_below : (cells : ℕ → ℕ) (buf : List ℕ) → virt_parts.read cells 0xffff_ffc0 buf ≡ (some 0, buf)
unfolding virt_parts VirtParts.read
read_below cells buf = refl

-- A buffer whose first byte is clear does not start with the magic word.
word_at-clear : (n : ℕ) (bytes : List ℕ) → word_at (clear (suc n) bytes) 0 ≢ fal_part_magic_word
unfolding word_at
word_at-clear n bytes e = absurd (omega (arith, e))

le_cases : (k n : ℕ) → k ≤ n → (k ≡ n) ⊎ (suc k ≤ n)
le_cases k n h = ground arith

-- A memory with `n` entries and one more.
-- It is read through the device `dev`.
module _ {M : Type 0} (dev : FalFlashDev M) (m : M) (cells : ℕ → ℕ)
    (reads : (offset : ℕ) (buf : List ℕ) → dev.read m offset buf ≡ virt_parts.read cells offset buf)
    (n : ℕ) (sized : 64 * n + 64 ≤ 1024)
    (magic : (k : ℕ) → k ≤ n → word_in cells (64 * k) ≡ fal_part_magic_word) where
  abbrev off : ℕ
  off = 64 * n

  read_item :
      (r i : ℕ) (buf : List ℕ)
      → i + suc r ≡ suc n
      → length buf ≡ 64
      → dev.read m (item_offset off i) buf ≡ (some 64, read_cells cells (64 * r) 64)
  read_item r i buf all size =
      let at : item_offset off i ≡ 64 * r = omega arith in
      ap (λ (o : ℕ). dev.read m o buf) at
      ∙ reads (64 * r) buf
      ∙ read_inside cells (64 * r) buf size (omega arith)

  -- With `i` entries counted, `r` are left.
  count_entries-here :
      (r i fuel : ℕ) (new_part : List ℕ)
      → i + r ≡ suc n
      → r < fuel
      → length new_part ≡ 64
      → count_entries dev m off fuel i new_part ≡ some (suc n)
  unfolding count_entries
  count_entries-here r i zero new_part all more size = absurd (omega arith)
  count_entries-here zero i (suc fuel) new_part all more size =
      let at : item_offset off i ≡ 0xffff_ffc0 = omega arith in
      let same : i ≡ suc n = omega arith in
      let read =
        ap (λ (o : ℕ). dev.read m o (clear i new_part)) at
        ∙ reads 0xffff_ffc0 (clear i new_part)
        ∙ read_below cells (clear i new_part) in
      let miss : (word_at (clear i new_part) 0 == fal_part_magic_word) ≡ false =
        ne→==_false (word_at (clear i new_part) 0) fal_part_magic_word (
          subst (λ (k : ℕ). word_at (clear k new_part) 0 ≢ fal_part_magic_word) (sym same)
            (word_at-clear n new_part)) in
      rw (count_entries, read, read, miss) (ap some same)
  count_entries-here (suc r) i (suc fuel) new_part all more size =
      let read =
        read_item r i (clear i new_part) all (length-clear i new_part (omega arith) ∙ size) in
      let hit : (word_at (read_cells cells (64 * r) 64) 0 == fal_part_magic_word) ≡ true =
        eq→== (word_at (read_cells cells (64 * r) 64) 0) fal_part_magic_word (
          word_at-read_cells cells (64 * r) 64 0 (omega arith)
          ∙ ap (word_in cells) {x = 64 * r + 0} {y = 64 * r} (omega arith)
          ∙ magic r (omega arith)) in
      rw (count_entries, read, read, hit, read)
        (count_entries-here r (suc i) fuel (read_cells cells (64 * r) 64) (omega arith)
          (omega arith) (length-read_cells cells (64 * r) 64))

  load_entries-here :
      (r i : ℕ) → i + r ≡ suc n → load_entries dev m off r i ≡ some (entries_down cells r)
  unfolding load_entries entries_down
  load_entries-here zero i all = refl
  load_entries-here (suc r) i all =
      let read = read_item r i (replicate table_item_size 0) all refl in
      rw (load_entries, read, load_entries-here r (suc i) (omega arith), read) refl

  -- Where the magic word stands nowhere but at the front of an entry, the search finds the last one.
  find_table-here :
      (buf : List ℕ)
      → length buf ≡ 64
      → ((o : ℕ)
          → o < 1020
          → word_in cells o ≡ fal_part_magic_word
          → (k : ℕ) × (k ≤ n) × (o ≡ 64 * k))
      → find_table dev m 960 959 buf ≡ some (some off)
  unfolding Found Last
  find_table-here buf size only =
      let (r, run, found, last) =
        find_table-Last dev m cells 959
          (λ o b inside long. reads o b ∙ read_inside cells o b long (omega arith)) buf
          (λ e. absurd (omega (arith, e))) (λ e. absurd (omega (arith, e))) size in
      elim (Option-cases r) [
        | inl nothing ↦
            let missed : Found (word_in cells) 0 1020 none =
              subst (Found (word_in cells) 0 1020) nothing found in
            absurd (missed (64 * n) (omega arith) (omega arith) (magic n (omega arith)))
        | inr (o, hit) ↦
            let (low, high, is_magic) = subst (Found (word_in cells) 0 1020) hit found in
            let behind : Last (word_in cells) 1020 (some o) =
              subst (Last (word_in cells) 1020) hit last in
            let (k, inside, at) = only o high is_magic in
            let there : o ≡ off = elim (le_cases k n inside) [
              | inl same ↦ at ∙ ap (λ (x : ℕ). 64 * x) same
              | inr less ↦
                  absurd (
                    behind (64 * n) (omega (arith, at, less)) (omega arith) (magic n (omega arith)))
            ] in
            run ∙ ap some (hit ∙ ap some there)
      ]

  module _ (devices : List (FalFlashDev M)) (new_part read_buf : List ℕ)
      (fresh : ℕ → Option (List (Option (FalFlashDev M)))) (size : length new_part ≡ 64)
      (buf_size : length read_buf ≡ 64) where
    -- The allocator has memory for an entry and for the table.
    abbrev pub memory : Memory M
    memory = record {
      new_part = some new_part;
      read_buf = read_buf;
      has_table = true;
      part_flash_cache = fresh;
    }

    -- Before the first call.
    abbrev pub unstarted : PartState M
    unstarted = record {
      partition_table = [];
      partition_table_len = 0;
      part_flash_cache = [];
      init_ok = false;
    }

    -- Once the table is loaded, before its devices are looked up.
    abbrev pub loaded : PartState M
    loaded = record unstarted {
      partition_table = entries_down cells (suc n);
      partition_table_len = suc n;
    }

    -- A memory of at most 16 entries behind one another, with the magic word at the front of each and
    -- nowhere else, is read through the table's device. The first call of `fal_partition_init`, with
    -- the memory that it asks for, ends: it has loaded all the entries, the last one first, and has
    -- gone on to look up their devices.
    pub fal_partition_init-loaded :
        fal_flash_device_find devices fal_part_table_flash_dev_name ≡ some dev
        → dev.len ≡ 1024
        → ((o : ℕ)
            → o < 1020
            → word_in cells o ≡ fal_part_magic_word
            → (k : ℕ) × (k ≤ n) × (o ≡ 64 * k))
        → let st = finish_init devices m memory loaded in
          fal_partition_init devices m memory unstarted ≡ some (st.partition_table_len, st)
    unfolding fal_partition_init load_table
    fal_partition_init-loaded found sized_dev only =
        let search = find_table-here read_buf buf_size only in
        let counted =
          count_entries-here (suc n) 0 (suc (suc off)) new_part (omega arith) (omega arith) size in
        let filled = load_entries-here (suc n) 0 (omega arith) in
        rw (fal_partition_init, found, sized_dev, search, load_table, counted, filled) refl
