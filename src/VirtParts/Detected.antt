-- ===== src/VirtParts/Detected.antt =====
-- What `detect_partition` of porting/fal_flash_virt_parts.c leaves in the memory.
use flashdb_ko.Prelude.{
  ℕ, zero, suc, ◌+◌, ◌*◌, ◌<◌, ◌≤◌, ◌≡◌, ap, ◌∙◌, List, [], ◌∷◌, ◌++◌, Option, some, length,
  Option-cases, Bool-cases, inl, inr, ◌⊎◌, arith,
}
use flashdb_ko.Bytes.{le32}
use flashdb_ko.MemBlk.{write_cells}
use flashdb_ko.MemBlk.Words.{word_in, word_in-le32, word_in-apart}
use flashdb_ko.Fal.{str_eq}
use flashdb_ko.Fal.Table.{fal_part_magic_word}
use flashdb_ko.VirtParts.{
  FlashMem, strcpy, MtdInfo, store_mtd, detect_loop, fal_flash_nor_flash_detect,
  fal_flash_mem_blk_detect, detect_partition,
}
use flashdb_ko.VirtParts.Loaded.{entry}
use flashdb_ko.VirtParts.MemEntry.{
  NoNul, mem_entry, marked, magic_stored, before_stored, entry_stored,
}

-- The first `n` entries start with the magic word.
abbrev pub Marked : FlashMem → ℕ → Type 0
Marked m n = (k : ℕ) → k < n → word_in m (64 * k) ≡ fal_part_magic_word

-- Names that fit the fields of an entry with their NUL.
abbrev pub ShortNames : MtdInfo → Type 0
ShortNames mtd = (length mtd.name < 24) × (length mtd.master_name < 24)

below_cases : (k n : ℕ) → k < suc n → (k ≡ n) ⊎ (k < n)
below_cases k n h = ground arith

module _ (m : FlashMem) (n : ℕ) (mtd : MtdInfo) (short : ShortNames mtd) where
  abbrev spot : ℕ
  spot = 64 * n

  abbrev m1 : FlashMem
  m1 = strcpy m (spot + 28) mtd.master_name

  abbrev m2 : FlashMem
  m2 = write_cells m1 spot (le32 fal_part_magic_word)

  abbrev m3 : FlashMem
  m3 = strcpy m2 (spot + 4) mtd.name

  abbrev m4 : FlashMem
  m4 = write_cells m3 (spot + 52) (le32 mtd.master_ofs)

  -- The stores behind the magic word leave the words up to it.
  later_stores :
      (a : ℕ) → a ≤ spot → word_in (write_cells m4 (spot + 56) (le32 mtd.size)) a ≡ word_in m2 a
  unfolding le32
  later_stores a h =
      word_in-apart m4 (spot + 56) (le32 mtd.size) a (inl (omega arith))
      ∙ word_in-apart m3 (spot + 52) (le32 mtd.master_ofs) a (inl (omega arith))
      ∙ word_in-apart m2 (spot + 4) (mtd.name ++ 0 ∷ []) a (inl (omega arith))

  store_mtd-Marked : Marked m n → Marked (store_mtd m spot mtd) (suc n)
  unfolding store_mtd le32
  store_mtd-Marked marked = λ k below. elim (below_cases k n below) [
    | inl last ↦
        ap (λ (x : ℕ). word_in (write_cells m4 (spot + 56) (le32 mtd.size)) (64 * x)) last
        ∙ later_stores spot (omega arith)
        ∙ word_in-le32 m1 spot fal_part_magic_word (omega arith)
    | inr before ↦
        later_stores (64 * k) (omega arith)
        ∙ word_in-apart m1 spot (le32 fal_part_magic_word) (64 * k) (inl (omega arith))
        ∙ word_in-apart m (spot + 28) (mtd.master_name ++ 0 ∷ []) (64 * k) (inl (omega arith))
        ∙ marked k before
  ]

module _ (get_mtd_device : ℕ → Option MtdInfo) (param_mtd_name : List ℕ)
    (short : (i : ℕ) (mtd : MtdInfo) → get_mtd_device i ≡ some mtd → ShortNames mtd) where
  detect_loop-Marked :
      (n i part_num : ℕ) (m : FlashMem)
      → Marked m part_num
      → let r = detect_loop get_mtd_device param_mtd_name n i part_num m in Marked r.1 r.0
  unfolding detect_loop
  detect_loop-Marked zero i part_num m marked = marked
  detect_loop-Marked (suc n) i part_num m marked = elim (Option-cases (get_mtd_device i)) [
    | inl ended ↦ rw (detect_loop, ended) marked
    | inr (mtd, there) ↦ elim (Bool-cases (str_eq mtd.master_name param_mtd_name)) [
      | inl fits ↦
          rw (detect_loop, there, fits)
            (detect_loop-Marked n (suc i) (suc part_num) (store_mtd m (64 * part_num) mtd)
              (store_mtd-Marked m part_num mtd (short i mtd there) marked))
      | inr other ↦ rw (detect_loop, there, other) (detect_loop-Marked n (suc i) part_num m marked)
    ]
  ]

  -- The memory block's entry behind those of the flash.
  module _ (name : List ℕ) (len : ℕ) (plain : NoNul name) (short_name : length name < 24)
      (small : len < 0x1_0000_0000) (flash_mem : FlashMem) where
    abbrev pub detected : ℕ × FlashMem
    detected = detect_partition get_mtd_device param_mtd_name name len flash_mem

    abbrev found : ℕ × FlashMem
    found = fal_flash_nor_flash_detect get_mtd_device param_mtd_name flash_mem

    found-Marked : Marked found.1 found.0
    unfolding fal_flash_nor_flash_detect
    found-Marked = detect_loop-Marked 64 0 0 flash_mem (λ k below. absurd (omega (arith, below)))

    -- The entries before it keep their magic words.
    pub detected-Marked : Marked detected.1 (suc detected.0)
    unfolding detect_partition fal_flash_mem_blk_detect
    detected-Marked = λ k below. elim (below_cases k found.0 (omega (arith, below))) [
      | inl last ↦
          ap (λ (x : ℕ). word_in detected.1 (64 * x)) last
          ∙ magic_stored found.1 (64 * found.0) name len plain short_name small
      | inr before ↦
          before_stored found.1 (64 * found.0) name len plain short_name small (64 * k)
            (omega (arith, before))
          ∙ found-Marked k before
    ]

    pub detected-entry : entry detected.1 detected.0 ≡ mem_entry name len
    unfolding detect_partition fal_flash_mem_blk_detect
    detected-entry =
        ap (entry detected.1) {x = found.0 + 0} {y = found.0} (omega arith)
        ∙ entry_stored found.1 (64 * found.0) name len plain short_name small
