-- ===== src/VirtParts/MemEntry.antt =====
-- The entry that `fal_flash_mem_blk_detect` of porting/fal_flash_mem_blk.c stores, read back.
use mathlib.Core.Path.{ap₂}
use flashdb_ko.Prelude.{
  ℕ, zero, suc, ◌+◌, ◌-◌, ◌<◌, ◌≤◌, ◌≡◌, ◌≢◌, refl, sym, ap, ◌∙◌, List, [], ◌∷◌, ◌++◌, All, length,
  length-append, append_assoc, drop, inl, ne→==_false, arith,
}
use flashdb_ko.Bytes.{le32}
use flashdb_ko.MemBlk.{read_cells, write_cells}
use flashdb_ko.MemBlk.Cells.{
  read_cells-append, read_cells-write_cells, read_cells-write_cells_apart,
}
use flashdb_ko.MemBlk.Words.{word_in, word_at-read_cells, word_in-le32, word_in-apart}
use flashdb_ko.Fal.{FalPartition}
use flashdb_ko.Fal.Table.{fal_part_magic_word}
use flashdb_ko.Fal.Table.Load.{c_string, partition_of_bytes}
use flashdb_ko.VirtParts.{FlashMem, strcpy}

-- A text of the bytes of a memory, up to its NUL.
abbrev pub NoNul : List ℕ → Type 0
NoNul = All (λ (b : ℕ). b ≢ 0)

c_string-name : (name rest : List ℕ) → NoNul name → c_string (name ++ 0 ∷ rest) ≡ name
unfolding c_string
c_string-name [] rest plain = refl
c_string-name (b ∷ name) rest (some_char, plain) =
    rw (c_string, ne→==_false b 0 some_char, c_string-name name rest plain) refl

drop-read_cells : (m : ℕ → ℕ) (a k n : ℕ) → drop k (read_cells m a (k + n)) ≡ read_cells m (a + k) n
unfolding read_cells
drop-read_cells m a zero n = ap₂ (read_cells m) (omega arith) (omega arith)
drop-read_cells m a (suc k) n =
    ap (λ (j : ℕ). drop (suc k) (read_cells m a j)) {x = suc k + n} {y = suc (k + n)} (omega arith)
    ∙ drop-read_cells m (a + 1) k n
    ∙ ap (λ (b : ℕ). read_cells m b n) (omega arith)

-- A name that `strcpy` has put into an entry is read back.
c_string-strcpy :
    (m : FlashMem) (a k : ℕ) (name : List ℕ)
    → NoNul name
    → k + length name < 64
    → read_cells m (a + k) (length name + 1) ≡ name ++ 0 ∷ []
    → c_string (drop k (read_cells m a 64)) ≡ name
c_string-strcpy m a k name plain short there =
    let behind = 64 - k - (length name + 1) in
    let split : 64 ≡ k + (length name + 1 + behind) = omega arith in
    ap (λ (n : ℕ). c_string (drop k (read_cells m a n))) split
    ∙ ap c_string (
        drop-read_cells m a k (length name + 1 + behind)
        ∙ read_cells-append m (a + k) (length name + 1) behind
        ∙ ap (λ (bytes : List ℕ). bytes ++ read_cells m (a + k + (length name + 1)) behind) there
        ∙ append_assoc name (0 ∷ []) (read_cells m (a + k + (length name + 1)) behind))
    ∙ c_string-name name (read_cells m (a + k + (length name + 1)) behind) plain

-- What `strcpy` writes is read there.
strcpy-there :
    (m : FlashMem) (a : ℕ) (name : List ℕ)
    → read_cells (strcpy m a name) a (length name + 1) ≡ name ++ 0 ∷ []
strcpy-there m a name =
    ap (read_cells (strcpy m a name) a) (sym (length-append name (0 ∷ [])))
    ∙ read_cells-write_cells m a (name ++ 0 ∷ [])

-- The name of the device of the memory block.
abbrev pub mem_name : List ℕ
mem_name = 0x4d ∷ 0x45 ∷ 0x4d ∷ []

mem_plain : NoNul mem_name
mem_plain = (omega arith, (omega arith, (omega arith, tt)))

-- The entry of the memory block as it is loaded.
abbrev pub mem_entry : List ℕ → ℕ → FalPartition
mem_entry name len = record {
  magic_word = fal_part_magic_word;
  name = name;
  flash_name = mem_name;
  offset = 0;
  len = len;
}

-- The entry of the memory block, at `at`.
module _ (m : FlashMem) (at : ℕ) (name : List ℕ) (len : ℕ) (plain : NoNul name)
    (short : length name < 24) (small : len < 0x1_0000_0000) where
  abbrev pub marked : FlashMem
  marked = write_cells m at (le32 fal_part_magic_word)

  abbrev pub named : FlashMem
  named = strcpy marked (at + 4) name

  abbrev pub on_device : FlashMem
  on_device = strcpy named (at + 28) mem_name

  abbrev pub placed : FlashMem
  placed = write_cells on_device (at + 52) (le32 0)

  abbrev pub stored : FlashMem
  stored = write_cells placed (at + 56) (le32 len)

  pub magic_stored : word_in stored at ≡ fal_part_magic_word
  unfolding le32
  magic_stored =
      word_in-apart placed (at + 56) (le32 len) at (inl (omega arith))
      ∙ word_in-apart on_device (at + 52) (le32 0) at (inl (omega arith))
      ∙ word_in-apart named (at + 28) (mem_name ++ 0 ∷ []) at (inl (omega arith))
      ∙ word_in-apart marked (at + 4) (name ++ 0 ∷ []) at (inl (omega arith))
      ∙ word_in-le32 m at fal_part_magic_word (omega arith)

  -- The words before it keep their values.
  pub before_stored : (a : ℕ) → a + 4 ≤ at → word_in stored a ≡ word_in m a
  unfolding le32
  before_stored a h =
      word_in-apart placed (at + 56) (le32 len) a (inl (omega arith))
      ∙ word_in-apart on_device (at + 52) (le32 0) a (inl (omega arith))
      ∙ word_in-apart named (at + 28) (mem_name ++ 0 ∷ []) a (inl (omega arith))
      ∙ word_in-apart marked (at + 4) (name ++ 0 ∷ []) a (inl (omega arith))
      ∙ word_in-apart m at (le32 fal_part_magic_word) a (inl (omega arith))

  name_stored : read_cells stored (at + 4) (length name + 1) ≡ name ++ 0 ∷ []
  unfolding le32
  name_stored =
      read_cells-write_cells_apart placed (at + 56) (le32 len) (at + 4) (length name + 1)
        (inl (omega arith))
      ∙ read_cells-write_cells_apart on_device (at + 52) (le32 0) (at + 4) (length name + 1)
          (inl (omega arith))
      ∙ read_cells-write_cells_apart named (at + 28) (mem_name ++ 0 ∷ []) (at + 4) (length name + 1)
          (inl (omega arith))
      ∙ strcpy-there marked (at + 4) name

  flash_name_stored : read_cells stored (at + 28) 4 ≡ mem_name ++ 0 ∷ []
  unfolding le32
  flash_name_stored =
      read_cells-write_cells_apart placed (at + 56) (le32 len) (at + 28) 4 (inl (omega arith))
      ∙ read_cells-write_cells_apart on_device (at + 52) (le32 0) (at + 28) 4 (inl (omega arith))
      ∙ strcpy-there named (at + 28) mem_name

  offset_stored : word_in stored (at + 52) ≡ 0
  unfolding le32
  offset_stored =
      word_in-apart placed (at + 56) (le32 len) (at + 52) (inl (omega arith))
      ∙ word_in-le32 on_device (at + 52) 0 (omega arith)

  len_stored : word_in stored (at + 56) ≡ len
  len_stored = word_in-le32 placed (at + 56) len small

  pub entry_stored : partition_of_bytes (read_cells stored at 64) ≡ mem_entry name len
  unfolding partition_of_bytes
  entry_stored =
      let magic =
        word_at-read_cells stored at 64 0 (omega arith)
        ∙ ap (word_in stored) {x = at + 0} {y = at} (omega arith)
        ∙ magic_stored in
      let offset = word_at-read_cells stored at 64 52 (omega arith) ∙ offset_stored in
      let length_ = word_at-read_cells stored at 64 56 (omega arith) ∙ len_stored in
      rw
        (
          partition_of_bytes,
          magic,
          c_string-strcpy stored at 4 name plain (omega arith) name_stored,
          c_string-strcpy stored at 28 mem_name mem_plain (omega arith) flash_name_stored,
          offset,
          length_,
        )
        refl
