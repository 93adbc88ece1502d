-- ===== src/MemBlk/Words.antt =====
-- The 32-bit words of a memory.
use flashdb_ko.Prelude.{
  ℕ, zero, suc, ◌+◌, ◌*◌, ◌%◌, ◌<◌, ◌≤◌, ◌≡◌, ◌⊎◌, List, [], length, refl, sym, ap, ◌∙◌, get_or,
  arith,
}
use flashdb_ko.Bytes.{word_at, le32, word_at-le32}
use flashdb_ko.MemBlk.{read_cells, write_cells}
use flashdb_ko.MemBlk.Cells.{read_cells-write_cells, read_cells-write_cells_apart}

-- The word of the device at an offset.
unfoldable pub word_in : (ℕ → ℕ) → ℕ → ℕ
word_in m o = (m o + m (o + 1) * 256 + m (o + 2) * 65536 + m (o + 3) * 16777216) % 0x1_0000_0000

pub get_or-read_cells : (m : ℕ → ℕ) (a n i : ℕ) → i < n → get_or (read_cells m a n) i 0 ≡ m (a + i)
unfolding read_cells
get_or-read_cells m a zero i h = absurd (omega arith)
get_or-read_cells m a (suc n) zero h = ap m (omega arith)
get_or-read_cells m a (suc n) (suc i) h =
    get_or-read_cells m (a + 1) n i (omega arith) ∙ ap m (omega arith)

pub word_at-read_cells :
    (m : ℕ → ℕ) (a n i : ℕ) → i + 3 < n → word_at (read_cells m a n) i ≡ word_in m (a + i)
unfolding word_at word_in
word_at-read_cells m a n i h =
    let e1 : a + (i + 1) ≡ a + i + 1 = omega arith in
    let e2 : a + (i + 2) ≡ a + i + 2 = omega arith in
    let e3 : a + (i + 3) ≡ a + i + 3 = omega arith in
    rw
      (
        get_or-read_cells m a n i (omega arith),
        get_or-read_cells m a n (i + 1) (omega arith),
        get_or-read_cells m a n (i + 2) (omega arith),
        get_or-read_cells m a n (i + 3) (omega arith),
        e1,
        e2,
        e3,
      )
      refl

word_in-read_cells : (m : ℕ → ℕ) (a : ℕ) → word_in m a ≡ word_at (read_cells m a 4) 0
word_in-read_cells m a =
    sym
      (word_at-read_cells m a 4 0 (omega arith) ∙ ap (word_in m) {x = a + 0} {y = a} (omega arith))

-- A word that was written, and one that a write elsewhere leaves.
pub word_in-le32 :
    (m : ℕ → ℕ) (a v : ℕ) → v < 0x1_0000_0000 → word_in (write_cells m a (le32 v)) a ≡ v
unfolding le32
word_in-le32 m a v small =
    word_in-read_cells (write_cells m a (le32 v)) a
    ∙ ap (λ (bytes : List ℕ). word_at bytes 0) (read_cells-write_cells m a (le32 v))
    ∙ word_at-le32 v [] small

pub word_in-apart :
    (m : ℕ → ℕ) (b : ℕ) (bs : List ℕ) (a : ℕ)
    → (a + 4 ≤ b) ⊎ (b + length bs ≤ a)
    → word_in (write_cells m b bs) a ≡ word_in m a
word_in-apart m b bs a apart =
    word_in-read_cells (write_cells m b bs) a
    ∙ ap (λ (bytes : List ℕ). word_at bytes 0) (read_cells-write_cells_apart m b bs a 4 apart)
    ∙ sym (word_in-read_cells m a)
