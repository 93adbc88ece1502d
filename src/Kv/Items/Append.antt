-- ===== src/Kv/Items/Append.antt =====
-- KVs on a memory that changes elsewhere, and one more behind them.
use flashdb_ko.Prelude.{ℕ, ◌+◌, ◌<◌, ◌≤◌, ◌≡◌, ◌∙◌, subst, List, [], ◌∷◌, ◌++◌, length, arith}
use flashdb_ko.MemBlk.{read_cells}
use flashdb_ko.MemBlk.Cells.{read_cells-cong}
use flashdb_ko.Kv.Items.{Item, item_len, ItemAt, ValidItem}
use flashdb_ko.Kv.Items.Sector.{ItemsAt, items_len}

-- The two memories agree between two addresses of the partition.
abbrev pub Agree : (ℕ → ℕ) → (ℕ → ℕ) → ℕ → ℕ → ℕ → Type 0
Agree m m' off lo hi = (x : ℕ) → off + lo ≤ x → x < off + hi → m' x ≡ m x

module _ (m m' : ℕ → ℕ) (off : ℕ) where
  pub ItemAt-Agree :
      (addr : ℕ) (e : Item)
      → Agree m m' off addr (addr + item_len e)
      → ItemAt m off addr e
      → ItemAt m' off addr e
  ItemAt-Agree addr e agree at = record {
    status_is = agree (off + addr) (omega arith) (omega arith) ∙ at.status_is;
    tail_is = read_same (addr + 4) 20 (omega arith) (omega arith) ∙ at.tail_is;
    name_is = read_same (addr + 24) (length e.key) (omega arith) (omega arith) ∙ at.name_is;
    value_is =
        read_same (addr + 24 + length e.key) (length e.value) (omega arith) (omega arith)
        ∙ at.value_is;
  }
    where
      read_same :
          (a n : ℕ)
          → addr ≤ a
          → a + n ≤ addr + item_len e
          → read_cells m' (off + a) n ≡ read_cells m (off + a) n
      read_same a n low high =
          read_cells-cong m' m (off + a) n (λ x p q. agree x (omega arith) (omega arith))

  pub ItemsAt-Agree :
      (items : List Item) (addr : ℕ)
      → Agree m m' off addr (addr + items_len items)
      → ItemsAt m off addr items
      → ItemsAt m' off addr items
  unfolding ItemsAt items_len
  ItemsAt-Agree [] addr agree held = held
  ItemsAt-Agree (e ∷ items) addr agree (at, valid, held) = (
    ItemAt-Agree addr e (λ x p q. agree x p (omega arith)) at,
    valid,
    ItemsAt-Agree items (addr + item_len e) (λ x p q. agree x (omega arith) (omega arith)) held,
  )

pub ItemsAt-append :
    (m : ℕ → ℕ) (off : ℕ) (items : List Item) (addr : ℕ) (e : Item)
    → ItemsAt m off addr items
    → ItemAt m off (addr + items_len items) e
    → ValidItem e
    → ItemsAt m off addr (items ++ e ∷ [])
unfolding ItemsAt items_len
ItemsAt-append m off [] addr e held at valid =
    (subst (λ (a : ℕ). ItemAt m off a e) (omega arith) at, valid, tt)
ItemsAt-append m off (g ∷ items) addr e (here, fine, held) at valid = (
  here,
  fine,
  ItemsAt-append m off items (addr + item_len g) e held
      (subst (λ (a : ℕ). ItemAt m off a e) (omega arith) at) valid,
)
