-- ===== src/Kv/Items/Restatus.antt =====
-- KVs on the flash, one of which changes its status.
use flashdb_ko.Prelude.{ℕ, ◌+◌, ◌<◌, ◌≤◌, ◌≡◌, ◌≢◌, ◌∙◌, subst, List, [], ◌∷◌, ◌++◌, length, arith}
use flashdb_ko.MemBlk.{read_cells}
use flashdb_ko.MemBlk.Cells.{read_cells-cong}
use flashdb_ko.Status.Stored.{status_byte}
use flashdb_ko.Kv.Types.{fdb_kv_status_num}
use flashdb_ko.Kv.Items.{Item, item_len, ItemAt}
use flashdb_ko.Kv.Items.Sector.{ItemsAt, items_len}
use flashdb_ko.Kv.Items.Append.{ItemAt-Agree, ItemsAt-Agree}

-- A KV with another status.
abbrev pub with_status : Item → ℕ → Item
with_status e status = record e { status = status }

-- The KVs of a memory that differs in the status of one of them.
module _ (m m' : ℕ → ℕ) (off status : ℕ) (positive : 0 < status)
    (below : status < fdb_kv_status_num) where
  ItemAt-status :
      (addr : ℕ) (e : Item)
      → m' (off + addr) ≡ status_byte status
      → ((x : ℕ) → off + addr < x → x < off + (addr + item_len e) → m' x ≡ m x)
      → ItemAt m off addr e
      → ItemAt m' off addr (with_status e status)
  ItemAt-status addr e there kept at = record {
    status_is = there;
    tail_is = read_same (addr + 4) 20 (omega arith) (omega arith) ∙ at.tail_is;
    name_is = read_same (addr + 24) (length e.key) (omega arith) (omega arith) ∙ at.name_is;
    value_is =
        read_same (addr + 24 + length e.key) (length e.value) (omega arith) (omega arith)
        ∙ at.value_is;
  }
    where
      read_same :
          (a n : ℕ)
          → addr < a
          → a + n ≤ addr + item_len e
          → read_cells m' (off + a) n ≡ read_cells m (off + a) n
      read_same a n low high =
          read_cells-cong m' m (off + a) n (λ x p q. kept x (omega arith) (omega arith))

  pub ItemsAt-status :
      (pre : List Item) (e : Item) (post : List Item) (addr a : ℕ)
      → a ≡ addr + items_len pre
      → m' (off + a) ≡ status_byte status
      → ((x : ℕ) → off + addr ≤ x → x ≢ off + a → m' x ≡ m x)
      → ItemsAt m off addr (pre ++ e ∷ post)
      → ItemsAt m' off addr (pre ++ with_status e status ∷ post)
  unfolding ItemsAt items_len
  ItemsAt-status [] e post addr a start there kept (at, valid, held) =
      let here : a ≡ addr = omega (arith, start) in
      (
        ItemAt-status addr e (subst (λ (b : ℕ). m' (off + b) ≡ status_byte status) here there)
            (λ x p q. kept x (omega arith) (λ e. absurd (omega (arith, e, here)))) at,
        record {
          key_len = valid.key_len;
          value_len = valid.value_len;
          has_status = positive;
          status_below = below;
        },
        ItemsAt-Agree m m' off post (addr + item_len e)
            (λ x p q. kept x (omega arith) (λ e. absurd (omega (arith, e, here)))) held,
      )
  ItemsAt-status (g ∷ pre) e post addr a start there kept (at, valid, held) = (
    ItemAt-Agree m m' off addr g
        (λ x p q. kept x (omega arith) (λ e. absurd (omega (arith, e, start)))) at,
    valid,
    ItemsAt-status pre e post (addr + item_len g) a (omega (arith, start)) there
        (λ x p away. kept x (omega arith) away) held,
  )
