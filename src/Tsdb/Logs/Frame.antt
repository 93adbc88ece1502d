-- ===== src/Tsdb/Logs/Frame.antt =====
-- The logs of a sector stay as they are under changes of the flash elsewhere.
use flashdb_ko.Prelude.{
  ℕ, ◌+◌, ◌*◌, ◌-◌, ◌≤◌, ◌<◌, ◌≡◌, refl, ◌∙◌, sym, List, [], ◌∷◌, length, arith,
}
use flashdb_ko.MemBlk.Cells.{read_cells-cong}
use flashdb_ko.Storage.{Flash, flash_fetch}
use flashdb_ko.Storage.Laws.{Ready, with_cells, with_cells-Ready, flash_fetch_lem}
use flashdb_ko.Tsdb.Walk.{read_tsl}
use flashdb_ko.Tsdb.Logs.{Entry, data_len, LogsAt}

-- `read_tsl` looks at the 16 bytes of the index only.
pub read_tsl-cong :
    (fl fl' : Flash) (max_len idx : ℕ)
    → flash_fetch fl' idx 16 ≡ flash_fetch fl idx 16
    → read_tsl fl' max_len idx ≡ read_tsl fl max_len idx
unfolding read_tsl
read_tsl-cong fl fl' max_len idx same = rw same refl

module _ {fl : Flash} {m : ℕ → ℕ} (ready : Ready fl m) (m' : ℕ → ℕ) where
  pub fetch-same :
      (addr n : ℕ)
      → addr + n ≤ fl.part.len
      → ((x : ℕ) → fl.part.offset + addr ≤ x → x < fl.part.offset + addr + n → m' x ≡ m x)
      → flash_fetch (with_cells fl m') addr n ≡ flash_fetch fl addr n
  fetch-same addr n inside same =
      flash_fetch_lem (with_cells-Ready m' ready) addr n inside
      ∙ read_cells-cong m' m (fl.part.offset + addr) n same
      ∙ sym (flash_fetch_lem ready addr n inside)

  pub LogsAt-frame :
      (max_len idx top : ℕ) (logs : List Entry)
      → idx + 16 * length logs ≤ fl.part.len
      → top ≤ fl.part.len
      → data_len logs ≤ top
      → ((x : ℕ)
          → fl.part.offset + idx ≤ x
          → x < fl.part.offset + idx + 16 * length logs
          → m' x ≡ m x)
      → ((x : ℕ)
          → fl.part.offset + (top - data_len logs) ≤ x
          → x < fl.part.offset + top
          → m' x ≡ m x)
      → LogsAt fl max_len idx top logs
      → LogsAt (with_cells fl m') max_len idx top logs
  unfolding LogsAt data_len
  LogsAt-frame max_len idx top [] fits inside short low high held = tt
  LogsAt-frame max_len idx top (e ∷ logs) fits inside short low high ((index, blob), rest) = (
    (
      read_tsl-cong fl (with_cells fl m') max_len idx
            (fetch-same idx 16 (omega arith) (λ x p q. low x (omega arith) (omega arith)))
          ∙ index,
      fetch-same (top - length e.blob) (length e.blob) (omega arith)
            (λ x p q. high x (omega arith) (omega arith))
          ∙ blob,
    ),
    LogsAt-frame max_len (idx + 16) (top - length e.blob) logs (omega arith) (omega arith)
        (omega arith) (λ x p q. low x (omega arith) (omega arith))
        (λ x p q. high x (omega arith) (omega arith)) rest,
  )
