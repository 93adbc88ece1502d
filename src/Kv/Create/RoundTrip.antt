-- ===== src/Kv/Create/RoundTrip.antt =====
-- `read_kv` of FlashDB/src/fdb_kvdb.c reads what `create_kv_blob` wrote.
use flashdb_ko.Prelude.{ℕ, ◌+◌, ◌-◌, ◌≤◌, ◌<◌, ◌≡◌, ◌∙◌, inl, inr, List, [], ◌∷◌, length, arith}
use flashdb_ko.MemBlk.{read_cells, write_cells}
use flashdb_ko.MemBlk.Cells.{
  read_cells-write_cells, read_cells-write_cells_apart, write_cells-inside, write_cells-outside,
}
use flashdb_ko.Status.Stored.{status_byte}
use flashdb_ko.Kv.Types.{kv_hdr_tail_bytes, fdb_kv_write, fdb_kv_pre_write}
use flashdb_ko.Kv.Items.{ItemAt}
use flashdb_ko.Kv.Create.WriteKv.{
  whole_hdr, hdr_cells, name_cells, value_cells, kv_cells, length-tail_bytes,
}

module _ (m : ℕ → ℕ) (off addr : ℕ) (key value : List ℕ) where
  abbrev pub cells : ℕ → ℕ
  cells = kv_cells m off addr key value

  -- The header's bytes from its magic word on.
  pub tail_read : read_cells cells (off + (addr + 4)) 20 ≡ kv_hdr_tail_bytes (whole_hdr key value)
  tail_read =
      let n = length-tail_bytes key value in
      read_cells-write_cells_apart (value_cells m off addr key value) (off + addr)
        (status_byte fdb_kv_write ∷ []) (off + (addr + 4)) 20 (inr (omega arith))
      ∙ read_cells-write_cells_apart (name_cells m off addr key value)
          (off + (addr + 24 + length key)) value (off + (addr + 4)) 20 (inl (omega arith))
      ∙ read_cells-write_cells_apart (hdr_cells m off addr key value) (off + (addr + 24)) key
          (off + (addr + 4)) 20 (inl (omega arith))
      ∙ (rw n at (
          read_cells-write_cells (write_cells m (off + addr) (status_byte fdb_kv_pre_write ∷ []))
            (off + (addr + 4)) (kv_hdr_tail_bytes (whole_hdr key value))))

  pub name_read : read_cells cells (off + (addr + 24)) (length key) ≡ key
  name_read =
      read_cells-write_cells_apart (value_cells m off addr key value) (off + addr)
        (status_byte fdb_kv_write ∷ []) (off + (addr + 24)) (length key) (inr (omega arith))
      ∙ read_cells-write_cells_apart (name_cells m off addr key value)
          (off + (addr + 24 + length key)) value (off + (addr + 24)) (length key)
          (inl (omega arith))
      ∙ read_cells-write_cells (hdr_cells m off addr key value) (off + (addr + 24)) key

  pub value_read : read_cells cells (off + (addr + 24 + length key)) (length value) ≡ value
  value_read =
      read_cells-write_cells_apart (value_cells m off addr key value) (off + addr)
        (status_byte fdb_kv_write ∷ []) (off + (addr + 24 + length key)) (length value)
        (inr (omega arith))
      ∙ read_cells-write_cells (name_cells m off addr key value) (off + (addr + 24 + length key))
          value

  status_read : cells (off + addr) ≡ status_byte fdb_kv_write
  status_read =
      let here : off + addr - (off + addr) ≡ 0 = omega arith in
      rw here at (
        write_cells-inside (value_cells m off addr key value) (off + addr)
          (status_byte fdb_kv_write ∷ []) (off + addr) (omega arith) (omega arith))

  pub kv_cells-ItemAt :
      ItemAt cells off addr (record { key = key; value = value; status = fdb_kv_write })
  kv_cells-ItemAt = record {
    status_is = status_read;
    tail_is = tail_read;
    name_is = name_read;
    value_is = value_read;
  }

  -- Behind the KV nothing changes.
  pub kv_cells-behind : (x : ℕ) → off + (addr + 24 + length key + length value) ≤ x → cells x ≡ m x
  kv_cells-behind x h =
      write_cells-outside (value_cells m off addr key value) (off + addr)
        (status_byte fdb_kv_write ∷ []) x (inr (omega arith))
      ∙ write_cells-outside (name_cells m off addr key value) (off + (addr + 24 + length key)) value
          x (inr (omega arith))
      ∙ write_cells-outside (hdr_cells m off addr key value) (off + (addr + 24)) key x
          (inr (omega arith))
      ∙ write_cells-outside (write_cells m (off + addr) (status_byte fdb_kv_pre_write ∷ []))
          (off + (addr + 4)) (kv_hdr_tail_bytes (whole_hdr key value)) x
          (inr (omega (arith, length-tail_bytes key value)))
      ∙ write_cells-outside m (off + addr) (status_byte fdb_kv_pre_write ∷ []) x (inr (omega arith))

  -- Nor does anything before it.
  pub kv_cells-before : (x : ℕ) → x < off + addr → cells x ≡ m x
  kv_cells-before x h =
      write_cells-outside (value_cells m off addr key value) (off + addr)
        (status_byte fdb_kv_write ∷ []) x (inl (omega arith))
      ∙ write_cells-outside (name_cells m off addr key value) (off + (addr + 24 + length key)) value
          x (inl (omega arith))
      ∙ write_cells-outside (hdr_cells m off addr key value) (off + (addr + 24)) key x
          (inl (omega arith))
      ∙ write_cells-outside (write_cells m (off + addr) (status_byte fdb_kv_pre_write ∷ []))
          (off + (addr + 4)) (kv_hdr_tail_bytes (whole_hdr key value)) x (inl (omega arith))
      ∙ write_cells-outside m (off + addr) (status_byte fdb_kv_pre_write ∷ []) x (inl (omega arith))
