-- ===== src/Kv/Items.antt =====
-- KVs as they stand on the flash, written by FlashDB/src/fdb_kvdb.c: the status, the header, the
-- name and the value of each.
pub mod Next
pub mod Sector
pub mod Visit
pub mod Search
pub mod Blocks
pub mod Lookup
pub mod Values
pub mod Get
pub mod Append
pub mod Restatus
pub mod Deleted
use flashdb_ko.Prelude.{
  ℕ, ◌+◌, ◌<◌, ◌≤◌, ◌≡◌, refl, ap, ◌∙◌, List, [], ◌∷◌, ◌++◌, length, true, arith,
}
use flashdb_ko.Bytes.{le32, word_at, word_bytes}
use flashdb_ko.MemBlk.{read_cells}
use flashdb_ko.MemBlk.Cells.{read_cells-append, four_cells}
use flashdb_ko.Status.Stored.{status_byte}
use flashdb_ko.Kv.Types.{
  FdbKv, KvHdrData, kv_hdr_of_bytes, kv_hdr_tail_bytes, kv_hdr_data_size, fdb_kv_name_max,
  fdb_kv_status_num,
}
use flashdb_ko.Kv.Create.WriteKv.{whole_hdr}

-- A KV with its status.
pub record Item : Type 0 where
  pub key : List ℕ
  pub value : List ℕ
  pub status : ℕ

-- The bytes that it takes.
abbrev pub item_len : Item → ℕ
item_len e = kv_hdr_data_size + length e.key + length e.value

-- The KV structure that stands for it.
abbrev pub kv_of : ℕ → Item → FdbKv
kv_of addr e = record {
  status = e.status;
  crc_is_ok = true;
  name_len = length e.key;
  len = kv_hdr_data_size + length e.key + length e.value;
  value_len = length e.value;
  name = e.key ++ (0 ∷ []);
  start = addr;
  value = addr + 24 + length e.key;
}

-- A name and a value of admissible lengths, and a status of the enumeration.
pub record ValidItem (e : Item) : Type 0 where
  pub key_len : length e.key < fdb_kv_name_max
  pub value_len : length e.value < 0xffff_ff00
  pub has_status : 0 < e.status
  pub status_below : e.status < fdb_kv_status_num

-- The KV stands at `addr` of a partition at the offset `off`.
pub record ItemAt (m : ℕ → ℕ) (off addr : ℕ) (e : Item) : Type 0 where
  pub status_is : m (off + addr) ≡ status_byte e.status
  pub tail_is : read_cells m (off + (addr + 4)) 20 ≡ kv_hdr_tail_bytes (whole_hdr e.key e.value)
  pub name_is : read_cells m (off + (addr + 24)) (length e.key) ≡ e.key
  pub value_is : read_cells m (off + (addr + 24 + length e.key)) (length e.value) ≡ e.value

module _ {m : ℕ → ℕ} {off addr : ℕ} {e : Item} (at : ItemAt m off addr e) where
  pub data_read :
      read_cells m (off + (addr + 24)) (length e.key + length e.value) ≡ e.key ++ e.value
  data_read =
      let next : off + (addr + 24) + length e.key ≡ off + (addr + 24 + length e.key) =
        omega arith in
      rw
        (
          read_cells-append m (off + (addr + 24)) (length e.key) (length e.value),
          next,
          at.name_is,
          at.value_is,
        )
        refl

  -- The header's bytes; the three behind the status are padding.
  pub hdr_read :
      read_cells m (off + addr) 24
      ≡ status_byte e.status
        ∷ m (off + addr + 1)
        ∷ m (off + addr + 1 + 1)
        ∷ m (off + addr + 1 + 1 + 1)
        ∷ kv_hdr_tail_bytes (whole_hdr e.key e.value)
  hdr_read =
      let next : off + addr + 4 ≡ off + (addr + 4) = omega arith in
      read_cells-append m (off + addr) 4 20
      ∙ rw (four_cells m (off + addr), next, at.tail_is, at.status_is) refl

-- The structure in the header's bytes.
pub hdr_of_bytes :
    (hdr : KvHdrData) (p q r b x y z : ℕ)
    → hdr.name_pad ≡ p ∷ q ∷ r ∷ []
    → hdr.magic < 0x1_0000_0000
    → hdr.len < 0x1_0000_0000
    → hdr.crc32 < 0x1_0000_0000
    → hdr.value_len < 0x1_0000_0000
    → kv_hdr_of_bytes (b ∷ x ∷ y ∷ z ∷ kv_hdr_tail_bytes hdr) ≡ record hdr { status_table = b ∷ [] }
unfolding kv_hdr_of_bytes kv_hdr_tail_bytes le32 word_at
hdr_of_bytes hdr p q r b x y z pad h1 h2 h3 h4 =
    rw
      (
        pad,
        word_bytes hdr.magic h1,
        word_bytes hdr.len h2,
        word_bytes hdr.crc32 h3,
        word_bytes hdr.value_len h4,
      )
      refl
