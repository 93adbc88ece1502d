-- ===== src/Kv/Create/ReadBack.antt =====
-- `read_kv` of FlashDB/src/fdb_kvdb.c on a KV that stands on the flash.
use flashdb_ko.Prelude.{
  ℕ, suc, ◌+◌, ◌<◌, ◌≤◌, ◌≡◌, refl, ap, sym, ◌∙◌, List, [], ◌∷◌, ◌++◌, some, true, false, eq→==,
  length, drop, replicate, length-replicate, lt→ltb, arith,
}
use flashdb_ko.Prelude.Words.{add32, sub32, wg_align, wg_align-id}
use flashdb_ko.Crc.{fdb_calc_crc32}
use flashdb_ko.Crc.Chunks.{fdb_calc_crc32-append, fdb_calc_crc32-nil}
use flashdb_ko.Crc.Bound.{fdb_calc_crc32_below}
use flashdb_ko.Storage.{no_err, flash_fetch}
use flashdb_ko.Storage.Laws.{Ready, flash_fetch_lem}
use flashdb_ko.Status.{fdb_get_status}
use flashdb_ko.Status.Stored.{status_byte, get_status-status_byte}
use flashdb_ko.Kv.Types.{
  FdbKv, FdbKvdb, KvHdrData, fdb_kv_name_max, kv_hdr_data_size, fdb_kv_status_num, kv_hdr_of_bytes,
  kv_magic_word,
}
use flashdb_ko.Kv.State.{◌>>=◌}
use flashdb_ko.Kv.Read.{read_kv, read_kv_body, crc_loop, hdr_crc, len_is_bad, terminate}
use flashdb_ko.Kv.Read.CrcLoop.{crc_loop-range, take_all}
use flashdb_ko.Kv.Create.{new_kv_hdr, new_kv_crc, align_pad}
use flashdb_ko.Kv.Create.WriteKv.{whole_hdr}
use flashdb_ko.Kv.Items.{
  Item, item_len, kv_of, ValidItem, ItemAt, hdr_of_bytes, hdr_read, data_read,
}

-- A stored header: the one that was written, with the status bits as they are now.
abbrev stored_hdr : List ℕ → List ℕ → ℕ → KvHdrData
stored_hdr key value status = record (whole_hdr key value) {
  status_table = status_byte status ∷ [];
}

drop_all : (xs : List ℕ) → drop (suc (length xs)) xs ≡ []
drop_all [] = refl
drop_all (x ∷ xs) = drop_all xs

module _ (key value : List ℕ) (key_len : length key < fdb_kv_name_max)
    (value_len : length value < 0xffff_ff00) where
  abbrev pub total : ℕ
  total = kv_hdr_data_size + length key + length value

  no_pad : (n : ℕ) → n < 0x1_0000_0000 → align_pad n ≡ []
  no_pad n h =
      let same : wg_align n ≡ n = wg_align-id n h in
      let none_left : sub32 n n ≡ 0 = omega arith in rw (same, none_left) refl

  hdr_name_len : (new_kv_hdr key value).name_len ≡ length key
  unfolding new_kv_hdr
  hdr_name_len = omega arith

  hdr_value_len : (new_kv_hdr key value).value_len ≡ length value
  unfolding new_kv_hdr
  hdr_value_len = omega arith

  pub hdr_len : (new_kv_hdr key value).len ≡ total
  unfolding new_kv_hdr
  hdr_len =
      ground
        (arith, wg_align-id (length key) (omega arith), wg_align-id (length value) (omega arith))

  -- The CRC32 that is stored covers the two lengths, the name and the value.
  new_kv_crc-whole :
      (status : ℕ)
      → new_kv_crc key value ≡ fdb_calc_crc32 (hdr_crc (stored_hdr key value status)) (key ++ value)
  unfolding new_kv_crc hdr_crc
  new_kv_crc-whole status =
      let pad1 : align_pad (new_kv_hdr key value).name_len ≡ [] =
        rw hdr_name_len (no_pad (length key) (omega arith)) in
      let pad2 : align_pad (new_kv_hdr key value).value_len ≡ [] =
        rw hdr_value_len (no_pad (length value) (omega arith)) in
      rw (pad1, pad2, fdb_calc_crc32-nil _, fdb_calc_crc32-nil _)
        (fdb_calc_crc32-append _ key value)

  hdr_pad : (whole_hdr key value).name_pad ≡ 255 ∷ 255 ∷ 255 ∷ []
  unfolding new_kv_hdr
  hdr_pad = refl

  hdr_magic : (whole_hdr key value).magic ≡ kv_magic_word
  unfolding new_kv_hdr
  hdr_magic = refl

  hdr_crc_below : (status : ℕ) → hdr_crc (stored_hdr key value status) < 0x1_0000_0000
  unfolding hdr_crc
  hdr_crc_below status = fdb_calc_crc32_below _ _ (fdb_calc_crc32_below 0 _ (omega arith))

  crc_below : new_kv_crc key value < 0x1_0000_0000
  crc_below = rw (new_kv_crc-whole 0) (fdb_calc_crc32_below _ (key ++ value) (hdr_crc_below 0))

  -- The name in the array, with the NUL that `read_kv` puts behind it.
  terminated : terminate (length key) key ≡ key ++ (0 ∷ [])
  unfolding terminate
  terminated = rw (take_all key (length key) refl, drop_all key) refl

  -- On a flash that holds the KV with any status of the enumeration.
  module _ (status : ℕ) (pos : 0 < status) (below : status < fdb_kv_status_num) (db : FdbKvdb)
      {m : ℕ → ℕ} (addr : ℕ) (ready : Ready db.flash m)
      (stored : ItemAt m db.flash.part.offset addr
        (record { key = key; value = value; status = status }))
      (inside : addr + total ≤ db.flash.part.len) where
    -- What `read_kv` gives.
    abbrev pub read_back : FdbKv → FdbKv
    read_back kv = record kv {
      status = status;
      crc_is_ok = true;
      name_len = length key;
      len = total;
      value_len = length value;
      name = key ++ (0 ∷ []);
      start = addr;
      value = addr + 24 + length key;
    }

    crc_read :
        crc_loop db.flash
          (addr + 24)
          (length key + length value)
          (suc (length key + length value))
          0
          (replicate 32 db.flash.junk)
          (hdr_crc (stored_hdr key value status))
        ≡ some (new_kv_crc key value)
    crc_read =
        crc_loop-range ready (addr + 24) (length key + length value) (omega arith) (omega arith)
          (replicate 32 db.flash.junk) (hdr_crc (stored_hdr key value status))
          (length-replicate 32 db.flash.junk)
        ∙ ap (λ (t : List ℕ). some (fdb_calc_crc32 (hdr_crc (stored_hdr key value status)) t))
            (data_read stored)
        ∙ ap some (sym (new_kv_crc-whole status))

    name_fetched : flash_fetch db.flash (addr + 24) (length key) ≡ key
    name_fetched = flash_fetch_lem ready (addr + 24) (length key) (omega arith) ∙ stored.name_is

    body_read :
        (kv : FdbKv)
        → kv.start ≡ addr
        → read_kv_body (stored_hdr key value status) kv db
          ≡ some ((no_err, record (read_back kv) { status = kv.status; len = kv.len }), db)
    unfolding read_kv_body
    body_read kv at =
        let body : add32 addr 24 ≡ addr + 24 = omega (arith, ready.fits) in
        let data_len : sub32 (new_kv_hdr key value).len 24 ≡ length key + length value =
          rw hdr_len (omega arith) in
        let name_align : wg_align (length key) ≡ length key =
          wg_align-id (length key) (omega arith) in
        let value_at : add32 (addr + 24) (length key) ≡ addr + 24 + length key =
          omega (arith, ready.fits) in
        rw (at, body, data_len, ◌>>=◌, crc_read, eq→== (new_kv_crc key value) _ refl)
          (rw
            (
              hdr_name_len,
              lt→ltb (length key) fdb_kv_name_max key_len,
              hdr_value_len,
              at,
              body,
              name_align,
              name_fetched,
              terminated,
              value_at,
            )
            refl)

    not_bad : total ≤ db.max_size → len_is_bad db.max_size total ≡ false
    unfolding len_is_bad
    not_bad h = ground arith

    raw_read :
        kv_hdr_of_bytes (flash_fetch db.flash addr kv_hdr_data_size) ≡ stored_hdr key value status
    raw_read =
        rw (flash_fetch_lem ready addr 24 (omega arith), hdr_read stored)
          (hdr_of_bytes (whole_hdr key value) 255 255 255 _ _ _ _ hdr_pad (omega (arith, hdr_magic))
            (omega (arith, hdr_len)) crc_below (omega (arith, hdr_value_len)))

    status_of : fdb_get_status (status_byte status ∷ []) fdb_kv_status_num ≡ status
    status_of = get_status-status_byte fdb_kv_status_num status pos below (omega arith)

    -- A KV with a name of less than FDB_KV_NAME_MAX characters is read by `read_kv` without an
    -- error: its CRC32 is right, and its status, its lengths, its name and the address of its value
    -- are those that it has.
    pub read_kv-item :
        total ≤ db.max_size
        → (kv : FdbKv) → kv.start ≡ addr
        → read_kv kv db ≡ some ((no_err, read_back kv), db)
    unfolding read_kv
    read_kv-item fits kv at =
        let good : len_is_bad db.max_size (new_kv_hdr key value).len ≡ false =
          rw hdr_len (not_bad fits) in
        rw (at, raw_read, status_of, good)
          (body_read (record kv { status = status; len = (new_kv_hdr key value).len; start = addr })
              refl
            ∙ rw hdr_len refl)

-- The same, for the KV as an item.
pub read_kv-ItemAt :
    (db : FdbKvdb) {m : ℕ → ℕ} (ready : Ready db.flash m) (addr : ℕ) (e : Item)
    → ValidItem e
    → ItemAt m db.flash.part.offset addr e
    → addr + item_len e ≤ db.flash.part.len
    → item_len e ≤ db.max_size
    → (kv : FdbKv) → kv.start ≡ addr
    → read_kv kv db ≡ some ((no_err, kv_of addr e), db)
read_kv-ItemAt db ready addr e valid stored inside fits kv at =
    read_kv-item e.key e.value valid.key_len valid.value_len e.status valid.has_status
      valid.status_below db addr ready stored inside fits kv at
