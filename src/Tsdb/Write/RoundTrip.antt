-- ===== src/Tsdb/Write/RoundTrip.antt =====
-- A log that `write_tsl` of FlashDB/src/fdb_tsdb.c wrote is read back.
use flashdb_ko.Prelude.{
  ℕ, ◌+◌, ◌-◌, ◌≤◌, ◌<◌, ◌≡◌, refl, ◌∙◌, ◌⊎◌, inl, inr, List, [], ◌∷◌, length, arith,
}
use flashdb_ko.Prelude.Words.{add32, sub32, wg_align, wg_align-id}
use flashdb_ko.Bytes.{le32, word_at, word_bytes}
use flashdb_ko.MemBlk.{read_cells, write_cells}
use flashdb_ko.MemBlk.Cells.{
  read_cells-append, read_cells-write_cells, read_cells-write_cells_apart, write_cells-inside,
  write_cells-outside, four_cells,
}
use flashdb_ko.Storage.{Flash, no_err, is_ok, flash_fetch}
use flashdb_ko.Storage.Laws.{Ready, with_cells, with_cells-Ready, flash_write_lem, flash_fetch_lem}
use flashdb_ko.Status.{fdb_get_status}
use flashdb_ko.Status.Stored.{status_byte, write_status_lem}
use flashdb_ko.Tsdb.Types.{
  TsdbSecInfo, log_idx_of_bytes, fdb_tsl_pre_write, fdb_tsl_write, fdb_tsl_status_num,
}
use flashdb_ko.Tsdb.Walk.{read_tsl}
use flashdb_ko.Tsdb.Write.{log_idx_tail_bytes, write_tsl}

-- The index in its bytes; the three behind the status are padding.
idx_of_bytes :
    (time len addr b x y z : ℕ)
    → time < 0x1_0000_0000
    → len < 0x1_0000_0000
    → addr < 0x1_0000_0000
    → log_idx_of_bytes (b ∷ x ∷ y ∷ z ∷ log_idx_tail_bytes time len addr)
      ≡ record { status_table = b ∷ []; time = time; log_len = len; log_addr = addr }
unfolding log_idx_of_bytes log_idx_tail_bytes le32 word_at
idx_of_bytes time len addr b x y z h1 h2 h3 =
    rw (word_bytes time h1, word_bytes len h2, word_bytes addr h3) refl

status_of : fdb_get_status (status_byte fdb_tsl_write ∷ []) fdb_tsl_status_num ≡ fdb_tsl_write
unfolding fdb_get_status
status_of = refl

length-tail : (time len addr : ℕ) → length (log_idx_tail_bytes time len addr) ≡ 12
unfolding log_idx_tail_bytes le32
length-tail time len addr = refl

module _ (m : ℕ → ℕ) (off idx log time : ℕ) (blob : List ℕ) where
  abbrev tail : List ℕ
  tail = log_idx_tail_bytes time (length blob) log

  abbrev idx_cells : ℕ → ℕ
  idx_cells =
      write_cells (write_cells m (off + idx) (status_byte fdb_tsl_pre_write ∷ [])) (off + (idx + 4))
        tail

  abbrev blob_cells : ℕ → ℕ
  blob_cells = write_cells idx_cells (off + log) blob

  -- The memory after the log was written.
  abbrev pub tsl_cells : ℕ → ℕ
  tsl_cells = write_cells blob_cells (off + idx) (status_byte fdb_tsl_write ∷ [])

  -- Only the index and the data change.
  pub tsl_cells-outside :
      (x : ℕ)
      → (x < off + idx) ⊎ (off + idx + 16 ≤ x)
      → (x < off + log) ⊎ (off + log + length blob ≤ x)
      → tsl_cells x ≡ m x
  tsl_cells-outside x index apart =
      let twelve : length tail ≡ 12 = length-tail time (length blob) log in
      let before = write_cells m (off + idx) (status_byte fdb_tsl_pre_write ∷ []) in
      write_cells-outside blob_cells (off + idx) (status_byte fdb_tsl_write ∷ []) x (ground arith)
      ∙ write_cells-outside idx_cells (off + log) blob x apart
      ∙ write_cells-outside before (off + (idx + 4)) tail x (ground (arith, twelve))
      ∙ write_cells-outside m (off + idx) (status_byte fdb_tsl_pre_write ∷ []) x (ground arith)

  module _ (apart : idx + 16 ≤ log) where
    tail_read : read_cells tsl_cells (off + (idx + 4)) 12 ≡ tail
    tail_read =
        let twelve : length tail ≡ 12 = length-tail time (length blob) log in
        read_cells-write_cells_apart blob_cells (off + idx) (status_byte fdb_tsl_write ∷ [])
          (off + (idx + 4)) 12 (inr (omega arith))
        ∙ read_cells-write_cells_apart idx_cells (off + log) blob (off + (idx + 4)) 12
            (inl (omega arith))
        ∙ (rw twelve at (
            read_cells-write_cells (write_cells m (off + idx) (status_byte fdb_tsl_pre_write ∷ []))
              (off + (idx + 4)) tail))

    blob_read : read_cells tsl_cells (off + log) (length blob) ≡ blob
    blob_read =
        read_cells-write_cells_apart blob_cells (off + idx) (status_byte fdb_tsl_write ∷ [])
          (off + log) (length blob) (inr (omega arith))
        ∙ read_cells-write_cells idx_cells (off + log) blob

    status_read : tsl_cells (off + idx) ≡ status_byte fdb_tsl_write
    status_read =
        let here : off + idx - (off + idx) ≡ 0 = omega arith in
        rw here at (
          write_cells-inside blob_cells (off + idx) (status_byte fdb_tsl_write ∷ []) (off + idx)
            (omega arith) (omega arith))

    idx_read :
        read_cells tsl_cells (off + idx) 16
        ≡ status_byte fdb_tsl_write
          ∷ tsl_cells (off + idx + 1)
          ∷ tsl_cells (off + idx + 1 + 1)
          ∷ tsl_cells (off + idx + 1 + 1 + 1)
          ∷ tail
    idx_read =
        let next : off + idx + 4 ≡ off + (idx + 4) = omega arith in
        read_cells-append tsl_cells (off + idx) 4 12
        ∙ rw (four_cells tsl_cells (off + idx), next, tail_read, status_read) refl

module _ {fl : Flash} {m : ℕ → ℕ} (ready : Ready fl m) (cur_sec : TsdbSecInfo) (blob : List ℕ)
    (time : ℕ) (room : cur_sec.empty_idx + 16 + length blob ≤ cur_sec.empty_data)
    (inside : cur_sec.empty_data ≤ fl.part.len) where
  abbrev log : ℕ
  log = cur_sec.empty_data - length blob

  abbrev pub written_cells : ℕ → ℕ
  written_cells = tsl_cells m fl.part.offset cur_sec.empty_idx log time blob

  -- Each of the four writes succeeds.
  pub write_tsl_lem : write_tsl fl cur_sec blob time ≡ (no_err, with_cells fl written_cells)
  unfolding write_tsl is_ok
  write_tsl_lem =
      let off = fl.part.offset in
      let idx = cur_sec.empty_idx in
      let m1 = write_cells m (off + idx) (status_byte fdb_tsl_pre_write ∷ []) in
      let m2 = idx_cells m off idx log time blob in
      let m3 = blob_cells m off idx log time blob in
      let at_tail : add32 idx 4 ≡ idx + 4 = omega (arith, ready.fits) in
      let same : wg_align (length blob) ≡ length blob =
        wg_align-id (length blob) (omega (arith, ready.fits)) in
      let at_log : sub32 cur_sec.empty_data (length blob) ≡ log = omega (arith, ready.fits) in
      let fits_tail : idx + 4 + length (log_idx_tail_bytes time (length blob) log) ≤ fl.part.len =
        omega (arith, length-tail time (length blob) log) in
      rw
        (
          same,
          at_log,
          write_status_lem fdb_tsl_status_num fdb_tsl_pre_write (omega arith) (omega arith)
              (omega arith) ready idx (omega arith),
          at_tail,
          flash_write_lem (with_cells-Ready m1 ready) (idx + 4)
              (log_idx_tail_bytes time (length blob) log) fits_tail,
          flash_write_lem (with_cells-Ready m2 ready) log blob (omega arith),
          write_status_lem fdb_tsl_status_num fdb_tsl_write (omega arith) (omega arith)
              (omega arith) (with_cells-Ready m3 ready) idx (omega arith),
        )
        refl

  idx_fetched :
      time < 0x1_0000_0000
      → log_idx_of_bytes (flash_fetch (with_cells fl written_cells) cur_sec.empty_idx 16) ≡ record {
        status_table = status_byte fdb_tsl_write ∷ [];
        time = time;
        log_len = length blob;
        log_addr = log;
      }
  idx_fetched word =
      rw
        (
          flash_fetch_lem (with_cells-Ready written_cells ready) cur_sec.empty_idx 16 (omega arith),
          idx_read m fl.part.offset cur_sec.empty_idx log time blob (omega arith),
        )
        (idx_of_bytes time (length blob) log _ _ _ _ word (omega (arith, ready.fits))
          (omega (arith, ready.fits)))

  tsl_fetched :
      (max_len : ℕ)
      → time < 0x1_0000_0000
      → read_tsl (with_cells fl written_cells) max_len cur_sec.empty_idx ≡ record {
        status = fdb_tsl_write;
        time = time;
        log_len = length blob;
        index = cur_sec.empty_idx;
        log = log;
      }
  unfolding read_tsl
  tsl_fetched max_len word = rw (idx_fetched word, status_of) refl

-- Where the index and the blob fit between the free addresses of the current sector, in the
-- partition: `write_tsl` ends without an error, and `read_tsl` of the index then gives the status
-- FDB_TSL_WRITE, the time, the length and the address of the log, at which the blob is read.
pub read_tsl-write_tsl :
    {fl : Flash} {m : ℕ → ℕ} (ready : Ready fl m) (cur_sec : TsdbSecInfo) (blob : List ℕ)
    (time max_len : ℕ)
    → cur_sec.empty_idx + 16 + length blob ≤ cur_sec.empty_data
    → cur_sec.empty_data ≤ fl.part.len
    → time < 0x1_0000_0000
    → let written = write_tsl fl cur_sec blob time in
      let log_addr = cur_sec.empty_data - length blob in
      (written.0 ≡ no_err)
      × (read_tsl written.1 max_len cur_sec.empty_idx ≡ record {
        status = fdb_tsl_write;
        time = time;
        log_len = length blob;
        index = cur_sec.empty_idx;
        log = log_addr;
      })
      × (flash_fetch written.1 log_addr (length blob) ≡ blob)
read_tsl-write_tsl {fl} {m} ready cur_sec blob time max_len room inside word =
    let cells = written_cells ready cur_sec blob time room inside in
    (
      rw (write_tsl_lem ready cur_sec blob time room inside) refl,
      rw (write_tsl_lem ready cur_sec blob time room inside)
          (tsl_fetched ready cur_sec blob time room inside max_len word),
      rw (write_tsl_lem ready cur_sec blob time room inside) (
          flash_fetch_lem (with_cells-Ready cells ready) (cur_sec.empty_data - length blob)
            (length blob) (omega arith)
          ∙ blob_read m fl.part.offset cur_sec.empty_idx (cur_sec.empty_data - length blob) time
              blob (omega arith)),
    )
