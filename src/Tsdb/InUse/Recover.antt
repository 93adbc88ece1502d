-- ===== src/Tsdb/InUse/Recover.antt =====
-- What `read_sector_info` of FlashDB/src/fdb_tsdb.c finds in a sector that is in use, as it does
-- after a restart.
use flashdb_ko.Prelude.{
  ℕ, ◌+◌, ◌*◌, ◌/◌, ◌≤◌, ◌<◌, ◌≡◌, refl, ap, ◌∙◌, List, [], ◌∷◌, length, some, true, suc, arith,
}
use flashdb_ko.MemBlk.{read_cells}
use flashdb_ko.Storage.{Flash, FdbErr, flash_fetch}
use flashdb_ko.Storage.Laws.{flash_fetch_lem}
use flashdb_ko.Status.{fdb_get_status}
use flashdb_ko.Kv.Types.{store_using}
use flashdb_ko.Tsdb.Types.{TsdbSecInfo, fdb_tsl_unused, fdb_tsl_status_num, log_idx_of_bytes}
use flashdb_ko.Tsdb.Walk.{read_tsl}
use flashdb_ko.Tsdb.Sector.{read_sector_info, traverse_sector, traverse_logs}
use flashdb_ko.Tsdb.Sector.Header.{read_sector_info-traversal}
use flashdb_ko.Tsdb.Logs.{Entry, advance_all}
use flashdb_ko.Tsdb.Logs.Traverse.{traverse-LogsAt}
use flashdb_ko.Tsdb.InUse.{InUse, opened}

-- An erased index is an unused one.
unused_status : fdb_get_status (0xff ∷ []) fdb_tsl_status_num ≡ fdb_tsl_unused
unfolding fdb_get_status
unused_status = refl

traverse-using :
    (fl : Flash) (max_len : ℕ) (sector : TsdbSecInfo)
    → sector.status ≡ store_using
    → traverse_sector fl max_len true sector
      ≡ traverse_logs fl max_len (suc (sector.remain / 16)) sector.empty_idx sector
unfolding traverse_sector
traverse-using fl max_len sector using = ground arith

read_tsl-erased :
    (fl : Flash) (max_len idx : ℕ) (rest : List ℕ)
    → flash_fetch fl idx 16 ≡ 0xff ∷ rest
    → (read_tsl fl max_len idx).status ≡ fdb_tsl_unused
unfolding read_tsl log_idx_of_bytes
read_tsl-erased fl max_len idx rest h = rw (h, unused_status) refl

-- The end that was read from the header has no part in what the logs lead to.
ends_forgotten :
    (sec_size : ℕ) (sector old : TsdbSecInfo) (e : Entry) (logs : List Entry)
    → advance_all (opened sec_size sector old) (e ∷ logs)
      ≡ advance_all (opened sec_size sector sector) (e ∷ logs)
unfolding advance_all
ends_forgotten sec_size sector old e logs = refl

-- The index behind the last log is unused.
next_unused :
    {fl : Flash} {m : ℕ → ℕ} {max_len sec_size : ℕ} {sector : TsdbSecInfo} {logs : List Entry}
    (use_of : InUse fl m max_len sec_size sector logs)
    → sector.empty_idx + 16 ≤ fl.part.len
    → sector.empty_idx < sector.empty_data
    → (read_tsl fl max_len sector.empty_idx).status ≡ fdb_tsl_unused
unfolding read_cells
next_unused {fl} {m} {max_len} {sec_size} {sector} use_of next_inside free =
    let at = fl.part.offset + sector.empty_idx in
    let blank : m at ≡ 0xff = use_of.erased at (omega arith) (omega arith) in
    read_tsl-erased fl max_len sector.empty_idx (read_cells m (at + 1) 15)
      (flash_fetch_lem use_of.ready sector.empty_idx 16 next_inside ∙ rw blank refl)

-- Of a sector in use with one log or more, whose next index would lie inside the partition, the
-- traversal of `read_sector_info` finds exactly the information that was kept in memory, whatever
-- the caller's structure held. The error that it reports is left open.
pub read_sector_info-InUse :
    {fl : Flash} {m : ℕ → ℕ} {max_len sec_size : ℕ} {sector : TsdbSecInfo} {e : Entry}
    {logs : List Entry} (use_of : InUse fl m max_len sec_size sector (e ∷ logs)) (old : TsdbSecInfo)
    → sector.empty_idx + 16 ≤ fl.part.len
    → (err : FdbErr) × (read_sector_info fl max_len sec_size sector.addr old true
        ≡ some (err, sector))
read_sector_info-InUse {fl} {m} {max_len} {sec_size} {sector} {e} {logs} use_of old next_inside =
    let start = opened sec_size sector old in
    let behind : sector.empty_idx ≡ sector.addr + 40 + 16 * length (e ∷ logs) = use_of.idx_is in
    let ends_at = use_of.top_is in
    let in_order = use_of.room in
    let inside = use_of.inside in
    let wide = use_of.wide in
    let word = use_of.ready.fits in
    let (err, ends) =
      traverse-LogsAt fl max_len (e ∷ logs) (suc (start.remain / 16)) start (omega arith)
        (omega arith) (omega arith) refl use_of.held
        (λ h. rw behind at (next_unused use_of next_inside (omega arith))) (omega arith) in
    let same : advance_all start (e ∷ logs) ≡ sector =
      ends_forgotten sec_size sector old e logs ∙ use_of.tracked in
    (
      err,
      read_sector_info-traversal fl max_len sec_size sector.addr old start (use_of.header old)
          ∙ traverse-using fl max_len start use_of.using
          ∙ ends
          ∙ ap (λ (s : TsdbSecInfo). some (err, s)) same,
    )
