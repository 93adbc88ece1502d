-- ===== src/Tsdb/Logs.antt =====
-- The logs of a sector as a list: what the flash holds for them, and the sector information that
-- they lead to.
pub mod Frame
pub mod Traverse
pub mod Times
use flashdb_ko.Prelude.{
  ℕ, zero, suc, ◌+◌, ◌*◌, ◌-◌, ◌≤◌, ◌<◌, ◌≡◌, refl, List, [], ◌∷◌, ◌++◌, length, arith,
}
use flashdb_ko.Storage.{Flash, flash_fetch}
use flashdb_ko.Tsdb.Types.{FdbTsl, TsdbSecInfo, fdb_tsl_write}
use flashdb_ko.Prelude.Words.{wg_align, wg_align-id}
use flashdb_ko.Tsdb.Walk.{read_tsl}
use flashdb_ko.Tsdb.Sector.{log_room}
use flashdb_ko.Tsdb.Append.{advance}

-- A log: its time and its bytes.
pub record Entry : Type 0 where
  pub time : ℕ
  pub blob : List ℕ

-- The bytes that the data of the logs take.
unfoldable pub data_len : List Entry → ℕ
data_len [] = 0
data_len (e ∷ logs) = length e.blob + data_len logs

-- The object that stands for a log whose index is at `idx` and whose data end at `top`.
abbrev pub tsl_of : ℕ → ℕ → Entry → FdbTsl
tsl_of idx top e = record {
  status = fdb_tsl_write;
  time = e.time;
  log_len = length e.blob;
  index = idx;
  log = top - length e.blob;
}

-- The flash holds the logs: their indexes from `idx` upwards, their data from `top` downwards.
unfoldable pub LogsAt : Flash → ℕ → ℕ → ℕ → List Entry → Type 0
LogsAt fl max_len idx top [] = Unit {0}
LogsAt fl max_len idx top (e ∷ logs) =
    ((read_tsl fl max_len idx ≡ tsl_of idx top e)
      × (flash_fetch fl (top - length e.blob) (length e.blob) ≡ e.blob))
    × LogsAt fl max_len (idx + 16) (top - length e.blob) logs

-- The sector information behind the logs.
unfoldable pub advance_all : TsdbSecInfo → List Entry → TsdbSecInfo
unfolding advance
advance_all sector [] = sector
advance_all sector (e ∷ logs) = advance_all (advance sector (length e.blob) e.time) logs

module _ (fl : Flash) (max_len : ℕ) where
  -- One more log at the end.
  pub LogsAt-snoc :
      (idx top : ℕ) (logs : List Entry) (e : Entry)
      → LogsAt fl max_len idx top logs
      → LogsAt fl max_len (idx + 16 * length logs) (top - data_len logs) (e ∷ [])
      → LogsAt fl max_len idx top (logs ++ (e ∷ []))
  unfolding LogsAt data_len
  LogsAt-snoc idx top [] e before last =
      let here : idx + 16 * 0 ≡ idx = omega arith in
      let there : top - 0 ≡ top = omega arith in rw (here, there) at last
  LogsAt-snoc idx top (f ∷ logs) e (first, before) last =
      let here : idx + 16 * suc (length logs) ≡ idx + 16 + 16 * length logs = omega arith in
      let there : top - (length f.blob + data_len logs) ≡ top - length f.blob - data_len logs =
        omega arith in
      (first, LogsAt-snoc (idx + 16) (top - length f.blob) logs e before (rw (here, there) at last))

pub advance_all-snoc :
    (sector : TsdbSecInfo) (logs : List Entry) (e : Entry)
    → advance_all sector (logs ++ (e ∷ []))
      ≡ advance (advance_all sector logs) (length e.blob) e.time
unfolding advance_all
advance_all-snoc sector [] e = refl
advance_all-snoc sector (f ∷ logs) e =
    advance_all-snoc (advance sector (length f.blob) f.time) logs e

pub log_room_lem : (len : ℕ) → 16 + len < 0x1_0000_0000 → log_room len ≡ 16 + len
unfolding log_room wg_align
log_room_lem len word = omega arith

-- The free addresses and the room behind one more log that fits.
pub advance_lem :
    (sector : TsdbSecInfo) (len time : ℕ)
    → sector.empty_data < 0x1_0000_0000
    → sector.empty_idx + 16 + len ≤ sector.empty_data
    → sector.remain ≡ sector.empty_data - sector.empty_idx
    → let after = advance sector len time in
      (after.empty_idx ≡ sector.empty_idx + 16)
      × (after.empty_data ≡ sector.empty_data - len)
      × (after.remain ≡ after.empty_data - after.empty_idx)
unfolding advance
advance_lem sector len time word fits rem =
    let same : wg_align len ≡ len = wg_align-id len (omega arith) in
    let room : log_room len ≡ 16 + len = log_room_lem len (omega arith) in
    (omega arith, rw same (omega arith), rw (same, room) (omega arith))
