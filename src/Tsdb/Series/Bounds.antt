-- ===== src/Tsdb/Series/Bounds.antt =====
-- What an append changes on the flash: FlashDB/src/fdb_tsdb.c.
use flashdb_ko.Prelude.{ℕ, ◌+◌, ◌-◌, ◌≤◌, ◌<◌, ◌≡◌, ap, ◌⊎◌, List, length}
use flashdb_ko.Storage.{FdbErr}
use flashdb_ko.Storage.Laws.{with_cells}
use flashdb_ko.Prelude.Words.{flip_sign}
use flashdb_ko.Tsdb.State.{FdbTsdb}
use flashdb_ko.Tsdb.Append.{append_here}
use flashdb_ko.Tsdb.Logs.{Entry}
use flashdb_ko.Tsdb.InUse.Append.{cells_after, outside}
use flashdb_ko.Tsdb.Series.{Holds}
use flashdb_ko.Tsdb.Series.Refine.{append_here-Holds}

-- A log that fits the current sector and is later than the last one is written into the free part
-- of the sector: every byte of the device below the first free index or from the free data's end
-- on keeps its value, and so do the bytes that lie between the new index and the new data.
pub append_here-inside :
    {db : FdbTsdb} {logs : List Entry} (held : Holds db logs) (blob : List ℕ) (time : ℕ)
    → time < 0x1_0000_0000
    → db.cur_sec.empty_idx + 16 + length blob ≤ db.cur_sec.empty_data
    → flip_sign db.last_time < flip_sign time
    → let off = db.flash.part.offset in
      (m' : ℕ → ℕ) × ((append_here db blob time).1.flash ≡ with_cells db.flash m')
      × ((x : ℕ)
          → (x < off + db.cur_sec.empty_idx) ⊎ (off + db.cur_sec.empty_idx + 16 ≤ x)
          → (x < off + (db.cur_sec.empty_data - length blob)) ⊎ (off + db.cur_sec.empty_data ≤ x)
          → m' x ≡ held.cells x)
append_here-inside held blob time word fits later = (
  cells_after held.in_use blob time fits word,
  ap (λ (r : FdbErr × FdbTsdb). r.1.flash) (append_here-Holds held blob time word fits later).0,
  outside held.in_use blob time fits word,
)
