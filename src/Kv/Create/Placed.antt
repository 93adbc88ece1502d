-- ===== src/Kv/Create/Placed.antt =====
-- `update_sec_status` of FlashDB/src/fdb_kvdb.c, as `create_kv_blob` calls it.
use flashdb_ko.Prelude.{
  ℕ, ◌+◌, ◌<◌, ◌≡◌, ◌≢◌, ◌≤◌, ◌⊎◌, refl, inl, inr, [], ◌∷◌, some, Bool, true, false, ◌==◌, ltb,
  ◌||◌, Bool-cases, arith,
}
use flashdb_ko.Prelude.Words.{sub32}
use flashdb_ko.MemBlk.{write_cells}
use flashdb_ko.MemBlk.Cells.{write_cells-outside}
use flashdb_ko.Storage.{no_err}
use flashdb_ko.Storage.Laws.{Ready, with_cells, with_cells-Ready}
use flashdb_ko.Status.{fdb_write_status}
use flashdb_ko.Kv.SectorCache.{update_sector_status_store_cache}
use flashdb_ko.Status.Stored.{status_byte, write_status_lem}
use flashdb_ko.Kv.Types.{
  FdbKvdb, KvdbSecInfo, store_empty, store_using, store_full, store_status_num,
  fdb_sec_remain_threshold,
}
use flashdb_ko.Kv.Write.{update_sec_status}

-- What a change of the status of the sector at `addr` leaves of the database on the memory `m`.
pub record Prepared (m : ℕ → ℕ) (addr : ℕ) (db db1 : FdbKvdb) : Type 0 where
  pub cells : ℕ → ℕ
  pub ready : Ready db1.flash cells
  pub part_is : db1.flash.part ≡ db.flash.part
  pub cache_is : db1.kv_cache_table ≡ db.kv_cache_table
  pub max_is : db1.max_size ≡ db.max_size
  pub ok_is : db1.init_ok ≡ db.init_ok
  pub kept : (x : ℕ) → x ≢ db.flash.part.offset + addr → cells x ≡ m x

unchanged : (db : FdbKvdb) {m : ℕ → ℕ} (addr : ℕ) → Ready db.flash m → Prepared m addr db db
unchanged db {m} addr ready = record {
  cells = m;
  ready = ready;
  part_is = refl;
  cache_is = refl;
  max_is = refl;
  ok_is = refl;
  kept = λ x away. refl;
}

-- The database after the status of a sector was written.
abbrev marked : (db : FdbKvdb) → (ℕ → ℕ) → ℕ → ℕ → FdbKvdb
marked db m addr status = record db {
  flash =
      with_cells db.flash (write_cells m (db.flash.part.offset + addr) (status_byte status ∷ []));
  sector_cache_table = update_sector_status_store_cache db.sector_cache_table addr status;
}

apart : (x a : ℕ) → x ≢ a → (x < a) ⊎ (a + 1 ≤ x)
apart x a away = ground arith

marked-Prepared :
    (db : FdbKvdb) {m : ℕ → ℕ} (ready : Ready db.flash m) (addr status : ℕ)
    → Prepared m addr db (marked db m addr status)
marked-Prepared db {m} ready addr status =
    let m1 = write_cells m (db.flash.part.offset + addr) (status_byte status ∷ []) in
    record {
      cells = m1;
      ready = with_cells-Ready m1 ready;
      part_is = refl;
      cache_is = refl;
      max_is = refl;
      ok_is = refl;
      kept = λ x away.
          write_cells-outside m (db.flash.part.offset + addr) (status_byte status ∷ []) x
            (apart x (db.flash.part.offset + addr) away);
    }

module _ (db : FdbKvdb) {m : ℕ → ℕ} (ready : Ready db.flash m) (sector : KvdbSecInfo) (len : ℕ)
    (inside : sector.addr < db.flash.part.len) where
  written :
      (status : ℕ)
      → 0 < status
      → status < store_status_num
      → (fdb_write_status db.flash sector.addr store_status_num status
          ≡ (no_err, (marked db m sector.addr status).flash, status_byte status ∷ []))
  written status p q =
      write_status_lem store_status_num status p q (omega arith) ready sector.addr inside

  -- Where the sector's header lies in the partition, the update of its status succeeds.
  pub update_sec_status-Prepared :
      (is_full : Bool) × (db1 : FdbKvdb) × (update_sec_status sector len false db
        ≡ some ((no_err, is_full), db1))
      × Prepared m sector.addr db db1
  unfolding update_sec_status
  update_sec_status-Prepared = elim (Bool-cases (sector.store == store_empty)) [
    | inl empty ↦ (
      false,
      marked db m sector.addr store_using,
      rw (update_sec_status, empty, written store_using (omega arith) (omega arith)) refl,
      marked-Prepared db ready sector.addr store_using,
    )
    | inr not_empty ↦ elim (Bool-cases (sector.store == store_using)) [
      | inr other ↦
          (false, db, rw (update_sec_status, not_empty, other) refl, unchanged db sector.addr ready)
      | inl using ↦
          elim (Bool-cases (
            ltb sector.remain fdb_sec_remain_threshold
            || ltb (sub32 sector.remain len) fdb_sec_remain_threshold)) [
              | inl full ↦ (
                true,
                marked db m sector.addr store_full,
                rw
                    (
                      update_sec_status,
                      not_empty,
                      using,
                      full,
                      written store_full (omega arith) (omega arith),
                    )
                    refl,
                marked-Prepared db ready sector.addr store_full,
              )
              | inr more ↦ (
                false,
                db,
                rw (update_sec_status, not_empty, using, more) refl,
                unchanged db sector.addr ready,
              )
            ]
    ]
  ]
