-- ===== src/Kv/Items/Deleted.antt =====
-- `del_kv` of FlashDB/src/fdb_kvdb.c on a sector that holds KVs: it changes the status of one.
use flashdb_ko.Prelude.{
  ℕ, ◌+◌, ◌-◌, ◌<◌, ◌≤◌, ◌≡◌, ◌≢◌, ◌⊎◌, inl, inr, refl, ap, ◌∙◌, List, [], ◌∷◌, ◌++◌, some, Bool,
  true, false, not, get_or, ◌&&◌, ◌==◌, Bool-cases, if◌then◌else◌, arith,
}
use flashdb_ko.Prelude.Words.{add32, failed_addr, fdb_align_down}
use flashdb_ko.MemBlk.{write_cells}
use flashdb_ko.MemBlk.Cells.{write_cells-inside, write_cells-outside}
use flashdb_ko.Storage.{FdbErr, no_err, is_ok}
use flashdb_ko.Storage.Laws.{Ready, with_cells, with_cells-Ready}
use flashdb_ko.Status.{fdb_write_status, fdb_read_status}
use flashdb_ko.Status.Stored.{status_byte, write_status_lem}
use flashdb_ko.Kv.Types.{
  FdbKv, FdbKvdb, fdb_kv_status_num, fdb_kv_pre_delete, fdb_kv_deleted, dirty_false, dirty_true,
  dirty_status_num, sector_dirty_offset,
}
use flashdb_ko.Kv.SectorCache.{change_cached}
use flashdb_ko.Kv.KvCache.{name_crc_of, update_kv_cache}
use flashdb_ko.Kv.Alloc.{mark_dirty, del_kv_at}
use flashdb_ko.Kv.Items.{Item}
use flashdb_ko.Kv.Items.Sector.{ItemsAt, items_len}
use flashdb_ko.Kv.Items.Restatus.{with_status, ItemsAt-status}

-- What a call leaves: it has succeeded, and every byte but one is as before.
record Touched (db : FdbKvdb) (m : ℕ → ℕ) (a : ℕ) (err : FdbErr) (db' : FdbKvdb) : Type 0 where
  pub cells : ℕ → ℕ
  pub no_error : err ≡ no_err
  pub ready : Ready db'.flash cells
  pub part_is : db'.flash.part ≡ db.flash.part
  pub kept : (x : ℕ) → x ≢ a → cells x ≡ m x

one_off : (x a : ℕ) → x ≢ a → (x < a) ⊎ (a + 1 ≤ x)
one_off x a away = ground arith

module _ (db : FdbKvdb) {m : ℕ → ℕ} (ready : Ready db.flash m) (addr : ℕ)
    (inside : fdb_align_down addr db.sec_size + 1 < db.flash.part.len) where
  abbrev dirty_at : ℕ
  dirty_at = fdb_align_down addr db.sec_size + 1

  -- The sector's mark is its only byte that is written.
  mark_dirty-Touched :
      (err : FdbErr) × (db' : FdbKvdb) × (mark_dirty addr db ≡ some (err, db'))
      × Touched db m (db.flash.part.offset + dirty_at) err db'
  unfolding mark_dirty
  mark_dirty-Touched =
      let at : add32 (fdb_align_down addr db.sec_size) sector_dirty_offset ≡ dirty_at =
        omega (arith, ready.fits) in
      let m' = write_cells m (db.flash.part.offset + dirty_at) (status_byte dirty_true ∷ []) in
      elim (Bool-cases (fdb_read_status db.flash dirty_at dirty_status_num == dirty_false)) [
        | inl clean ↦ (
          no_err,
          record db {
            flash = with_cells db.flash m';
            sector_cache_table =
                change_cached db.sector_cache_table (fdb_align_down addr db.sec_size)
                  (λ c. record c { dirty = dirty_true });
          },
          rw
              (
                mark_dirty,
                at,
                clean,
                write_status_lem dirty_status_num dirty_true (omega arith) (omega arith)
                    (omega arith) ready dirty_at inside,
              )
              refl,
          record {
            cells = m';
            no_error = refl;
            ready = with_cells-Ready m' ready;
            part_is = refl;
            kept = λ x away.
                write_cells-outside m (db.flash.part.offset + dirty_at)
                  (status_byte dirty_true ∷ []) x
                  (one_off x (db.flash.part.offset + dirty_at) away);
          },
        )
        | inr marked ↦ (
          no_err,
          db,
          rw (mark_dirty, at, marked) refl,
          record {
            cells = m;
            no_error = refl;
            ready = ready;
            part_is = refl;
            kept = λ x away. refl;
          },
        )
      ]

-- The status that a deletion gives a KV.
abbrev pub deleted_status : Bool → ℕ
deleted_status complete_del = if complete_del then fdb_kv_deleted else fdb_kv_pre_delete

some_status : (complete_del : Bool) → 0 < deleted_status complete_del
some_status true = omega arith
some_status false = omega arith

below_num : (complete_del : Bool) → deleted_status complete_del < fdb_kv_status_num
below_num true = omega arith
below_num false = omega arith

module _ (db : FdbKvdb) {m : ℕ → ℕ} (ready : Ready db.flash m) (key : List ℕ) (kv : FdbKv)
    (inside : kv.start < db.flash.part.len) where
  abbrev after_status : Bool → ℕ → ℕ
  after_status complete_del =
      write_cells m (db.flash.part.offset + kv.start)
        (status_byte (deleted_status complete_del) ∷ [])

  -- The database before the sector is marked.
  abbrev unmarked : Bool → FdbKvdb
  unmarked complete_del = record db {
    flash = with_cells db.flash (after_status complete_del);
    kv_cache_table =
        if complete_del && not db.last_is_complete_del
        then update_kv_cache db.kv_cache_table (name_crc_of key) failed_addr
        else db.kv_cache_table;
    last_is_complete_del = not complete_del;
  }

  status_written :
      (complete_del : Bool)
      → fdb_write_status db.flash kv.start fdb_kv_status_num (deleted_status complete_del) ≡ (
        no_err,
        with_cells db.flash (after_status complete_del),
        status_byte (deleted_status complete_del) ∷ [],
      )
  status_written true =
      write_status_lem fdb_kv_status_num fdb_kv_deleted (omega arith) (omega arith) (omega arith)
        ready kv.start inside
  status_written false =
      write_status_lem fdb_kv_status_num fdb_kv_pre_delete (omega arith) (omega arith) (omega arith)
        ready kv.start inside

  del_kv_at-marks :
      (complete_del : Bool)
      → del_kv_at key kv complete_del db ≡ mark_dirty kv.start (unmarked complete_del)
  unfolding del_kv_at is_ok
  del_kv_at-marks false = rw (del_kv_at, status_written false) refl
  del_kv_at-marks true = elim (Bool-cases db.last_is_complete_del) [
    | inl last ↦ rw (del_kv_at, status_written true, last) refl
    | inr other ↦ rw (del_kv_at, status_written true, other) refl
  ]

  -- The memory as the KVs of the sector and the new status see it.
  status_there :
      (complete_del : Bool)
      → after_status complete_del (db.flash.part.offset + kv.start)
        ≡ status_byte (deleted_status complete_del)
  status_there complete_del =
      let a = db.flash.part.offset + kv.start in
      write_cells-inside m a (status_byte (deleted_status complete_del) ∷ []) a (omega arith)
        (omega arith)
      ∙ ap (λ (i : ℕ). get_or (status_byte (deleted_status complete_del) ∷ []) i 0) {x = a - a}
          {y = 0} (omega arith)

-- A sector holds KVs, and the structure of one of them names its address in the partition. Deleting
-- it, as the first or the last step of a deletion, succeeds. The sector then holds the same KVs, in
-- their order and with their contents, that one with the status FDB_KV_PRE_DELETE or FDB_KV_DELETED,
-- and no byte of the flash is changed but that status and the mark of the sector.
pub del_kv_at-ItemsAt :
    (db : FdbKvdb) {m : ℕ → ℕ} (ready : Ready db.flash m) (key : List ℕ) (kv : FdbKv)
    (complete_del : Bool) (pre : List Item) (e : Item) (post : List Item)
    → kv.start < db.flash.part.len
    → kv.start ≡ fdb_align_down kv.start db.sec_size + 16 + items_len pre
    → ItemsAt m db.flash.part.offset (fdb_align_down kv.start db.sec_size + 16) (pre ++ e ∷ post)
    → let sec_addr = fdb_align_down kv.start db.sec_size in
      let off = db.flash.part.offset in
      (db' : FdbKvdb) × (m' : ℕ → ℕ) × (del_kv_at key kv complete_del db ≡ some (no_err, db'))
      × Ready db'.flash m'
      × ItemsAt m' off (sec_addr + 16) (pre ++ with_status e (deleted_status complete_del) ∷ post)
      × ((x : ℕ) → x ≢ off + kv.start → x ≢ off + (sec_addr + 1) → m' x ≡ m x)
del_kv_at-ItemsAt db {m} ready key kv complete_del pre e post inside at held =
    let off = db.flash.part.offset in
    let sec_addr = fdb_align_down kv.start db.sec_size in
    let status = deleted_status complete_del in
    let after = after_status db ready key kv inside complete_del in
    let (err, db', run, touched) =
      mark_dirty-Touched (unmarked db ready key kv inside complete_del)
        (with_cells-Ready after ready) kv.start (omega (arith, at)) in
    let kept : (x : ℕ) → x ≢ off + kv.start → x ≢ off + (sec_addr + 1) → touched.cells x ≡ m x =
      λ x p q.
        touched.kept x q
        ∙ write_cells-outside m (off + kv.start) (status_byte status ∷ []) x
            (one_off x (off + kv.start) p) in
    (
      db',
      touched.cells,
      del_kv_at-marks db ready key kv inside complete_del
          ∙ run
          ∙ ap (λ (r : FdbErr). some (r, db')) touched.no_error,
      touched.ready,
      ItemsAt-status m touched.cells off status (some_status complete_del) (below_num complete_del)
          pre e post (sec_addr + 16) kv.start at
          (touched.kept (off + kv.start) (λ q. absurd (omega (arith, q, at)))
            ∙ status_there db ready key kv inside complete_del)
          (λ x p away. kept x away (λ q. absurd (omega (arith, p, q)))) held,
      kept,
    )
