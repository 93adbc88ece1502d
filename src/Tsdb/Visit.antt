-- ===== src/Tsdb/Visit.antt =====
-- `sector_iterator` of FlashDB/src/fdb_tsdb.c. `none` means that the function does not return.
use flashdb_ko.Prelude.{
  ℕ, zero, suc, Option, none, some, Bool, true, false, ◌||◌, ◌==◌, if◌then◌else◌,
}
use flashdb_ko.Prelude.Words.{add32, failed_addr}
use flashdb_ko.Storage.{FdbErr, no_err}
use flashdb_ko.Kv.Types.{store_unused}
use flashdb_ko.Tsdb.Types.{TsdbSecInfo}
use flashdb_ko.Tsdb.Walk.{get_next_sector_addr}
use flashdb_ko.Tsdb.State.{FdbTsdb}
use flashdb_ko.Tsdb.Sector.{read_sector_info}

-- A callback of `sector_iterator` on the database and its argument; `true` ends the iteration, and
-- `none` means that the callback does not return.
abbrev pub SectorCb : Type 0 → Type 0
SectorCb A = TsdbSecInfo → FdbTsdb → A → Option (Bool × FdbTsdb × A)

-- One round of `sector_iterator`: the flag, the database, the argument, and the structure read.
unfoldable pub visit_sector :
    {A : Type 0}
    → ℕ
    → SectorCb A
    → Bool
    → ℕ
    → TsdbSecInfo
    → FdbTsdb
    → A
    → Option (Bool × FdbTsdb × A × TsdbSecInfo)
visit_sector status callback traversal sec_addr sector db arg =
    let read : TsdbSecInfo → Bool → Option (FdbErr × TsdbSecInfo) =
      λ s t. read_sector_info db.flash db.max_len db.sec_size sec_addr s t in
    elim (read sector false) [
      | none ↦ none
      | some (_, s) ↦ elim (status == store_unused || status == s.status) [
        | false ↦ some (false, db, arg, s)
        | true ↦ elim (if traversal then read s true else some (no_err, s)) [
          | none ↦ none
          | some (_, s') ↦ elim (callback s' db arg) [
            | none ↦ none
            | some (stop, db', arg') ↦ some (stop, db', arg', s')
          ]
        ]
      ]
    ]

-- The loop of `sector_iterator`.
unfoldable pub visit_sectors :
    {A : Type 0}
    → ℕ
    → SectorCb A
    → Bool
    → ℕ
    → ℕ
    → ℕ
    → TsdbSecInfo
    → FdbTsdb
    → A
    → Option (FdbTsdb × A)
visit_sectors status callback traversal zero sec_addr traversed_len sector db arg = none
visit_sectors status callback traversal (suc fuel) sec_addr traversed_len sector db arg =
    elim (visit_sector status callback traversal sec_addr sector db arg) [
      | none ↦ none
      | some (stop, db', arg', s) ↦
          let traversed = add32 traversed_len db.sec_size in
          let next = get_next_sector_addr db.sec_size db.max_size s traversed in
          elim (stop || next == failed_addr) [
            | true ↦ some (db', arg')
            | false ↦ visit_sectors status callback traversal fuel next traversed s db' arg'
          ]
    ]

-- `sector_iterator`, which starts at the address of the caller's structure.
unfoldable pub sector_iterator :
    {A : Type 0} → FdbTsdb → TsdbSecInfo → ℕ → A → SectorCb A → Bool → Option (FdbTsdb × A)
unfolding visit_sectors visit_sector
sector_iterator db sector status arg callback traversal =
    visit_sectors status callback traversal (suc db.max_size) sector.addr 0 sector db arg
