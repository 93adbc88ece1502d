-- ===== src/Tsdb/Search.antt =====
-- `search_start_tsl_addr` of FlashDB/src/fdb_tsdb.c.
pub mod LowerBound
use flashdb_ko.Prelude.{
  ℕ, zero, suc, ◌/◌, Option, none, some, Bool, true, false, ◌&&◌, ltb, if◌then◌else◌,
}
use flashdb_ko.Prelude.Words.{add32, sub32, lt_int32, fdb_align}
use flashdb_ko.Storage.{Flash}
use flashdb_ko.Tsdb.Types.{FdbTsl, log_idx_data_size}
use flashdb_ko.Tsdb.Walk.{read_tsl}

-- `x / 2` of an `int`, which rounds to 0.
abbrev pub half_int32 : ℕ → ℕ
half_int32 x = if ltb x 0x8000_0000 then x / 2 else sub32 0 (sub32 0 x / 2)

-- The index address in the middle.
unfoldable pub middle : ℕ → ℕ → ℕ
middle start end = add32 start (fdb_align (half_int32 (sub32 end start)) log_idx_data_size)

-- What is returned where the loop breaks off, at its `start`.
unfoldable pub found_start : Flash → ℕ → ℕ → ℕ → ℕ → ℕ
found_start fl max_len start from to =
    if lt_int32 to from && lt_int32 from (read_tsl fl max_len start).time
    then sub32 start log_idx_data_size
    else start

-- The loop; `none` where the fuel, one unit for each round, is used up.
unfoldable pub search_loop : Flash → ℕ → ℕ → ℕ → ℕ → ℕ → ℕ → Option ℕ
search_loop fl max_len zero start end from to = none
search_loop fl max_len (suc fuel) start end from to =
    let index = middle start end in
    let time = (read_tsl fl max_len index).time in
    elim (lt_int32 time from) [
      | true ↦
          let start' = add32 index log_idx_data_size in
          elim (lt_int32 end start') [
            | true ↦ some (found_start fl max_len start' from to)
            | false ↦ search_loop fl max_len fuel start' end from to
          ]
      | false ↦ elim (lt_int32 from time) [
        | true ↦
            let end' = sub32 index log_idx_data_size in
            elim (lt_int32 end' start) [
              | true ↦ some (found_start fl max_len start from to)
              | false ↦ search_loop fl max_len fuel start end' from to
            ]
        | false ↦ some index
      ]
    ]

-- `search_start_tsl_addr`: a round leaves out one index at least.
unfoldable pub search_start_tsl_addr : Flash → ℕ → ℕ → ℕ → ℕ → ℕ → Option ℕ
search_start_tsl_addr fl max_len start end from to =
    search_loop fl max_len (suc (sub32 end start / log_idx_data_size)) start end from to
