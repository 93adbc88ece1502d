-- ===== src/Status.antt =====
-- The status tables of FlashDB/src/fdb_utils.c at FDB_WRITE_GRAN = 1: one bit for each status, from
-- the top bit of the first byte on, where a cleared bit means that the status was reached.
pub mod RoundTrip
pub mod Stored
use flashdb_ko.Prelude.{
  ℕ, zero, suc, ◌+◌, ◌-◌, ◌*◌, ◌/◌, ◌%◌, ◌^◌, List, [], ◌∷◌, Bool, ◌==◌, if◌then◌else◌, ltb,
  bit_and, get_or, set, replicate,
}
use flashdb_ko.Prelude.Words.{add32, sub32}
use flashdb_ko.Storage.{FdbErr, no_err, Flash, flash_fetch, flash_write}

-- `FDB_STATUS_TABLE_SIZE`
abbrev pub fdb_status_table_size : ℕ → ℕ
fdb_status_table_size status_number = (status_number * 1 + 7) / 8

-- `SIZE_MAX`
abbrev pub size_max : ℕ
size_max = 0xffff_ffff

-- `_fdb_set_status`: the byte index and the table after the call.
unfoldable pub fdb_set_status : ℕ → ℕ → ℕ × List ℕ
fdb_set_status status_num status_index =
    let erased = replicate (fdb_status_table_size status_num) 0xff in
    let byte_index = (status_index - 1) / 8 in
    if ltb 0 status_index
    then (
      byte_index,
      set erased byte_index (bit_and (get_or erased byte_index 0) (0xff / 2 ^ (status_index % 8))),
    )
    else (size_max, erased)

-- The bit of the status after `n` in the table is clear.
unfoldable pub bit_is_clear : List ℕ → ℕ → Bool
bit_is_clear status_table n = bit_and (get_or status_table (n / 8) 0) (0x80 / 2 ^ (n % 8)) == 0

-- The loop of `_fdb_get_status`, with `status_num` as it is tested and the count `i`.
unfoldable pub get_status_loop : List ℕ → ℕ → ℕ → ℕ
get_status_loop status_table zero i = i
get_status_loop status_table (suc n) i =
    let rest = get_status_loop status_table n (i + 1) in
    if bit_is_clear status_table n then i else rest

-- `_fdb_get_status`; every table has at least one status. The last difference is one of `size_t`.
unfoldable pub fdb_get_status : List ℕ → ℕ → ℕ
unfolding get_status_loop bit_is_clear
fdb_get_status status_table status_num =
    let status_num_bak = status_num - 1 in
    sub32 status_num_bak (get_status_loop status_table status_num_bak 0)

-- `_fdb_write_status`: the error, the flash and the caller's table after the call. The asserted
-- `status_index < status_num` is a hypothesis of its theorems.
unfoldable pub fdb_write_status : Flash → ℕ → ℕ → ℕ → FdbErr × Flash × List ℕ
fdb_write_status fl addr status_num status_index =
    let (byte_index, status_table) = fdb_set_status status_num status_index in
    if byte_index == size_max
    then (no_err, fl, status_table)
    else (let (result, fl') =
          flash_write fl (add32 addr byte_index) (get_or status_table byte_index 0 ∷ []) in
        (result, fl', status_table))

-- `_fdb_read_status`; whether the read succeeded is not looked at.
unfoldable pub fdb_read_status : Flash → ℕ → ℕ → ℕ
fdb_read_status fl addr total_num =
    fdb_get_status (flash_fetch fl addr (fdb_status_table_size total_num)) total_num
