-- ===== src/Kv/KvCache.antt =====
-- The KV cache of FlashDB/src/fdb_kvdb.c, on the cache table.
pub mod Laws
pub mod Miss
use flashdb_ko.Prelude.{
  ℕ, ◌+◌, ◌-◌, ◌/◌, ◌%◌, List, [], ◌∷◌, Option, none, some, Bool, true, false, not, ◌&&◌, ◌==◌, ltb,
  leb, if◌then◌else◌, length, set, replicate,
}
use flashdb_ko.Prelude.Words.{failed_addr, add32}
use flashdb_ko.Crc.{fdb_calc_crc32}
use flashdb_ko.Fal.{strn_eq}
use flashdb_ko.Storage.{Flash, flash_read}
use flashdb_ko.Kv.Types.{KvCacheNode, fdb_kv_cache_table_size, kv_hdr_data_size, fdb_kv_name_max}

-- `(uint16_t) (fdb_calc_crc32(0, name, name_len) >> 16)`
unfoldable pub name_crc_of : List ℕ → ℕ
name_crc_of name = fdb_calc_crc32 0 name / 65536 % 65536

-- What the loop of `update_kv_cache` has when it ends: whether it returned inside, the entries as
-- it left them, and its two indices.
pub record KvScan : Type 0 where
  pub returned : Bool
  pub nodes : List KvCacheNode
  pub empty_index : ℕ
  pub min_activity_index : ℕ

abbrev pub keep_node : KvCacheNode → KvScan → KvScan
keep_node n s = record s { nodes = n ∷ s.nodes }

-- `active--` where it is above 0.
unfoldable pub less_active : KvCacheNode → KvCacheNode
less_active n = record n { active = if ltb 0 n.active then n.active - 1 else n.active }

-- The loop where an address is to be stored.
unfoldable pub scan_store : ℕ → ℕ → List KvCacheNode → ℕ → ℕ → ℕ → ℕ → KvScan
scan_store name_crc addr [] i empty_index min_index min_activity = record {
  returned = false;
  nodes = [];
  empty_index = empty_index;
  min_activity_index = min_index;
}
scan_store name_crc addr (n ∷ nodes) i empty_index min_index min_activity =
    let found : KvScan = record {
      returned = true;
      nodes = record n { addr = addr } ∷ nodes;
      empty_index = empty_index;
      min_activity_index = min_index;
    } in
    let empty = keep_node n (scan_store name_crc addr nodes (i + 1) i min_index min_activity) in
    let n' = less_active n in
    let lowest = ltb n'.active min_activity in
    let used = keep_node n' (
      scan_store name_crc addr nodes (i + 1) empty_index (if lowest then i else min_index)
        (if lowest then n'.active else min_activity)) in
    let other =
      keep_node n (scan_store name_crc addr nodes (i + 1) empty_index min_index min_activity) in
    if n.name_crc == name_crc
    then found
    else if n.addr == failed_addr && empty_index == fdb_kv_cache_table_size
    then empty
    else if not (n.addr == failed_addr)
    then used
    else other

-- The loop where the entry is to be deleted.
unfoldable pub scan_delete : ℕ → List KvCacheNode → List KvCacheNode
scan_delete name_crc [] = []
scan_delete name_crc (n ∷ nodes) =
    if n.name_crc == name_crc
    then record n { addr = failed_addr; active = 0 } ∷ nodes
    else n ∷ scan_delete name_crc nodes

abbrev pub new_node : ℕ → ℕ → KvCacheNode
new_node name_crc addr = record {
  name_crc = name_crc;
  active = fdb_kv_cache_table_size;
  addr = addr;
}

-- `update_kv_cache`, after the CRC of the name. With FDB_DATA_UNUSED for an address the loop sets
-- neither index, so nothing is added behind it.
unfoldable pub update_kv_cache : List KvCacheNode → ℕ → ℕ → List KvCacheNode
update_kv_cache table name_crc addr =
    let s =
      scan_store name_crc addr table 0 fdb_kv_cache_table_size fdb_kv_cache_table_size 0xffff in
    if addr == failed_addr
    then scan_delete name_crc table
    else if s.returned
    then s.nodes
    else if ltb s.empty_index fdb_kv_cache_table_size
    then set s.nodes s.empty_index (new_node name_crc addr)
    else if ltb s.min_activity_index fdb_kv_cache_table_size
    then set s.nodes s.min_activity_index (new_node name_crc addr)
    else s.nodes

-- The entry counts as used and has the CRC.
abbrev pub is_candidate : ℕ → KvCacheNode → Bool
is_candidate name_crc n = not (n.addr == failed_addr) && n.name_crc == name_crc

abbrev pub more_active : KvCacheNode → KvCacheNode
more_active n = record n {
  active =
      if leb (0xffff - fdb_kv_cache_table_size) n.active
      then 0xffff
      else n.active + fdb_kv_cache_table_size;
}

-- `saved_name` in `get_kv_from_cache`: a buffer of zeros, filled with the name behind the KV's header
-- if the read succeeds.
abbrev pub saved_name : Flash → ℕ → List ℕ
saved_name fl addr = (flash_read fl (add32 addr kv_hdr_data_size) (replicate fdb_kv_name_max 0)).1

-- `get_kv_from_cache`: the address, and the entries after the call. The name behind the KV's
-- header is read to tell names of one CRC apart.
unfoldable pub get_kv_from_cache :
    Flash → List ℕ → ℕ → List KvCacheNode → Option ℕ × List KvCacheNode
get_kv_from_cache fl name name_crc [] = (none, [])
get_kv_from_cache fl name name_crc (n ∷ nodes) =
    let rest = get_kv_from_cache fl name name_crc nodes in
    if is_candidate name_crc n && strn_eq name (saved_name fl n.addr) (length name)
    then (some n.addr, more_active n ∷ nodes)
    else (rest.0, n ∷ rest.1)
