-- ===== src/Lib.antt =====
-- FlashDB over a FAL device, as the kernel module of this repository builds it: a log-structured
-- key-value store (KVDB) and a time series store (TSDB), each on a partition of a flash device.
--
-- The parts, from the device up, and the file that models each:
--   * Prelude: operators, lists, bits of a number, 32-bit words and the alignment macros.
--   * MemBlk: porting/fal_flash_mem_blk.c, the device on a block of memory; MemBlk/Cells and
--     MemBlk/Words have the lemmas on reading and writing its bytes.
--   * Fal: FlashDB/port/fal/src/fal_partition.c and fal_flash.c, over the device structures of
--     FlashDB/port/fal/inc/fal_def.h; Fal/Bounds is about the bound check,
--     Fal/Table is `fal_partition_init`, with the search for the partition table and, in
--     Fal/Table/Load, its loading, and Fal/Init the start in fal_flash.c and fal.c.
--   * VirtParts: porting/fal_flash_virt_parts.c, the device that holds the partition table in
--     memory, and the detection of the partitions in fal_flash_nor_flash.c and fal_flash_mem_blk.c;
--     NorFlash: the rest of porting/fal_flash_nor_flash.c.
--   * Crc, Storage, Status, ErasedTail: FlashDB/src/fdb_utils.c: the CRC32, the reads, writes and
--     erases of a database, the status tables, and the search for the erased tail of a range.
--   * Bytes: a structure's words in a buffer, little endian.
--   * Kv: FlashDB/src/fdb_kvdb.c. Kv/Types has the structures, Kv/State the state monad over
--     `struct fdb_kvdb`, SectorCache and KvCache the two caches, Walk and Read the address
--     searches and the reads of a KV and of a sector header, Iterate the two iterators, Find the
--     lookups, Write and Alloc the sector formatting, allocation and deletion, Gc the garbage
--     collection, Create the writing of a new KV and the setters, Load the start-up and recovery,
--     Check the public iterator, the integrity check, the options and `fdb_kv_get`.
--     Kv/Items says what it means that the flash holds the KVs of a list, in a sector and in a
--     database, and relates the iterators and the lookups to that list; Find/Cached and Find/Written
--     are the lookup through the cache, Create/Placed and Create/Served the creation and the lookup
--     behind it, Create/Appended the creation behind the KVs of a
--     sector, and Items/Deleted the deletion of one of them.
--   * Blob: the blob objects of fdb_utils.c, with their conversions from a KV and from a log.
--   * Fdb: FlashDB/src/fdb.c, the part of the start-up that both databases share.
--   * Tsdb: FlashDB/src/fdb_tsdb.c. Tsdb/Types has the structures, Tsdb/State `struct fdb_tsdb` and
--     sequences of writes that return at the first error, Walk the reading of a log's index and the
--     steps to the next and the last log or sector, Search the search by time, Write the writing of
--     a log, Sector the reading of a sector's header, its traversal and its formatting, Append the
--     appending with the change of sectors, Iterate the iterators, Visit the iterator over sectors,
--     Load the start-up, Control the options. Logs says what it means that the flash holds a list
--     of logs, InUse relates that list to a sector in use, and Series to a database;
--     Series/Start is about `fdb_tsdb_init` on such a database, by way of Series/Others and
--     Series/Scan, and Series/Reach has the steps of a session, appends and restarts in any order.
--   * Tests: runs on concrete inputs, and an instance of each theorem that has hypotheses.
--
-- The configuration is that of porting/inc/fdb_cfg.h: FDB_WRITE_GRAN is 1, FDB_USING_FAL_MODE alone
-- is set (fdb_file.c is not built), both caches are on. Pointers and `size_t` have 32 bits, words are
-- little endian, and 32-bit sums and differences wrap. The status of a KV or a sector is the number
-- of its enumerator. A function keeps its name in the source, without a leading underscore; a part
-- of a function that is a definition of its own (a loop, a branch) names the function in its
-- comment. A C string is the list of its bytes without the NUL.
--
-- Loops that are not structural recursion run on fuel, and a computation whose fuel ran out has no
-- result. `_fdb_continue_ff_addr` is given a round for each 32 bytes of its range and two more, the
-- CRC loop of `read_kv` a round for each byte and one more, and the search by time a round for each
-- index of its range. The search for the partition table is given a round for each offset up to its
-- first one and one more, and the counting of its entries a round for each offset up to the one
-- that was found and two more. The traversal of a sector has a round for each 16 bytes of room and
-- one more, which is enough unless a damaged length wraps the sum with the size of an index; the loops over
-- the logs of a sector have a round for each 16 bytes below its last index, and one more. The
-- loops over the KVs and the sectors have the size of a sector or of the database and one more as
-- fuel, as each round goes on by a byte at least.
--
-- Not modelled: main.c, which registers the module and its parameters, log output and the printing
-- functions, the locks (each operation is one step), the file mode, the RT-Thread bindings and the samples. A callback of a TSDB iterator changes nothing of
-- the database. An assertion that fails loops for ever in the source. Those on
-- the alignment of a sector's address, on the state of a database, on `max_len` and on what a header
-- holds are modelled: where one fails, the computation has no result. Those on pointers that are not
-- NULL, on the index of a status and on the least number of sectors are left out. The memory allocator is a parameter: whether the block of the memory
-- device could be allocated is part of the device's state, and what `fal_partition_init` gets from
-- it is an argument. The kernel's MTD layer is a function from a device's number to what is asked
-- of the device.
pub mod Prelude
pub mod Bytes
pub mod Blob
pub mod Crc
pub mod Fal
pub mod MemBlk
pub mod VirtParts
pub mod NorFlash
pub mod Storage
pub mod Status
pub mod ErasedTail
pub mod Fdb
pub mod Kv
pub mod Tsdb
pub mod Tests
