-- ===== src/Tsdb/Walk/Inverse.antt =====
-- Forwards and backwards from a sector in FlashDB/src/fdb_tsdb.c.
