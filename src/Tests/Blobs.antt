-- ===== src/Tests/Blobs.antt =====
-- Instances of the theorems on blobs.
use flashdb_ko.Prelude.{◌≡◌, refl, [], ◌∷◌, ◌++◌, take, map, false, some, arith}
use flashdb_ko.Storage.{flash_fetch}
use flashdb_ko.Tsdb.Append.{advance}
use flashdb_ko.Tsdb.Iterate.{iter_body}
use flashdb_ko.Blob.{FdbBlob, fdb_blob_read}
use flashdb_ko.Blob.Logs.{read_cb, clipped, fdb_blob_read_lem, iter_body-read_cb}
use flashdb_ko.Tests.Journal.{first, one_log, one_log-Holds}

-- A buffer of three bytes for the value of two bytes at the address 510.
abbrev saved : FdbBlob
saved = record { buf = 9 ∷ 9 ∷ 9 ∷ []; saved_meta_addr = 40; saved_addr = 510; saved_len = 2 }

fdb_blob_read_lem_example :
    fdb_blob_read one_log.flash saved
    ≡ (2, record saved { buf = take 2 (flash_fetch one_log.flash 510 2) ++ 9 ∷ [] })
fdb_blob_read_lem_example = fdb_blob_read_lem one_log-Holds.in_use.ready saved (omega arith)

iter_body-read_cb_example :
    iter_body one_log (read_cb one_log.flash saved (0 ∷ 0 ∷ 0 ∷ [])) 0 one_log.cur_sec []
    ≡ some (false, one_log.cur_sec, map (clipped 3) (first ∷ []))
unfolding advance
iter_body-read_cb_example =
    iter_body-read_cb one_log-Holds saved (0 ∷ 0 ∷ 0 ∷ []) 0 one_log.cur_sec refl
