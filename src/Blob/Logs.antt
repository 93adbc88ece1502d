-- ===== src/Blob/Logs.antt =====
-- `fdb_blob_read` of FlashDB/src/fdb_utils.c on the blobs of `fdb_tsl_to_blob`: the bytes of a log,
-- as an application reads them in the callback of `fdb_tsl_iter`.
use flashdb_ko.Prelude.{
  ℕ, zero, suc, ◌+◌, ◌-◌, ◌≤◌, ◌≡◌, refl, ap, ◌∙◌, sym, List, [], ◌∷◌, ◌++◌, append-nil,
  append_assoc, map, take, drop, length, some, Bool, true, false, ltb, if◌then◌else◌, clip_lem,
  arith,
}
use Prim.Native.Nat.{min}
use flashdb_ko.Storage.{Flash, FdbErr, no_err, is_ok, flash_read, flash_fetch}
use flashdb_ko.Storage.Laws.{Ready, flash_read-front}
use flashdb_ko.Kv.Types.{store_using}
use flashdb_ko.Tsdb.Types.{FdbTsl, TsdbSecInfo}
use flashdb_ko.Tsdb.State.{FdbTsdb}
use flashdb_ko.Tsdb.Iterate.{iter_body}
use flashdb_ko.Tsdb.Iterate.InUse.{visit, iter_body-visit}
use flashdb_ko.Tsdb.Logs.{Entry, data_len, LogsAt, tsl_of}
use flashdb_ko.Tsdb.Series.{Holds}
use flashdb_ko.Blob.{FdbBlob, fdb_blob_make, fdb_blob_read, fdb_tsl_to_blob}

-- What `fdb_blob_read` does with the result of the read.
abbrev outcome : FdbBlob → ℕ → FdbErr × List ℕ → ℕ × FdbBlob
outcome blob n r = (if is_ok r.0 then n else 0, record blob { buf = r.1 ++ drop n blob.buf })

blob_read_step :
    (fl : Flash) (blob : FdbBlob) (n : ℕ)
    → (if ltb blob.saved_len (length blob.buf) then blob.saved_len else length blob.buf) ≡ n
    → fdb_blob_read fl blob ≡ outcome blob n (flash_read fl blob.saved_addr (take n blob.buf))
unfolding fdb_blob_read
blob_read_step fl blob n is_n =
    ap (λ (k : ℕ). outcome blob k (flash_read fl blob.saved_addr (take k blob.buf))) is_n

outcome-ok :
    (blob : FdbBlob) (n : ℕ) (head : List ℕ)
    → outcome blob n (no_err, head) ≡ (n, record blob { buf = head ++ drop n blob.buf })
unfolding is_ok
outcome-ok blob n head = refl

-- On a ready device, with the saved value inside the partition: `fdb_blob_read` returns the smaller
-- one of the buffer's size and the value's length; that many bytes of the value are then at the
-- front of the buffer, and the rest of the buffer is as before.
pub fdb_blob_read_lem :
    {fl : Flash} {m : ℕ → ℕ} (ready : Ready fl m) (blob : FdbBlob)
    → blob.saved_addr + blob.saved_len ≤ fl.part.len
    → let n = min blob.saved_len (length blob.buf) in
      let value = flash_fetch fl blob.saved_addr blob.saved_len in
      fdb_blob_read fl blob ≡ (n, record blob { buf = take n value ++ drop n blob.buf })
fdb_blob_read_lem {fl} {m} ready blob inside =
    let n = min blob.saved_len (length blob.buf) in
    blob_read_step fl blob n (clip_lem blob.saved_len (length blob.buf))
    ∙ ap (outcome blob n) (flash_read-front ready blob.saved_addr blob.saved_len blob.buf inside)
    ∙ outcome-ok blob n (take n (flash_fetch fl blob.saved_addr blob.saved_len))

-- An application's callback, which reads each log into the buffer `buf` and keeps what it has read.
unfoldable pub read_cb : Flash → FdbBlob → List ℕ → FdbTsl → List Entry → Bool × List Entry
read_cb fl blob buf tsl seen =
    let r = fdb_blob_read fl (fdb_tsl_to_blob tsl (fdb_blob_make blob buf)) in
    (false, seen ++ (record { time = tsl.time; blob = take r.0 r.1.buf } ∷ []))

-- A log as a buffer of `size` bytes holds it.
abbrev pub clipped : ℕ → Entry → Entry
clipped size e = record e { blob = take size e.blob }

take-front :
    (n k : ℕ) (xs ys : List ℕ) → n ≡ min (length xs) k → take n (take n xs ++ ys) ≡ take k xs
take-front zero zero xs ys h = refl
take-front zero (suc k) [] ys h = refl
take-front zero (suc k) (x ∷ xs) ys h = absurd (omega arith)
take-front (suc n) k [] ys h = absurd (omega arith)
take-front (suc n) zero (x ∷ xs) ys h = absurd (omega arith)
take-front (suc n) (suc k) (x ∷ xs) ys h =
    ap (λ (t : List ℕ). x ∷ t) (take-front n k xs ys (omega arith))

-- A callback that goes on leaves the other logs.
visit-goes_on :
    {A : Type 0} (cb : FdbTsl → A → Bool × A) (idx top : ℕ) (e : Entry) (logs : List Entry)
    (arg : A) {arg' : A}
    → cb (tsl_of idx top e) arg ≡ (false, arg')
    → visit cb idx top (e ∷ logs) arg ≡ visit cb (idx + 16) (top - length e.blob) logs arg'
unfolding visit
visit-goes_on {A} cb idx top e logs arg goes =
    ap
      (λ (r : Bool × A). elim r.0 [
        | true ↦ (true, r.1)
        | false ↦ visit cb (idx + 16) (top - length e.blob) logs r.1
      ])
      goes

module _ {fl : Flash} {m : ℕ → ℕ} (ready : Ready fl m) (blob : FdbBlob) (buf : List ℕ) where
  read_cb-tsl :
      (idx top : ℕ) (e : Entry) (seen : List Entry)
      → length e.blob ≤ top
      → top ≤ fl.part.len
      → flash_fetch fl (top - length e.blob) (length e.blob) ≡ e.blob
      → read_cb fl blob buf (tsl_of idx top e) seen ≡ (false, seen ++ (clipped (length buf) e ∷ []))
  unfolding read_cb fdb_tsl_to_blob fdb_blob_make
  read_cb-tsl idx top e seen fits inside there =
      let asked = fdb_tsl_to_blob (tsl_of idx top e) (fdb_blob_make blob buf) in
      let n = min (length e.blob) (length buf) in
      ap
        (λ (r : ℕ × FdbBlob).
          (false, seen ++ (record { time = e.time; blob = take r.0 r.1.buf } ∷ [])))
        (fdb_blob_read_lem ready asked (omega arith))
      ∙ ap
          (λ (v : List ℕ). (
            false,
            seen ++ (record { time = e.time; blob = take n (take n v ++ drop n buf) } ∷ []),
          ))
          there
      ∙ ap (λ (v : List ℕ). (false, seen ++ (record { time = e.time; blob = v } ∷ [])))
          (take-front n (length buf) e.blob (drop n buf) refl)

  visit-read_cb :
      (max_len idx top : ℕ) (logs seen : List Entry)
      → data_len logs ≤ top
      → top ≤ fl.part.len
      → LogsAt fl max_len idx top logs
      → visit (read_cb fl blob buf) idx top logs seen
        ≡ (false, seen ++ map (clipped (length buf)) logs)
  unfolding LogsAt visit data_len
  visit-read_cb max_len idx top [] seen fits inside held =
      ap (λ (s : List Entry). (false, s)) (sym (append-nil seen))
  visit-read_cb max_len idx top (e ∷ logs) seen fits inside ((index, bytes), rest) =
      let next = seen ++ (clipped (length buf) e ∷ []) in
      visit-goes_on (read_cb fl blob buf) idx top e logs seen
        (read_cb-tsl idx top e seen (omega arith) inside bytes)
      ∙ visit-read_cb max_len (idx + 16) (top - length e.blob) logs next (omega arith) (omega arith)
          rest
      ∙ ap (λ (s : List Entry). (false, s))
          (append_assoc seen (clipped (length buf) e ∷ []) (map (clipped (length buf)) logs))

-- On the sector in use, with one log or more: an application whose callback of `fdb_tsl_iter` turns
-- each log into a blob and reads it into a buffer gets the times of all logs, in the order in which
-- they were appended, and of each log the bytes that fit into the buffer.
pub iter_body-read_cb :
    {db : FdbTsdb} {e : Entry} {logs : List Entry} (held : Holds db (e ∷ logs)) (blob : FdbBlob)
    (buf : List ℕ) (sec_addr : ℕ) (sector : TsdbSecInfo)
    → sector.status ≡ store_using
    → iter_body db (read_cb db.flash blob buf) sec_addr sector []
      ≡ some (false, db.cur_sec, map (clipped (length buf)) (e ∷ logs))
iter_body-read_cb {db} {e} {logs} held blob buf sec_addr sector using =
    let inside = held.in_use.inside in
    let ends_at = held.in_use.top_is in
    iter_body-visit held (read_cb db.flash blob buf) sec_addr sector [] using
    ∙ ap (λ (r : Bool × List Entry). some (r.0, db.cur_sec, r.1))
        (visit-read_cb held.in_use.ready blob buf db.max_len (db.cur_sec.addr + 40)
          (db.cur_sec.addr + db.sec_size) (e ∷ logs) [] (omega arith) inside held.in_use.held)
