-- ===== src/Tsdb/InUse/Append.antt =====
-- A log that `append_here` writes joins the logs of the sector: the last part of `tsl_append` of
-- FlashDB/src/fdb_tsdb.c.
use flashdb_ko.Prelude.{
  ℕ, ◌+◌, ◌*◌, ◌-◌, ◌≤◌, ◌<◌, ◌≡◌, refl, ap, ◌∙◌, sym, ◌⊎◌, inl, inr, List, [], ◌∷◌, ◌++◌, length,
  some, false, arith,
}
use flashdb_ko.Storage.{Flash, FdbErr, no_err}
use flashdb_ko.Storage.Laws.{with_cells, with_cells-Ready}
use flashdb_ko.Tsdb.Types.{TsdbSecInfo}
use flashdb_ko.Tsdb.Write.{write_tsl}
use flashdb_ko.Tsdb.Write.RoundTrip.{
  tsl_cells-outside, written_cells, write_tsl_lem, read_tsl-write_tsl,
}
use flashdb_ko.Tsdb.Sector.{read_sector_info}
use flashdb_ko.Tsdb.Append.{advance}
use flashdb_ko.Tsdb.Logs.{
  Entry, data_len, LogsAt, LogsAt-snoc, advance_all, advance_all-snoc, advance_lem,
}
use flashdb_ko.Tsdb.Logs.Frame.{fetch-same, LogsAt-frame}
use flashdb_ko.Tsdb.Sector.Header.{read_sector_info-cong}
use flashdb_ko.Tsdb.InUse.{InUse, opened}

length-snoc : (logs : List Entry) (e : Entry) → length (logs ++ (e ∷ [])) ≡ length logs + 1
length-snoc [] e = refl
length-snoc (f ∷ logs) e = omega (arith, length-snoc logs e)

data_len-snoc :
    (logs : List Entry) (e : Entry) → data_len (logs ++ (e ∷ [])) ≡ data_len logs + length e.blob
unfolding data_len
data_len-snoc [] e = omega arith
data_len-snoc (f ∷ logs) e = omega (arith, data_len-snoc logs e)

-- Advancing overwrites the end of the logs.
advance-ends :
    (sector old : TsdbSecInfo) (logs : List Entry) (len time : ℕ)
    → advance
        (advance_all (record sector { end_time = old.end_time; end_idx = old.end_idx }) logs)
        len
        time
      ≡ advance (advance_all sector logs) len time
unfolding advance advance_all
advance-ends sector old [] len time = refl
advance-ends sector old (e ∷ logs) len time = refl

module _ {fl : Flash} {m : ℕ → ℕ} {max_len sec_size : ℕ} {sector : TsdbSecInfo} {logs : List Entry}
    (use_of : InUse fl m max_len sec_size sector logs) (blob : List ℕ) (time : ℕ)
    (fits : sector.empty_idx + 16 + length blob ≤ sector.empty_data)
    (word : time < 0x1_0000_0000) where
  pub inside_part : sector.empty_data ≤ fl.part.len
  inside_part = let ends_at = use_of.top_is in let inside = use_of.inside in omega arith

  abbrev entry : Entry
  entry = record { time = time; blob = blob }

  -- The bytes of the flash behind the log that was written.
  abbrev pub cells_after : ℕ → ℕ
  cells_after = written_cells use_of.ready sector blob time fits inside_part

  abbrev pub flash_after : Flash
  flash_after = with_cells fl cells_after

  pub outside :
      (x : ℕ)
      → (x < fl.part.offset + sector.empty_idx) ⊎ (fl.part.offset + sector.empty_idx + 16 ≤ x)
      → (x < fl.part.offset + (sector.empty_data - length blob))
        ⊎ (fl.part.offset + sector.empty_data ≤ x)
      → cells_after x ≡ m x
  outside x low high =
      tsl_cells-outside m fl.part.offset sector.empty_idx (sector.empty_data - length blob) time
        blob x low (ground arith)

  held_before : LogsAt flash_after max_len (sector.addr + 40) (sector.addr + sec_size) logs
  held_before =
      let here = use_of.idx_is in
      let ends_at = use_of.top_is in
      let inside = use_of.inside in
      LogsAt-frame use_of.ready cells_after max_len (sector.addr + 40) (sector.addr + sec_size) logs
        (omega arith) (omega arith) (omega arith)
        (λ x p q. outside x (inl (omega arith)) (inl (omega arith)))
        (λ x p q. outside x (inr (omega arith)) (inr (omega arith))) use_of.held

  held_after :
      LogsAt flash_after max_len (sector.addr + 40) (sector.addr + sec_size) (logs ++ (entry ∷ []))
  unfolding LogsAt
  held_after =
      let (done, index, data_read) =
        read_tsl-write_tsl use_of.ready sector blob time max_len fits inside_part word in
      let written : (write_tsl fl sector blob time).1 ≡ flash_after =
        ap (λ (r : FdbErr × Flash). r.1)
          (write_tsl_lem use_of.ready sector blob time fits inside_part) in
      let here : sector.empty_idx ≡ sector.addr + 40 + 16 * length logs = use_of.idx_is in
      let ends_at = use_of.top_is in
      let top : sector.addr + sec_size - data_len logs ≡ sector.empty_data = omega arith in
      LogsAt-snoc flash_after max_len (sector.addr + 40) (sector.addr + sec_size) logs entry
        held_before
        ((rw (sym here, top) (rw written at index), rw top (rw written at data_read)), tt)

  erased_after :
      (x : ℕ)
      → fl.part.offset + (sector.empty_idx + 16) ≤ x
      → x < fl.part.offset + (sector.empty_data - length blob)
      → cells_after x ≡ 0xff
  erased_after x p q =
      outside x (inr (omega arith)) (inl (omega arith))
      ∙ use_of.erased x (omega arith) (omega arith)

  header_after :
      (old : TsdbSecInfo)
      → read_sector_info flash_after max_len sec_size sector.addr old false
        ≡ some (no_err, opened sec_size sector old)
  header_after old =
      let here = use_of.idx_is in
      let ends_at = use_of.top_is in
      let inside = use_of.inside in
      let wide = use_of.wide in
      read_sector_info-cong fl flash_after max_len sec_size sector.addr old (
        fetch-same use_of.ready cells_after sector.addr 40 (omega arith)
          (λ x p q. outside x (inl (omega arith)) (inl (omega arith))))
      ∙ use_of.header old

  tracked_after :
      let after = advance sector (length blob) time in
      advance_all (opened sec_size after after) (logs ++ (entry ∷ [])) ≡ after
  unfolding advance
  tracked_after =
      let after = advance sector (length blob) time in
      advance_all-snoc (opened sec_size after after) logs entry
      ∙ advance-ends (opened sec_size sector sector) after logs (length blob) time
      ∙ ap (λ (s : TsdbSecInfo). advance s (length blob) time) use_of.tracked

  -- The sector that `tsl_append` leaves is in use, with the log behind the others.
  pub InUse-append :
      InUse flash_after cells_after max_len sec_size
        (advance sector (length blob) time)
        (logs ++ (entry ∷ []))
  unfolding advance
  InUse-append =
      let word' = use_of.ready.fits in
      let here = use_of.idx_is in
      let ends_at = use_of.top_is in
      let inside = use_of.inside in
      let more = length-snoc logs entry in
      let more_data = data_len-snoc logs entry in
      let (idx, data_end, rem) =
        advance_lem sector (length blob) time (omega arith) fits use_of.remain_is in
      record {
        ready = with_cells-Ready cells_after use_of.ready;
        using = use_of.using;
        inside = use_of.inside;
        wide = use_of.wide;
        idx_is = omega arith;
        top_is = omega arith;
        room = omega arith;
        remain_is = rem;
        held = held_after;
        erased = λ x p q. erased_after x (omega arith) (omega arith);
        header = header_after;
        tracked = tracked_after;
      }
