-- ===== src/Kv/Items/Next.antt =====
-- `find_next_kv_addr` of FlashDB/src/fdb_kvdb.c at a KV, and in an erased part of a sector.
use flashdb_ko.Prelude.{
  ℕ, zero, suc, ◌+◌, ◌<◌, ◌≤◌, ◌≡◌, ◌≢◌, refl, ap, ◌∙◌, List, length, some, none, true, ltb, ◌&&◌,
  Bool-cases, inl, inr, ne→==_false, arith,
}
use flashdb_ko.Prelude.Words.{add32, failed_addr}
use flashdb_ko.Bytes.{word_at, le32}
use flashdb_ko.MemBlk.{read_cells}
use flashdb_ko.MemBlk.Cells.{length-read_cells, read_cells-append}
use flashdb_ko.MemBlk.Words.{word_in, word_at-read_cells}
use flashdb_ko.Storage.{Flash, no_err, is_ok, flash_read}
use flashdb_ko.Storage.Laws.{Ready, flash_read_lem}
use flashdb_ko.Kv.Types.{kv_magic_word, kv_hdr_tail_bytes}
use flashdb_ko.Kv.Walk.{scan_window, scan_windows}
use flashdb_ko.Kv.Create.{new_kv_hdr}
use flashdb_ko.Kv.Items.{Item, ItemAt, hdr_read}

-- A KV's magic word stands behind its status.
magic_read :
    {m : ℕ → ℕ} {off addr : ℕ} {e : Item}
    → ItemAt m off addr e
    → word_at (read_cells m (off + addr) 32) 4 ≡ kv_magic_word
unfolding word_at kv_hdr_tail_bytes le32 new_kv_hdr
magic_read {m} {off} {addr} {e} at = rw (read_cells-append m (off + addr) 24 8, hdr_read at) refl

module _ (buf : List ℕ) (start end : ℕ) (inside : start + 32 < end)
    (word : end < 0x1_0000_0000) where
  window_skip :
      (left i : ℕ)
      → 4 ≤ start
      → i < 4
      → scan_window buf start end start (suc left) i ≡ scan_window buf start end start left (i + 1)
  unfolding scan_window
  window_skip left i away low = ground arith

  window_hit :
      (left : ℕ)
      → word_at buf 4 ≡ kv_magic_word
      → scan_window buf start end start (suc left) 4 ≡ some start
  unfolding scan_window
  window_hit left magic = ground arith

  -- The first magic word that counts is the one of a KV at the start.
  window-item :
      4 ≤ start → word_at buf 4 ≡ kv_magic_word → scan_window buf start end start 28 0 ≡ some start
  window-item away magic =
      window_skip 27 0 away (omega arith)
      ∙ window_skip 26 1 away (omega arith)
      ∙ window_skip 25 2 away (omega arith)
      ∙ window_skip 24 3 away (omega arith)
      ∙ window_hit 23 magic

-- No magic word in the window.
window-none :
    (buf : List ℕ) (start end back left i : ℕ)
    → ((k : ℕ) → k < 28 → word_at buf k ≢ kv_magic_word)
    → i + left ≤ 28
    → scan_window buf start end back left i ≡ none
unfolding scan_window
window-none buf start end back zero i none_there h = refl
window-none buf start end back (suc left) i none_there h =
    let rest = window-none buf start end back left (i + 1) none_there (omega arith) in
    let other = ne→==_false (word_at buf i) kv_magic_word (none_there i (omega arith)) in
    ground (arith, rest, other)

module _ {fl : Flash} {m : ℕ → ℕ} (ready : Ready fl m) (end : ℕ) (inside : end ≤ fl.part.len)
    (small : end + 32 ≤ 0x1_0000_0000) where
  window_read :
      (start : ℕ) (junk : List ℕ)
      → length junk ≡ 32
      → start + 32 ≤ end
      → flash_read fl start junk ≡ (no_err, read_cells m (fl.part.offset + start) 32)
  window_read start junk size h =
      flash_read_lem ready start junk (omega arith)
      ∙ ap (λ (n : ℕ). (no_err, read_cells m (fl.part.offset + start) n)) size

  goes_on : (start : ℕ) → start + 32 < end → (ltb start end && ltb (add32 start 32) end) ≡ true
  goes_on start h = let word = ready.fits in ground arith

  pub windows-item :
      (e : Item) (junk : List ℕ) (fuel start : ℕ)
      → length junk ≡ 32
      → 4 ≤ start
      → start + 32 < end
      → ItemAt m fl.part.offset start e
      → scan_windows fl end start junk (suc fuel) start ≡ some start
  unfolding scan_windows is_ok
  windows-item e junk fuel start size away room at =
      let hit =
        window-item (read_cells m (fl.part.offset + start) 32) start end room
          (omega (arith, ready.fits)) away (magic_read at) in
      let read = window_read start junk size (omega arith) in
      rw (scan_windows, goes_on start room, read, read, hit) refl

  -- The words of an erased range.
  erased_word :
      (start k : ℕ)
      → k < 28
      → start + 32 ≤ end
      → ((x : ℕ) → fl.part.offset + start ≤ x → x < fl.part.offset + end → m x ≡ 0xff)
      → word_at (read_cells m (fl.part.offset + start) 32) k ≢ kv_magic_word
  unfolding word_in
  erased_word start k low h erased is_magic =
      let at = fl.part.offset + start + k in
      let b0 = erased at (omega arith) (omega arith) in
      let b1 = erased (at + 1) (omega arith) (omega arith) in
      let b2 = erased (at + 2) (omega arith) (omega arith) in
      let b3 = erased (at + 3) (omega arith) (omega arith) in
      let same = word_at-read_cells m (fl.part.offset + start) 32 k (omega arith) in
      absurd (omega (arith, b0, b1, b2, b3, same, is_magic))

  pub windows-erased :
      (fuel back start : ℕ) (junk : List ℕ)
      → length junk ≡ 32
      → 0 < fuel
      → end < start + fuel
      → ((x : ℕ) → fl.part.offset + start ≤ x → x < fl.part.offset + end → m x ≡ 0xff)
      → scan_windows fl end back junk fuel start ≡ some failed_addr
  unfolding scan_windows is_ok
  windows-erased zero back start junk size more enough erased = absurd (omega arith)
  windows-erased (suc fuel) back start junk size more enough erased =
      elim (Bool-cases (ltb start end && ltb (add32 start 32) end)) [
        | inr ends ↦ rw (scan_windows, ends) refl
        | inl goes ↦
            let room : start + 32 < end = let word = ready.fits in ground arith in
            let window = read_cells m (fl.part.offset + start) 32 in
            let missed =
              window-none window start end back 28 0
                (λ k low. erased_word start k low (omega arith) erased) (omega arith) in
            let next : add32 start 28 ≡ start + 28 = omega arith in
            let read = window_read start junk size (omega arith) in
            rw (scan_windows, goes, read, read, missed, next, read)
              (windows-erased fuel back (start + 28) window
                (length-read_cells m (fl.part.offset + start) 32) (omega arith) (omega arith)
                (λ x p q. erased x (omega arith) q))
      ]
