-- ===== src/Kv/Items/Sector.antt =====
-- The KVs of a sector one behind the other, and the step of `get_next_kv_addr` of
-- FlashDB/src/fdb_kvdb.c from each to the next.
use flashdb_ko.Prelude.{
  ℕ, suc, ◌+◌, ◌-◌, ◌<◌, ◌≤◌, ◌≡◌, refl, ap, List, [], ◌∷◌, replicate, length-replicate, some, true,
  false, ◌==◌, ltb, leb, ◌||◌, ne→==_false, Bool-cases, inl, inr, ◌⊎◌, if◌then◌else◌, arith,
}
use flashdb_ko.Prelude.Words.{add32, sub32, failed_addr}
use flashdb_ko.Storage.Laws.{Ready}
use flashdb_ko.Kv.Types.{FdbKvdb, KvdbSecInfo, sector_hdr_data_size, store_empty}
use flashdb_ko.Kv.Walk.{scan_windows, starts_empty, find_next_kv_addr, get_next_kv_addr}
use flashdb_ko.Kv.Items.{Item, item_len, kv_of, ValidItem, ItemAt}
use flashdb_ko.Kv.Items.Next.{windows-item, windows-erased}

-- The KVs from `addr` on.
unfoldable pub ItemsAt : (ℕ → ℕ) → ℕ → ℕ → List Item → Type 0
ItemsAt m off addr [] = Unit {0}
ItemsAt m off addr (e ∷ items) =
    ItemAt m off addr e × ValidItem e × ItemsAt m off (addr + item_len e) items

-- The bytes that they take.
unfoldable pub items_len : List Item → ℕ
items_len [] = 0
items_len (e ∷ items) = item_len e + items_len items

-- The sector holds the KVs and behind them nothing, with the room that `alloc_kv` leaves; the cache
-- has no wrong address for the first free byte.
pub record Filled (db : FdbKvdb) (m : ℕ → ℕ) (sector : KvdbSecInfo) (items : List Item)
    : Type 0 where
  pub ready : Ready db.flash m
  pub inside : sector.addr + db.sec_size ≤ db.flash.part.len
  pub small : db.flash.part.len + 32 ≤ 0x1_0000_0000
  pub sized : db.sec_size ≤ db.max_size
  pub used : (sector.store == store_empty) ≡ false
  pub items_at : ItemsAt m db.flash.part.offset (sector.addr + 16) items
  pub room : 16 + items_len items + 48 < db.sec_size
  pub erased :
      (x : ℕ)
      → db.flash.part.offset + (sector.addr + 16 + items_len items) ≤ x
      → x < db.flash.part.offset + (sector.addr + db.sec_size)
      → m x ≡ 0xff
  pub knows :
      (x : ℕ)
      → sector.addr ≤ x
      → x < sector.addr + db.sec_size
      → starts_empty db x ≡ true
      → x ≡ sector.addr + 16 + items_len items

kept :
    (found end len : ℕ)
    → (found ≡ failed_addr) ⊎ (found ≤ end)
    → 0 < len
    → (if found == failed_addr || (ltb end found || len == 0) then failed_addr else found) ≡ found
kept found end len fits some_len = ground arith

le→leb : (a b : ℕ) → a ≤ b → leb a b ≡ true
le→leb a b h = ground arith

module _ {db : FdbKvdb} {m : ℕ → ℕ} {sector : KvdbSecInfo} {items : List Item}
    (filled : Filled db m sector items) where
  abbrev limit : ℕ
  limit = sector.addr + db.sec_size - 16

  find-scan :
      (start found : ℕ)
      → starts_empty db start ≡ false
      → scan_windows db.flash limit start (replicate 32 db.flash.junk) (suc limit) start
        ≡ some found
      → find_next_kv_addr db start limit ≡ some found
  unfolding find_next_kv_addr
  find-scan start found unknown scan = rw unknown scan

  find-item :
      (start : ℕ) (e : Item)
      → sector.addr + 16 ≤ start
      → start < sector.addr + 16 + items_len items
      → ItemAt m db.flash.part.offset start e
      → find_next_kv_addr db start limit ≡ some start
  find-item start e after before at =
      let inside = filled.inside in
      let small = filled.small in
      let room = filled.room in
      let scan =
        windows-item filled.ready limit (omega arith) (omega arith) e (replicate 32 db.flash.junk)
          limit start (length-replicate 32 db.flash.junk) (omega arith) (omega arith) at in
      elim (Bool-cases (starts_empty db start)) [
        | inl known ↦ absurd (omega (arith, filled.knows start (omega arith) (omega arith) known))
        | inr unknown ↦ find-scan start start unknown scan
      ]

  find-end : find_next_kv_addr db (sector.addr + 16 + items_len items) limit ≡ some failed_addr
  unfolding find_next_kv_addr
  find-end =
      let start = sector.addr + 16 + items_len items in
      let inside = filled.inside in
      let small = filled.small in
      let room = filled.room in
      elim (Bool-cases (starts_empty db start)) [
        | inl known ↦ rw known refl
        | inr unknown ↦ rw unknown (
            windows-erased filled.ready limit (omega arith) (omega arith) (suc limit) start start
              (replicate 32 db.flash.junk) (length-replicate 32 db.flash.junk) (omega arith)
              (omega arith) (λ x p q. filled.erased x p (omega arith)))
      ]

  -- The step from a KV, by what the search behind it finds.
  next-found :
      (addr : ℕ) (e : Item) (found : ℕ)
      → sector.addr + 16 ≤ addr
      → addr + item_len e ≤ sector.addr + 16 + items_len items
      → find_next_kv_addr db (addr + item_len e) limit ≡ some found
      → (found ≡ failed_addr) ⊎ (found ≤ sector.addr + db.sec_size)
      → get_next_kv_addr db sector (kv_of addr e) ≡ some found
  unfolding get_next_kv_addr
  next-found addr e found after before search fits =
      let inside = filled.inside in
      let small = filled.small in
      let room = filled.room in
      let end : add32 sector.addr db.sec_size ≡ sector.addr + db.sec_size = omega arith in
      let stop : sub32 (sector.addr + db.sec_size) sector_hdr_data_size ≡ limit = omega arith in
      let behind : add32 addr (item_len e) ≡ addr + item_len e = omega arith in
      rw
        (
          end,
          stop,
          behind,
          filled.used,
          ne→==_false addr failed_addr (λ e. absurd (omega (arith, e))),
          le→leb addr (sector.addr + db.sec_size) (omega arith),
          search,
          end,
        )
        (ap some (kept found (sector.addr + db.sec_size) (item_len e) fits (omega arith)))

  pub next-item :
      (addr : ℕ) (e f : Item)
      → sector.addr + 16 ≤ addr
      → addr + item_len e < sector.addr + 16 + items_len items
      → ItemAt m db.flash.part.offset (addr + item_len e) f
      → get_next_kv_addr db sector (kv_of addr e) ≡ some (addr + item_len e)
  next-item addr e f after before at =
      let room = filled.room in
      next-found addr e (addr + item_len e) after (omega arith)
        (find-item (addr + item_len e) f (omega arith) before at) (inr (omega arith))

  pub next-end :
      (addr : ℕ) (e : Item)
      → sector.addr + 16 ≤ addr
      → addr + item_len e ≡ sector.addr + 16 + items_len items
      → get_next_kv_addr db sector (kv_of addr e) ≡ some failed_addr
  next-end addr e after last =
      next-found addr e failed_addr after (omega arith) (rw last find-end) (inl refl)
