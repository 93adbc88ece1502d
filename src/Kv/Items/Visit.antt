-- ===== src/Kv/Items/Visit.antt =====
-- The loop of `kv_iterator` of FlashDB/src/fdb_kvdb.c over the KVs of a sector visits them in their
-- order.
use flashdb_ko.Prelude.{
  ℕ, zero, suc, ◌+◌, ◌<◌, ◌≤◌, ◌≡◌, refl, ◌∙◌, List, [], ◌∷◌, length, some, Bool, true, false, ◌==◌,
  Bool-cases, inl, inr, if◌then◌else◌, ne→==_false, arith,
}
use flashdb_ko.Prelude.Words.{failed_addr}
use flashdb_ko.Storage.{no_err}
use flashdb_ko.Kv.Types.{FdbKv, FdbKvdb, KvdbSecInfo}
use flashdb_ko.Kv.State.{M, ◌>>=◌}
use flashdb_ko.Kv.Walk.{get_next_kv_addr}
use flashdb_ko.Kv.Read.{read_kv}
use flashdb_ko.Kv.Iterate.{iterate_kvs}
use flashdb_ko.Kv.Create.ReadBack.{read_kv-ItemAt}
use flashdb_ko.Kv.Items.{Item, item_len, kv_of}
use flashdb_ko.Kv.Items.Sector.{ItemsAt, items_len, Filled, next-item, next-end}

-- The callback on each KV in turn, until it breaks the iteration off, and the KV object afterwards.
unfoldable pub visit_items :
    {A : Type 0} → (FdbKv → A → Bool × A) → ℕ → Item → List Item → A → Bool × A × FdbKv
visit_items f addr e [] arg =
    let r = f (kv_of addr e) arg in
    (r.0, r.1, if r.0 then kv_of addr e else record (kv_of addr e) { start = failed_addr })
visit_items f addr e (g ∷ items) arg =
    let r = f (kv_of addr e) arg in
    elim r.0 [
      | true ↦ (true, r.1, kv_of addr e)
      | false ↦ visit_items f (addr + item_len e) g items r.1
    ]

module _ {A : Type 0} (callback : FdbKv → A → M (Bool × A)) (f : FdbKv → A → Bool × A)
    {db : FdbKvdb} (keeps : (kv : FdbKv) (arg : A) → callback kv arg db ≡ some (f kv arg, db))
    {m : ℕ → ℕ} {sector : KvdbSecInfo} {all : List Item} (filled : Filled db m sector all) where
  -- A round that the callback ends, one that the last KV ends, and one that goes on.
  round_broken :
      (fuel addr : ℕ) (e : Item) (kv : FdbKv) (arg : A)
      → read_kv kv db ≡ some ((no_err, kv_of addr e), db)
      → (f (kv_of addr e) arg).0 ≡ true
      → iterate_kvs callback (suc fuel) sector kv arg db
        ≡ some ((true, (f (kv_of addr e) arg).1, kv_of addr e), db)
  unfolding iterate_kvs
  round_broken fuel addr e kv arg read breaks =
      rw (iterate_kvs, ◌>>=◌, read, keeps (kv_of addr e) arg, breaks) refl

  round_on :
      (fuel addr next : ℕ) (e : Item) (kv : FdbKv) (arg : A)
      → read_kv kv db ≡ some ((no_err, kv_of addr e), db)
      → (f (kv_of addr e) arg).0 ≡ false
      → get_next_kv_addr db sector (kv_of addr e) ≡ some next
      → (next == failed_addr) ≡ false
      → iterate_kvs callback (suc fuel) sector kv arg db
        ≡ iterate_kvs callback fuel sector
            (record (kv_of addr e) { start = next })
            (f (kv_of addr e) arg).1
            db
  unfolding iterate_kvs
  round_on fuel addr next e kv arg read goes step there =
      rw (iterate_kvs, ◌>>=◌, read, keeps (kv_of addr e) arg, goes, step, there) refl

  round_end :
      (fuel addr : ℕ) (e : Item) (kv : FdbKv) (arg : A)
      → read_kv kv db ≡ some ((no_err, kv_of addr e), db)
      → (f (kv_of addr e) arg).0 ≡ false
      → get_next_kv_addr db sector (kv_of addr e) ≡ some failed_addr
      → iterate_kvs callback (suc fuel) sector kv arg db
        ≡ some
            ((false, (f (kv_of addr e) arg).1, record (kv_of addr e) { start = failed_addr }), db)
  unfolding iterate_kvs
  round_end fuel addr e kv arg read goes step =
      rw (iterate_kvs, ◌>>=◌, read, keeps (kv_of addr e) arg, goes, step) refl

  -- The loop over the sector from a KV on.
  pub iterate_kvs-items :
      (e : Item) (items : List Item) (fuel addr : ℕ) (kv : FdbKv) (arg : A)
      → length items < fuel
      → kv.start ≡ addr
      → sector.addr + 16 ≤ addr
      → addr + items_len (e ∷ items) ≡ sector.addr + 16 + items_len all
      → ItemsAt m db.flash.part.offset addr (e ∷ items)
      → iterate_kvs callback fuel sector kv arg db ≡ some (visit_items f addr e items arg, db)
  unfolding ItemsAt items_len visit_items
  iterate_kvs-items e items zero addr kv arg more at after total held = absurd (omega arith)
  iterate_kvs-items e [] (suc fuel) addr kv arg more at after total (here, valid, rest) =
      let room = filled.room in
      let inside = filled.inside in
      let sized = filled.sized in
      let read =
        read_kv-ItemAt db filled.ready addr e valid here (omega arith) (omega arith) kv at in
      elim (Bool-cases (f (kv_of addr e) arg).0) [
        | inl breaks ↦ round_broken fuel addr e kv arg read breaks ∙ rw breaks refl
        | inr goes ↦
            round_end fuel addr e kv arg read goes (next-end filled addr e after (omega arith))
            ∙ rw goes refl
      ]
  iterate_kvs-items e (g ∷ items) (suc fuel) addr kv arg more at after total (here, valid, rest) =
      let room = filled.room in
      let inside = filled.inside in
      let sized = filled.sized in
      let small = filled.small in
      let read =
        read_kv-ItemAt db filled.ready addr e valid here (omega arith) (omega arith) kv at in
      let next = addr + item_len e in
      elim (Bool-cases (f (kv_of addr e) arg).0) [
        | inl breaks ↦ round_broken fuel addr e kv arg read breaks ∙ rw (visit_items, breaks) refl
        | inr goes ↦
            round_on fuel addr next e kv arg read goes
              (next-item filled addr e g after (omega arith) rest.0)
              (ne→==_false next failed_addr (λ q. absurd (omega (arith, q))))
            ∙ iterate_kvs-items g items fuel next (record (kv_of addr e) { start = next })
                (f (kv_of addr e) arg).1 (omega arith) refl (omega arith) (omega arith) rest
            ∙ rw (visit_items, goes) refl
      ]
