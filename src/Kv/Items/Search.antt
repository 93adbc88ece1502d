-- ===== src/Kv/Items/Search.antt =====
-- `find_kv_cb` of FlashDB/src/fdb_kvdb.c over the KVs of a sector: the first one of the name that is
-- written and not deleted.
use flashdb_ko.Prelude.{
  ℕ, ◌+◌, ◌≡◌, ◌≢◌, refl, List, [], ◌∷◌, ◌++◌, All, length, Option, none, some, Bool, true, false,
  ◌==◌, ◌&&◌, Bool-cases, inl, inr, if◌then◌else◌, arith,
}
use flashdb_ko.Fal.{str_eq, strn_eq}
use flashdb_ko.Kv.Types.{FdbKv, FdbKvdb, fdb_kv_write}
use flashdb_ko.Kv.Find.{is_the_kv, find_kv_cb}
use flashdb_ko.Kv.Items.{Item, item_len, kv_of}
use flashdb_ko.Kv.Items.Visit.{visit_items}

-- What a lookup of the name promises: the first KV of that name that is written and not deleted,
-- with its address.
unfoldable pub find_item : List ℕ → ℕ → List Item → Option (ℕ × Item)
find_item key addr [] = none
find_item key addr (e ∷ items) =
    if e.status == fdb_kv_write && str_eq key e.key
    then some (addr, e)
    else find_item key (addr + item_len e) items

-- No character of the name is the terminating NUL.
abbrev pub NoNul : List ℕ → Type 0
NoNul = All (λ (b : ℕ). b ≢ 0)

-- `strncmp` over the length of two names of one length compares the names.
strn_eq-str_eq :
    (name key : List ℕ)
    → NoNul key
    → length key ≡ length name
    → strn_eq (name ++ (0 ∷ [])) key (length key) ≡ str_eq key name
unfolding strn_eq str_eq
strn_eq-str_eq [] [] plain same = refl
strn_eq-str_eq [] (y ∷ key) plain same = absurd (omega (arith, same))
strn_eq-str_eq (x ∷ name) [] plain same = absurd (omega (arith, same))
strn_eq-str_eq (x ∷ name) (y ∷ key) (some_char, plain) same =
    let rest = strn_eq-str_eq name key plain (omega (arith, same)) in ground (arith, rest)

str_eq-length : (xs ys : List ℕ) → str_eq xs ys ≡ true → length xs ≡ length ys
unfolding str_eq
str_eq-length [] [] h = refl
str_eq-length [] (y ∷ ys) h = absurd (ground arith)
str_eq-length (x ∷ xs) [] h = absurd (ground arith)
str_eq-length (x ∷ xs) (y ∷ ys) h = ground (arith, str_eq-length xs ys)

is_the_kv-item :
    (key : List ℕ) (addr : ℕ) (e : Item)
    → NoNul key
    → is_the_kv key (kv_of addr e) ≡ (e.status == fdb_kv_write && str_eq key e.key)
unfolding is_the_kv
is_the_kv-item key addr e plain = elim (Bool-cases (length key == length e.key)) [
  | inl same ↦
      let eq : length key ≡ length e.key = ground arith in
      rw (same, strn_eq-str_eq e.key key plain eq) refl
  | inr other ↦ elim (Bool-cases (str_eq key e.key)) [
    | inl equal ↦ let eq = str_eq-length key e.key equal in absurd (ground arith)
    | inr differ ↦ rw (other, differ) (ground arith)
  ]
]

-- `find_kv_cb` as a function.
abbrev pub search_cb : List ℕ → FdbKv → Bool → Bool × Bool
search_cb key kv found = if is_the_kv key kv then (true, true) else (false, found)

pub find_kv_cb-search_cb :
    (key : List ℕ) (db : FdbKvdb) (kv : FdbKv) (found : Bool)
    → find_kv_cb key kv found db ≡ some (search_cb key kv found, db)
unfolding find_kv_cb
find_kv_cb-search_cb key db kv found = ground arith

-- What the loop has found, by what the search promises.
unfoldable pub Result : Option (ℕ × Item) → Bool × Bool × FdbKv → Type 0
Result none r = (r.0 ≡ false) × (r.1 ≡ false)
Result (some (addr, e)) r = r ≡ (true, true, kv_of addr e)

pub visit-find_item :
    (key : List ℕ) (addr : ℕ) (e : Item) (items : List Item)
    → NoNul key
    → Result (find_item key addr (e ∷ items)) (visit_items (search_cb key) addr e items false)
unfolding Result find_item visit_items
visit-find_item key addr e [] plain = elim (Bool-cases (is_the_kv key (kv_of addr e))) [
  | inl hit ↦ rw (← is_the_kv-item key addr e plain, hit) refl
  | inr miss ↦ rw (← is_the_kv-item key addr e plain, miss) (refl, refl)
]
visit-find_item key addr e (g ∷ items) plain = elim (Bool-cases (is_the_kv key (kv_of addr e))) [
  | inl hit ↦ rw (← is_the_kv-item key addr e plain, hit, visit_items, hit) refl
  | inr miss ↦
      rw (← is_the_kv-item key addr e plain, miss, visit_items, miss)
        (visit-find_item key (addr + item_len e) g items plain)
]
