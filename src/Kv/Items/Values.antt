-- ===== src/Kv/Items/Values.antt =====
-- The values of names in the KVs on the flash, for the lookup of FlashDB/src/fdb_kvdb.c.
use mathlib.Core.Option.{some_inj, none-ne-some}
use flashdb_ko.Prelude.{
  ℕ, ◌+◌, ◌≤◌, ◌≡◌, refl, sym, ap, ◌∙◌, subst, List, [], ◌∷◌, ◌++◌, Option, none, some, Bool, true,
  false, ◌==◌, ◌&&◌, Bool-cases, inl, inr, if◌then◌else◌, Option-cases, arith,
}
use flashdb_ko.Prelude.Words.{add32}
use flashdb_ko.Fal.{str_eq}
use flashdb_ko.Kv.Types.{FdbKvdb, fdb_kv_write}
use flashdb_ko.Kv.Items.{Item, item_len, ItemAt, ValidItem}
use flashdb_ko.Kv.Items.Sector.{ItemsAt, items_len}
use flashdb_ko.Kv.Items.Search.{find_item}
use flashdb_ko.Kv.Items.Blocks.{Block, BlockAt, Blocks, behind_block, find_block}
use flashdb_ko.Kv.Items.Lookup.{find_block-here, find_block-behind, find_block-last}

-- The value of a name in a list of KVs: that of the first one that is written and not deleted.
unfoldable pub get_value : List ℕ → List Item → Option (List ℕ)
get_value key [] = none
get_value key (e ∷ items) =
    if e.status == fdb_kv_write && str_eq key e.key then some e.value else get_value key items

-- All KVs of the sectors.
unfoldable pub all_items : List Block → List Item
all_items [] = []
all_items (b ∷ blocks) = b.items ++ all_items blocks

find_item-nil : (key : List ℕ) (addr : ℕ) → find_item key addr [] ≡ none
unfolding find_item
find_item-nil key addr = refl

-- The KV is written, not deleted, and of that name.
abbrev current : List ℕ → Item → Bool
current key e = e.status == fdb_kv_write && str_eq key e.key

module _ (key : List ℕ) (e : Item) (items rest : List Item) (addr : ℕ) where
  find_item-first :
      current key e ≡ true
      → (find_item key addr (e ∷ items) ≡ some (addr, e))
        × (get_value key (e ∷ rest) ≡ some e.value)
  unfolding find_item get_value
  find_item-first here = (rw (find_item, here) refl, rw (get_value, here) refl)

  find_item-other :
      current key e ≡ false
      → (find_item key addr (e ∷ items) ≡ find_item key (addr + item_len e) items)
        × (get_value key (e ∷ rest) ≡ get_value key rest)
  unfolding find_item get_value
  find_item-other other = (rw (find_item, other) refl, rw (get_value, other) refl)

-- What the search in a sector finds stands there, and has the first value of the name.
abbrev Standing : (ℕ → ℕ) → ℕ → List ℕ → List Item → ℕ → ℕ → ℕ → Item → Type 0
Standing m off key all start end a g =
    ItemAt m off a g
    × ValidItem g
    × (start ≤ a)
    × (a + item_len g ≤ end)
    × (get_value key all ≡ some g.value)

find_item-Standing :
    (m : ℕ → ℕ) (off : ℕ) (key : List ℕ) (items rest : List Item) (addr a : ℕ) (g : Item)
    → find_item key addr items ≡ some (a, g)
    → ItemsAt m off addr items
    → Standing m off key (items ++ rest) addr (addr + items_len items) a g
unfolding ItemsAt items_len
find_item-Standing m off key [] rest addr a g found held =
    absurd (none-ne-some (a, g) (sym (find_item-nil key addr) ∙ found))
find_item-Standing m off key (e ∷ items) rest addr a g found (at, valid, held) =
    elim (Bool-cases (current key e)) [
      | inl here ↦
          let (hit, value) = find_item-first key e items (items ++ rest) addr here in
          subst
            (λ (r : ℕ × Item).
              Standing m off key (e ∷ (items ++ rest)) addr (addr + (item_len e + items_len items))
                r.0 r.1)
            (some_inj.0 (sym hit ∙ found)) (at, valid, omega arith, omega arith, value)
      | inr other ↦
          let (on, value) = find_item-other key e items (items ++ rest) addr other in
          let (at', valid', above, below, value') =
            find_item-Standing m off key items rest (addr + item_len e) a g (sym on ∙ found) held in
          (at', valid', omega (arith, above), omega (arith, below), value ∙ value')
    ]

find_item-none :
    (key : List ℕ) (items rest : List Item) (addr : ℕ)
    → find_item key addr items ≡ none
    → get_value key (items ++ rest) ≡ get_value key rest
find_item-none key [] rest addr missed = refl
find_item-none key (e ∷ items) rest addr missed = elim (Bool-cases (current key e)) [
  | inl here ↦ absurd (
      none-ne-some (addr, e)
        (sym missed ∙ (find_item-first key e items (items ++ rest) addr here).0))
  | inr other ↦
      let (on, value) = find_item-other key e items (items ++ rest) addr other in
      value ∙ find_item-none key items rest (addr + item_len e) (sym on ∙ missed)
]

module _ (db : FdbKvdb) (m : ℕ → ℕ) (key : List ℕ) where
  -- The KV stands in the partition, and has the first value of the name.
  abbrev pub Present : List Item → ℕ → Item → Type 0
  Present all a g =
      ItemAt m db.flash.part.offset a g
      × ValidItem g
      × (a + item_len g ≤ db.flash.part.len)
      × (item_len g ≤ db.max_size)
      × (get_value key all ≡ some g.value)

  block-Present :
      (addr : ℕ) (b : Block) (rest : List Item) (a : ℕ) (g : Item)
      → BlockAt db m addr b
      → find_item key (b.info.addr + 16) b.items ≡ some (a, g)
      → Present (b.items ++ rest) a g
  block-Present addr b rest a g held found = elim held.content [
    | inl (e, items, eq, used, filled) ↦
        let room = filled.room in
        let inside = filled.inside in
        let sized = filled.sized in
        let (at, valid, above, below, value) =
          find_item-Standing m db.flash.part.offset key b.items rest (b.info.addr + 16) a g found
            filled.items_at in
        (
          at,
          valid,
          omega (arith, below, room, inside),
          omega (arith, above, below, room, sized),
          value,
        )
    | inr (empty, unused) ↦ absurd (
        none-ne-some (a, g)
          (sym (find_item-nil key (b.info.addr + 16))
            ∙ ap (find_item key (b.info.addr + 16)) (sym empty)
            ∙ found))
  ]

  first_block :
      (blocks : List Block) (b : Block) (addr traversed : ℕ)
      → Blocks db m addr traversed b blocks
      → BlockAt db m addr b
  unfolding Blocks
  first_block [] b addr traversed held = held.0
  first_block (c ∷ blocks) b addr traversed held = held.0

  find_block-first :
      (blocks : List Block) (b : Block) (addr traversed a a' : ℕ) (g g' : Item)
      → Blocks db m addr traversed b blocks
      → find_block key (b ∷ blocks) ≡ some (a, g)
      → find_item key (b.info.addr + 16) b.items ≡ some (a', g')
      → Present (b.items ++ all_items blocks) a g
  find_block-first blocks b addr traversed a a' g g' held found hit =
      subst (λ (r : ℕ × Item). Present (b.items ++ all_items blocks) r.0 r.1)
        (some_inj.0 (sym (find_block-here key b blocks (a', g') hit) ∙ found))
        (block-Present addr b (all_items blocks) a' g' (first_block blocks b addr traversed held)
          hit)

  pub find_block-Present :
      (blocks : List Block) (b : Block) (addr traversed a : ℕ) (g : Item)
      → Blocks db m addr traversed b blocks
      → find_block key (b ∷ blocks) ≡ some (a, g)
      → Present (all_items (b ∷ blocks)) a g
  unfolding Blocks all_items
  find_block-Present [] b addr traversed a g held found =
      elim (Option-cases (find_item key (b.info.addr + 16) b.items)) [
        | inr ((a', g'), hit) ↦ find_block-first [] b addr traversed a a' g g' held found hit
        | inl miss ↦ absurd (none-ne-some (a, g) (sym (find_block-last key b miss) ∙ found))
      ]
  find_block-Present (c ∷ blocks) b addr traversed a g held found =
      elim (Option-cases (find_item key (b.info.addr + 16) b.items)) [
        | inr ((a', g'), hit) ↦
            find_block-first (c ∷ blocks) b addr traversed a a' g g' held found hit
        | inl miss ↦
            let (at, valid, below, short, value) =
              find_block-Present blocks c (behind_block db traversed b)
                (add32 traversed db.sec_size) a g held.2
                (sym (find_block-behind key b (c ∷ blocks) miss) ∙ found) in
            (
              at,
              valid,
              below,
              short,
              find_item-none key b.items (all_items (c ∷ blocks)) (b.info.addr + 16) miss ∙ value,
            )
      ]

  pub find_block-absent :
      (blocks : List Block) → find_block key blocks ≡ none → get_value key (all_items blocks) ≡ none
  unfolding all_items get_value
  find_block-absent [] absent = refl
  find_block-absent (b ∷ blocks) absent =
      elim (Option-cases (find_item key (b.info.addr + 16) b.items)) [
        | inr (found, hit) ↦
            absurd (none-ne-some found (sym absent ∙ find_block-here key b blocks found hit))
        | inl miss ↦
            find_item-none key b.items (all_items blocks) (b.info.addr + 16) miss
            ∙ find_block-absent blocks (sym (find_block-behind key b blocks miss) ∙ absent)
      ]
