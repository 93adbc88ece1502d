-- ===== src/Fal/Table/Search.antt =====
-- The search for the partition table reads windows of 64 bytes downwards that overlap by three.
use flashdb_ko.Prelude.{
  Option-cases, ℕ, zero, suc, ◌+◌, ◌-◌, ◌%◌, ◌≤◌, ◌<◌, ◌≡◌, ◌≢◌, refl, sym, ap, subst, ◌∙◌, ◌⊎◌,
  inl, inr, List, Option, none, some, ◌==◌, Bool-cases, length, arith,
}
use flashdb_ko.Bytes.{word_at}
use flashdb_ko.MemBlk.{read_cells}
use flashdb_ko.MemBlk.Cells.{length-read_cells}
use flashdb_ko.MemBlk.Words.{word_in, word_at-read_cells}
use flashdb_ko.Fal.{FalFlashDev}
use flashdb_ko.Fal.Table.{fal_part_magic_word, find_magic, next_offset, find_table}

-- What a search of the positions from `lo` up to `hi` comes to.
unfoldable pub Found : (ℕ → ℕ) → ℕ → ℕ → Option ℕ → Type 0
Found word lo hi none = (o : ℕ) → lo ≤ o → o < hi → word o ≢ fal_part_magic_word
Found word lo hi (some o) = (lo ≤ o) × (o < hi) × (word o ≡ fal_part_magic_word)

compare_first : (a b : ℕ) → a ≤ b → (a ≡ b) ⊎ (suc a ≤ b)
compare_first a b h = ground arith

-- The search of the positions behind the first one, which does not hold the magic word.
Found-further :
    (word : ℕ → ℕ) (lo hi : ℕ) (r : Option ℕ)
    → word lo ≢ fal_part_magic_word
    → Found word (suc lo) hi r
    → Found word lo hi r
unfolding Found
Found-further word lo hi none other found = λ o p q. elim (compare_first lo o p) [
  | inl same ↦ subst (λ (x : ℕ). word x ≢ fal_part_magic_word) same other
  | inr above ↦ found o above q
]
Found-further word lo hi (some o) other (p, q, found) = (omega arith, q, found)

find_magic-Found : (buf : List ℕ) (n i : ℕ) → Found (word_at buf) i (i + n) (find_magic n i buf)
unfolding Found find_magic
find_magic-Found buf zero i = λ o p q. absurd (omega arith)
find_magic-Found buf (suc n) i =
    let same : suc i + n ≡ i + suc n = omega arith in
    let behind = find_magic-Found buf n (suc i) in
    elim (Bool-cases (word_at buf i == fal_part_magic_word)) [
      | inl here ↦ rw (find_magic, here) (omega arith, omega arith, ground arith)
      | inr other ↦
          rw (find_magic, other)
            (Found-further (word_at buf) i (i + suc n) (find_magic n (suc i) buf) (ground arith) (
              subst (λ (h : ℕ). Found (word_at buf) (suc i) h (find_magic n (suc i) buf)) same
                behind))
    ]

-- A window without the magic word, and with it.
window-none :
    (cells : ℕ → ℕ) (off : ℕ)
    → find_magic 61 0 (read_cells cells off 64) ≡ none
    → Found (word_in cells) off (off + 61) none
unfolding Found
window-none cells off missed = λ o p q is_magic.
    let there : off + (o - off) ≡ o = omega arith in
    let found =
      subst (Found (word_at (read_cells cells off 64)) 0 61) missed
        (find_magic-Found (read_cells cells off 64) 61 0) in
    found (o - off) (omega arith) (omega arith) (
      word_at-read_cells cells off 64 (o - off) (omega arith) ∙ ap (word_in cells) there ∙ is_magic)

window-some :
    (cells : ℕ → ℕ) (off i : ℕ)
    → find_magic 61 0 (read_cells cells off 64) ≡ some i
    → (i < 61) × (word_in cells (off + i) ≡ fal_part_magic_word)
unfolding Found
window-some cells off i hit =
    let (p, q, is_magic) =
      subst (Found (word_at (read_cells cells off 64)) 0 61) hit
        (find_magic-Found (read_cells cells off 64) 61 0) in
    (q, sym (word_at-read_cells cells off 64 i (omega arith)) ∙ is_magic)

-- Two neighbouring searches without the word.
Found-join :
    (word : ℕ → ℕ) (lo mid hi : ℕ)
    → Found word lo mid none
    → Found word mid hi none
    → Found word lo hi none
unfolding Found
Found-join word lo mid hi low high =
    λ o p q. elim (side o mid) [ inl below ↦ low o p below | inr above ↦ high o above q ]
  where
    side : (a b : ℕ) → (a < b) ⊎ (b ≤ a)
    side a b = ground arith

Found-weaken :
    (word : ℕ → ℕ) (lo lo' hi : ℕ) → lo ≤ lo' → Found word lo hi none → Found word lo' hi none
unfolding Found
Found-weaken word lo lo' hi h found = λ o p q. found o (omega arith) q

-- The magic word stands nowhere behind the window that a hit may come from.
unfoldable pub Last : (ℕ → ℕ) → ℕ → Option ℕ → Type 0
Last word hi none = Unit {0}
Last word hi (some o) = (x : ℕ) → o + 61 ≤ x → x < hi → word x ≢ fal_part_magic_word

-- The steps of the offset.
next_offset-cases :
    (off : ℕ)
    → ((off ≡ 0) × (next_offset off ≡ none))
      ⊎ ((0 < off) × (off < 64) × (next_offset off ≡ some 0))
      ⊎ ((64 ≤ off) × (next_offset off ≡ some (off - 61)))
unfolding next_offset
next_offset-cases off = ground arith

module _ {M : Type 0} (flash_dev : FalFlashDev M) (m : M) (cells : ℕ → ℕ) (top : ℕ)
    (reads : (off : ℕ) (buf : List ℕ)
      → off ≤ top
      → length buf ≡ 64
      → flash_dev.read m off buf ≡ (some 64, read_cells cells off 64)) where
  -- What a round of the search comes to.
  abbrev step : ℕ → ℕ → Option ℕ × List ℕ → Option (Option ℕ)
  step fuel off r = elim r.0 [
    | none ↦ some none
    | some n ↦ elim n [
      | zero ↦ some none
      | suc _ ↦ elim (find_magic 61 0 r.1) [
        | some i ↦ some (some (off + i))
        | none ↦ elim (next_offset off) [
          | none ↦ some none
          | some off' ↦ find_table flash_dev m fuel off' r.1
        ]
      ]
    ]
  ]

  round :
      (fuel off : ℕ) (buf : List ℕ)
      → off ≤ top
      → length buf ≡ 64
      → find_table flash_dev m (suc fuel) off buf ≡ step fuel off (some 64, read_cells cells off 64)
  unfolding find_table
  round fuel off buf inside size = ap (step fuel off) (reads off buf inside size)

  -- With a round for each offset and one more the search ends, with a magic word up to its first
  -- window or the knowledge that there is none.
  search :
      (fuel off : ℕ) (buf : List ℕ)
      → off < fuel
      → off ≤ top
      → off % 61 ≢ 1
      → off % 61 ≢ 2
      → length buf ≡ 64
      → Found (word_in cells) (off + 61) (top + 61) none
      → (r : Option ℕ) × (find_table flash_dev m fuel off buf ≡ some r)
        × Found (word_in cells) 0 (top + 61) r
        × Last (word_in cells) (top + 61) r
  unfolding Found Last
  search zero off buf more inside one two size above = absurd (omega arith)
  search (suc fuel) off buf more inside one two size above =
      let window = read_cells cells off 64 in
      let all = round fuel off buf inside size in
      elim (Option-cases (find_magic 61 0 window)) [
        | inr (i, hit) ↦
            let (low, is_magic) = window-some cells off i hit in
            (
              some (off + i),
              all ∙ rw (step, hit) refl,
              (omega arith, omega arith, is_magic),
              λ x p q. above x (omega arith) q,
            )
        | inl missed ↦
            let here =
              Found-join (word_in cells) off (off + 61) (top + 61) (window-none cells off missed)
                above in
            elim (next_offset-cases off) [
              | inl (start, ends) ↦
                  (none, all ∙ rw (step, missed, ends) refl, (λ o p q. here o (omega arith) q), tt)
              | inr (inl (positive, low, next)) ↦
                  let (r, found, result, last) =
                    search fuel 0 window (omega arith) (omega arith) (ground arith) (ground arith)
                      (length-read_cells cells off 64)
                      (Found-weaken (word_in cells) off 61 (top + 61) (omega arith) here) in
                  (r, all ∙ rw (step, missed, next) found, result, last)
              | inr (inr (high, next)) ↦
                  let (r, found, result, last) =
                    search fuel (off - 61) window (omega arith) (omega arith)
                      (λ e. one (omega arith)) (λ e. two (omega arith))
                      (length-read_cells cells off 64)
                      (Found-weaken (word_in cells) off (off - 61 + 61) (top + 61) (omega arith)
                        here) in
                  (r, all ∙ rw (step, missed, next) found, result, last)
            ]
      ]

  pub find_table-Last :
      (buf : List ℕ)
      → top % 61 ≢ 1
      → top % 61 ≢ 2
      → length buf ≡ 64
      → (r : Option ℕ) × (find_table flash_dev m (suc top) top buf ≡ some r)
        × Found (word_in cells) 0 (top + 61) r
        × Last (word_in cells) (top + 61) r
  unfolding Found
  find_table-Last buf one two size =
      search (suc top) top buf (omega arith) (omega arith) one two size
        (λ o p q. absurd (omega arith))

  -- On a device that reads the bytes `cells`, with the first window at an offset `top` that leaves
  -- neither 1 nor 2 when divided by 61: the search for the partition table ends, and what it finds
  -- is an offset of the magic word up to `top + 60`; where it finds nothing, the magic word is at no
  -- offset up to there.
  pub find_table-Found :
      (buf : List ℕ)
      → top % 61 ≢ 1
      → top % 61 ≢ 2
      → length buf ≡ 64
      → (r : Option ℕ) × (find_table flash_dev m (suc top) top buf ≡ some r)
        × Found (word_in cells) 0 (top + 61) r
  unfolding Found
  find_table-Found buf one two size =
      let (r, found, result, last) = find_table-Last buf one two size in (r, found, result)
