-- ===== src/MemBlk/Cells.antt =====
-- Reading back what was written to a memory.
use flashdb_ko.Prelude.{
  ℕ, zero, suc, ◌+◌, ◌-◌, ◌≤◌, ◌<◌, ◌≡◌, refl, ap, ◌∙◌, ◌⊎◌, List, [], ◌∷◌, ◌++◌, length, take,
  get_or, arith,
}
use flashdb_ko.MemBlk.{read_cells, write_cells, fill_cells}
use mathlib.Core.Path.{ap₂}

pub length-read_cells : (m : ℕ → ℕ) (a n : ℕ) → length (read_cells m a n) ≡ n
unfolding read_cells
length-read_cells m a zero = refl
length-read_cells m a (suc n) = ap suc (length-read_cells m (a + 1) n)

-- Two memories that agree on a range read alike there.
pub read_cells-cong :
    (m m' : ℕ → ℕ) (a n : ℕ)
    → ((x : ℕ) → a ≤ x → x < a + n → m x ≡ m' x)
    → read_cells m a n ≡ read_cells m' a n
unfolding read_cells
read_cells-cong m m' a zero h = refl
read_cells-cong m m' a (suc n) h =
    ap₂ ◌∷◌ (h a (omega arith) (omega arith))
      (read_cells-cong m m' (a + 1) n (λ x p q. h x (omega arith) (omega arith)))

pub read_cells-append :
    (m : ℕ → ℕ) (a n k : ℕ) → read_cells m a (n + k) ≡ read_cells m a n ++ read_cells m (a + n) k
unfolding read_cells
read_cells-append m a zero k = ap₂ (read_cells m) (omega arith) (omega arith)
read_cells-append m a (suc n) k =
    ap (read_cells m a) {x = suc n + k} {y = suc (n + k)} (omega arith)
    ∙ ap (λ (t : List ℕ). m a ∷ t)
        (read_cells-append m (a + 1) n k
          ∙ ap (λ (t : ℕ). read_cells m (a + 1) n ++ read_cells m t k) {x = a + 1 + n}
              {y = a + suc n} (omega arith))

pub write_cells-inside :
    (m : ℕ → ℕ) (a : ℕ) (bs : List ℕ) (x : ℕ)
    → a ≤ x
    → x < a + length bs
    → write_cells m a bs x ≡ get_or bs (x - a) 0
unfolding write_cells
write_cells-inside m a bs x h k = ground arith

pub write_cells-outside :
    (m : ℕ → ℕ) (a : ℕ) (bs : List ℕ) (x : ℕ)
    → (x < a) ⊎ (a + length bs ≤ x)
    → write_cells m a bs x ≡ m x
unfolding write_cells
write_cells-outside m a bs x h = ground arith

pub fill_cells-outside :
    (m : ℕ → ℕ) (a n v x : ℕ) → (x < a) ⊎ (a + n ≤ x) → fill_cells m a n v x ≡ m x
unfolding fill_cells
fill_cells-outside m a n v x h = ground arith

-- A memory that holds the bytes of a list at an address is read as that list.
pub read_cells-eq_of_get_or :
    (m : ℕ → ℕ) (a : ℕ) (bs : List ℕ)
    → ((i : ℕ) → i < length bs → m (a + i) ≡ get_or bs i 0)
    → read_cells m a (length bs) ≡ bs
unfolding read_cells
read_cells-eq_of_get_or m a [] h = refl
read_cells-eq_of_get_or m a (b ∷ bs) h =
    ap₂ ◌∷◌ (ap m (omega arith) ∙ h 0 (omega arith))
      (read_cells-eq_of_get_or m (a + 1) bs (λ i p. ap m (omega arith) ∙ h (suc i) (omega arith)))

pub read_cells-write_cells :
    (m : ℕ → ℕ) (a : ℕ) (bs : List ℕ) → read_cells (write_cells m a bs) a (length bs) ≡ bs
read_cells-write_cells m a bs = read_cells-eq_of_get_or (write_cells m a bs) a bs (λ i p.
    write_cells-inside m a bs (a + i) (omega arith) (omega arith)
    ∙ ap (λ (t : ℕ). get_or bs t 0) (omega arith))

-- A write elsewhere does not show.
pub read_cells-write_cells_apart :
    (m : ℕ → ℕ) (a : ℕ) (bs : List ℕ) (r n : ℕ)
    → (r + n ≤ a) ⊎ (a + length bs ≤ r)
    → read_cells (write_cells m a bs) r n ≡ read_cells m r n
read_cells-write_cells_apart m a bs r n h =
    read_cells-cong (write_cells m a bs) m r n (λ x p q. write_cells-outside m a bs x (omega arith))

-- A byte that was written is there.
pub write_cells-here : (m : ℕ → ℕ) (a b : ℕ) → write_cells m a (b ∷ []) a ≡ b
write_cells-here m a b =
    write_cells-inside m a (b ∷ []) a (omega arith) (omega arith)
    ∙ ap (λ (t : ℕ). get_or (b ∷ []) t 0) {x = a - a} {y = 0} (omega arith)

pub four_cells :
    (c : ℕ → ℕ) (a : ℕ)
    → read_cells c a 4 ≡ c a ∷ c (a + 1) ∷ c (a + 1 + 1) ∷ c (a + 1 + 1 + 1) ∷ []
unfolding read_cells
four_cells c a = refl

-- A shorter read gives the front of a longer one.
pub take-read_cells : (m : ℕ → ℕ) (a n k : ℕ) → n ≤ k → take n (read_cells m a k) ≡ read_cells m a n
unfolding read_cells
take-read_cells m a zero k h = refl
take-read_cells m a (suc n) zero h = absurd (omega arith)
take-read_cells m a (suc n) (suc k) h =
    ap (λ (t : List ℕ). m a ∷ t) (take-read_cells m (a + 1) n k (omega arith))
