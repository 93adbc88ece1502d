-- ===== src/ErasedTail/Spec.antt =====
-- `_fdb_continue_ff_addr` ends and finds the start of the erased tail.
use flashdb_ko.Prelude.{
  ℕ, zero, suc, ◌+◌, ◌-◌, ◌*◌, ◌/◌, ◌≤◌, ◌<◌, ◌≡◌, ◌≢◌, refl, ap, sym, subst, ◌∙◌, ◌⊎◌, inl, inr,
  List, [], ◌∷◌, ◌++◌, some, ltb, not, ◌&&◌, ◌==◌, eq→==, ne→==_false, if◌then◌else◌, length, take,
  drop, replicate, length-take, length-drop, length-append, length-replicate, lt→ltb, le→ltb_false,
  arith,
}
use native.Mathlib.Decide.{dec_lt, ℕ_discrete}
use flashdb_ko.Prelude.Words.{add32, sub32, wg_align, wg_align-id}
use flashdb_ko.MemBlk.{read_cells}
use flashdb_ko.MemBlk.Cells.{length-read_cells}
use flashdb_ko.Storage.{Flash, no_err, flash_read}
use flashdb_ko.Storage.Laws.{Ready, flash_read_lem}
use flashdb_ko.ErasedTail.{scan_buf, scan_loop, fdb_continue_ff_addr}

-- `r` is where the erased tail of the bytes from `s` up to `e` begins.
pub record TailAt (m : ℕ → ℕ) (s e r : ℕ) : Type 0 where
  pub from_start : s ≤ r
  pub to_end : r ≤ e
  pub erased : (x : ℕ) → r ≤ x → x < e → m x ≡ 0xff
  pub longest : (r ≡ s) ⊎ (m (r - 1) ≢ 0xff)

-- What the scan knows when the bytes from `s` up to `p` were read.
record Inv (m : ℕ → ℕ) (s p addr last_data : ℕ) : Type 0 where
  ahead : s ≤ p
  last : ((p ≡ s) × (last_data ≡ 0)) ⊎ ((s < p) × (last_data ≡ m (p - 1)))
  tail : last_data ≡ 0xff → (addr < p) × TailAt m s p addr

-- The list holds the bytes from `p` on.
abbrev Reads : (ℕ → ℕ) → List ℕ → ℕ → Type 0
Reads m [] p = Unit
Reads m (b ∷ bs) p = (b ≡ m p) × Reads m bs (p + 1)

read_cells-Reads :
    (m : ℕ → ℕ) (off n p a : ℕ) → a ≡ off + p → Reads (λ x. m (off + x)) (read_cells m a n) p
unfolding read_cells
read_cells-Reads m off zero p a e = tt
read_cells-Reads m off (suc n) p a e =
    (ap m e, read_cells-Reads m off n (p + 1) (a + 1) (omega arith))

module _ (m : ℕ → ℕ) (s : ℕ) where
  Inv-other :
      {p addr last_data : ℕ} (addr' b : ℕ)
      → b ≢ 0xff
      → b ≡ m p
      → Inv m s p addr last_data
      → Inv m s (p + 1) addr' b
  Inv-other {p} addr' b ne e inv = record {
    ahead = omega (arith, inv.ahead);
    last = inr (omega (arith, inv.ahead), e ∙ ap m (omega arith));
    tail = λ h. absurd (ne h);
  }

  Inv-first :
      {p addr last_data : ℕ} (b : ℕ)
      → b ≡ 0xff
      → last_data ≢ 0xff
      → b ≡ m p
      → Inv m s p addr last_data
      → Inv m s (p + 1) p b
  Inv-first {p} b is ne e inv = record {
    ahead = omega (arith, inv.ahead);
    last = inr (omega (arith, inv.ahead), e ∙ ap m (omega arith));
    tail = λ h. (
      omega arith,
      record {
        from_start = inv.ahead;
        to_end = omega arith;
        erased = λ x q k. let at : x ≡ p = omega arith in ap m at ∙ sym e ∙ is;
        longest = ground (arith, inv.last);
      },
    );
  }

  Inv-more :
      {p addr last_data : ℕ} (b : ℕ)
      → b ≡ 0xff
      → last_data ≡ 0xff
      → b ≡ m p
      → Inv m s p addr last_data
      → Inv m s (p + 1) addr b
  Inv-more {p} {addr} b is was e inv =
      let t = inv.tail was in
      record {
        ahead = omega (arith, inv.ahead);
        last = inr (omega (arith, inv.ahead), e ∙ ap m (omega arith));
        tail = λ h. (
          omega (arith, t.0),
          record {
            from_start = t.1.from_start;
            to_end = omega (arith, t.0);
            erased = λ x q k. ground (arith, t.1.erased x, ℕ_discrete x p, ap m);
            longest = t.1.longest;
          },
        );
      }

  Inv-byte :
      (p addr last_data b : ℕ)
      → b ≡ m p
      → Inv m s p addr last_data
      → Inv m s (p + 1) (if not (last_data == 0xff) && b == 0xff then p else addr) b
  Inv-byte p addr last_data b e inv = elim (ℕ_discrete b 0xff) [
    | no ne ↦ Inv-other _ b ne e inv
    | yes is ↦ elim (ℕ_discrete last_data 0xff) [
      | no was ↦ rw (eq→== b 255 is, ne→==_false last_data 255 was) (Inv-first b is was e inv)
      | yes was ↦ rw (eq→== b 255 is, eq→== last_data 255 was) (Inv-more b is was e inv)
    ]
  ]

  scan_buf-Inv :
      (bs : List ℕ) (start i p q addr last_data : ℕ)
      → p ≡ start + i
      → q ≡ p + length bs
      → q < 0x1_0000_0000
      → Reads m bs p
      → Inv m s p addr last_data
      → let r = scan_buf bs start i addr last_data in Inv m s q r.0 r.1
  unfolding scan_buf
  scan_buf-Inv [] start i p q addr last_data ep eq small reads inv =
      let e : p ≡ q = omega arith in subst (λ t. Inv m s t addr last_data) e inv
  scan_buf-Inv (b ∷ bs) start i p q addr last_data ep eq small reads inv =
      let at : add32 start i ≡ p = omega arith in
      rw (at, scan_buf)
        (scan_buf-Inv bs start (i + 1) (p + 1) q
          (if not (last_data == 0xff) && b == 0xff then p else addr) b (omega arith) (omega arith)
          small reads.1 (Inv-byte p addr last_data b reads.0 inv))

-- The whole outer loop, from a position `p` that the scan has reached.
module _ {fl : Flash} {m : ℕ → ℕ} (ready : Ready fl m) (s e : ℕ) (inside : e ≤ fl.part.len)
    (small : e + 32 ≤ 0x1_0000_0000) where
  abbrev bytes : ℕ → ℕ
  bytes x = m (fl.part.offset + x)

  read_size-lem :
      (p : ℕ)
      → p < e
      → let n = if ltb (add32 p 32) e then 32 else sub32 e p in
        (n ≤ 32) × (p + n ≤ e) × ((n ≡ 32) ⊎ (p + n ≡ e))
  read_size-lem p h = ground arith

  -- One round reads the next bytes of the range and scans them.
  round-Inv :
      (p n addr last_data : ℕ) (buf : List ℕ)
      → p + n ≤ e
      → length buf ≡ n
      → Inv bytes s p addr last_data
      → let part = (flash_read fl p buf).1 in
        let r = scan_buf part p 0 addr last_data in (length part ≡ n) × Inv bytes s (p + n) r.0 r.1
  round-Inv p n addr last_data buf below size inv =
      let got : flash_read fl p buf ≡ (no_err, read_cells m (fl.part.offset + p) (length buf)) =
        flash_read_lem ready p buf (omega arith) in
      rw (got, size)
        (
          length-read_cells m (fl.part.offset + p) n,
          scan_buf-Inv bytes s (read_cells m (fl.part.offset + p) n) p 0 p (p + n) addr last_data
              (omega arith)
              (ap (λ (t : ℕ). p + t) (sym (length-read_cells m (fl.part.offset + p) n)))
              (omega arith) (read_cells-Reads m fl.part.offset n p (fl.part.offset + p) refl) inv,
        )

  scan_loop-Inv :
      (k start p : ℕ) (buf : List ℕ) (addr last_data : ℕ)
      → p ≤ e
      → (start ≡ p) ⊎ ((e ≤ start) × (p ≡ e))
      → length buf ≡ 32
      → e - p ≤ 32 * k
      → Inv bytes s p addr last_data
      → (r : ℕ × ℕ) × (scan_loop fl e (suc k) start buf addr last_data ≡ some r)
        × Inv bytes s e r.0 r.1
  unfolding scan_loop
  scan_loop-Inv zero start p buf addr last_data below at full enough inv =
      let over : p ≡ e = omega arith in
      (
        (addr, last_data),
        rw (le→ltb_false start e (omega arith), scan_loop),
        subst (λ t. Inv bytes s t addr last_data) over inv,
      )
  scan_loop-Inv (suc k) start p buf addr last_data below at full enough inv =
      elim (dec_lt start e) [
        | no done ↦
            let over : p ≡ e = omega arith in
            (
              (addr, last_data),
              rw (le→ltb_false start e (omega arith), scan_loop),
              subst (λ t. Inv bytes s t addr last_data) over inv,
            )
        | yes h ↦
            let here : p ≡ start = omega arith in
            let n : ℕ = if ltb (add32 start 32) e then 32 else sub32 e start in
            let size = read_size-lem start h in
            let round =
              round-Inv start n addr last_data (take n buf) size.1
                (omega (arith, length-take n buf, size.0))
                (subst (λ t. Inv bytes s t addr last_data) here inv) in
            let part = (flash_read fl start (take n buf)).1 in
            let next = scan_buf part start 0 addr last_data in
            let rest =
              scan_loop-Inv k (add32 start 32) (start + n) (part ++ drop n buf) next.0 next.1 size.1
                (omega (arith, size))
                (omega (arith, length-append part (drop n buf), length-drop n buf, round.0, size.0))
                (omega (arith, size)) round.1 in
            (rest.0, rw (lt→ltb start e h, scan_loop) rest.1, rest.2)
      ]

start-Inv : (m : ℕ → ℕ) (s : ℕ) → Inv m s s s 0
start-Inv m s = record {
  ahead = omega arith;
  last = inl (refl, refl);
  tail = λ h. absurd (omega arith);
}

-- What the scan knows at the end of the range, as the answer that is returned.
tail_of_Inv :
    {m : ℕ → ℕ} (s e addr last_data : ℕ)
    → e < 0x1_0000_0000
    → Inv m s e addr last_data
    → TailAt m s e (if last_data == 0xff then wg_align addr else e)
tail_of_Inv {m} s e addr last_data small inv = elim (ℕ_discrete last_data 0xff) [
  | yes is ↦
      let t = inv.tail is in rw (eq→== last_data 255 is, wg_align-id addr (omega (arith, t.0))) t.1
  | no ne ↦ rw (ne→==_false last_data 255 ne) (record {
    from_start = inv.ahead;
    to_end = omega arith;
    erased = λ x p q. absurd (omega arith);
    longest = ground (arith, inv.last);
  })
]

-- For a range that lies in the partition, and ends 32 bytes below the end of the address space,
-- the function ends, and returns where the erased tail of the range begins: every byte from there
-- to the end is 0xFF, and the byte in front of it, if it is in the range, is not.
pub fdb_continue_ff_addr-TailAt :
    {fl : Flash} {m : ℕ → ℕ} (ready : Ready fl m) (start end : ℕ)
    → start ≤ end
    → end ≤ fl.part.len
    → end + 32 ≤ 0x1_0000_0000
    → (r : ℕ) × (fdb_continue_ff_addr fl start end ≡ some r)
      × TailAt (λ x. m (fl.part.offset + x)) start end r
unfolding fdb_continue_ff_addr
fdb_continue_ff_addr-TailAt {fl} {m} ready start end below inside small =
    let run =
      scan_loop-Inv ready start end inside small (suc ((end - start) / 32)) start start
        (replicate 32 fl.junk) start 0 below (inl refl) (length-replicate 32 fl.junk) (omega arith)
        (start-Inv (λ x. m (fl.part.offset + x)) start) in
    (
      if run.0.1 == 0xff then wg_align run.0.0 else end,
      rw (run.1, fdb_continue_ff_addr),
      tail_of_Inv start end run.0.0 run.0.1 (omega arith) run.2,
    )
