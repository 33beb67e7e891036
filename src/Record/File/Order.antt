-- ===== src/Record/File/Order.antt =====
-- `next` of RmScan goes from one record to the next, in the order of pages and slots.
use grmdb.Base.{
  ◌-◌, ℕ, zero, suc, ◌+◌, ◌≤◌, ◌<◌, ◌≡◌, refl, ◌⊎◌, inl, inr, Bool, true, false, arith, ◌==◌, subst,
  ℕ_discrete,
}
use grmdb.Base.Int.{ℤ, pos, negsuc, pos_part, incr}
use grmdb.Defs.{Rid}
use grmdb.Record.Bitmap.{is_set}
use grmdb.Record.Bitmap.Scan.{next_bit-IsNext}
use grmdb.Record.File.{RmFile, page_at, rid_at}
use grmdb.Record.File.Scan.{RmScan, next_record, advance, next}

module _ (file : RmFile) (n : ℕ) where
  -- There is a record in a slot of a page.
  abbrev pub taken : ℕ → ℕ → Bool
  taken p i = is_set (page_at file (pos p)).bitmap i

  -- Of the slots from a slot of page p on, up to slot j of page q, none is taken.
  abbrev pub Empty : ℕ → ℕ → ℕ → ℕ → Type 0
  Empty p from q j =
      (x i : ℕ)
      → p ≤ x
      → i < n
      → (x ≡ p → from ≤ i)
      → (x < q) ⊎ ((x ≡ q) × (i < j))
      → taken x i ≡ false

  -- The first record of the pages from p to an end, from a slot on, or the end.
  abbrev pub IsNextRecord : ℕ → ℕ → ℕ → Rid → Type 0
  IsNextRecord p from end rid =
      ((q j : ℕ) × (rid ≡ rid_at (pos q) j)
        × (p ≤ q)
        × (q < end)
        × (j < n)
        × (q ≡ p → from ≤ j)
        × (taken q j ≡ true)
        × Empty p from q j)
      ⊎ ((rid.page_no ≡ pos end) × Empty p from end 0)

  -- What has been passed on a page is empty, and then what follows.
  Empty-step :
      (p from q j : ℕ)
      → ((i : ℕ) → from ≤ i → i < n → taken p i ≡ false)
      → Empty (p + 1) 0 q j
      → Empty p from q j
  Empty-step p from q j on_page rest x i le li same here = elim (ℕ_discrete x p) [
    | yes e ↦ rw e (on_page i (same e) li)
    | no other ↦ rest x i (omega arith) li (λ e. omega arith) here
  ]

  -- The next record, from a page and a slot on, is the first one that is taken in the order of pages
  -- and slots; behind the last one the position is on the page after the end.
  pub advance-IsNextRecord :
      (rounds p : ℕ) (slot_no : ℤ)
      → pos_part (incr slot_no) ≤ n
      → IsNextRecord p (pos_part (incr slot_no)) (p + rounds) (advance file n rounds p slot_no)
  unfolding advance
  advance-IsNextRecord zero p slot_no h = inr (
    ground arith,
    λ x i le lt same here.
        absurd (elim here [ inl under ↦ omega arith | inr (at, under) ↦ omega arith ]),
  )
  advance-IsNextRecord (suc rounds) p slot_no h =
      let from = pos_part (incr slot_no) in
      let on_page = next_bit-IsNext true (page_at file (pos p)).bitmap n slot_no h in
      let rest = advance-IsNextRecord rounds (p + 1) (negsuc 0) (omega arith) in
      let j = next_record file n p slot_no in
      elim on_page.found [
        | inl (from_le, lt, set) ↦
            let test : (j == n) ≡ false = ground arith in
            rw test (
              inl (
                p,
                j,
                refl,
                omega arith,
                omega arith,
                lt,
                (λ e. from_le),
                set,
                λ x i le li same here.
                    let e : x ≡ p = elim here [
                      | inl under ↦ absurd (omega arith)
                      | inr (at, under) ↦ at
                    ] in
                    let under : i < j = elim here [
                      | inl under ↦ absurd (omega arith)
                      | inr (at, under) ↦ under
                    ] in
                    rw e (ground (arith, on_page.passed i (same e) under)),
              ))
        | inr none_on_page ↦
            let test : (j == n) ≡ true = ground arith in
            let passed : (i : ℕ) → from ≤ i → i < n → taken p i ≡ false =
              λ (i : ℕ) (le : from ≤ i) (lt : i < n).
                ground (arith, on_page.passed i le (omega arith)) in
            let end : p + 1 + rounds ≡ p + suc rounds = omega arith in
            rw test (elim rest [
              | inl (q, k, e, le, lt, lk, _, set, empty) ↦ inl (
                q,
                k,
                e,
                omega arith,
                omega arith,
                lk,
                (λ e'. absurd (omega arith)),
                set,
                Empty-step p from q k passed empty,
              )
              | inr (at_end, empty) ↦ inr (
                subst (λ x. (advance file n rounds (p + 1) (negsuc 0)).page_no ≡ pos x) end at_end,
                Empty-step p from (p + suc rounds) 0 passed
                    (subst (λ x. Empty (p + 1) 0 x 0) end empty),
              )
            ])
      ]

-- From a record of a page up to the last page with records, `next` goes to the following record in
-- the order of pages and slots, or behind the last page.
pub next-IsNextRecord :
    (file : RmFile) (scan : RmScan) (p s last : ℕ)
    → scan.rid ≡ rid_at (pos p) s
    → scan.end_page_no ≡ pos last
    → s < scan.num_records
    → p ≤ last
    → IsNextRecord file scan.num_records p (suc s) (suc last) (next scan file).rid
unfolding next
next-IsNextRecord file scan p s last at end_at inside le =
    let rounds = suc last - p in
    let e : p + rounds ≡ suc last = omega arith in
    rw (next, at, end_at)
      (subst
        (λ x.
          IsNextRecord file scan.num_records p (suc s) x
            (advance file scan.num_records rounds p (pos s)))
        e (advance-IsNextRecord file scan.num_records rounds p (pos s) (omega arith)))
