-- ===== src/Record/File/Positions.antt =====
-- The slots of a file that are taken, in the order of pages and slots, and the first one of them
-- that `next` and the constructor of a scan find.
use grmdb.Base.{
  ℕ, zero, suc, ◌+◌, ◌-◌, ◌≤◌, ◌<◌, ◌≡◌, refl, sym, ap, subst, ◌∙◌, ◌⊎◌, inl, inr, List, [], ◌∷◌,
  ◌++◌, true, false, ◌==◌, if◌then◌else◌, arith, ℕ_discrete,
}
use grmdb.Base.Int.{ℤ, pos, negsuc, pos_part, incr}
use grmdb.Defs.{Rid}
use grmdb.Record.Bitmap.Scan.{next_bit-IsNext}
use grmdb.Record.File.{RmFile, page_at, rid_at}
use grmdb.Record.File.Scan.{next_record, first_rid, advance}
use grmdb.Record.File.Order.{taken}

module _ (file : RmFile) (n : ℕ) where
  -- The slots of page p that are taken, a number of them from one on.
  abbrev pub on_page : ℕ → ℕ → ℕ → List Rid
  on_page p zero s = []
  on_page p (suc rounds) s =
      let rest = on_page p rounds (suc s) in
      if taken file n p s then rid_at (pos p) s ∷ rest else rest

  -- Those of a number of pages from page p on.
  abbrev pub on_pages : ℕ → ℕ → List Rid
  on_pages zero p = []
  on_pages (suc rounds) p = on_page p n 0 ++ on_pages rounds (p + 1)

  pub on_page_none :
      (p rounds s : ℕ)
      → ((i : ℕ) → s ≤ i → i < s + rounds → taken file n p i ≡ false)
      → on_page p rounds s ≡ []
  on_page_none p zero s none_taken = refl
  on_page_none p (suc rounds) s none_taken =
      rw (none_taken s (omega arith) (omega arith))
        (on_page_none p rounds (suc s) (λ i le lt. none_taken i (omega arith) (omega arith)))

  pub on_page_next :
      (p rounds s j left : ℕ)
      → s ≤ j
      → suc j + left ≡ s + rounds
      → ((i : ℕ) → s ≤ i → i < j → taken file n p i ≡ false)
      → taken file n p j ≡ true
      → on_page p rounds s ≡ rid_at (pos p) j ∷ on_page p left (suc j)
  on_page_next p zero s j left le e passed here = absurd (omega (arith, le, e))
  on_page_next p (suc rounds) s j left le e passed here = elim (ℕ_discrete s j) [
    | yes same ↦
        let left_is : rounds ≡ left = omega (arith, e, same) in
        (rw (ap (taken file n p) same ∙ here) (
          subst
            (λ x.
              rid_at (pos p) s ∷ on_page p rounds (suc s)
              ≡ rid_at (pos p) x ∷ on_page p left (suc x))
            same (ap (λ x. rid_at (pos p) s ∷ on_page p x (suc s)) left_is)))
    | no other ↦ rw (passed s (omega arith) (omega arith)) (
        on_page_next p rounds (suc s) j left (omega (arith, le, other)) (omega (arith, e))
          (λ i le' lt. passed i (omega arith) lt) here)
  ]

  -- What the slots from one of page p on, and the pages behind it, hold.
  abbrev pub from_slot : ℕ → ℕ → ℕ → List Rid
  from_slot zero p s = []
  from_slot (suc rounds) p s = on_page p (n - s) s ++ on_pages rounds (p + 1)

  pub from_pages : (rounds p : ℕ) → from_slot rounds p 0 ≡ on_pages rounds p
  from_pages zero p = refl
  from_pages (suc rounds) p =
      let all : n - 0 ≡ n = omega arith in ap (λ x. on_page p x 0 ++ on_pages rounds (p + 1)) all

  -- A position is the first one of a list: the position behind the last page where the list is
  -- empty.
  abbrev pub IsFirst : ℕ → ℕ → List Rid → Rid → Type 0
  IsFirst p end rids rid =
      ((rids ≡ []) × (rid.page_no ≡ pos end))
      ⊎ ((q j left : ℕ) × (rid ≡ rid_at (pos q) j)
          × (p ≤ q)
          × (j < n)
          × (q + suc left ≡ end)
          × (rids ≡ rid ∷ from_slot (suc left) q (suc j)))

  -- A page without a record behind a slot, and one with a record.
  page-IsFirst :
      (p : ℕ) (slot_no : ℤ) (rounds : ℕ) (rest : Rid)
      → pos_part (incr slot_no) ≤ n
      → IsFirst (p + 1) (p + suc rounds) (from_slot rounds (p + 1) 0) rest
      → IsFirst p (p + suc rounds) (from_slot (suc rounds) p (pos_part (incr slot_no))) (
          if next_record file n p slot_no == n
          then rest
          else rid_at (pos p) (next_record file n p slot_no))
  page-IsFirst p slot_no rounds rest le first =
      let from = pos_part (incr slot_no) in
      let j = next_record file n p slot_no in
      let on = next_bit-IsNext true (page_at file (pos p)).bitmap n slot_no le in
      elim on.found [
        | inl (from_le, lt, set) ↦
            let test : (j == n) ≡ false = ground arith in
            rw test (
              inr (
                p,
                j,
                rounds,
                refl,
                omega arith,
                lt,
                omega arith,
                ap (λ x. x ++ on_pages rounds (p + 1))
                    (on_page_next p (n - from) from j (n - suc j) from_le (omega (arith, lt, le))
                      (λ i le' lt'. ground (arith, on.passed i le' lt')) set),
              ))
        | inr none_here ↦
            let test : (j == n) ≡ true = ground arith in
            let empty : on_page p (n - from) from ≡ [] =
              on_page_none p (n - from) from
                (λ i le' lt'. ground (arith, on.passed i le' (omega arith))) in
            let behind : from_slot (suc rounds) p from ≡ from_slot rounds (p + 1) 0 =
              ap (λ x. x ++ on_pages rounds (p + 1)) empty ∙ sym (from_pages rounds (p + 1)) in
            rw test (elim first [
              | inl (none_left, at) ↦ inl (behind ∙ none_left, at)
              | inr (q, k, left, at, le', lt, e, rids) ↦
                  inr (q, k, left, at, omega (arith, le'), lt, e, behind ∙ rids)
            ])
      ]

  pub advance-IsFirst :
      (rounds p : ℕ) (slot_no : ℤ)
      → pos_part (incr slot_no) ≤ n
      → IsFirst p
          (p + rounds)
          (from_slot rounds p (pos_part (incr slot_no)))
          (advance file n rounds p slot_no)
  unfolding advance
  advance-IsFirst zero p slot_no le = inl (refl, ap pos (omega arith))
  advance-IsFirst (suc rounds) p slot_no le =
      page-IsFirst p slot_no rounds (advance file n rounds (p + 1) (negsuc 0)) le (
        subst
          (λ x.
            IsFirst (p + 1) x (from_slot rounds (p + 1) 0)
              (advance file n rounds (p + 1) (negsuc 0)))
          (omega arith) (advance-IsFirst rounds (p + 1) (negsuc 0) (omega arith)))

  pub first_rid-IsFirst :
      (rounds p : ℕ) → IsFirst p (p + rounds) (from_slot rounds p 0) (first_rid file n rounds p)
  unfolding first_rid
  first_rid-IsFirst zero p = inl (refl, ap pos (omega arith))
  first_rid-IsFirst (suc rounds) p =
      page-IsFirst p (negsuc 0) rounds (first_rid file n rounds (p + 1)) (omega arith) (
        subst
          (λ x. IsFirst (p + 1) x (from_slot rounds (p + 1) 0) (first_rid file n rounds (p + 1)))
          (omega arith) (first_rid-IsFirst rounds (p + 1)))
