-- ===== src/Record/File/Walk.antt =====
-- A scan of a file goes through the slots that are taken, in the order of pages and slots.
use grmdb.Base.{
  ℕ, zero, suc, ◌+◌, ◌-◌, ◌<◌, ◌≡◌, ◌≢◌, refl, sym, ap, subst, ◌∙◌, ◌⊎◌, inl, inr, List, [], ◌∷◌,
  ◌++◌, true, false, ◌==◌, arith, append-nil, append_assoc,
}
use grmdb.Base.Int.{pos, negsuc, ℤ_discrete}
use grmdb.Defs.{Rid}
use grmdb.Record.Bitmap.Scan.{next_bit-IsNext}
use grmdb.Record.File.{RmFile, page_at, rid_at}
use grmdb.Record.File.Scan.{RmScan, next_record, first_rid, last_page, advance, next, is_end}
use grmdb.Record.File.Positions.{
  on_page, on_pages, from_slot, on_page_none, on_page_next, advance-IsFirst,
}

-- The positions that a scan goes through, from one on.
abbrev pub IsWalk : RmFile → RmScan → List Rid → Type 0
IsWalk file scan [] = is_end scan ≡ true
IsWalk file scan (rid ∷ rids) =
    (is_end scan ≡ false) × (scan.rid ≡ rid) × IsWalk file (next scan file) rids

module _ (file : RmFile) (n : ℕ) where
  pub on_pages_last :
      (pages p : ℕ)
      → on_pages file n (suc pages) p ≡ on_pages file n pages p ++ on_page file n (p + pages) n 0
  on_pages_last zero p =
      let e : p ≡ p + 0 = omega arith in
      append-nil (on_page file n p n 0) ∙ ap (λ x. on_page file n x n 0) e
  on_pages_last (suc pages) p =
      let e : p + 1 + pages ≡ p + suc pages = omega arith in
      ap (λ x. on_page file n p n 0 ++ x)
        (on_pages_last pages (p + 1)
          ∙ ap (λ x. on_pages file n pages (p + 1) ++ on_page file n x n 0) e)
      ∙ sym (
          append_assoc (on_page file n p n 0) (on_pages file n pages (p + 1))
            (on_page file n (p + suc pages) n 0))

  -- A page for which the search finds nothing, and one for which it does.
  page-cases :
      (p : ℕ)
      → (((next_record file n p (negsuc 0) == n) ≡ true) × (on_page file n p n 0 ≡ []))
        ⊎ (((next_record file n p (negsuc 0) == n) ≡ false) × (on_page file n p n 0 ≢ []))
  page-cases p =
      let j = next_record file n p (negsuc 0) in
      let on = next_bit-IsNext true (page_at file (pos p)).bitmap n (negsuc 0) (omega arith) in
      elim on.found [
        | inl (_, lt, set) ↦ inr (
          ground arith,
          λ empty.
              let some_here =
                on_page_next file n p n 0 j (n - suc j) (omega arith) (omega (arith, lt))
                  (λ i le' lt'. ground (arith, on.passed i le' lt')) set in
              cc,
        )
        | inr none_here ↦ inl (
          ground arith,
          on_page_none file n p n 0 (λ i le' lt'. ground (arith, on.passed i le' (omega arith))),
        )
      ]

  -- The last page with a record: the pages behind it have none.
  pub last_page-cases :
      (pages : ℕ)
      → ((last_page file n pages ≡ negsuc 0) × (on_pages file n pages 1 ≡ []))
        ⊎ ((p : ℕ) × (last_page file n pages ≡ pos (suc p))
            × (p < pages)
            × (on_pages file n pages 1 ≡ on_pages file n (suc p) 1)
            × (on_page file n (suc p) n 0 ≢ []))
  unfolding last_page
  last_page-cases zero = inl (refl, refl)
  last_page-cases (suc pages) = elim (page-cases (suc pages)) [
    | inr (found, some_here) ↦ inr (pages, rw (last_page, found) refl, omega arith, refl, some_here)
    | inl (passed, none_here) ↦
        let e : 1 + pages ≡ suc pages = omega arith in
        let shorter : on_pages file n (suc pages) 1 ≡ on_pages file n pages 1 =
          on_pages_last pages 1
          ∙ ap (λ x. on_pages file n pages 1 ++ x) (ap (λ x. on_page file n x n 0) e ∙ none_here)
          ∙ append-nil (on_pages file n pages 1) in
        elim (last_page-cases pages) [
          | inl (none_left, empty) ↦ inl (rw (last_page, passed) none_left, shorter ∙ empty)
          | inr (p, at, lt, same, some_here) ↦
              inr (p, rw (last_page, passed) at, omega (arith, lt), shorter ∙ same, some_here)
        ]
  ]

  -- Pages behind a page with a record do not matter for the first one.
  pub first_rid_extra :
      (rounds extra p : ℕ)
      → on_pages file n rounds p ≢ []
      → first_rid file n (rounds + extra) p ≡ first_rid file n rounds p
  unfolding first_rid
  first_rid_extra zero extra p some_here = absurd (some_here refl)
  first_rid_extra (suc rounds) extra p some_here =
      let e : suc rounds + extra ≡ suc (rounds + extra) = omega arith in
      rw e (elim (page-cases p) [
        | inr (found, _) ↦ rw (first_rid, found) refl
        | inl (passed, none_here) ↦
            rw (first_rid, passed)
              (first_rid_extra rounds extra (p + 1) (λ empty.
                some_here (ap (λ x. x ++ on_pages file n rounds (p + 1)) none_here ∙ empty)))
      ])

  behind_end :
      (scan : RmScan) (q left : ℕ)
      → scan.end_page_no ≡ pos (q + left)
      → scan.rid.page_no ≡ pos (q + suc left)
      → is_end scan ≡ true
  unfolding is_end ℤ_discrete
  behind_end scan q left end_at at = ground (arith, end_at, at)

  not_behind :
      (scan : RmScan) (q left j : ℕ)
      → scan.end_page_no ≡ pos (q + left)
      → scan.rid ≡ rid_at (pos q) j
      → is_end scan ≡ false
  unfolding is_end ℤ_discrete
  not_behind scan q left j end_at at = ground (arith, end_at, ap (λ x. x.page_no) at)

  next_at :
      (scan : RmScan) (q left j : ℕ)
      → scan.rid ≡ rid_at (pos q) j
      → scan.num_records ≡ n
      → scan.end_page_no ≡ pos (q + left)
      → (next scan file).rid ≡ advance file n (suc left) q (pos j)
  unfolding next
  next_at scan q left j at num end_at =
      let rounds : suc (q + left) - q ≡ suc left = omega arith in
      rw (next, at, end_at, num) (ap (λ x. advance file n x q (pos j)) rounds)

  -- From a record on, `next` goes through those behind it.
  pub IsWalk-from :
      (rids : List Rid) (scan : RmScan) (q j left : ℕ)
      → scan.rid ≡ rid_at (pos q) j
      → j < n
      → scan.num_records ≡ n
      → scan.end_page_no ≡ pos (q + left)
      → from_slot file n (suc left) q (suc j) ≡ rids
      → IsWalk file scan (rid_at (pos q) j ∷ rids)
  unfolding next
  IsWalk-from [] scan q j left at lt num end_at rids_are =
      let first = advance-IsFirst file n (suc left) q (pos j) (omega (arith, lt)) in
      (
        not_behind scan q left j end_at at,
        at,
        elim first [
          | inl (_, at_end) ↦
              behind_end (next scan file) q left end_at
                (ap (λ x. x.page_no) (next_at scan q left j at num end_at) ∙ at_end)
          | inr (q', k, left', _, _, _, _, e) ↦ absurd (cc)
        ],
      )
  IsWalk-from (rid ∷ rids) scan q j left at lt num end_at rids_are =
      let first = advance-IsFirst file n (suc left) q (pos j) (omega (arith, lt)) in
      (
        not_behind scan q left j end_at at,
        at,
        elim first [
          | inl (empty, _) ↦ absurd (cc)
          | inr (q', k, left', found, le, lt', e, rids_are') ↦
              let rid_is : rid_at (pos q') k ≡ rid = cc in
              let tail_is : from_slot file n (suc left') q' (suc k) ≡ rids = cc in
              let ends : q + left ≡ q' + left' = omega (arith, e) in
              subst (λ x. IsWalk file (next scan file) (x ∷ rids)) rid_is
                (IsWalk-from rids (next scan file) q' k left'
                  (next_at scan q left j at num end_at ∙ found) lt' num (end_at ∙ ap pos ends)
                  tail_is)
        ],
      )
