-- ===== src/Record/File/Listed.antt =====
-- The slots that are taken are listed once each, and a scan that the constructor of RmScan opens
-- goes through all of them.
use grmdb.Base.{
  ℕ, zero, suc, ◌+◌, ◌-◌, ◌≤◌, ◌<◌, ◌≡◌, ◌≢◌, refl, sym, ap, subst, ◌∙◌, inl, inr, List, [], ◌∷◌,
  ◌++◌, true, Bool-cases, arith,
}
use grmdb.Base.Int.{pos, pos_part, ℤ_discrete}
use grmdb.Defs.{Rid}
use grmdb.Record.File.{RmFile, rid_at}
use grmdb.Record.File.Scan.{RmScan, first_rid, last_page, open_scan, is_end}
use grmdb.Record.File.Order.{taken}
use grmdb.Record.File.Positions.{on_page, on_pages, from_slot, first_rid-IsFirst, from_pages}
use grmdb.Record.File.Walk.{IsWalk, last_page-cases, first_rid_extra, IsWalk-from, on_pages_last}

abbrev pub Apart : Rid → List Rid → Type 0
Apart rid [] = Unit {0}
Apart rid (other ∷ rids) = (rid ≢ other) × Apart rid rids

abbrev pub AllApart : List Rid → Type 0
AllApart [] = Unit {0}
AllApart (rid ∷ rids) = Apart rid rids × AllApart rids

Apart-append : (rid : Rid) (xs ys : List Rid) → Apart rid xs → Apart rid ys → Apart rid (xs ++ ys)
Apart-append rid [] ys apart apart' = apart'
Apart-append rid (x ∷ xs) ys (other, apart) apart' = (other, Apart-append rid xs ys apart apart')

none_behind : (xs ys : List Rid) → xs ++ ys ≡ [] → ys ≡ []
none_behind [] ys e = e
none_behind (x ∷ xs) ys e = absurd (cc)

other_page : (p q j k : ℕ) → p < q → rid_at (pos p) j ≢ rid_at (pos q) k
other_page p q j k lt e =
    let same : p ≡ q = ap (λ rid. pos_part rid.page_no) e in absurd (omega (arith, lt, same))

other_slot : (p j k : ℕ) → j < k → rid_at (pos p) j ≢ rid_at (pos p) k
other_slot p j k lt e =
    let same : j ≡ k = ap (λ rid. pos_part rid.slot_no) e in absurd (omega (arith, lt, same))

module _ (file : RmFile) (n : ℕ) where
  on_page-Apart :
      (rid : Rid) (p rounds s : ℕ)
      → ((j : ℕ) → s ≤ j → rid ≢ rid_at (pos p) j)
      → Apart rid (on_page file n p rounds s)
  on_page-Apart rid p zero s other = tt
  on_page-Apart rid p (suc rounds) s other =
      let rest = on_page-Apart rid p rounds (suc s) (λ j le. other j (omega (arith, le))) in
      elim (Bool-cases (taken file n p s)) [
        | inl here ↦ rw here (other s (omega arith), rest)
        | inr free ↦ rw free rest
      ]

  on_pages-Apart :
      (rid : Rid) (rounds p : ℕ)
      → ((q j : ℕ) → p ≤ q → rid ≢ rid_at (pos q) j)
      → Apart rid (on_pages file n rounds p)
  on_pages-Apart rid zero p other = tt
  on_pages-Apart rid (suc rounds) p other =
      Apart-append rid (on_page file n p n 0) (on_pages file n rounds (p + 1))
        (on_page-Apart rid p n 0 (λ j le. other p j (omega arith)))
        (on_pages-Apart rid rounds (p + 1) (λ q j le. other q j (omega (arith, le))))

  on_page-AllApart :
      (p rounds s : ℕ) (rest : List Rid)
      → AllApart rest
      → ((j : ℕ) → Apart (rid_at (pos p) j) rest)
      → AllApart (on_page file n p rounds s ++ rest)
  on_page-AllApart p zero s rest aparts other = aparts
  on_page-AllApart p (suc rounds) s rest aparts other =
      let behind = on_page-AllApart p rounds (suc s) rest aparts other in
      elim (Bool-cases (taken file n p s)) [
        | inl here ↦ rw here (
          Apart-append (rid_at (pos p) s) (on_page file n p rounds (suc s)) rest
              (on_page-Apart (rid_at (pos p) s) p rounds (suc s)
                (λ j le. other_slot p s j (omega (arith, le))))
              (other s),
          behind,
        )
        | inr free ↦ rw free behind
      ]

  pub on_pages-AllApart : (rounds p : ℕ) → AllApart (on_pages file n rounds p)
  on_pages-AllApart zero p = tt
  on_pages-AllApart (suc rounds) p =
      on_page-AllApart p n 0 (on_pages file n rounds (p + 1)) (on_pages-AllApart rounds (p + 1))
        (λ j.
          on_pages-Apart (rid_at (pos p) j) rounds (p + 1)
            (λ q k le. other_page p q j k (omega (arith, le))))

-- All slots of a file that are taken.
abbrev pub all_taken : RmFile → List Rid
all_taken file =
    on_pages file file.file_hdr.num_records_per_page (pos_part file.file_hdr.num_pages - 1) 1

pub all_taken-AllApart : (file : RmFile) → AllApart (all_taken file)
all_taken-AllApart file =
    on_pages-AllApart file file.file_hdr.num_records_per_page (pos_part file.file_hdr.num_pages - 1)
      1

module _ (file : RmFile) (n pages : ℕ) where
  opened-IsWalk :
      (scan : RmScan)
      → scan.num_records ≡ n
      → scan.rid ≡ first_rid file n pages 1
      → scan.end_page_no ≡ last_page file n pages
      → IsWalk file scan (on_pages file n pages 1)
  unfolding is_end ℤ_discrete
  opened-IsWalk scan num at end_at = elim (last_page-cases file n pages) [
    | inl (none_left, empty) ↦
        let ended : is_end scan ≡ true = ground (arith, end_at ∙ none_left) in
        subst (IsWalk file scan) (sym empty) ended
    | inr (p, last, lt, same, some_here) ↦
        let here : on_pages file n (suc p) 1 ≢ [] = λ empty. some_here (
          ap (λ x. on_page file n x n 0) (omega arith)
          ∙ none_behind (on_pages file n p 1) (on_page file n (1 + p) n 0)
              (sym (on_pages_last file n p 1) ∙ empty)) in
        let extra : suc p + (pages - suc p) ≡ pages = omega (arith, lt) in
        let first : first_rid file n pages 1 ≡ first_rid file n (suc p) 1 =
          ap (λ x. first_rid file n x 1) (sym extra)
          ∙ first_rid_extra file n (suc p) (pages - suc p) 1 here in
        elim (first_rid-IsFirst file n (suc p) 1) [
          | inl (empty, _) ↦ absurd (here (sym (from_pages file n (suc p) 1) ∙ empty))
          | inr (q, j, left, found, le, lt', e, rids) ↦
              let ends : suc p ≡ q + left = omega (arith, e) in
              subst (IsWalk file scan)
                (sym (
                  same
                  ∙ sym (from_pages file n (suc p) 1)
                  ∙ rids
                  ∙ ap (λ x. x ∷ from_slot file n (suc left) q (suc j)) found))
                (IsWalk-from file n (from_slot file n (suc left) q (suc j)) scan q j left
                  (at ∙ first ∙ found) lt' num (end_at ∙ last ∙ ap pos ends) refl)
        ]
  ]

-- A scan of a file goes through all its records, each of them once.
pub open_scan-IsWalk : (file : RmFile) → IsWalk file (open_scan file) (all_taken file)
unfolding open_scan
open_scan-IsWalk file =
    opened-IsWalk file file.file_hdr.num_records_per_page (pos_part file.file_hdr.num_pages - 1)
      (open_scan file) refl refl refl
