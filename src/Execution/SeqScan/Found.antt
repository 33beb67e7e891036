-- ===== src/Execution/SeqScan/Found.antt =====
-- A scan of a table yields the records for which the conditions hold, one after another.
use grmdb.Base.{
  ℕ, zero, suc, ◌≤◌, ◌<◌, ◌≡◌, ◌≢◌, refl, sym, ap, subst, ◌∙◌, List, [], ◌∷◌, Bool, true, false,
  Option, some, ◌>>=◌, bind_some, some_injective, Bool-cases, if◌then◌else◌, if_pos, if_neg, inl,
  inr, length, map, arith,
}
use grmdb.Defs.{Rid, Rid_discrete}
use grmdb.Record.File.{RmFile}
use grmdb.Record.File.Scan.{RmScan, open_scan, next}
use grmdb.Record.File.Walk.{IsWalk}
use grmdb.Record.File.Listed.{Apart, AllApart, all_taken, all_taken-AllApart, open_scan-IsWalk}
use grmdb.Execution.Executor.{Yields, Starts}
use grmdb.Execution.SeqScan.{
  SeqScan, tuple_at, find_last, find_first, begin_scan, find_next, next_scan, seq_scan,
}

abbrev last_of : List Rid → Rid → Rid
last_of [] rid = rid
last_of (other ∷ rids) rid = last_of rids other

last_of-Apart :
    (rid other : Rid) (rids : List Rid) → Apart rid (other ∷ rids) → rid ≢ last_of rids other
last_of-Apart rid other [] (apart, _) = apart
last_of-Apart rid other (next_one ∷ rids) (_, apart) = last_of-Apart rid next_one rids apart

last_held :
    (held : Bool) (here rid last_rid : Rid) (rest : List Rid)
    → here ≡ rid
    → last_of (if held then rid ∷ rest else rest) last_rid
      ≡ last_of rest (if held then here else last_rid)
last_held true here rid last_rid rest at = ap (last_of rest) (sym at)
last_held false here rid last_rid rest at = refl

module _ (file : RmFile) (test : List ℕ → Option Bool) where
  -- The positions whose records pass the test, where it does not throw.
  abbrev pub passing : List Rid → Option (List Rid)
  passing [] = some []
  passing (rid ∷ rids) =
      test (tuple_at file rid)
      >>= (λ held. passing rids >>= (λ rest. some (if held then rid ∷ rest else rest)))

  -- What passes, taken apart.
  passing_split :
      (rid : Rid) (rids found : List Rid)
      → passing (rid ∷ rids) ≡ some found
      → (held : Bool) × (rest : List Rid) × (test (tuple_at file rid) ≡ some held)
        × (passing rids ≡ some rest)
        × (found ≡ (if held then rid ∷ rest else rest))
  passing_split rid rids found h =
      let (held, e, h') =
        bind_some (test (tuple_at file rid))
          (λ held. passing rids >>= (λ rest. some (if held then rid ∷ rest else rest))) found h in
      let (rest, e', h'') =
        bind_some (passing rids) (λ rest. some (if held then rid ∷ rest else rest)) found h' in
      (held, rest, e, e', sym (some_injective (if held then rid ∷ rest else rest) found h''))

  passing-Apart :
      (other : Rid) (rids found : List Rid)
      → passing rids ≡ some found
      → Apart other rids
      → Apart other found
  passing-Apart other [] found h apart = subst (Apart other) (some_injective [] found h) tt
  passing-Apart other (rid ∷ rids) found h (apart, aparts) =
      let (held, rest, e, e', found_is) = passing_split rid rids found h in
      let below = passing-Apart other rids rest e' aparts in
      subst (Apart other) (sym found_is)
        (elim held as (λ b. Apart other (if b then rid ∷ rest else rest)) [
          | true ↦ (apart, below)
          | false ↦ below
        ])

  passing-AllApart :
      (rids found : List Rid) → passing rids ≡ some found → AllApart rids → AllApart found
  passing-AllApart [] found h apart = subst AllApart (some_injective [] found h) tt
  passing-AllApart (rid ∷ rids) found h (apart, aparts) =
      let (held, rest, e, e', found_is) = passing_split rid rids found h in
      let below = passing-AllApart rids rest e' aparts in
      subst AllApart (sym found_is) (elim held as (λ b. AllApart (if b then rid ∷ rest else rest)) [
        | true ↦ (passing-Apart rid rids rest e' apart, below)
        | false ↦ below
      ])

  find_last-passing :
      (fuel : ℕ) (scan : RmScan) (last_rid : Rid) (rids found : List Rid)
      → IsWalk file scan rids
      → passing rids ≡ some found
      → length rids < fuel
      → find_last file test fuel scan last_rid ≡ some (last_of found last_rid)
  unfolding find_last
  find_last-passing zero scan last_rid rids found walk h enough = absurd (omega (arith, enough))
  find_last-passing (suc fuel) scan last_rid [] found walk h enough =
      simp (find_last, walk) (ap (λ x. some (last_of x last_rid)) (some_injective [] found h))
  find_last-passing (suc fuel) scan last_rid (rid ∷ rids) found (more, at, walk) h enough =
      let (held, rest, e, e', found_is) = passing_split rid rids found h in
      let here : test (tuple_at file scan.rid) ≡ some held =
        subst (λ x. test (tuple_at file x) ≡ some held) (sym at) e in
      let rest_last =
        find_last-passing fuel (next scan file) (if held then scan.rid else last_rid) rids rest walk
          e' (omega (arith, enough)) in
      simp (find_last, more, here)
        (rest_last
          ∙ ap some (
              sym (
                ap (λ x. last_of x last_rid) found_is
                ∙ last_held held scan.rid rid last_rid rest at)))

  -- The scan at a record that passes, with those behind it, or at its end.
  abbrev At : ℕ → SeqScan → List Rid → Type 0
  At bound s [] = s.ended ≡ true
  At bound s (rid ∷ found) =
      (s.ended ≡ false)
      × (s.rid ≡ rid)
      × (rids : List Rid) × IsWalk file s.scan rids
      × (passing rids ≡ some found)
      × (length rids ≤ bound)

  find_first-At :
      (fuel bound : ℕ) (s : SeqScan) (rids found : List Rid)
      → IsWalk file s.scan rids
      → passing rids ≡ some found
      → s.rid ≡ s.scan.rid
      → s.ended ≡ false
      → length rids < fuel
      → length rids ≤ bound
      → (s' : SeqScan) × (find_first file test fuel s ≡ some s')
        × (s'.last_rid ≡ s.last_rid)
        × At bound s' found
  unfolding find_first
  find_first-At zero bound s rids found walk h synced open_ enough le =
      absurd (omega (arith, enough))
  find_first-At (suc fuel) bound s [] found walk h synced open_ enough le = (
    record s { ended = true },
    simp (find_first, walk) refl,
    refl,
    subst (At bound (record s { ended = true })) (some_injective [] found h) refl,
  )
  find_first-At (suc fuel) bound s (rid ∷ rids) found (more, at, walk) h synced open_ enough le =
      let (held, rest, e, e', found_is) = passing_split rid rids found h in
      let here : test (tuple_at file s.rid) ≡ some held =
        subst (λ x. test (tuple_at file x) ≡ some held) (sym (synced ∙ at)) e in
      let moved = record s { scan = next s.scan file } in
      elim (Bool-cases held) [
        | inl passes ↦ (
          moved,
          simp (find_first, more, here, passes) refl,
          refl,
          subst (At bound moved) (sym (found_is ∙ ap (λ b. if b then rid ∷ rest else rest) passes))
              (open_, synced ∙ at, rids, walk, e', omega (arith, le)),
        )
        | inr fails ↦
            let (s', e'', last, at') =
              find_first-At fuel bound (record moved { rid = moved.scan.rid }) rids rest walk e'
                refl open_ (omega (arith, enough)) (omega (arith, le)) in
            (
              s',
              simp (find_first, more, here, fails) e'',
              last,
              subst (At bound s') (sym (found_is ∙ ap (λ b. if b then rid ∷ rest else rest) fails))
                  at',
            )
      ]

  find_next-At :
      (fuel bound : ℕ) (s : SeqScan) (rids : List Rid) (target : Rid) (found : List Rid)
      → IsWalk file s.scan rids
      → passing rids ≡ some (target ∷ found)
      → s.ended ≡ false
      → length rids < fuel
      → length rids ≤ bound
      → (s' : SeqScan) × (find_next file test fuel s ≡ some s')
        × (s'.last_rid ≡ s.last_rid)
        × At bound s' (target ∷ found)
  unfolding find_next
  find_next-At zero bound s rids target found walk h open_ enough le =
      absurd (omega (arith, enough))
  find_next-At (suc fuel) bound s [] target found walk h open_ enough le = absurd (cc)
  find_next-At (suc fuel) bound s (rid ∷ rids) target found (more, at, walk) h open_ enough le =
      let (held, rest, e, e', found_is) = passing_split rid rids (target ∷ found) h in
      let here : test (tuple_at file s.scan.rid) ≡ some held =
        subst (λ x. test (tuple_at file x) ≡ some held) (sym at) e in
      let moved = record s { rid = s.scan.rid; scan = next s.scan file } in
      elim (Bool-cases held) [
        | inl passes ↦ (
          moved,
          simp (find_next, more, here, passes) refl,
          refl,
          subst (At bound moved) (sym (found_is ∙ ap (λ b. if b then rid ∷ rest else rest) passes))
              (open_, at, rids, walk, e', omega (arith, le)),
        )
        | inr fails ↦
            let rest_is : target ∷ found ≡ rest =
              found_is ∙ ap (λ b. if b then rid ∷ rest else rest) fails in
            let (s', e'', last, at') =
              find_next-At fuel bound moved rids target found walk (e' ∙ ap some (sym rest_is))
                open_ (omega (arith, enough)) (omega (arith, le)) in
            (s', simp (find_next, more, here, fails) e'', last, at')
      ]

  abbrev LastIs : SeqScan → List Rid → Type 0
  LastIs s [] = Unit {0}
  LastIs s (rid ∷ found) = s.last_rid ≡ last_of found rid

  At-Yields :
      (fuel bound : ℕ) (found : List Rid) (s : SeqScan)
      → bound < fuel
      → AllApart found
      → LastIs s found
      → At bound s found
      → Yields (seq_scan file test fuel) s (map (tuple_at file) found)
  unfolding next_scan
  At-Yields fuel bound [] s enough apart last at = at
  At-Yields fuel bound (rid ∷ []) s enough apart last (open_, here, rids, walk, h, le) = (
    open_,
    s,
    ap (λ x. some (tuple_at file x, s)) here,
    record s { ended = true },
    if_pos (Rid_discrete s.last_rid s.rid) (last ∙ sym here) _ _,
    refl,
  )
  At-Yields fuel bound (rid ∷ target ∷ found) s enough (apart, aparts) last
        (open_, here, rids, walk, h, le) =
      let (s', e, last', at') =
        find_next-At fuel bound s rids target found walk h open_ (omega (arith, enough, le)) le in
      let other : s.last_rid ≢ s.rid =
        λ same. last_of-Apart rid target found apart (sym here ∙ sym same ∙ last) in
      (
        open_,
        s,
        ap (λ x. some (tuple_at file x, s)) here,
        s',
        if_neg (Rid_discrete s.last_rid s.rid) other _ _ ∙ e,
        At-Yields fuel bound (target ∷ found) s' enough aparts (last' ∙ last) at',
      )

  LastIs-found :
      (s s' : SeqScan) (found : List Rid) (last_rid : Rid)
      → s'.last_rid ≡ last_of found last_rid
      → LastIs s' found
  LastIs-found s s' [] last_rid e = tt
  LastIs-found s s' (rid ∷ found) last_rid e = e

  -- Whenever it is begun, a scan yields the records of the file that pass the test, in the order of
  -- pages and slots, where no test throws and there is a round of fuel more than there are records.
  pub seq_scan-Starts :
      (fuel : ℕ) (s : SeqScan) (found : List Rid)
      → passing (all_taken file) ≡ some found
      → length (all_taken file) < fuel
      → Starts (seq_scan file test fuel) s (map (tuple_at file) found)
  unfolding begin_scan
  seq_scan-Starts fuel s found h enough =
      let rids = all_taken file in
      let walk = open_scan-IsWalk file in
      let opened = open_scan file in
      let last_rid = last_of found s.last_rid in
      let ready : SeqScan = record {
        rid = opened.rid;
        scan = opened;
        ended = false;
        last_rid = last_rid;
      } in
      let (s', e, last, at) =
        find_first-At fuel (length rids) ready rids found walk h refl refl enough (omega arith) in
      (
        s',
        rw (find_last-passing fuel opened s.last_rid rids found walk h enough) e,
        At-Yields fuel (length rids) found s' enough
            (passing-AllApart rids found h (all_taken-AllApart file))
            (LastIs-found s s' found s.last_rid last) at,
      )
