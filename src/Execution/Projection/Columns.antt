-- ===== src/Execution/Projection/Columns.antt =====
-- The columns that the constructor of a projection makes are those that are asked for, and lie one
-- behind another.
use grmdb.Base.{
  ℕ, ◌+◌, ◌≡◌, refl, subst, List, [], ◌∷◌, some, some_injective, bind_some, ◌>>=◌, length, map,
}
use grmdb.System.Meta.{ColMeta, find_col}
use grmdb.Execution.Value.{TabCol}
use grmdb.Execution.Executor.{Executor, Starts}
use grmdb.Execution.Projection.{select_cols, rename_cols, new_projection, projection}
use grmdb.Execution.Projection.Fields.{
  field, fields, AreLaidOut, AllLaidOut, projection-Starts-fields,
}
use grmdb.Execution.Projection.Selected.{
  put_col, is_selected, AreSelected, AreNamed, new_projection-AreNamed,
}

-- The columns of the input lie within a record of it.
abbrev pub AreInside : List (ColMeta × ColMeta) → List ℕ → Type 0
AreInside [] tuple = Unit {0}
AreInside ((_, from) ∷ picked) tuple =
    (length (field from tuple) ≡ from.len) × AreInside picked tuple

abbrev pub AllInside : List (ColMeta × ColMeta) → List (List ℕ) → Type 0
AllInside picked [] = Unit {0}
AllInside picked (tuple ∷ tuples) = AreInside picked tuple × AllInside picked tuples

select_cols-AreLaidOut :
    (prev_cols : List ColMeta) (sel_cols : List TabCol) (offset : ℕ)
    (selected : List (ColMeta × ColMeta) × ℕ) (tuple : List ℕ)
    → select_cols prev_cols offset sel_cols ≡ some selected
    → AreInside selected.0 tuple
    → AreLaidOut selected.0 tuple offset selected.1
unfolding select_cols
select_cols-AreLaidOut prev_cols [] offset selected tuple h =
    subst (λ x. AreInside x.0 tuple → AreLaidOut x.0 tuple offset x.1)
      (some_injective ([], offset) selected h) (λ inside. refl)
select_cols-AreLaidOut prev_cols (sel_col ∷ sel_cols) offset selected tuple h =
    let behind = λ (col : ColMeta). select_cols prev_cols (offset + col.len) sel_cols in
    let (col, _, h') =
      bind_some (find_col (is_selected sel_col) prev_cols)
        (λ col. behind col >>= (λ rest. some (put_col col offset rest))) selected h in
    let (rest, e, h'') =
      bind_some (behind col) (λ rest. some (put_col col offset rest)) selected h' in
    subst (λ x. AreInside x.0 tuple → AreLaidOut x.0 tuple offset x.1)
      (some_injective (put_col col offset rest) selected h'')
      (λ (inside, insides). (
        refl,
        refl,
        inside,
        select_cols-AreLaidOut prev_cols sel_cols (offset + col.len) rest tuple e insides,
      ))

rename_cols-AreLaidOut :
    (picked renamed : List (ColMeta × ColMeta)) (cols : List TabCol) (tuple : List ℕ)
    (offset end : ℕ)
    → rename_cols picked cols ≡ some renamed
    → (AreInside renamed tuple → AreInside picked tuple)
      × (AreLaidOut picked tuple offset end → AreLaidOut renamed tuple offset end)
unfolding rename_cols
rename_cols-AreLaidOut picked renamed [] tuple offset end h =
    subst
      (λ x.
        (AreInside x tuple → AreInside picked tuple)
        × (AreLaidOut picked tuple offset end → AreLaidOut x tuple offset end))
      (some_injective picked renamed h) ((λ inside. inside), λ laid. laid)
rename_cols-AreLaidOut [] renamed (col ∷ cols) tuple offset end h = absurd (cc)
rename_cols-AreLaidOut ((to, from) ∷ picked) renamed (col ∷ cols) tuple offset end h =
    let (rest, e, h') =
      bind_some (rename_cols picked cols)
        (λ rest. some ((record to { name = col.col_name }, from) ∷ rest)) renamed h in
    let (back, laid_out) = rename_cols-AreLaidOut picked rest cols tuple (offset + to.len) end e in
    subst
      (λ x.
        (AreInside x tuple → AreInside ((to, from) ∷ picked) tuple)
        × (AreLaidOut ((to, from) ∷ picked) tuple offset end → AreLaidOut x tuple offset end))
      (some_injective ((record to { name = col.col_name }, from) ∷ rest) renamed h')
      (
        (λ (inside, insides). (inside, back insides)),
        λ (at, same, inside, laid). (at, same, inside, laid_out laid),
      )

new_projection-AllLaidOut :
    (prev_cols : List ColMeta) (sel_cols cols : List TabCol) (made : List (ColMeta × ColMeta) × ℕ)
    (tuples : List (List ℕ))
    → new_projection prev_cols sel_cols cols ≡ some made
    → AllInside made.0 tuples
    → AllLaidOut made.0 made.1 tuples
unfolding new_projection
new_projection-AllLaidOut prev_cols sel_cols cols made [] h insides = tt
new_projection-AllLaidOut prev_cols sel_cols cols made (tuple ∷ tuples) h (inside, insides) =
    let (selected, e, h') =
      bind_some (select_cols prev_cols 0 sel_cols)
        (λ selected. rename_cols selected.0 cols >>= (λ picked. some (picked, selected.1))) made
        h in
    let (renamed, e', h'') =
      bind_some (rename_cols selected.0 cols) (λ picked. some (picked, selected.1)) made h' in
    let (back, laid_out) = rename_cols-AreLaidOut selected.0 renamed cols tuple 0 selected.1 e' in
    let laid =
      subst (λ x. AreInside x.0 tuple → AreLaidOut x.0 tuple 0 x.1)
        (some_injective (renamed, selected.1) made h'')
        (λ here.
          laid_out (select_cols-AreLaidOut prev_cols sel_cols 0 selected tuple e (back here))) in
    (laid inside, new_projection-AllLaidOut prev_cols sel_cols cols made tuples h insides)

-- Each column of a projection that its constructor has made is copied from the first column of the
-- input with the names that are asked for at its place, and has the name that the query gives, if it
-- gives one. The projection yields, of each record of its input, the fields of these columns of the
-- input, one behind another, where they lie within the record; what the memory held before does not
-- matter.
pub new_projection-Starts :
    (raw : ℕ → List ℕ) (prev : Executor) (prev_cols : List ColMeta) (sel_cols cols : List TabCol)
    (made : List (ColMeta × ColMeta) × ℕ) (tuples : List (List ℕ)) (s : prev.State)
    → new_projection prev_cols sel_cols cols ≡ some made
    → length (raw made.1) ≡ made.1
    → Starts prev s tuples
    → AllInside made.0 tuples
    → AreSelected prev_cols sel_cols made.0
      × AreNamed cols made.0
      × Starts (projection raw prev made.0 made.1) s (map (fields made.0) tuples)
new_projection-Starts raw prev prev_cols sel_cols cols made tuples s h enough starts insides =
    let (selected, named) = new_projection-AreNamed prev_cols sel_cols cols made h in
    (
      selected,
      named,
      projection-Starts-fields raw prev made.0 made.1 tuples s starts enough
          (new_projection-AllLaidOut prev_cols sel_cols cols made tuples h insides),
    )
