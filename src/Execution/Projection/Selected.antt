-- ===== src/Execution/Projection/Selected.antt =====
-- The columns that the constructor of a projection copies are those that are asked for, under the
-- names that the query gives. The code is that of src/execution/executor_projection.h.
use grmdb.Base.{
  sym, ap, arith, ◌∙◌, ◌⊎◌, inl, inr, true, false, Bool-cases, if◌then◌else◌, ℕ, ◌+◌, ◌≡◌, refl,
  subst, List, [], ◌∷◌, Bool, ◌&&◌, some, some_injective, bind_some, ◌>>=◌,
}
use grmdb.System.Meta.{ColMeta, same_name, find_col}
use grmdb.Execution.Value.{TabCol}
use grmdb.Execution.Projection.{select_cols, rename_cols, new_projection}

-- What is put in front of the columns behind one.
abbrev pub put_col : ColMeta → ℕ → List (ColMeta × ColMeta) × ℕ → List (ColMeta × ColMeta) × ℕ
put_col col offset rest = ((record col { offset = offset }, col) ∷ rest.0, rest.1)

abbrev pub is_selected : TabCol → ColMeta → Bool
is_selected sel_col col =
    same_name col.tab_name sel_col.tab_name && same_name col.name sel_col.col_name

-- The first column of a list with the names that are asked for.
abbrev pub Names : TabCol → ColMeta → Type 0
Names sel_col col = (col.tab_name ≡ sel_col.tab_name) × (col.name ≡ sel_col.col_name)

abbrev pub IsFirstNamed : List ColMeta → TabCol → ColMeta → Type 0
IsFirstNamed [] sel_col from = ⊥
IsFirstNamed (col ∷ cols) sel_col from =
    (Names sel_col col × (from ≡ col)) ⊎ ((Names sel_col col → ⊥) × IsFirstNamed cols sel_col from)

-- Each column is copied from the one of the input that is asked for at its place.
abbrev pub AreSelected : List ColMeta → List TabCol → List (ColMeta × ColMeta) → Type 0
AreSelected prev_cols [] [] = Unit {0}
AreSelected prev_cols [] (_ ∷ picked) = ⊥
AreSelected prev_cols (sel_col ∷ sel_cols) [] = ⊥
AreSelected prev_cols (sel_col ∷ sel_cols) ((_, from) ∷ picked) =
    IsFirstNamed prev_cols sel_col from × AreSelected prev_cols sel_cols picked

-- The first columns have the names that the query gives.
abbrev pub AreNamed : List TabCol → List (ColMeta × ColMeta) → Type 0
AreNamed [] picked = Unit {0}
AreNamed (col ∷ cols) [] = ⊥
AreNamed (col ∷ cols) ((to, _) ∷ picked) = (to.name ≡ col.col_name) × AreNamed cols picked

is_selected-Names :
    (sel_col : TabCol) (col : ColMeta)
    → ((is_selected sel_col col ≡ true) × Names sel_col col)
      ⊎ ((is_selected sel_col col ≡ false) × (Names sel_col col → ⊥))
is_selected-Names sel_col col = elim (Bool-cases (is_selected sel_col col)) [
  | inl named ↦ inl (named, (ground arith, ground arith))
  | inr other ↦ inr (other, λ (tab, name). ground (arith, tab, name))
]

find_col-IsFirstNamed :
    (sel_col : TabCol) (cols : List ColMeta) (from : ColMeta)
    → find_col (is_selected sel_col) cols ≡ some from
    → IsFirstNamed cols sel_col from
unfolding find_col
find_col-IsFirstNamed sel_col [] from h = absurd (cc)
find_col-IsFirstNamed sel_col (col ∷ cols) from h = elim (is_selected-Names sel_col col) [
  | inl (named, names) ↦
      let here : find_col (is_selected sel_col) (col ∷ cols) ≡ some col =
        ap (λ b. if b then some col else find_col (is_selected sel_col) cols) named in
      inl (names, some_injective from col (sym h ∙ here))
  | inr (other, no_names) ↦
      let behind : find_col (is_selected sel_col) (col ∷ cols)
          ≡ find_col (is_selected sel_col) cols =
        ap (λ b. if b then some col else find_col (is_selected sel_col) cols) other in
      inr (no_names, find_col-IsFirstNamed sel_col cols from (sym behind ∙ h))
]

select_cols-AreSelected :
    (prev_cols : List ColMeta) (sel_cols : List TabCol) (offset : ℕ)
    (selected : List (ColMeta × ColMeta) × ℕ)
    → select_cols prev_cols offset sel_cols ≡ some selected
    → AreSelected prev_cols sel_cols selected.0
unfolding select_cols
select_cols-AreSelected prev_cols [] offset selected h =
    subst (λ x. AreSelected prev_cols [] x.0) (some_injective ([], offset) selected h) tt
select_cols-AreSelected prev_cols (sel_col ∷ sel_cols) offset selected h =
    let behind = λ (col : ColMeta). select_cols prev_cols (offset + col.len) sel_cols in
    let (col, found, h') =
      bind_some (find_col (is_selected sel_col) prev_cols)
        (λ col. behind col >>= (λ rest. some (put_col col offset rest))) selected h in
    let (rest, e, h'') =
      bind_some (behind col) (λ rest. some (put_col col offset rest)) selected h' in
    subst (λ x. AreSelected prev_cols (sel_col ∷ sel_cols) x.0)
      (some_injective (put_col col offset rest) selected h'')
      (
        find_col-IsFirstNamed sel_col prev_cols col found,
        select_cols-AreSelected prev_cols sel_cols (offset + col.len) rest e,
      )

rename_cols-AreNamed :
    (prev_cols : List ColMeta) (sel_cols : List TabCol) (picked renamed : List (ColMeta × ColMeta))
    (cols : List TabCol)
    → rename_cols picked cols ≡ some renamed
    → AreSelected prev_cols sel_cols picked
    → AreSelected prev_cols sel_cols renamed × AreNamed cols renamed
unfolding rename_cols
rename_cols-AreNamed prev_cols sel_cols picked renamed [] h selected =
    (subst (AreSelected prev_cols sel_cols) (some_injective picked renamed h) selected, tt)
rename_cols-AreNamed prev_cols sel_cols [] renamed (col ∷ cols) h selected = absurd (cc)
rename_cols-AreNamed prev_cols [] ((to, from) ∷ picked) renamed (col ∷ cols) h selected =
    absurd selected
rename_cols-AreNamed prev_cols (sel_col ∷ sel_cols) ((to, from) ∷ picked) renamed (col ∷ cols) h
      (here, selected) =
    let (rest, e, h') =
      bind_some (rename_cols picked cols)
        (λ rest. some ((record to { name = col.col_name }, from) ∷ rest)) renamed h in
    let (selected', named) = rename_cols-AreNamed prev_cols sel_cols picked rest cols e selected in
    subst (λ x. AreSelected prev_cols (sel_col ∷ sel_cols) x × AreNamed (col ∷ cols) x)
      (some_injective ((record to { name = col.col_name }, from) ∷ rest) renamed h')
      ((here, selected'), (refl, named))

pub new_projection-AreNamed :
    (prev_cols : List ColMeta) (sel_cols cols : List TabCol) (made : List (ColMeta × ColMeta) × ℕ)
    → new_projection prev_cols sel_cols cols ≡ some made
    → AreSelected prev_cols sel_cols made.0 × AreNamed cols made.0
unfolding new_projection
new_projection-AreNamed prev_cols sel_cols cols made h =
    let (selected, e, h') =
      bind_some (select_cols prev_cols 0 sel_cols)
        (λ selected. rename_cols selected.0 cols >>= (λ picked. some (picked, selected.1))) made
        h in
    let (renamed, e', h'') =
      bind_some (rename_cols selected.0 cols) (λ picked. some (picked, selected.1)) made h' in
    subst (λ x. AreSelected prev_cols sel_cols x.0 × AreNamed cols x.0)
      (some_injective (renamed, selected.1) made h'')
      (rename_cols-AreNamed prev_cols sel_cols selected.0 renamed cols e'
        (select_cols-AreSelected prev_cols sel_cols 0 selected e))
