-- ===== src/System/Meta.antt =====
-- src/system/sm_meta.h: columns, indexes and tables, and how they are looked up. The flag `index`
-- of a column is unused. Reading and printing of the catalog is left out.
use grmdb.Base.{ℕ, List, [], ◌∷◌, ◌++◌, Bool, Option, none, some, if◌then◌else◌, holds, ℕ_discrete}
use grmdb.Index.Key.{ColType}

-- Names of tables, columns and indexes, by their bytes.
unfoldable pub name_discrete : Discrete (List ℕ)
name_discrete = hlevel ℕ_discrete

abbrev pub same_name : List ℕ → List ℕ → Bool
same_name a b = holds (name_discrete a b)

pub record ColMeta : Type 0 where
  pub tab_name : List ℕ
  pub name : List ℕ
  pub col_type : ColType
  pub len : ℕ
  pub offset : ℕ

pub record IndexMeta : Type 0 where
  pub tab_name : List ℕ
  pub col_tot_len : ℕ
  pub col_num : ℕ
  pub cols : List ColMeta

pub record TabMeta : Type 0 where
  pub name : List ℕ
  pub cols : List ColMeta
  pub indexes : List IndexMeta

-- `find_if`
unfoldable pub find_col : (ColMeta → Bool) → List ColMeta → Option ColMeta
find_col test [] = none
find_col test (col ∷ cols) = let rest = find_col test cols in if test col then some col else rest

-- `none` is the ColumnNotFoundError.
unfoldable pub get_col : TabMeta → List ℕ → Option ColMeta
unfolding find_col
get_col tab col_name = find_col (λ col. same_name col.name col_name) tab.cols

-- `_` and `.idx`
abbrev join_cols : List ColMeta → List ℕ
join_cols [] = []
join_cols (col ∷ cols) = 95 ∷ (col.name ++ join_cols cols)

-- src/index/ix_manager.h
unfoldable pub get_index_name : List ℕ → List ColMeta → List ℕ
get_index_name filename index_cols =
    filename ++ (join_cols index_cols ++ (46 ∷ 105 ∷ 100 ∷ 120 ∷ []))
