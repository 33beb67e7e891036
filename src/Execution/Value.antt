-- ===== src/Execution/Value.antt =====
-- Value, Condition and TabCol of src/common/common.h, and the conditions that the executors
-- evaluate on a record. The operations on `float` are a parameter. A Value is its type with what it
-- holds; the bytes that `init_raw` fills are a function of it.
pub mod Swap
use grmdb.Base.{
  ℕ, List, [], ◌∷◌, Bool, true, false, ◌&&◌, ◌||◌, not, Option, none, some, ◌>>=◌, if◌then◌else◌,
  holds, ltb, ◌==◌, length, take, drop, replicate, ◌++◌, ◌-◌,
}
use grmdb.Base.Int.{ℤ, ltb_ℤ, ℤ_discrete}
use grmdb.Index.Key.{ColType, type_int, type_float, type_string, type_datetime}
use grmdb.Recovery.Bytes.{read_int, encode_int}
use grmdb.System.Meta.{ColMeta, same_name, find_col}

pub record TabCol : Type 0 where
  pub tab_name : List ℕ
  pub col_name : List ℕ

pub data CompOp : Type 0 where
  op_eq : CompOp
  op_ne : CompOp
  op_lt : CompOp
  op_gt : CompOp
  op_le : CompOp
  op_ge : CompOp

-- A value of the type `datetime` has no member that `getValue` sets.
pub data Value (F : Type 0) : Type 0 where
  int_val : ℤ → Value F
  float_val : F → Value F
  str_val : List ℕ → Value F
  datetime_val : Value F

-- What the processor does with `float`s.
pub record Floats (F : Type 0) : Type 0 where
  pub eq : F → F → Bool
  pub lt : F → F → Bool
  pub le : F → F → Bool
  pub of_int : ℤ → F
  pub read : List ℕ → F
  pub write : F → List ℕ

-- `ValueComp` on two operands of one type, with its `==`, `<` and `<=`; `>` and `>=` are these with
-- the operands changed.
abbrev pub comp_by :
    {A : Type 0} → (A → A → Bool) → (A → A → Bool) → (A → A → Bool) → A → A → CompOp → Bool
comp_by eq lt le left right op_eq = eq left right
comp_by eq lt le left right op_ne = not (eq left right)
comp_by eq lt le left right op_ge = le right left
comp_by eq lt le left right op_le = le left right
comp_by eq lt le left right op_gt = lt right left
comp_by eq lt le left right op_lt = lt left right

abbrev pub eq_int : ℤ → ℤ → Bool
eq_int a b = holds (ℤ_discrete a b)

abbrev pub le_int : ℤ → ℤ → Bool
le_int a b = not (ltb_ℤ b a)

-- `std::string`: the bytes one after another, and a prefix before what it begins.
abbrev pub lt_str : List ℕ → List ℕ → Bool
lt_str a [] = false
lt_str [] (y ∷ b) = true
lt_str (x ∷ a) (y ∷ b) = ltb x y || ((x == y) && lt_str a b)

abbrev pub le_str : List ℕ → List ℕ → Bool
le_str a b = not (lt_str b a)

abbrev pub type_compatible : ColType → ColType → Bool
type_compatible type_int type_int = true
type_compatible type_int type_float = true
type_compatible type_float type_int = true
type_compatible type_float type_float = true
type_compatible type_string type_string = true
type_compatible type_datetime type_datetime = true
type_compatible _ _ = false

-- What stands in front of the first byte zero.
abbrev pub until_zero : List ℕ → List ℕ
until_zero [] = []
until_zero (c ∷ cs) = if c == 0 then [] else c ∷ until_zero cs

module _ {F : Type 0} (floats : Floats F) where
  -- `none` is the IncompatibleTypeError.
  unfoldable pub value_comp : Value F → Value F → CompOp → Option Bool
  value_comp (int_val a) (int_val b) op = some (comp_by eq_int ltb_ℤ le_int a b op)
  value_comp (float_val a) (float_val b) op = some (comp_by floats.eq floats.lt floats.le a b op)
  value_comp (str_val a) (str_val b) op = some (comp_by same_name lt_str le_str a b op)
  value_comp (float_val a) (int_val b) op =
      some (comp_by floats.eq floats.lt floats.le a (floats.of_int b) op)
  value_comp (int_val a) (float_val b) op =
      some (comp_by floats.eq floats.lt floats.le (floats.of_int a) b op)
  value_comp _ _ op = none

  -- The bytes of a value of a length; `none` is a failed assertion or the StringOverflowError. A
  -- `datetime` leaves the memory as it is found.
  unfoldable pub init_raw : List ℕ → ℕ → Value F → Option (List ℕ)
  init_raw garbage len (int_val a) = if len == 4 then some (encode_int a) else none
  init_raw garbage len (float_val a) = if len == 4 then some (floats.write a) else none
  init_raw garbage len (str_val a) =
      if ltb len (length a) then none else some (a ++ replicate (len - length a) 0)
  init_raw garbage len datetime_val = some garbage

  -- The value of a column in a record; `none` is the ColumnNotFoundError.
  abbrev pub value_at : ColMeta → List ℕ → Value F
  value_at col tuple =
      let col_raw = take col.len (drop col.offset tuple) in
      elim col.col_type [
        | type_int ↦ int_val (read_int col_raw).0
        | type_float ↦ float_val (floats.read col_raw)
        | type_string ↦ str_val (until_zero col_raw)
        | type_datetime ↦ datetime_val
      ]

  unfoldable pub get_value : List ColMeta → TabCol → List ℕ → Option (Value F)
  unfolding find_col
  get_value cols col tuple =
      find_col (λ meta. same_name meta.tab_name col.tab_name && same_name meta.name col.col_name)
        cols
      >>= (λ meta. some (value_at meta tuple))

-- The right side is a value, or a column.
pub record Condition (F : Type 0) : Type 0 where
  pub lhs_col : TabCol
  pub op : CompOp
  pub is_rhs_val : Bool
  pub rhs_col : TabCol
  pub rhs_val : Value F

module _ {F : Type 0} (floats : Floats F) (cols : List ColMeta) where
  abbrev pub eval_one : Condition F → List ℕ → Option Bool
  eval_one cond tuple = get_value floats cols cond.lhs_col tuple >>= (λ left.
      (if cond.is_rhs_val then some cond.rhs_val else get_value floats cols cond.rhs_col tuple)
      >>= (λ right. value_comp floats left right cond.op))

  -- The conditions one after another, up to one that does not hold.
  unfoldable pub eval_condition : List (Condition F) → List ℕ → Option Bool
  unfolding get_value value_comp
  eval_condition [] tuple = some true
  eval_condition (cond ∷ conds) tuple =
      let rest = eval_condition conds tuple in
      eval_one cond tuple >>= (λ held. elim held [ true ↦ rest | false ↦ some false ])
