-- ===== src/Execution/Value/Swap.antt =====
-- The sides of a comparison may be changed with its operator, as the planner and the index scan do.
use grmdb.Base.{◌≡◌, refl, sym, ap, Bool, true, false, not, some, holds}
use grmdb.Base.Int.{ltb_ℤ, ℤ_discrete}
use grmdb.System.Meta.{same_name, name_discrete}
use grmdb.Execution.Value.{
  CompOp, op_eq, op_ne, op_lt, op_gt, op_le, op_ge, Value, int_val, float_val, str_val,
  datetime_val, Floats, comp_by, eq_int, le_int, lt_str, le_str, value_comp,
}

-- The table of `swap_op`.
abbrev pub swap_op : CompOp → CompOp
swap_op op_eq = op_eq
swap_op op_ne = op_ne
swap_op op_lt = op_gt
swap_op op_gt = op_lt
swap_op op_le = op_ge
swap_op op_ge = op_le

comp_by-swap_op :
    {A : Type 0} (eq lt le : A → A → Bool) (left right : A) (op : CompOp)
    → eq left right ≡ eq right left
    → comp_by eq lt le left right op ≡ comp_by eq lt le right left (swap_op op)
comp_by-swap_op eq lt le left right op_eq e = e
comp_by-swap_op eq lt le left right op_ne e = ap not e
comp_by-swap_op eq lt le left right op_lt e = refl
comp_by-swap_op eq lt le left right op_gt e = refl
comp_by-swap_op eq lt le left right op_le e = refl
comp_by-swap_op eq lt le left right op_ge e = refl

holds-sym : {A : Type 0} (dec : Discrete A) (a b : A) → holds (dec a b) ≡ holds (dec b a)
holds-sym dec a b = elim (dec a b) as (λ d. holds d ≡ holds (dec b a)) [
  | yes p ↦ elim (dec b a) as (λ d. true ≡ holds d) [ yes q ↦ refl | no n ↦ absurd (n (sym p)) ]
  | no n ↦ elim (dec b a) as (λ d. false ≡ holds d) [ yes q ↦ absurd (n (sym q)) | no m ↦ refl ]
]

-- A comparison comes out, or throws, as the one with its sides changed and the operator that
-- `swap_op` gives, where `==` of two floats does not depend on their order.
pub value_comp-swap_op :
    {F : Type 0} (floats : Floats F) (left right : Value F) (op : CompOp)
    → ((a b : F) → floats.eq a b ≡ floats.eq b a)
    → value_comp floats left right op ≡ value_comp floats right left (swap_op op)
unfolding value_comp
value_comp-swap_op floats (int_val a) (int_val b) op sym_eq =
    ap some (comp_by-swap_op eq_int ltb_ℤ le_int a b op (holds-sym ℤ_discrete a b))
value_comp-swap_op floats (str_val a) (str_val b) op sym_eq =
    ap some (comp_by-swap_op same_name lt_str le_str a b op (holds-sym name_discrete a b))
value_comp-swap_op floats (float_val a) (float_val b) op sym_eq =
    ap some (comp_by-swap_op floats.eq floats.lt floats.le a b op (sym_eq a b))
value_comp-swap_op floats (int_val a) (float_val b) op sym_eq = ap some (
    comp_by-swap_op floats.eq floats.lt floats.le (floats.of_int a) b op
      (sym_eq (floats.of_int a) b))
value_comp-swap_op floats (float_val a) (int_val b) op sym_eq = ap some (
    comp_by-swap_op floats.eq floats.lt floats.le a (floats.of_int b) op
      (sym_eq a (floats.of_int b)))
value_comp-swap_op floats (int_val a) (str_val b) op sym_eq = refl
value_comp-swap_op floats (int_val a) datetime_val op sym_eq = refl
value_comp-swap_op floats (float_val a) (str_val b) op sym_eq = refl
value_comp-swap_op floats (float_val a) datetime_val op sym_eq = refl
value_comp-swap_op floats (str_val a) (int_val b) op sym_eq = refl
value_comp-swap_op floats (str_val a) (float_val b) op sym_eq = refl
value_comp-swap_op floats (str_val a) datetime_val op sym_eq = refl
value_comp-swap_op floats datetime_val (int_val b) op sym_eq = refl
value_comp-swap_op floats datetime_val (float_val b) op sym_eq = refl
value_comp-swap_op floats datetime_val (str_val b) op sym_eq = refl
value_comp-swap_op floats datetime_val datetime_val op sym_eq = refl
