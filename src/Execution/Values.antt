-- ===== src/Execution/Values.antt =====
-- ValuesExecutor of src/execution/execution_values.h: the values of a list, one after another. The
-- values come without their bytes, which `Next` fills.
use grmdb.Base.{ℕ, List, [], ◌∷◌, Bool, true, false, Option, none, some, ◌>>=◌}
use grmdb.Execution.Executor.{Executor}
use grmdb.Execution.Value.{Value, Floats, init_raw}

module _ {F : Type 0} (floats : Floats F) (values : List (Value F)) (tuple_len : ℕ) where
  -- The iterator is what is in front of it; it is not moved past the end.
  unfoldable pub next_value : List (Value F) → Option (List (Value F))
  next_value [] = none
  next_value (value ∷ rest) = some rest

  abbrev pub at_values_end : List (Value F) → Bool
  at_values_end [] = true
  at_values_end (value ∷ rest) = false

  unfoldable pub take_value : List (Value F) → Option (List ℕ × List (Value F))
  unfolding init_raw
  take_value [] = none
  take_value (value ∷ rest) =
      init_raw floats [] tuple_len value >>= (λ raw. some (raw, value ∷ rest))

  abbrev pub values_executor : Executor
  values_executor = record {
    State = List (Value F);
    begin_tuple = λ s. some values;
    next_tuple = next_value;
    is_end = at_values_end;
    next = take_value;
  }
