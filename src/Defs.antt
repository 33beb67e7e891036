-- ===== src/Defs.antt =====
-- src/defs.h: the position of a record in its file.
use grmdb.Base.Int.{ℤ, ℤ_discrete}

pub record Rid : Type 0 where
  pub page_no : ℤ
  pub slot_no : ℤ

unfoldable pub Rid_discrete : Discrete Rid
unfolding ℤ_discrete
Rid_discrete = hlevel ℤ_discrete
