-- ===== src/Index/Tree/Root.antt =====
-- The first `insert` into a new root, in `insert_into_parent` of src/index/ix_index_handle.cpp.
use Prim.Native.Nat.{Ordering}
use grmdb.Base.{
  ◌≡◌, ◌≢◌, refl, sym, true, false, Option, none, some, arith, inl, inr, Bool-cases, if◌then◌else◌,
  holds,
}
use grmdb.Base.Int.{ℤ}
use grmdb.Index.Search.{bisect, search}
use grmdb.Index.Key.Order.{is_lt, IsOrder, irreflexive}
use grmdb.Index.Node.{IxNode, copy, lower_bound, insert, insert_pair_at}
use grmdb.Index.Tree.{zeroed, child_rid, value_at}
use grmdb.Index.Tree.Grow.{root_node}

module _ {K : Type 0} (cmp : K → K → Ordering) (order : IsOrder cmp) (same_bytes : Discrete K)
    (zero_key key : K) (old new : ℤ) where
  abbrev fresh_root : IxNode K
  fresh_root = root_node cmp same_bytes zero_key (zeroed zero_key) old

  -- The one key that is compared is of zeros.
  lower_bound_lem :
      lower_bound cmp same_bytes fresh_root key
      ≡ (if is_lt (cmp zero_key key) then none else some 1)
  unfolding lower_bound search bisect root_node
  lower_bound_lem = refl

  insert_at_one :
      key ≢ zero_key
      → insert cmp same_bytes fresh_root key (child_rid new)
        ≡ some (insert_pair_at fresh_root 1 key (child_rid new))
  unfolding root_node insert insert_pair_at
  insert_at_one other =
      let apart : holds (same_bytes zero_key key) ≡ false = ground (arith, other) in
      elim (Bool-cases (is_lt (cmp zero_key key))) [
        | inl lt ↦ rw (insert, lower_bound_lem, lt) refl
        | inr ge ↦ rw (insert, lower_bound_lem, ge, apart) refl
      ]

  -- What a root with two children is.
  abbrev pub HasTwo : Option (IxNode K) → Type 0
  HasTwo none = ⊥
  HasTwo (some node) =
      (node.is_leaf ≡ false)
      × (node.num_key ≡ 2)
      × (node.keys 1 ≡ key)
      × (value_at node 0 ≡ old)
      × (value_at node 1 ≡ new)

  -- A new root gets its two children and the key between them, unless the key is all zeros: then
  -- `insert` reads the zeros behind the first child, takes them for the key, and throws.
  pub insert-root_node :
      (key ≢ zero_key → HasTwo (insert cmp same_bytes fresh_root key (child_rid new)))
      × (key ≡ zero_key → insert cmp same_bytes fresh_root key (child_rid new) ≡ none)
  unfolding root_node insert_pair_at copy insert
  insert-root_node = (
    λ other. rw (insert_at_one other) (refl, refl, refl, refl, refl),
    λ e.
        let ge = irreflexive order zero_key key (sym e) in
        let same : holds (same_bytes zero_key key) ≡ true = ground (arith, e) in
        rw (insert, lower_bound_lem, ge, same) refl,
  )
