-- ===== src/Index/Tree/Find.antt =====
-- `find_leaf_page` and `get_value` of src/index/ix_index_handle.cpp.
use Prim.Native.Nat.{Ordering}
use grmdb.Base.{
  ℕ, zero, suc, ◌+◌, List, [], ◌∷◌, Bool, true, false, Option, none, some, if◌then◌else◌, holds,
}
use grmdb.Base.Int.{ℤ}
use grmdb.Defs.{Rid}
use grmdb.Index.Node.{IxNode, lower_bound, internal_lookup}
use grmdb.Index.Tree.{IxIndex, node_at, value_at, fetch_node, unpin_node_page}

module _ {K : Type 0} (cmp : K → K → Ordering) (same_bytes : Discrete K) (key : K) where
  -- The loop, from a page that has been fetched; `none` where the fuel runs out. The height of the
  -- tree is enough.
  unfoldable pub descend : ℕ → IxIndex K → ℤ → Option (ℤ × IxIndex K)
  descend zero ix p = none
  descend (suc fuel) ix p =
      let child = value_at (node_at ix p) (internal_lookup cmp same_bytes (node_at ix p) key) in
      let below = descend fuel (fetch_node (unpin_node_page ix p false) child) child in
      if (node_at ix p).is_leaf then some (p, ix) else below

  -- The leaf is left pinned.
  unfoldable pub find_leaf_page : ℕ → IxIndex K → Option (ℤ × IxIndex K)
  unfolding descend
  find_leaf_page fuel ix = descend fuel (fetch_node ix ix.root_page) ix.root_page

  -- The rids that the loop of `get_value` takes; it goes on past `num_key`, and the fuel bounds its
  -- rounds.
  unfoldable pub matching : ℕ → IxNode K → ℕ → List Rid
  matching zero node index = []
  matching (suc fuel) node index =
      let rest = matching fuel node (index + 1) in
      if holds (same_bytes (node.keys index) key) then node.rids index ∷ rest else []

  -- The leaf stays pinned where `lower_bound` is -1.
  unfoldable pub value_in_leaf : ℕ → IxIndex K → ℤ → Bool × List Rid × IxIndex K
  unfolding matching
  value_in_leaf fuel ix p = elim (lower_bound cmp same_bytes (node_at ix p) key) [
    | none ↦ (false, [], ix)
    | some index ↦
        let result = matching fuel (node_at ix p) index in
        (elim result [ [] ↦ false | _ ∷ _ ↦ true ], result, unpin_node_page ix p false)
  ]

  unfoldable pub get_value : ℕ → ℕ → IxIndex K → Option (Bool × List Rid × IxIndex K)
  unfolding find_leaf_page value_in_leaf
  get_value fuel rounds ix = elim (find_leaf_page fuel ix) [
    | none ↦ none
    | some (p, found) ↦ some (value_in_leaf rounds found p)
  ]
