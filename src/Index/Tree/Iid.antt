-- ===== src/Index/Tree/Iid.antt =====
-- Positions in the leaves: `lower_bound`, `upper_bound`, `get_rid`, `minus_one`, `leaf_begin` and
-- `leaf_end` of src/index/ix_index_handle.cpp, Iid of ix_defs.h and IxScan of ix_scan.h and .cpp.
use Prim.Native.Nat.{Ordering}
use grmdb.Base.{ℕ, Bool, true, false, ◌&&◌, not, Option, none, some, ite, ltb, if◌then◌else◌, holds}
use grmdb.Base.Int.{ℤ, pos, negsuc, incr, decr, ℤ_discrete}
use grmdb.Defs.{Rid}
use grmdb.Index.Node.{lower_bound, upper_bound}
use grmdb.Index.Tree.{IxIndex, ix_no_page, node_at, fetch_node, unpin_node_page}
use grmdb.Index.Tree.Find.{find_leaf_page}

pub record Iid : Type 0 where
  pub page_no : ℤ
  pub slot_no : ℤ

unfoldable pub Iid_discrete : Discrete Iid
unfolding ℤ_discrete
Iid_discrete = hlevel ℤ_discrete

abbrev pub iid : ℤ → ℤ → Iid
iid page_no slot_no = record { page_no = page_no; slot_no = slot_no }

pub record IxScan : Type 0 where
  pub here : Iid
  pub end_at : Iid

unfoldable pub is_end : IxScan → Bool
unfolding Iid_discrete
is_end scan = holds (Iid_discrete scan.here scan.end_at)

module _ {K : Type 0} where
  -- The position of a bound in a leaf; behind the last key it is the next leaf's first, but in the
  -- last leaf.
  unfoldable pub position : IxIndex K → ℤ → Option ℕ → Iid
  position ix p (some index) = iid p (pos index)
  position ix p none =
      ite (ℤ_discrete p ix.last_leaf) (iid p (pos (node_at ix p).num_key))
        (iid (node_at ix p).next_leaf (pos 0))

  module _ (cmp : K → K → Ordering) (same_bytes : Discrete K) where
    unfoldable pub leaf_lower_bound : ℕ → IxIndex K → K → Option (Iid × IxIndex K)
    unfolding find_leaf_page unpin_node_page position
    leaf_lower_bound fuel ix key = elim (find_leaf_page cmp same_bytes key fuel ix) [
      | none ↦ none
      | some (p, found) ↦ some (
        position found p (lower_bound cmp same_bytes (node_at found p) key),
        unpin_node_page found p false,
      )
    ]

    -- It unpins the leaf twice.
    unfoldable pub leaf_upper_bound : ℕ → IxIndex K → K → Option (Iid × IxIndex K)
    unfolding find_leaf_page unpin_node_page position
    leaf_upper_bound fuel ix key = elim (find_leaf_page cmp same_bytes key fuel ix) [
      | none ↦ none
      | some (p, found) ↦
          let unpinned = unpin_node_page found p false in
          some (
            position unpinned p (upper_bound cmp same_bytes (node_at found p) key),
            unpin_node_page unpinned p false,
          )
    ]

  abbrev pub leaf_begin : IxIndex K → Iid
  leaf_begin ix = iid ix.first_leaf (pos 0)

  unfoldable pub leaf_end : IxIndex K → Iid × IxIndex K
  unfolding fetch_node unpin_node_page
  leaf_end ix =
      let p = ix.last_leaf in
      let fetched = fetch_node ix p in
      ite (ℤ_discrete p ix_no_page) (iid ix_no_page (pos 0), ix)
        (iid p (pos (node_at fetched p).num_key), unpin_node_page fetched p false)

  -- `none` is the IndexEntryNotFoundError, or a read in front of the rids.
  unfoldable pub get_rid : IxIndex K → Iid → Option (Rid × IxIndex K)
  unfolding fetch_node unpin_node_page
  get_rid ix at =
      let fetched = fetch_node ix at.page_no in
      let node = node_at fetched at.page_no in
      elim at.slot_no [
        | negsuc _ ↦ none
        | pos i ↦
            if ltb i node.num_key
            then some (node.rids i, unpin_node_page fetched at.page_no false)
            else none
      ]

  -- The position before; the pages that it unpins are not those that it has fetched.
  unfoldable pub minus_one : IxIndex K → Iid → Bool × Iid × IxIndex K
  unfolding Iid_discrete fetch_node unpin_node_page
  minus_one ix at =
      let prev = (node_at ix at.page_no).prev_leaf in
      let unpinned = unpin_node_page (fetch_node ix at.page_no) prev false in
      let left = unpin_node_page (fetch_node unpinned prev) prev false in
      ite (Iid_discrete at (leaf_begin ix)) (false, at, ix)
        (ite (ℤ_discrete at.slot_no (pos 0))
          (true, iid prev (decr (pos (node_at ix prev).num_key)), left)
          (true, iid at.page_no (decr at.slot_no), ix))

  -- `none` is an assertion that fails. The page is fetched twice, and stays pinned.
  unfoldable pub next : IxScan → IxIndex K → Option (IxScan × IxIndex K)
  unfolding fetch_node is_end
  next scan ix =
      let p = scan.here.page_no in
      let fetched = fetch_node (fetch_node ix p) p in
      let node = node_at fetched p in
      let slot_no = incr scan.here.slot_no in
      let following =
        ite (ℤ_discrete slot_no (pos node.num_key)) (iid node.next_leaf (pos 0)) (iid p slot_no) in
      let in_node : Bool = elim scan.here.slot_no [
        | pos i ↦ ltb i node.num_key
        | negsuc _ ↦ true
      ] in
      if not (is_end scan) && node.is_leaf && in_node
      then some (
        record scan { here = ite (ℤ_discrete p ix.last_leaf) (iid p slot_no) following },
        fetched,
      )
      else none
