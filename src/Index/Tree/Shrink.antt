-- ===== src/Index/Tree/Shrink.antt =====
-- `redistribute`, `coalesce`, `adjust_root`, `coalesce_or_redistribute` and `delete_entry` of
-- src/index/ix_index_handle.cpp, with `find_child` of ix_index_handle.h.
use Prim.Native.Nat.{Ordering}
use grmdb.Base.{
  ℕ, zero, suc, ◌+◌, ◌-◌, ◌*◌, ◌/◌, Bool, true, false, ◌&&◌, not, Option, none, some, ite, ltb, leb,
  ◌==◌, if◌then◌else◌, holds,
}
use grmdb.Base.Int.{ℤ, ℤ_discrete}
use grmdb.Index.Node.{IxNode, put_at, insert_pairs, insert, erase_pair, lower_bound}
use grmdb.Index.Tree.{
  IxIndex, ix_no_page, node_at, set_node, is_root_page, value_at, fetch_node, unpin_node_page,
  release_node_handle, maintain_child, maintain_children,
}
use grmdb.Index.Tree.Find.{find_leaf_page}

module _ {K : Type 0} where
  -- The position of a child, from position i on; `none` is the assertion that fails.
  unfoldable pub find_child_from : ℕ → ℕ → IxNode K → ℤ → Option ℕ
  find_child_from zero i node child = none
  find_child_from (suc rounds) i node child =
      let rest = find_child_from rounds (i + 1) node child in
      ite (ℤ_discrete (value_at node i) child) (some i) rest

  abbrev pub find_child : IxNode K → ℤ → Option ℕ
  find_child node child = find_child_from node.num_key 0 node child

  abbrev pub set_key : ℕ → K → IxNode K → IxNode K
  set_key i key node = record node { keys = put_at i key node.keys }

  -- Leaves, the node behind its neighbor: the neighbor, the node and the parent; `none` is the error
  -- of `insert`.
  module _ (cmp : K → K → Ordering) (same_bytes : Discrete K) where
    unfoldable pub redistribute_leaf :
        IxNode K → IxNode K → IxNode K → ℕ → Option (IxNode K × IxNode K × IxNode K)
    redistribute_leaf neighbor node parent index =
        let at = if index == 0 then 0 else neighbor.num_key - 1 in
        let rest = erase_pair neighbor at in
        let separator = if index == 0 then rest.keys 0 else neighbor.keys at in
        elim (insert cmp same_bytes node (neighbor.keys at) (neighbor.rids at)) [
          | none ↦ none
          | some grown ↦
              some (rest, grown, set_key (if index == 0 then 1 else index) separator parent)
        ]

    -- Inner nodes; the pair goes to the back of the node, or to its front.
    unfoldable pub redistribute_inner :
        IxNode K → IxNode K → IxNode K → ℕ → Option (IxNode K × IxNode K × IxNode K)
    redistribute_inner neighbor node parent index =
        let last = neighbor.num_key - 1 in
        let first = erase_pair neighbor 0 in
        let opened = insert_pairs node 1 (λ _. parent.keys index) (λ _. node.rids 0) 1 in
        let taken : IxNode K = record opened { rids = put_at 0 (neighbor.rids last) opened.rids } in
        if index == 0
        then elim (insert cmp same_bytes node (parent.keys 1) (neighbor.rids 0)) [
          | none ↦ none
          | some grown ↦ some (first, grown, set_key 1 (first.keys 0) parent)
        ]
        else some (erase_pair neighbor last, taken, set_key index (neighbor.keys last) parent)

    unfoldable pub redistribute : IxIndex K → ℤ → ℤ → ℤ → ℕ → Option (IxIndex K)
    unfolding redistribute_leaf redistribute_inner maintain_child
    redistribute ix neighbor p parent index =
        let node = node_at ix p in
        let moved =
          if node.is_leaf
          then redistribute_leaf (node_at ix neighbor) node (node_at ix parent) index
          else redistribute_inner (node_at ix neighbor) node (node_at ix parent) index in
        elim moved [
          | none ↦ none
          | some (neighbor_node, node', parent_node) ↦
              let changed =
                set_node (set_node (set_node ix neighbor neighbor_node) p node') parent
                  parent_node in
              some (
                if node.is_leaf
                then changed
                else maintain_child changed p (if index == 0 then node'.num_key - 1 else 0))
        ]

  -- The links around a leaf `right` that goes into `left`.
  unfoldable pub unlink_leaf : IxIndex K → ℤ → ℤ → IxIndex K
  unfolding fetch_node unpin_node_page
  unlink_leaf ix left right =
      let next = (node_at ix right).next_leaf in
      let linked = set_node ix left (record (node_at ix left) { next_leaf = next }) in
      let fetched = fetch_node linked next in
      let changed = set_node fetched next (record (node_at fetched next) { prev_leaf = left }) in
      let unpinned = unpin_node_page changed next true in
      record unpinned { last_leaf = ite (ℤ_discrete right ix.last_leaf) left ix.last_leaf }

  -- Of two neighbors the right one goes into the left one.
  unfoldable pub coalesce : IxIndex K → ℤ → ℤ → ℤ → ℕ → IxIndex K
  unfolding insert_pairs erase_pair maintain_children unlink_leaf unpin_node_page
      release_node_handle
  coalesce ix neighbor p parent index =
      let left = if index == 0 then p else neighbor in
      let right = if index == 0 then neighbor else p in
      let at = if index == 0 then 1 else index in
      let right_node = node_at ix right in
      let num_keys = right_node.num_key in
      let end = (node_at ix left).num_key in
      let keyed =
        if right_node.is_leaf
        then right_node
        else set_key 0 ((node_at ix parent).keys at) right_node in
      let written = set_node ix right keyed in
      let joined =
        set_node written left
          (insert_pairs (node_at written left) end keyed.keys keyed.rids num_keys) in
      let erased = set_node joined parent (erase_pair (node_at joined parent) at) in
      let maintained = maintain_children erased left end num_keys in
      let linked = if right_node.is_leaf then unlink_leaf erased left right else maintained in
      release_node_handle (unpin_node_page linked left true) right

  unfoldable pub adjust_root : IxIndex K → ℤ → Bool × IxIndex K
  unfolding fetch_node unpin_node_page release_node_handle
  adjust_root ix p =
      let node = node_at ix p in
      let child = value_at node 0 in
      let fetched = fetch_node (record ix { root_page = child }) child in
      let rooted =
        set_node fetched child (record (node_at fetched child) { parent = ix_no_page }) in
      let emptied = record ix {
        root_page = ix_no_page;
        first_leaf = ix_no_page;
        last_leaf = ix_no_page;
      } in
      if not node.is_leaf && (node.num_key == 1)
      then (true, release_node_handle rooted p)
      else if node.is_leaf && (node.num_key == 0)
      then (true, release_node_handle emptied p)
      else (false, unpin_node_page ix p true)

  abbrev pub min_size : IxIndex K → ℕ
  min_size ix = let half = (ix.btree_order + 1) / 2 - 1 in if ltb half 1 then 1 else half

  module _ (cmp : K → K → Ordering) (same_bytes : Discrete K) where
    -- What is done to a node that is short of keys, given its place in its parent.
    unfoldable pub refill : IxIndex K → ℤ → ℤ → ℕ → Option (IxIndex K)
    unfolding fetch_node redistribute coalesce unpin_node_page
    refill ix p parent index =
        let neighbor = value_at (node_at ix parent) (if index == 0 then 1 else index - 1) in
        let fetched = fetch_node ix neighbor in
        let size = (node_at fetched p).num_key + (node_at fetched neighbor).num_key in
        if leb (min_size ix * 2) size
        then elim (redistribute cmp same_bytes fetched neighbor p parent index) [
          | none ↦ none
          | some moved ↦ some (unpin_node_page (unpin_node_page moved p true) neighbor true)
        ]
        else some (coalesce fetched neighbor p parent index)

    -- The outer `none` is fuel that runs out, which a height of the tree is enough for; the inner
    -- one is an error.
    unfoldable pub coalesce_or_redistribute : ℕ → IxIndex K → ℤ → Option (Option (Bool × IxIndex K))
    unfolding adjust_root refill
    coalesce_or_redistribute zero ix p = none
    coalesce_or_redistribute (suc fuel) ix p =
        let node = node_at ix p in
        let parent = node.parent in
        let fetched = fetch_node ix parent in
        let refilled : Option (IxIndex K) = elim (find_child (node_at fetched parent) p) [
          | none ↦ none
          | some index ↦ refill fetched p parent index
        ] in
        let next : IxIndex K = elim refilled [ none ↦ fetched | some changed ↦ changed ] in
        let above : Option (Option (Bool × IxIndex K)) =
          elim (coalesce_or_redistribute fuel next parent) [
            | none ↦ none
            | some none ↦ some none
            | some (some (_, done)) ↦ some (some (true, done))
          ] in
        if is_root_page node
        then some (some (true, (adjust_root ix p).1))
        else if leb (min_size ix) node.num_key
        then some (some (false, unpin_node_page ix p true))
        else elim refilled [ none ↦ some none | some _ ↦ above ]

    -- The leaf that has been found; it stays pinned where the key is not there. At a `lower_bound`
    -- of -1 it reads in front of the keys, which counts as an error.
    unfoldable pub delete_in_leaf : ℕ → IxIndex K → ℤ → K → Option (Option (Bool × IxIndex K))
    unfolding erase_pair coalesce_or_redistribute
    delete_in_leaf fuel ix p key = elim (lower_bound cmp same_bytes (node_at ix p) key) [
      | none ↦ some none
      | some i ↦
          let erased = set_node ix p (erase_pair (node_at ix p) i) in
          let balanced : Option (Option (Bool × IxIndex K)) =
            elim (coalesce_or_redistribute fuel erased p) [
              | none ↦ none
              | some none ↦ some none
              | some (some (_, done)) ↦ some (some (false, done))
            ] in
          if holds (same_bytes ((node_at ix p).keys i) key)
          then balanced
          else some (some (false, ix))
    ]

    unfoldable pub delete_entry : ℕ → IxIndex K → K → Option (Option (Bool × IxIndex K))
    unfolding find_leaf_page delete_in_leaf
    delete_entry fuel ix key = elim (find_leaf_page cmp same_bytes key fuel ix) [
      | none ↦ none
      | some (p, found) ↦ delete_in_leaf fuel found p key
    ]
