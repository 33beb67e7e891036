-- ===== src/Index/Tree/Grow.antt =====
-- `split`, `insert_into_parent` and `insert_entry` of src/index/ix_index_handle.cpp.
use Prim.Native.Nat.{Ordering}
use grmdb.Base.{
  ℕ, zero, suc, ◌+◌, ◌-◌, ◌/◌, true, false, Option, none, some, ite, ltb, leb, if◌then◌else◌,
}
use grmdb.Base.Int.{ℤ, pos, ℤ_discrete}
use grmdb.Defs.{Rid}
use grmdb.Index.Node.{IxNode, copy, insert}
use grmdb.Index.Tree.{
  IxIndex, ix_no_page, node_at, set_node, is_root_page, child_rid, fetch_node, unpin_node_page,
  create_node, maintain_children,
}
use grmdb.Index.Tree.Find.{find_leaf_page}

-- `memset` of n items of an array from dest on.
abbrev pub fill {ℓ} : {A : Type ℓ} → ℕ → A → ℕ → (ℕ → A) → ℕ → A
fill dest x n a i = if ltb i dest then a i else if ltb i (dest + n) then x else a i

module _ {K : Type 0} (zero_key : K) where
  -- The left node, once the pairs from left_size on have gone to the right one.
  unfoldable pub left_half : IxNode K → IxNode K
  left_half node =
      let left_size = node.num_key / 2 in
      let right_size = node.num_key - left_size in
      record node {
        num_key = left_size;
        keys = fill left_size zero_key right_size node.keys;
        rids = fill left_size (child_rid (pos 0)) right_size node.rids;
      }

  -- The right node, in the fresh node.
  unfoldable pub right_half : IxNode K → IxNode K → IxNode K
  unfolding copy
  right_half node fresh =
      let left_size = node.num_key / 2 in
      let right_size = node.num_key - left_size in
      record fresh {
        parent = node.parent;
        num_key = right_size;
        is_leaf = node.is_leaf;
        keys = copy 0 node.keys left_size right_size fresh.keys;
        rids = copy 0 node.rids left_size right_size fresh.rids;
      }

  -- The links of a leaf p that splits into p and q.
  unfoldable pub link_leaf : IxIndex K → ℤ → ℤ → IxIndex K
  unfolding unpin_node_page fetch_node
  link_leaf ix p q =
      let next = (node_at ix p).next_leaf in
      let right = set_node ix q (record (node_at ix q) { prev_leaf = p; next_leaf = next }) in
      let left = set_node right p (record (node_at right p) { next_leaf = q }) in
      let fetched = fetch_node left (node_at left q).next_leaf in
      let next_node = set_node fetched next (record (node_at fetched next) { prev_leaf = q }) in
      let linked = unpin_node_page next_node next true in
      record linked { last_leaf = ite (ℤ_discrete p ix.last_leaf) q ix.last_leaf }

  -- The right node of p, which is left pinned. The source links the leaves between the counts and
  -- the pairs of the two nodes, which the links do not read.
  unfoldable pub split : IxIndex K → ℤ → ℤ × IxIndex K
  unfolding create_node left_half right_half link_leaf maintain_children
  split ix p =
      let (q, created) = create_node zero_key ix in
      let node = node_at created p in
      let right = set_node created q (right_half node (node_at created q)) in
      let halves = set_node right p (left_half node) in
      let linked = if node.is_leaf then link_leaf halves p q else halves in
      (q, if node.is_leaf then linked else maintain_children linked q 0 (node_at linked q).num_key)

module _ {K : Type 0} (cmp : K → K → Ordering) (same_bytes : Discrete K) (zero_key : K) where
  -- The first pair of a new root has no key.
  unfoldable pub root_node : IxNode K → ℤ → IxNode K
  root_node fresh old = record fresh {
    parent = ix_no_page;
    is_leaf = false;
    num_key = suc fresh.num_key;
    rids = λ i. if leb i 0 then child_rid old else fresh.rids i;
  }

  -- A root is split: `none` is the error of `insert`.
  unfoldable pub grow_root : IxIndex K → ℤ → K → ℤ → Option (IxIndex K)
  unfolding create_node root_node
  grow_root ix old key new =
      let (p, created) = create_node zero_key ix in
      let rooted = record (set_node created p (root_node (node_at created p) old)) {
        root_page = p;
      } in
      let left = set_node rooted old (record (node_at rooted old) { parent = p }) in
      let right = set_node left new (record (node_at left new) { parent = p }) in
      elim (insert cmp same_bytes (node_at right p) key (child_rid new)) [
        | none ↦ none
        | some node ↦ some (
            unpin_node_page
              (unpin_node_page (unpin_node_page (set_node right p node) p true) old true) new true)
      ]

  -- The outer `none` is fuel that runs out, which a height of the tree is enough for; the inner one
  -- is the error of `insert`.
  unfoldable pub insert_into_parent : ℕ → IxIndex K → ℤ → K → ℤ → Option (Option (IxIndex K))
  unfolding grow_root split
  insert_into_parent zero ix old key new = none
  insert_into_parent (suc fuel) ix old key new =
      let p = (node_at ix old).parent in
      let fetched = fetch_node ix p in
      let inserted = insert cmp same_bytes (node_at fetched p) key (child_rid new) in
      let changed : IxIndex K = elim inserted [
        | none ↦ fetched
        | some node ↦ set_node fetched p node
      ] in
      let (q, halved) = split zero_key changed p in
      let new_key = (node_at halved q).keys 0 in
      let above =
        insert_into_parent fuel (unpin_node_page (unpin_node_page halved old true) new true) p
          new_key q in
      if is_root_page (node_at ix old) then some (grow_root ix old key new) else elim inserted [
        | none ↦ some none
        | some node ↦
            if ltb changed.btree_order node.num_key
            then above
            else some (
                some (
                  unpin_node_page (unpin_node_page (unpin_node_page changed old true) new true) p
                    true))
      ]

  -- The first entry of an empty tree.
  unfoldable pub insert_first : IxIndex K → K → Rid → Option (ℤ × IxIndex K)
  unfolding create_node
  insert_first ix key value =
      let (p, created) = create_node zero_key ix in
      let leaf = record (node_at created p) {
        is_leaf = true;
        parent = ix_no_page;
        next_leaf = p;
        prev_leaf = p;
      } in
      elim (insert cmp same_bytes leaf key value) [
        | none ↦ none
        | some node ↦ some (
          p,
          unpin_node_page
              (record (set_node created p node) { root_page = p; first_leaf = p; last_leaf = p }) p
              true,
        )
      ]

  -- The leaf that has been found, which stays pinned where it is not split.
  unfoldable pub insert_in_leaf : ℕ → IxIndex K → ℤ → K → Rid → Option (Option (ℤ × IxIndex K))
  unfolding insert_into_parent split
  insert_in_leaf fuel ix p key value = elim (insert cmp same_bytes (node_at ix p) key value) [
    | none ↦ some none
    | some node ↦
        let changed = set_node ix p node in
        let (q, halved) = split zero_key changed p in
        let above = insert_into_parent fuel halved p ((node_at halved q).keys 0) q in
        if leb ix.btree_order (node_at ix p).num_key
        then elim above [
          | none ↦ none
          | some none ↦ some none
          | some (some grown) ↦ some (some (p, grown))
        ]
        else some (some (p, changed))
  ]

  unfoldable pub insert_entry : ℕ → IxIndex K → K → Rid → Option (Option (ℤ × IxIndex K))
  unfolding insert_first insert_in_leaf find_leaf_page
  insert_entry fuel ix key value =
      ite (ℤ_discrete ix.root_page ix_no_page) (some (insert_first ix key value))
        (elim (find_leaf_page cmp same_bytes key fuel ix) [
          | none ↦ none
          | some (p, found) ↦ insert_in_leaf fuel found p key value
        ])
