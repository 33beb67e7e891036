-- ===== src/Index/Tree.antt =====
-- IxIndexHandle of src/index/ix_index_handle.h and .cpp with IxFileHdr of ix_defs.h: the pages of a
-- B+ tree, each with the node in it and with its pin count and dirty flag in the buffer pool. The
-- pool finds a frame for each page that is asked for; what it does otherwise is its own model. Page
-- numbers are not used again, so what a deleted page holds is not read.
pub mod Find
pub mod Grow
pub mod Shrink
pub mod Iid
pub mod Ordered
pub mod Split
pub mod Move
pub mod Join
pub mod Root
use Prim.Native.Nat.{Ordering}
use grmdb.Base.{
  ℕ, zero, suc, ◌+◌, ◌-◌, List, [], ◌∷◌, Bool, true, false, ◌||◌, ite, ltb, if◌then◌else◌,
}
use grmdb.Base.Int.{ℤ, pos, negsuc, incr, decr, ℤ_discrete}
use grmdb.Defs.{Rid}
use grmdb.Index.Node.{IxNode}

abbrev pub ix_no_page : ℤ
ix_no_page = negsuc 0

pub record IxPage (K : Type 0) : Type 0 where
  pub node : IxNode K
  pub pin_count : ℕ
  pub is_dirty : Bool

-- The fields of the file header that change, the order of the tree, the pages of the file, and the
-- number that the disk manager gives to the next page.
pub record IxIndex (K : Type 0) : Type 0 where
  pub root_page : ℤ
  pub first_leaf : ℤ
  pub last_leaf : ℤ
  pub num_pages : ℤ
  pub btree_order : ℕ
  pub pages : ℤ → IxPage K
  pub next_page : ℤ

-- The rid that an inner node has for a child.
abbrev pub child_rid : ℤ → Rid
child_rid p = record { page_no = p; slot_no = pos 0 }

-- The node of a page of zeros.
abbrev pub zeroed : {K : Type 0} → K → IxNode K
zeroed zero_key = record {
  parent = pos 0;
  num_key = 0;
  is_leaf = false;
  prev_leaf = pos 0;
  next_leaf = pos 0;
  keys = λ _. zero_key;
  rids = λ _. child_rid (pos 0);
}

module _ {K : Type 0} where
  unfoldable pub update_page : IxIndex K → ℤ → (IxPage K → IxPage K) → IxIndex K
  update_page ix p f = record ix { pages = λ q. ite (ℤ_discrete p q) (f (ix.pages p)) (ix.pages q) }

  -- A change that is made through a node handle.
  abbrev pub set_node : IxIndex K → ℤ → IxNode K → IxIndex K
  set_node ix p n = update_page ix p (λ page. record page { node = n })

  abbrev pub node_at : IxIndex K → ℤ → IxNode K
  node_at ix p = (ix.pages p).node

  abbrev pub is_root_page : IxNode K → Bool
  is_root_page node = elim node.parent [
    | pos _ ↦ false
    | negsuc zero ↦ true
    | negsuc (suc _) ↦ false
  ]

  -- The child at a position.
  abbrev pub value_at : IxNode K → ℕ → ℤ
  value_at node i = (node.rids i).page_no

  unfoldable pub fetch_node : IxIndex K → ℤ → IxIndex K
  unfolding update_page
  fetch_node ix p = update_page ix p (λ page. record page { pin_count = suc page.pin_count })

  -- A page that is not pinned is left as it is.
  unfoldable pub unpin_node_page : IxIndex K → ℤ → Bool → IxIndex K
  unfolding update_page
  unpin_node_page ix p is_dirty = update_page ix p (λ page. record page {
    pin_count = page.pin_count - 1;
    is_dirty = if ltb 0 page.pin_count then page.is_dirty || is_dirty else page.is_dirty;
  })

  -- The page that `new_page` gives is zeroed, and pinned.
  unfoldable pub create_node : K → IxIndex K → ℤ × IxIndex K
  unfolding update_page
  create_node zero_key ix =
      let p = ix.next_page in
      (
        p,
        record (update_page ix p
            (λ page. record { node = zeroed zero_key; pin_count = 1; is_dirty = false })) {
              num_pages = incr ix.num_pages;
              next_page = incr p;
            },
      )

  unfoldable pub release_node_handle : IxIndex K → ℤ → IxIndex K
  unfolding unpin_node_page
  release_node_handle ix p =
      let unpinned = unpin_node_page ix p true in
      record unpinned { num_pages = decr unpinned.num_pages }

  unfoldable pub maintain_child : IxIndex K → ℤ → ℕ → IxIndex K
  unfolding update_page fetch_node unpin_node_page
  maintain_child ix p child_idx =
      let node = node_at ix p in
      let child = value_at node child_idx in
      let fetched = fetch_node ix child in
      let changed = set_node fetched child (record (node_at fetched child) { parent = p }) in
      if node.is_leaf then ix else unpin_node_page changed child true

  -- From a position on, a number of times.
  unfoldable pub maintain_children : IxIndex K → ℤ → ℕ → ℕ → IxIndex K
  unfolding maintain_child
  maintain_children ix p i zero = ix
  maintain_children ix p i (suc n) = maintain_children (maintain_child ix p i) p (i + 1) n
