-- ===== src/Index/Node.antt =====
-- IxNodeHandle of src/index/ix_index_handle.h and .cpp with IxPageHdr of ix_defs.h: a node of a B+
-- tree. The keys and the rids are arrays that go on past `num_key`, with what was left there. K is a
-- key, compared by `cmp`; `same_bytes` decides what `memcmp` of two keys decides.
pub mod Sorted
pub mod Insert
pub mod Erase
use Prim.Native.Nat.{Ordering}
use grmdb.Base.{
  ℕ, zero, suc, ◌+◌, ◌-◌, ◌≤◌, ◌<◌, Bool, true, false, Option, none, some, List, if◌then◌else◌, ltb,
  ◌==◌, ite, ◌&&◌, not, ℕ_discrete, holds,
}
use grmdb.Base.Int.{ℤ, negsuc}
use grmdb.Defs.{Rid}
use grmdb.Index.Search.{search}
use grmdb.Index.Key.Order.{is_lt, is_gt}

pub record IxNode (K : Type 0) : Type 0 where
  pub parent : ℤ
  pub num_key : ℕ
  pub is_leaf : Bool
  pub prev_leaf : ℤ
  pub next_leaf : ℤ
  pub keys : ℕ → K
  pub rids : ℕ → Rid

-- `memmove` of n items of an array from src to dest, and `memcpy` from another array.
unfoldable pub copy {ℓ} : {A : Type ℓ} → ℕ → (ℕ → A) → ℕ → ℕ → (ℕ → A) → ℕ → A
copy dest from src n to i =
    if ltb i dest then to i else if ltb i (dest + n) then from (src + (i - dest)) else to i

abbrev pub move {ℓ} : {A : Type ℓ} → ℕ → ℕ → ℕ → (ℕ → A) → ℕ → A
move dest src n a = copy dest a src n a

abbrev pub put_at {ℓ} : {A : Type ℓ} → ℕ → A → (ℕ → A) → ℕ → A
put_at pos x a i = if pos == i then x else a i

module _ {K : Type 0} where
  -- An inner node has no key at its first child.
  abbrev pub first_key : IxNode K → ℕ
  first_key node = if node.is_leaf then 0 else 1

  -- `num_key - pos` where it is positive.
  unfoldable pub insert_pairs : IxNode K → ℕ → (ℕ → K) → (ℕ → Rid) → ℕ → IxNode K
  unfolding copy
  insert_pairs node pos key rid n =
      let num_keys = node.num_key - pos in
      record node {
        keys = copy pos key 0 n (move (pos + pos) pos num_keys node.keys);
        rids = copy pos rid 0 n (move (pos + pos) pos num_keys node.rids);
        num_key = node.num_key + n;
      }

  -- The end of `insert`, once the position is found.
  unfoldable pub insert_pair_at : IxNode K → ℕ → K → Rid → IxNode K
  unfolding copy
  insert_pair_at node pos key value =
      let num_keys = node.num_key - pos in
      record node {
        keys = put_at pos key (move (pos + 1) pos num_keys node.keys);
        rids = put_at pos value (move (pos + 1) pos num_keys node.rids);
        num_key = suc node.num_key;
      }

  unfoldable pub erase_pair : IxNode K → ℕ → IxNode K
  unfolding copy
  erase_pair node pos =
      let key_nums = node.num_key - pos - 1 in
      record node {
        keys = move pos (pos + 1) key_nums node.keys;
        rids = move pos (pos + 1) key_nums node.rids;
        num_key = node.num_key - 1;
      }

module _ {K : Type 0} (cmp : K → K → Ordering) (same_bytes : Discrete K) where
  -- `none` is -1.
  unfoldable pub lower_bound : IxNode K → K → Option ℕ
  lower_bound node target =
      search (λ m. is_lt (cmp (node.keys m) target)) (first_key node) node.num_key

  unfoldable pub upper_bound : IxNode K → K → Option ℕ
  upper_bound node target =
      search (λ m. not (is_gt (cmp (node.keys m) target))) (first_key node) node.num_key

  unfoldable pub leaf_lookup : IxNode K → K → Option Rid
  leaf_lookup node key = elim (lower_bound node key) [
    | none ↦ none
    | some rid_idx ↦ elim (cmp (node.keys rid_idx) key) [
      | Ordering.eq ↦ some (node.rids rid_idx)
      | _ ↦ none
    ]
  ]

  -- The position of the child.
  unfoldable pub internal_lookup : IxNode K → K → ℕ
  internal_lookup node key = elim (lower_bound node key) [
    | none ↦ node.num_key - 1
    | some pos ↦ if holds (same_bytes (node.keys pos) key) then pos else pos - 1
  ]

  -- `none` is the IndexEntryExistsError.
  unfoldable pub insert : IxNode K → K → Rid → Option (IxNode K)
  insert node key value =
      let found : Option ℕ = if node.num_key == 0 then none else lower_bound node key in
      let past : ℕ = if node.num_key == 0 then 0 else node.num_key in
      elim found [
        | none ↦ some (insert_pair_at node past key value)
        | some pos ↦
            if holds (same_bytes (node.keys pos) key)
            then none
            else some (insert_pair_at node pos key value)
      ]

  -- What `remove` does with a key that `lower_bound` finds a position for; at -1 it reads in front
  -- of the keys.
  unfoldable pub remove_at : IxNode K → K → ℕ → IxNode K
  remove_at node key pos = elim (cmp key (node.keys pos)) [
    | Ordering.eq ↦ erase_pair node pos
    | _ ↦ node
  ]

  -- `none` where lower_bound returns -1, at which the source reads in front of the keys.
  unfoldable pub remove : IxNode K → K → Option (IxNode K)
  unfolding remove_at
  remove node key = elim (lower_bound node key) [
    | none ↦ none
    | some pos ↦ some (remove_at node key pos)
  ]
