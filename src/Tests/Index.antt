-- ===== src/Tests/Index.antt =====
-- Runs of the B+ tree on concrete nodes and trees, with numbers for keys.
use Prim.Native.Nat.{compare}
use grmdb.Base.{
  sym, ap, ◌∙◌, ℕ, zero, suc, ◌+◌, ◌*◌, ◌≡◌, ◌≢◌, ◌<◌, refl, List, Bool, true, false, not, none,
  some, arith, ℕ_discrete, inl, Option, if◌then◌else◌, ◌==◌,
}
use grmdb.Base.Int.{pos_part, ℤ, pos, negsuc}
use grmdb.Defs.{Rid}
use grmdb.Index.Search.{linear_search}
use grmdb.Index.Key.Order.{is_lt, is_gt, IsOrder}
use grmdb.Index.Node.{IxNode, lower_bound, upper_bound, insert, remove}
use grmdb.Index.Node.Sorted.{IsSorted, HasKeys, bounds-eq-linear_search}
use grmdb.Index.Node.Insert.{Inserted, insert-Inserted}
use grmdb.Index.Node.Erase.{Removed, remove-Removed}
use grmdb.Index.Tree.{IxIndex, zeroed, child_rid}
use grmdb.Index.Tree.Find.{find_leaf_page, get_value}
use grmdb.Index.Tree.Grow.{insert_entry, left_half, right_half, root_node}
use grmdb.Index.Tree.Ordered.{IsTree, InTree, low, high}
use grmdb.Index.Tree.Ordered.Lookup.{nodes, IsLeafOf, find_leaf_page-IsLeafOf}
use grmdb.Index.Tree.Ordered.Frame.{IsProper}
use grmdb.Index.Tree.Ordered.Entry.{Entered, insert_entry-Entered}
use grmdb.Index.Tree.Ordered.Value.{Answers, get_value-Answers}
use grmdb.Index.Tree.Split.{Splits, split-Splits}
use grmdb.Index.Tree.Root.{HasTwo, insert-root_node}

number-IsOrder : IsOrder compare
number-IsOrder = record {
  same = λ a b e. ground arith;
  self = λ a. ground arith;
  flip = λ a b. ground arith;
  chain = λ a b c p q. ground arith;
}

-- The leaf of n pairs from a key on.
abbrev leaf_from : ℕ → ℕ → IxNode ℕ
leaf_from first n = record {
  parent = pos 1;
  num_key = n;
  is_leaf = true;
  prev_leaf = pos 2;
  next_leaf = pos 3;
  keys = λ i. first + i;
  rids = λ i. child_rid (pos (first + i));
}

leaf_from-IsSorted : (first n : ℕ) → IsSorted compare (leaf_from first n)
leaf_from-IsSorted first n i j p q h = ground arith

abbrev leaf : IxNode ℕ
leaf = leaf_from 10 3

some_keys : HasKeys compare leaf
some_keys = omega arith

bounds-eq-linear_search_example :
    (lower_bound compare ℕ_discrete leaf 11 ≡ linear_search (λ m. is_lt (compare (10 + m) 11)) 3 0)
    × (upper_bound compare ℕ_discrete leaf 11
        ≡ linear_search (λ m. not (is_gt (compare (10 + m) 11))) 3 0)
bounds-eq-linear_search_example =
    bounds-eq-linear_search compare number-IsOrder ℕ_discrete leaf (leaf_from-IsSorted 10 3) 11
      some_keys

insert-Inserted_example :
    Inserted compare number-IsOrder ℕ_discrete leaf
      (leaf_from-IsSorted 10 3)
      20
      (child_rid (pos 0))
      (insert compare ℕ_discrete leaf 20 (child_rid (pos 0)))
insert-Inserted_example =
    insert-Inserted compare number-IsOrder ℕ_discrete leaf (leaf_from-IsSorted 10 3) 20
      (child_rid (pos 0)) (inl some_keys)

remove-Removed_example :
    Removed compare number-IsOrder leaf
      (leaf_from-IsSorted 10 3)
      ℕ_discrete
      11
      (remove compare ℕ_discrete leaf 11)
remove-Removed_example =
    remove-Removed compare number-IsOrder leaf (leaf_from-IsSorted 10 3) ℕ_discrete 11 some_keys

split-Splits_example :
    Splits 0 compare leaf (zeroed 0) (left_half 0 leaf) (right_half 0 leaf (zeroed 0))
split-Splits_example =
    split-Splits 0 compare leaf (zeroed 0) refl (leaf_from-IsSorted 10 3) (omega arith)

abbrev right_leaf : IxNode ℕ
right_leaf = leaf_from 20 2

abbrev five : ℕ
five = 5

abbrev two_children : Option (IxNode ℕ)
two_children =
    insert compare ℕ_discrete (root_node compare ℕ_discrete 0 (zeroed 0) (pos 2)) five
      (child_rid (pos 3))

insert-root_node_example :
    (five ≢ 0 → HasTwo compare number-IsOrder ℕ_discrete 0 five (pos 2) (pos 3) two_children)
    × (five ≡ 0 → two_children ≡ none)
insert-root_node_example = insert-root_node compare number-IsOrder ℕ_discrete 0 five (pos 2) (pos 3)

-- A root with two leaves.
abbrev root : IxNode ℕ
root = record {
  parent = negsuc 0;
  num_key = 2;
  is_leaf = false;
  prev_leaf = pos 0;
  next_leaf = pos 0;
  keys = λ i. 20 * i;
  rids = λ i. child_rid (pos (i + 2));
}

abbrev tree_node : ℕ → IxNode ℕ
tree_node p = if p == 1 then root else if p == 2 then leaf_from 10 3 else leaf_from 20 2

abbrev store : ℤ → IxNode ℕ
store (pos p) = tree_node p
store (negsuc p) = leaf_from 20 2

abbrev index : IxIndex ℕ
index = record {
  root_page = pos 1;
  first_leaf = pos 2;
  last_leaf = pos 3;
  num_pages = pos 4;
  btree_order = 6;
  pages = λ p. record { node = store p; pin_count = 0; is_dirty = false };
  next_page = pos 4;
}

child-IsTree :
    (i : ℕ) → i < 2 → IsTree compare store 0 (low none root i) (high none root i) (pos (i + 2))
child-IsTree zero h = (refl, leaf_from-IsSorted 10 3, omega arith, λ i p. (tt, ground arith))
child-IsTree (suc zero) h = (refl, leaf_from-IsSorted 20 2, omega arith, λ i p. (ground arith, tt))
child-IsTree (suc (suc i)) h = absurd (omega arith)

index-IsTree : IsTree compare store 1 none none (pos 1)
index-IsTree = (refl, (λ i j p q h. ground arith), omega arith, child-IsTree, λ i p q. (tt, tt))

find_leaf_page-IsLeafOf_example :
    (q : ℤ) × (found : IxIndex ℕ) × (find_leaf_page compare ℕ_discrete 21 2 index ≡ some (q, found))
    × (nodes found ≡ nodes index)
    × IsLeafOf compare number-IsOrder ℕ_discrete 21 (nodes index) 1 (pos 1) q
find_leaf_page-IsLeafOf_example =
    find_leaf_page-IsLeafOf compare number-IsOrder ℕ_discrete 21 1 index index-IsTree

get_value-Answers_example :
    (result : Bool × List Rid × IxIndex ℕ) × (get_value compare ℕ_discrete 21 2 2 index
      ≡ some result)
    × Answers
        ((q : ℤ) → (store q).keys (store q).num_key ≢ 21)
        (InTree compare (nodes index) 1 (pos 1) 21)
        index
        result
get_value-Answers_example =
    get_value-Answers compare number-IsOrder ℕ_discrete 21 0 1 index index-IsTree

index-IsProper : IsProper store 1 (pos 1)
index-IsProper = (
  (λ i h e. ground (arith, ap pos_part e)),
  (λ i j q p h e e'. ground (arith, ap pos_part (sym e ∙ e'))),
  λ i h. tt,
)

room_in_leaves : (q : ℤ) → (store q).is_leaf ≡ true → (store q).num_key < 6
room_in_leaves (pos p) e = ground arith
room_in_leaves (negsuc p) e = ground arith

insert_entry-Entered_example :
    (result : Option (ℤ × IxIndex ℕ)) × (insert_entry compare ℕ_discrete 0 2 index 25
        (child_rid (pos 9))
      ≡ some result)
    × Entered compare number-IsOrder ℕ_discrete 25 0 (child_rid (pos 9)) 1 index result
insert_entry-Entered_example =
    insert_entry-Entered compare number-IsOrder ℕ_discrete 25 0 (child_rid (pos 9)) 1 index
      (λ e. ground (arith, ap pos_part e)) index-IsTree index-IsProper room_in_leaves
