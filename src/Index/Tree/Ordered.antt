-- ===== src/Index/Tree/Ordered.antt =====
-- Trees with their keys in order, what they hold, and the leaf that `find_leaf_page` finds.
pub mod Child
pub mod Lookup
pub mod Value
pub mod Frame
pub mod Grown
pub mod Entry
use Prim.Native.Nat.{Ordering}
use grmdb.Base.{
  ℕ, zero, suc, ◌+◌, ◌-◌, ◌≤◌, ◌<◌, ◌≡◌, ◌≢◌, refl, sym, ap, subst, ◌∙◌, ◌↔◌, ◌⊎◌, inl, inr, Bool,
  true, false, Option, none, some, arith, ltb, leb, if◌then◌else◌,
}
use grmdb.Base.Int.{ℤ}
use grmdb.Defs.{Rid}
use grmdb.Index.Key.Order.{is_lt}
use grmdb.Index.Node.{IxNode, first_key}
use grmdb.Index.Node.Sorted.{IsSorted, HasKeys, Holds}
use grmdb.Index.Tree.{value_at}

module _ {K : Type 0} where
  -- The bounds of the child at a position, from those of the node.
  abbrev pub low : Option K → IxNode K → ℕ → Option K
  low lo node i = if leb i 0 then lo else some (node.keys i)

  abbrev pub high : Option K → IxNode K → ℕ → Option K
  high hi node i = if ltb (i + 1) node.num_key then some (node.keys (i + 1)) else hi

module _ {K : Type 0} (cmp : K → K → Ordering) where
  -- The key is not below a bound; the key is below a bound.
  abbrev pub Above : Option K → K → Type 0
  Above none key = Unit
  Above (some low) key = is_lt (cmp key low) ≡ false

  abbrev pub Below : Option K → K → Type 0
  Below none key = Unit
  Below (some high) key = is_lt (cmp key high) ≡ true

  -- The page is the root of a tree of a height, with its keys in order and between two bounds.
  abbrev pub IsTree : (ℤ → IxNode K) → ℕ → Option K → Option K → ℤ → Type 0
  IsTree nodes zero lo hi p =
      ((nodes p).is_leaf ≡ true)
      × IsSorted cmp (nodes p)
      × HasKeys cmp (nodes p)
      × ((i : ℕ)
          → i < (nodes p).num_key
          → Above lo ((nodes p).keys i) × Below hi ((nodes p).keys i))
  IsTree nodes (suc height) lo hi p =
      ((nodes p).is_leaf ≡ false)
      × IsSorted cmp (nodes p)
      × HasKeys cmp (nodes p)
      × ((i : ℕ)
          → i < (nodes p).num_key
          → IsTree nodes height (low lo (nodes p) i) (high hi (nodes p) i) (value_at (nodes p) i))
      × ((i : ℕ)
          → 1 ≤ i
          → i < (nodes p).num_key
          → Above lo ((nodes p).keys i) × Below hi ((nodes p).keys i))

  -- A leaf of the tree holds the key, with the rid.
  abbrev pub InTree : (ℤ → IxNode K) → ℕ → ℤ → K → Rid → Type 0
  InTree nodes zero p key rid = Holds cmp (nodes p) key rid
  InTree nodes (suc height) p key rid =
      (i : ℕ) × (i < (nodes p).num_key) × InTree nodes height (value_at (nodes p) i) key rid
