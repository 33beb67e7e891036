-- ===== src/Index/Tree/Ordered/Frame.antt =====
-- Which pages a tree is on, and that a change of another page is no change of the tree.
use Prim.Native.Nat.{Ordering}
use grmdb.Base.{
  ℕ, zero, suc, ◌≤◌, ◌<◌, ◌≡◌, ◌≢◌, sym, subst, ◌↔◌, ◌⊎◌, inl, inr, true, false, Option,
}
use grmdb.Base.Int.{ℤ}
use grmdb.Defs.{Rid}
use grmdb.Index.Node.{IxNode}
use grmdb.Index.Node.Sorted.{IsSorted, HasKeys, Holds}
use grmdb.Index.Tree.{value_at}
use grmdb.Index.Tree.Ordered.{Above, Below, low, high, IsTree, InTree}

module _ {K : Type 0} where
  -- The pages of a tree.
  abbrev pub OnPage : (ℤ → IxNode K) → ℕ → ℤ → ℤ → Type 0
  OnPage store zero p q = q ≡ p
  OnPage store (suc height) p q =
      (q ≡ p) ⊎ ((i : ℕ) × (i < (store p).num_key) × OnPage store height (value_at (store p) i) q)

  -- No page is in a tree twice.
  abbrev pub IsProper : (ℤ → IxNode K) → ℕ → ℤ → Type 0
  IsProper store zero p = Unit
  IsProper store (suc height) p =
      ((i : ℕ) → i < (store p).num_key → OnPage store height (value_at (store p) i) p → ⊥)
      × ((i j : ℕ) (q : ℤ)
          → i < (store p).num_key
          → j < (store p).num_key
          → OnPage store height (value_at (store p) i) q
          → OnPage store height (value_at (store p) j) q
          → i ≡ j)
      × ((i : ℕ) → i < (store p).num_key → IsProper store height (value_at (store p) i))

  module _ (store store' : ℤ → IxNode K) (q : ℤ)
      (agree : (x : ℤ) → x ≢ q → store x ≡ store' x) where
    -- The node of the root of a tree that is not on the page is the same, and so are its children.
    not_root : (height : ℕ) (p : ℤ) → (OnPage store height p q → ⊥) → store p ≡ store' p
    not_root zero p off = agree p (λ e. off (sym e))
    not_root (suc height) p off = agree p (λ e. off (inl (sym e)))

    not_below :
        (height : ℕ) (p : ℤ) (i : ℕ)
        → (OnPage store (suc height) p q → ⊥)
        → i < (store p).num_key
        → OnPage store height (value_at (store p) i) q
        → ⊥
    not_below height p i off lt on = off (inr (i, lt, on))

    pub frame-InTree :
        (cmp : K → K → Ordering) (height : ℕ) (p : ℤ) (key : K) (rid : Rid)
        → (OnPage store height p q → ⊥)
        → InTree cmp store height p key rid ↔ InTree cmp store' height p key rid
    frame-InTree cmp zero p key rid off =
        let e = not_root zero p off in
        (subst (λ n. Holds cmp n key rid) e, subst (λ n. Holds cmp n key rid) (sym e))
    frame-InTree cmp (suc height) p key rid off =
        let e = not_root (suc height) p off in
        let below = λ (i : ℕ) (lt : i < (store p).num_key).
          frame-InTree cmp height (value_at (store p) i) key rid (not_below height p i off lt) in
        (
          λ (i, lt, held).
              subst
                (λ n. (j : ℕ) × (j < n.num_key) × InTree cmp store' height (value_at n j) key rid) e
                (i, lt, (below i lt).0 held),
          λ held'.
              let (i, lt, held) =
                subst
                  (λ n. (j : ℕ) × (j < n.num_key) × InTree cmp store' height (value_at n j) key rid)
                  (sym e) held' in
              (i, lt, (below i lt).1 held),
        )

    pub frame-IsTree :
        (cmp : K → K → Ordering) (height : ℕ) (lo hi : Option K) (p : ℤ)
        → (OnPage store height p q → ⊥)
        → IsTree cmp store height lo hi p
        → IsTree cmp store' height lo hi p
    frame-IsTree cmp zero lo hi p off tree =
        subst
          (λ n.
            (n.is_leaf ≡ true)
            × IsSorted cmp n
            × HasKeys cmp n
            × ((i : ℕ) → i < n.num_key → Above cmp lo (n.keys i) × Below cmp hi (n.keys i)))
          (not_root zero p off) tree
    frame-IsTree cmp (suc height) lo hi p off (inner, sorted, some_key, children, within) =
        subst
          (λ n.
            (n.is_leaf ≡ false)
            × IsSorted cmp n
            × HasKeys cmp n
            × ((i : ℕ)
                → i < n.num_key
                → IsTree cmp store' height (low lo n i) (high hi n i) (value_at n i))
            × ((i : ℕ) → 1 ≤ i → i < n.num_key → Above cmp lo (n.keys i) × Below cmp hi (n.keys i)))
          (not_root (suc height) p off)
          (
            inner,
            sorted,
            some_key,
            (λ i lt.
                frame-IsTree cmp height (low lo (store p) i) (high hi (store p) i)
                  (value_at (store p) i) (not_below height p i off lt) (children i lt)),
            within,
          )
