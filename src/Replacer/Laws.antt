-- ===== src/Replacer/Laws.antt =====
-- The replacer refines a list of distinct frames, most recently unpinned first: what victim, pin and
-- unpin do to that list, with the hash map and the nodes kept in step.
use grmdb.Base.{
  ℕ, suc, ◌≡◌, refl, true, false, List, [], ◌∷◌, ◌++◌, ◌⊎◌, inl, inr, none, some, arith, ℕ_discrete,
  contains, remove, Distinct, if◌then◌else◌, erase, lookup, lookup-erase, lookup-put,
  remove-Distinct, remove_absent, put, ap, Option-cases,
}
use grmdb.Replacer.{LruReplacer, init, back, pop_back, erase_node, victim, pin, unpin}
use grmdb.Replacer.Nodes.{
  frames_of, Below, node_of, node_of-contains, erase_node-Below, frames_of-erase_node,
  node_of-erase_node, pop_back-erase_node, node_of-back,
}

-- The frames that can be evicted, the next victim last.
abbrev pub frames : LruReplacer → List ℕ
frames r = frames_of r.lru_list

pub record IsLinked (r : LruReplacer) : Type 0 where
  pub fresh : Below r.next_node r.lru_list
  pub distinct : Distinct ℕ_discrete (frames r)
  pub hashed : (f : ℕ) → lookup ℕ_discrete f r.lru_hash ≡ node_of f r.lru_list

pub init-IsLinked : (n : ℕ) → IsLinked (init n)
unfolding init lookup node_of
init-IsLinked n = record { fresh = tt; distinct = tt; hashed = λ f. refl }

erased-IsLinked :
    (r : LruReplacer) (f n : ℕ)
    → IsLinked r
    → node_of f r.lru_list ≡ some n
    → IsLinked
        (record r { lru_list = erase_node n r.lru_list; lru_hash = erase ℕ_discrete f r.lru_hash })
erased-IsLinked r f n v e = record {
  fresh = erase_node-Below n r.next_node r.lru_list v.fresh;
  distinct =
      rw (frames_of-erase_node f n r.next_node r.lru_list v.fresh e)
        (remove-Distinct ℕ_discrete f (frames r) v.distinct);
  hashed = λ g. rw (
    lookup-erase ℕ_discrete f g r.lru_hash,
    v.hashed g,
    node_of-erase_node f g n r.next_node r.lru_list v.fresh v.distinct e,
  );
}

added-IsLinked :
    (r : LruReplacer) (f : ℕ)
    → IsLinked r
    → contains ℕ_discrete f (frames r) ≡ false
    → IsLinked (record r {
      lru_list = (r.next_node, f) ∷ r.lru_list;
      lru_hash = put ℕ_discrete f r.next_node r.lru_hash;
      next_node = suc r.next_node;
    })
unfolding node_of
added-IsLinked r f v absent = record {
  fresh = (omega arith, v.fresh);
  distinct = (absent, v.distinct);
  hashed = λ g. rw (lookup-put ℕ_discrete f g r.next_node r.lru_hash, v.hashed g);
}

frames_of-pop_back :
    (n f : ℕ) (l : List (ℕ × ℕ))
    → back l ≡ some (n, f)
    → frames_of l ≡ frames_of (pop_back l) ++ f ∷ []
unfolding back pop_back
frames_of-pop_back n f [] e = cc
frames_of-pop_back n f (x ∷ []) e = ground arith
frames_of-pop_back n f (x ∷ y ∷ l) e = ap (◌∷◌ x.1) (frames_of-pop_back n f (y ∷ l) e)

back-none : (l : List (ℕ × ℕ)) → back l ≡ none → frames_of l ≡ []
unfolding back
back-none [] e = refl
back-none (x ∷ []) e = cc
back-none (x ∷ y ∷ l) e = absurd (ground (arith, back-none (y ∷ l) e))

-- On a linked replacer, pin takes the frame off the list, wherever it stands.
pub frames-pin :
    (r : LruReplacer) (f : ℕ)
    → IsLinked r
    → IsLinked (pin r f) × (frames (pin r f) ≡ remove ℕ_discrete f (frames r))
unfolding pin
frames-pin r f v = elim (Option-cases (lookup ℕ_discrete f r.lru_hash)) [
  | inl e ↦
      rw (e, pin)
        (
          v,
          ground (
            arith,
            v.hashed f,
            node_of-contains f r.lru_list,
            remove_absent ℕ_discrete f (frames r),
          ),
        )
  | inr (n, e) ↦
      let at : node_of f r.lru_list ≡ some n = ground (arith, v.hashed f) in
      rw (e, pin)
        (erased-IsLinked r f n v at, frames_of-erase_node f n r.next_node r.lru_list v.fresh at)
]

-- On a linked replacer, unpin puts a frame that is not on the list at its front, and changes
-- nothing otherwise.
pub frames-unpin :
    (r : LruReplacer) (f : ℕ)
    → IsLinked r
    → IsLinked (unpin r f)
      × (frames (unpin r f) ≡ (if contains ℕ_discrete f (frames r) then frames r else f ∷ frames r))
unfolding unpin
frames-unpin r f v = elim (Option-cases (lookup ℕ_discrete f r.lru_hash)) [
  | inl e ↦
      let absent : contains ℕ_discrete f (frames r) ≡ false =
        ground (arith, v.hashed f, node_of-contains f r.lru_list) in
      rw (e, unpin) (added-IsLinked r f v absent, rw absent)
  | inr (n, e) ↦
      let present : contains ℕ_discrete f (frames r) ≡ true =
        ground (arith, v.hashed f, node_of-contains f r.lru_list) in
      rw (e, unpin) (v, rw present)
]

-- On a linked replacer, victim fails on the empty list only, and otherwise takes the last frame off.
pub frames-victim :
    (r : LruReplacer)
    → IsLinked r
    → IsLinked (victim r).1
      × (((frames r ≡ []) × (victim r ≡ (none, r)))
          ⊎ ((f : ℕ) × ((victim r).0 ≡ some f) × (frames r ≡ frames (victim r).1 ++ f ∷ [])))
unfolding victim
frames-victim r v = elim (Option-cases (back r.lru_list)) [
  | inl e ↦ rw (e, victim) (v, inl (back-none r.lru_list e, refl))
  | inr ((n, f), e) ↦
      rw (e, victim)
        (
          rw (pop_back-erase_node n f r.next_node r.lru_list v.fresh e)
              (erased-IsLinked r f n v (node_of-back n f r.lru_list v.distinct e)),
          inr (f, refl, frames_of-pop_back n f r.lru_list e),
        )
]
