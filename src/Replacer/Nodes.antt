-- ===== src/Replacer/Nodes.antt =====
-- The node list of the replacer: what erasing a node does to the frames that the nodes hold.
use grmdb.Base.{
  ℕ, ◌<◌, ◌≡◌, refl, Bool, true, false, List, [], ◌∷◌, map, Option, none, some, arith, ite,
  ℕ_discrete, contains, remove, Distinct, if_neg,
}
use grmdb.Replacer.{back, pop_back, erase_node}

abbrev pub frames_of : List (ℕ × ℕ) → List ℕ
frames_of = map λ e. e.1

-- Node identities fall along the list and stay under the bound.
abbrev pub Below : ℕ → List (ℕ × ℕ) → Type 0
Below n [] = Unit {0}
Below n (e ∷ l) = (e.0 < n) × Below e.0 l

-- The node that holds a frame.
unfoldable pub node_of : ℕ → List (ℕ × ℕ) → Option ℕ
node_of f [] = none
node_of f (e ∷ l) = ite (ℕ_discrete e.1 f) (some e.0) (node_of f l)

pub Below-mono : (m n : ℕ) (l : List (ℕ × ℕ)) → m < n → Below m l → Below n l
Below-mono m n [] h b = tt
Below-mono m n (e ∷ l) h b = (omega arith, b.1)

pub node_of-lt : (f n b : ℕ) (l : List (ℕ × ℕ)) → Below b l → node_of f l ≡ some n → n < b
unfolding node_of
node_of-lt f n b [] h e = absurd (cc)
node_of-lt f n b (x ∷ l) h e = ground (arith, node_of-lt f n x.0 l h.1)

pub node_of-contains :
    (f : ℕ) (l : List (ℕ × ℕ))
    → contains ℕ_discrete f (frames_of l)
      ≡ elim (node_of f l) as (λ _. Bool) [ none ↦ false | some n ↦ true ]
unfolding node_of contains
node_of-contains f [] = refl
node_of-contains f (x ∷ l) = ground (arith, node_of-contains f l)

pub erase_node-Below : (n b : ℕ) (l : List (ℕ × ℕ)) → Below b l → Below b (erase_node n l)
unfolding erase_node
erase_node-Below n b [] h = tt
erase_node-Below n b (x ∷ l) h =
    ground (arith, erase_node-Below n x.0 l h.1, Below-mono x.0 b l h.0 h.1)

-- Erasing the node that holds f removes f from the frames.
pub frames_of-erase_node :
    (f n b : ℕ) (l : List (ℕ × ℕ))
    → Below b l
    → node_of f l ≡ some n
    → frames_of (erase_node n l) ≡ remove ℕ_discrete f (frames_of l)
unfolding node_of erase_node remove
frames_of-erase_node f n b [] h e = cc
frames_of-erase_node f n b (x ∷ l) h e =
    ground (arith, frames_of-erase_node f n x.0 l h.1, node_of-lt f n x.0 l h.1)

pub node_of-erase_node :
    (f g n b : ℕ) (l : List (ℕ × ℕ))
    → Below b l
    → Distinct ℕ_discrete (frames_of l)
    → node_of f l ≡ some n
    → node_of g (erase_node n l) ≡ ite (ℕ_discrete f g) none (node_of g l)
unfolding node_of erase_node
node_of-erase_node f g n b [] h d e = cc
node_of-erase_node f g n b (x ∷ l) h d e =
    ground (
      arith,
      node_of-erase_node f g n x.0 l h.1 d.1,
      node_of-lt f n x.0 l h.1,
      node_of-contains f l,
    )

back-lt : (n f b : ℕ) (l : List (ℕ × ℕ)) → Below b l → back l ≡ some (n, f) → n < b
unfolding back
back-lt n f b [] h e = absurd (cc)
back-lt n f b (x ∷ []) h e = ground arith
back-lt n f b (x ∷ y ∷ l) h e = omega (arith, back-lt n f x.0 (y ∷ l) h.1 e)

-- The last node is the one that erasing takes.
pub pop_back-erase_node :
    (n f b : ℕ) (l : List (ℕ × ℕ)) → Below b l → back l ≡ some (n, f) → pop_back l ≡ erase_node n l
unfolding back pop_back erase_node
pop_back-erase_node n f b [] h e = refl
pop_back-erase_node n f b (x ∷ []) h e = ground arith
pop_back-erase_node n f b (x ∷ y ∷ l) h e =
    let lower = back-lt n f x.0 (y ∷ l) h.1 e in
    rw (if_neg (ℕ_discrete x.0 n) (λ p. omega arith), pop_back-erase_node n f x.0 (y ∷ l) h.1 e)

back-contains :
    (n f : ℕ) (l : List (ℕ × ℕ)) → back l ≡ some (n, f) → contains ℕ_discrete f (frames_of l) ≡ true
unfolding back contains
back-contains n f [] e = cc
back-contains n f (x ∷ []) e = ground arith
back-contains n f (x ∷ y ∷ l) e = ground (arith, back-contains n f (y ∷ l) e)

pub node_of-back :
    (n f : ℕ) (l : List (ℕ × ℕ))
    → Distinct ℕ_discrete (frames_of l)
    → back l ≡ some (n, f)
    → node_of f l ≡ some n
unfolding back node_of
node_of-back n f [] d e = cc
node_of-back n f (x ∷ []) d e = ground arith
node_of-back n f (x ∷ y ∷ l) d e =
    ground (arith, node_of-back n f (y ∷ l) d.1 e, back-contains n f (y ∷ l) e)
