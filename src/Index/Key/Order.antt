-- ===== src/Index/Key/Order.antt =====
-- A total order by comparison, which the nodes of an index take as a parameter.
use Prim.Native.Nat.{Ordering}
use grmdb.Base.{Bool, true, false, ◌≡◌, ◌≢◌, ◌⊎◌, inl, inr, refl, sym, ap, ◌∙◌, arith, Bool-cases}

abbrev pub is_lt : Ordering → Bool
is_lt Ordering.lt = true
is_lt _ = false

abbrev pub is_gt : Ordering → Bool
is_gt Ordering.gt = true
is_gt _ = false

pub record IsOrder {K : Type 0} (cmp : K → K → Ordering) : Type 0 where
  pub same : (a b : K) → cmp a b ≡ Ordering.eq → a ≡ b
  pub self : (a : K) → cmp a a ≡ Ordering.eq
  pub flip : (a b : K) → is_gt (cmp a b) ≡ is_lt (cmp b a)
  pub chain : (a b c : K) → is_lt (cmp a b) ≡ true → is_lt (cmp b c) ≡ true → is_lt (cmp a c) ≡ true

pub Ordering-cases : (o : Ordering) → (o ≡ Ordering.lt) ⊎ (o ≡ Ordering.eq) ⊎ (o ≡ Ordering.gt)
Ordering-cases Ordering.lt = inl refl
Ordering-cases Ordering.eq = inr (inl refl)
Ordering-cases Ordering.gt = inr (inr refl)

module _ {K : Type 0} {cmp : K → K → Ordering} (order : IsOrder cmp) where
  pub irreflexive : (a b : K) → a ≡ b → is_lt (cmp a b) ≡ false
  irreflexive a b e = rw (← e) (rw (order.self a) refl)

  -- What is not below a key, and is not the key, is above it.
  pub above : (a b : K) → is_lt (cmp a b) ≡ false → a ≢ b → is_lt (cmp b a) ≡ true
  above a b low other = elim (Ordering-cases (cmp a b)) [
    | inl lt ↦ absurd (cc)
    | inr (inl eq) ↦ absurd (other (order.same a b eq))
    | inr (inr gt) ↦ sym (order.flip a b) ∙ ap is_gt gt
  ]

  pub le_chain :
      (a b c : K) → is_lt (cmp a b) ≡ true → is_gt (cmp b c) ≡ false → is_gt (cmp a c) ≡ false
  le_chain a b c lt le = ground (arith, order.flip a c, order.flip b c, order.chain c a b)

  -- A key that is above another is not below it.
  pub asymmetric : (a b : K) → is_lt (cmp a b) ≡ true → is_lt (cmp b a) ≡ false
  asymmetric a b lt = elim (Bool-cases (is_lt (cmp b a))) [
    | inr le ↦ le
    | inl gt ↦ ground (arith, order.chain a b a lt gt, irreflexive a a refl)
  ]
