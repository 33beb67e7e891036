-- ===== src/Execution/Projection/Fields.antt =====
-- What a projection makes of a record: the fields of the columns that are asked for, one behind
-- another.
use grmdb.Base.{
  ℕ, zero, suc, ◌+◌, ◌-◌, ◌≤◌, ◌≡◌, refl, sym, ap, subst, ◌∙◌, List, [], ◌∷◌, ◌++◌, take, drop,
  replicate, length, length-append, length-replicate, append_assoc, arith, map,
}
use grmdb.System.Meta.{ColMeta}
use grmdb.Transaction.Manager.{write_at}
use grmdb.Execution.Executor.{Executor, Starts}
use grmdb.Execution.Projection.{project, projected, projection, projection-Starts}

-- The field of a column in a record.
abbrev pub field : ColMeta → List ℕ → List ℕ
field col tuple = take col.len (drop col.offset tuple)

abbrev pub fields : List (ColMeta × ColMeta) → List ℕ → List ℕ
fields [] tuple = []
fields ((to, from) ∷ picked) tuple = field from tuple ++ fields picked tuple

-- The columns lie one behind another from an offset on, as long as those that they are copied from,
-- and these lie within the record; the offset behind them.
abbrev pub AreLaidOut : List (ColMeta × ColMeta) → List ℕ → ℕ → ℕ → Type 0
AreLaidOut [] tuple offset end = offset ≡ end
AreLaidOut ((to, from) ∷ picked) tuple offset end =
    (to.offset ≡ offset)
    × (to.len ≡ from.len)
    × (length (field from tuple) ≡ from.len)
    × AreLaidOut picked tuple (offset + to.len) end

take-front : (front old : List ℕ) → take (length front) (front ++ old) ≡ front
take-front [] old = refl
take-front (x ∷ front) old = ap (λ xs. x ∷ xs) (take-front front old)

drop-front : (front old : List ℕ) (n : ℕ) → drop (length front + n) (front ++ old) ≡ drop n old
drop-front [] old n = ap (λ k. drop k old) (omega arith)
drop-front (x ∷ front) old n =
    let e : suc (length front) + n ≡ suc (length front + n) = omega arith in
    ap (λ k. drop k (x ∷ (front ++ old))) e ∙ drop-front front old n

length-drop : (n : ℕ) (xs : List ℕ) → length (drop n xs) ≡ length xs - n
length-drop zero xs = omega arith
length-drop (suc n) [] = omega arith
length-drop (suc n) (x ∷ xs) = omega (arith, length-drop n xs)

drop_end : (xs : List ℕ) → drop (length xs) xs ≡ []
drop_end [] = refl
drop_end (x ∷ xs) = drop_end xs

write_at-front :
    (front old bytes : List ℕ)
    → write_at (front ++ old) (length front) bytes ≡ front ++ (bytes ++ drop (length bytes) old)
write_at-front front old bytes =
    ap (λ xs. xs ++ (bytes ++ drop (length front + length bytes) (front ++ old)))
      (take-front front old)
    ∙ ap (λ xs. front ++ (bytes ++ xs)) (drop-front front old (length bytes))

-- Zeros, and then bytes of the same length over them.
write_field :
    (front old bytes : List ℕ)
    → write_at
        (write_at (front ++ old) (length front) (replicate (length bytes) 0))
        (length front)
        bytes
      ≡ (front ++ bytes) ++ drop (length bytes) old
write_field front old bytes =
    let n = length bytes in
    let zeros = replicate n 0 in
    let zeros_length : length zeros ≡ n = length-replicate n 0 in
    ap (λ xs. write_at xs (length front) bytes)
      (write_at-front front old zeros ∙ ap (λ k. front ++ (zeros ++ drop k old)) zeros_length)
    ∙ write_at-front front (zeros ++ drop n old) bytes
    ∙ ap (λ k. front ++ (bytes ++ drop k (zeros ++ drop n old))) (sym zeros_length ∙ omega arith)
    ∙ ap (λ xs. front ++ (bytes ++ xs)) (drop-front zeros (drop n old) 0)
    ∙ sym (append_assoc front bytes (drop n old))

AreLaidOut-end :
    (picked : List (ColMeta × ColMeta)) (tuple : List ℕ) (offset end : ℕ)
    → AreLaidOut picked tuple offset end
    → offset ≤ end
AreLaidOut-end [] tuple offset end laid = omega (arith, laid)
AreLaidOut-end ((to, from) ∷ picked) tuple offset end (_, _, _, laid) =
    omega (arith, AreLaidOut-end picked tuple (offset + to.len) end laid)

project-fields :
    (picked : List (ColMeta × ColMeta)) (tuple front old : List ℕ) (end : ℕ)
    → AreLaidOut picked tuple (length front) end
    → length front + length old ≡ end
    → project picked tuple (front ++ old) ≡ front ++ fields picked tuple
unfolding project
project-fields [] tuple front [] end laid all = refl
project-fields [] tuple front (x ∷ old) end laid all = absurd (omega (arith, laid, all))
project-fields ((to, from) ∷ picked) tuple front old end (at, same, inside, laid) all =
    let bytes = field from tuple in
    let len_is : to.len ≡ length bytes = same ∙ sym inside in
    let wrote : write_at (write_at (front ++ old) to.offset (replicate to.len 0)) to.offset
          (take to.len (drop from.offset tuple))
        ≡ (front ++ bytes) ++ drop (length bytes) old =
      ap
        (λ k.
          write_at (write_at (front ++ old) k (replicate to.len 0)) k
            (take to.len (drop from.offset tuple)))
        at
      ∙ ap
          (λ k.
            write_at (write_at (front ++ old) (length front) (replicate k 0)) (length front)
              (take k (drop from.offset tuple)))
          same
      ∙ ap
          (λ k.
            write_at (write_at (front ++ old) (length front) (replicate k 0)) (length front) bytes)
          (sym inside)
      ∙ write_field front old bytes in
    let front_is : length front + to.len ≡ length (front ++ bytes) =
      omega (arith, len_is, length-append front bytes) in
    ap (project picked tuple) wrote
    ∙ project-fields picked tuple (front ++ bytes) (drop (length bytes) old) end
        (subst (λ k. AreLaidOut picked tuple k end) front_is laid)
        (omega (
          arith,
          length-append front bytes,
          length-drop (length bytes) old,
          all,
          len_is,
          AreLaidOut-end picked tuple (length front + to.len) end laid,
        ))
    ∙ append_assoc front bytes (fields picked tuple)

abbrev pub AllLaidOut : List (ColMeta × ColMeta) → ℕ → List (List ℕ) → Type 0
AllLaidOut picked len [] = Unit {0}
AllLaidOut picked len (tuple ∷ tuples) =
    AreLaidOut picked tuple 0 len × AllLaidOut picked len tuples

module _ (raw : ℕ → List ℕ) (prev : Executor) (picked : List (ColMeta × ColMeta)) (len : ℕ) where
  map-projected :
      (tuples : List (List ℕ))
      → length (raw len) ≡ len
      → AllLaidOut picked len tuples
      → map (projected raw prev picked len) tuples ≡ map (fields picked) tuples
  map-projected [] enough laid = refl
  map-projected (tuple ∷ tuples) enough (laid, rest) =
      ap (λ x. x ∷ map (projected raw prev picked len) tuples)
        (project-fields picked tuple [] (raw len) len laid (omega (arith, enough)))
      ∙ ap (λ xs. fields picked tuple ∷ xs) (map-projected tuples enough rest)

  -- A projection yields, of each record of its input, the fields of the columns that are asked for,
  -- one behind another, where the columns lie so and within the record; what the memory held before
  -- does not matter.
  pub projection-Starts-fields :
      (tuples : List (List ℕ)) (s : prev.State)
      → Starts prev s tuples
      → length (raw len) ≡ len
      → AllLaidOut picked len tuples
      → Starts (projection raw prev picked len) s (map (fields picked) tuples)
  projection-Starts-fields tuples s starts enough laid =
      subst (Starts (projection raw prev picked len) s) (map-projected tuples enough laid)
        (projection-Starts raw prev picked len tuples s starts)
