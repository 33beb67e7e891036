-- ===== src/Base/Options.antt =====
-- A chain of steps of which each may fail, and what follows where it does not.
use mathlib.Core.Path.{◌≡◌, refl}
use mathlib.Core.Option.{Option, none, some}

infixl 5 ◌>>=◌
abbrev pub ◌>>=◌ {ℓ κ} : {A : Type ℓ} {B : Type κ} → Option A → (A → Option B) → Option B
none >>= f = none
some a >>= f = f a

pub some_injective : {A : Type 0} (a b : A) → some a ≡ some b → a ≡ b
some_injective a b h = cc

pub bind_some :
    {A B : Type 0} (m : Option A) (f : A → Option B) (b : B)
    → (m >>= f) ≡ some b
    → (a : A) × (m ≡ some a) × (f a ≡ some b)
bind_some none f b h = cc
bind_some (some a) f b h = (a, refl, h)

pub bind_all :
    {A B : Type 0} (P : B → Type 0) (m : Option A) (f : A → Option B) (b : B)
    → ((a : A) → m ≡ some a → f a ≡ some b → P b)
    → (m >>= f) ≡ some b
    → P b
bind_all P none f b each h = absurd (cc)
bind_all P (some a) f b each h = each a refl h
