-- ===== src/Common/Options.antt =====
-- Chains of steps that may give no result, and lists of them.
use mathlib.Core.Path.{◌≡◌, refl}
use mathlib.Core.Bool.{Bool, true, false}
use mathlib.Core.Option.{Option, none, some}
use mathlib.Core.List.{List, [], ◌∷◌, map}
use native.Mathlib.Omega.{arith}
use toqar.Common.Lists.{All}

infixl 5 ◌>>=◌ ◌>>◌
abbrev pub ◌>>=◌ {ℓ κ} : {A : Type ℓ} {B : Type κ} → Option A → (A → Option B) → Option B
none >>= f = none
some a >>= f = f a

abbrev pub ◌>>◌ {ℓ} : {B : Type ℓ} → Option (Unit {0}) → Option B → Option B
m >> k = m >>= λ _. k

pub bind-eq-some {ℓ κ} :
    {A : Type ℓ} {B : Type κ} (m : Option A) (f : A → Option B) {b : B}
    → (m >>= f) ≡ some b
    → (a : A) × (m ≡ some a) × (f a ≡ some b)
bind-eq-some none f h = cc
bind-eq-some (some a) f h = (a, refl, h)

abbrev pub guard : Bool → Option (Unit {0})
guard true = some tt
guard false = none

abbrev pub is_some {ℓ} : {A : Type ℓ} → Option A → Bool
is_some none = false
is_some (some a) = true

module _ {A B : Type 0} (f : A → Option B) where
  -- Every element, or nothing.
  unfoldable pub all_some : List A → Option (List B)
  all_some [] = some []
  all_some (x ∷ xs) = do y ← f x; ys ← all_some xs; some (y ∷ ys)

  pub all_some-map :
      (g : B → A) (ys : List B) → All (λ y. f (g y) ≡ some y) ys → all_some (map g ys) ≡ some ys
  unfolding all_some
  all_some-map g [] h = refl
  all_some-map g (y ∷ ys) (e, h) = ground (arith, all_some-map g ys h)
