-- ===== src/Common/Texts.antt =====
-- Parts of texts.
use Prim.Native.Nat.{ℕ, zero, suc, Ordering}
use Prim.Native.Char.{code}
use Prim.Native.String.{String, ◌++◌, compare as compared}
use Prim.Native.String.append
use Prim.Native.String.compare
use mathlib.Core.Bool.{Bool, true, false, ◌&&◌, ◌||◌}
use mathlib.Core.List.{List, [], ◌∷◌}
use mathlib.Core.Path.{◌≡◌, refl, ap, ◌∙◌}
use text.Mathlib.Text.{◌==◌}
use toqar.Common.Tests.{eqb}

-- `s.slice(0, n)`.
abbrev pub slice_to : ℕ → String → String
slice_to zero s = String.[]
slice_to (suc n) String.[] = String.[]
slice_to (suc n) (String.◌∷◌ c s) = String.◌∷◌ c (slice_to n s)

abbrev pub slice_from : ℕ → String → String
slice_from zero s = s
slice_from (suc n) String.[] = String.[]
slice_from (suc n) (String.◌∷◌ c s) = slice_from n s

abbrev pub codes : String → List ℕ
codes String.[] = []
codes (String.◌∷◌ c s) = code c ∷ codes s

abbrev pub starts_with : (part whole : List ℕ) → Bool
starts_with [] cs = true
starts_with (p ∷ ps) [] = false
starts_with (p ∷ ps) (c ∷ cs) = eqb p c && starts_with ps cs

abbrev pub occurs : (part whole : List ℕ) → Bool
occurs ps [] = starts_with ps []
occurs ps (c ∷ cs) = starts_with ps (c ∷ cs) || occurs ps cs

-- `whole.includes(part)`.
abbrev pub has_part : (whole part : String) → Bool
has_part whole part = occurs (codes part) (codes whole)

-- `texts.join(between)`.
abbrev pub join : String → List String → String
join between [] = ""
join between (s ∷ []) = s
join between (s ∷ t ∷ ss) = s ++ (between ++ join between (t ∷ ss))

-- A text that starts with one that is not empty is not empty.
pub filled-append : (s t : String) → (s == "") ≡ false → ((s ++ t) == "") ≡ false
filled-append String.[] t h = cc
filled-append (String.◌∷◌ c s) t h =
    let onward : (String.◌∷◌ c s) ++ t ≡ String.◌∷◌ c (s ++ t) = λ i. append.cons c s t i in
    let greater : compared (String.◌∷◌ c (s ++ t)) "" ≡ Ordering.gt =
      λ i. compare.cons-nil c (s ++ t) i in
    rw onward (rw greater refl)

pub append-empty : (s : String) → s ++ "" ≡ s
append-empty String.[] = λ i. append.nil String.[] i
append-empty (String.◌∷◌ c s) =
    let onward : (String.◌∷◌ c s) ++ "" ≡ String.◌∷◌ c (s ++ "") = λ i. append.cons c s "" i in
    onward ∙ ap (λ t. String.◌∷◌ c t) (append-empty s)
