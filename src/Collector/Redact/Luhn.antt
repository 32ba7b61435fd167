-- ===== src/Collector/Redact/Luhn.antt =====
-- packages/collector/src/redact.ts: what the check of card numbers is good for.
use toqar.Common.{
  ℕ, ◌+◌, ◌-◌, ◌%◌, ◌≤◌, Bool, true, false, not, ◌&&◌, ◌||◌, List, [], ◌∷◌, ◌++◌, ◌≡◌, ◌≢◌, refl,
  sym, ap, ◌∙◌, if◌then◌else◌, ltb, eqb, length, all, arith, append_assoc, Bool-cases, inl, inr,
}
use toqar.Collector.Redact.{is_digit, doubled, luhn_sum, reversed, digits_of, luhn_digits}

luhn_sum-add : (alt : Bool) (ds : List ℕ) (s : ℕ) → luhn_sum alt ds s ≡ luhn_sum alt ds 0 + s
unfolding luhn_sum
luhn_sum-add alt [] s = omega arith
luhn_sum-add alt (d ∷ ds) s = omega (
  arith,
  luhn_sum-add (not alt) ds (s + (if alt then doubled d else d)),
  luhn_sum-add (not alt) ds (0 + (if alt then doubled d else d)),
)

abbrev weight : Bool → ℕ → ℕ
weight alt d = if alt then doubled d else d

weight_injective :
    (alt : Bool) (d e t : ℕ)
    → d ≤ 9
    → e ≤ 9
    → (t + weight alt d) % 10 ≡ (t + weight alt e) % 10
    → d ≡ e
weight_injective true d e t h k same = ground arith
weight_injective false d e t h k same = omega arith

luhn_sum_injective :
    (alt : Bool) (ps qs : List ℕ) (d e s : ℕ)
    → d ≤ 9
    → e ≤ 9
    → luhn_sum alt (ps ++ d ∷ qs) s % 10 ≡ luhn_sum alt (ps ++ e ∷ qs) s % 10
    → d ≡ e
unfolding luhn_sum
luhn_sum_injective alt [] qs d e s h k same =
    weight_injective alt d e (luhn_sum (not alt) qs 0 + s) h k (
      omega (
        arith,
        luhn_sum-add (not alt) qs (s + weight alt d),
        luhn_sum-add (not alt) qs (s + weight alt e),
      ))
luhn_sum_injective alt (p ∷ ps) qs d e s h k same =
    luhn_sum_injective (not alt) ps qs d e (s + weight alt p) h k same

digits_of-append : (xs ys : List ℕ) → digits_of (xs ++ ys) ≡ digits_of xs ++ digits_of ys
digits_of-append [] ys = refl
digits_of-append (x ∷ xs) ys = ap (λ t. (x - b'0') ∷ t) (digits_of-append xs ys)

reversed-middle :
    (xs ys out : List ℕ) (d : ℕ)
    → reversed (xs ++ d ∷ ys) out ≡ reversed ys [] ++ d ∷ reversed xs out
reversed-middle [] ys out d = reversed-out ys (d ∷ out)
  where
    reversed-out : (zs out : List ℕ) → reversed zs out ≡ reversed zs [] ++ out
    reversed-out [] out = refl
    reversed-out (z ∷ zs) out =
        reversed-out zs (z ∷ out)
        ∙ sym (append_assoc (reversed zs []) (z ∷ []) out)
        ∙ ap (λ t. t ++ out) (sym (reversed-out zs (z ∷ [])))
reversed-middle (x ∷ xs) ys out d = reversed-middle xs ys (x ∷ out) d

passed :
    (refused digits : Bool) (n : ℕ)
    → (if refused then false else digits && eqb n 0) ≡ true
    → (digits ≡ true) × (n ≡ 0)
passed refused digits n h = ground arith

luhn_digits-sum :
    (cs : List ℕ)
    → luhn_digits cs ≡ true
    → (all is_digit cs ≡ true) × (luhn_sum false (reversed (digits_of cs) []) 0 % 10 ≡ 0)
unfolding luhn_digits
luhn_digits-sum cs h =
    passed (ltb (length cs) 13 || ltb 19 (length cs)) (all is_digit cs)
      (luhn_sum false (reversed (digits_of cs) []) 0 % 10) h

all-middle : (xs ys : List ℕ) (c : ℕ) → all is_digit (xs ++ c ∷ ys) ≡ true → is_digit c ≡ true
all-middle [] ys c h = ground arith
all-middle (x ∷ xs) ys c h = all-middle xs ys c (ground arith)

digit_bounds : (c : ℕ) → is_digit c ≡ true → (b'0' ≤ c) × (c ≤ b'9')
digit_bounds c h = ground arith

same_character :
    (xs ys : List ℕ) (c d : ℕ)
    → luhn_digits (xs ++ c ∷ ys) ≡ true
    → luhn_digits (xs ++ d ∷ ys) ≡ true
    → c ≡ d
same_character xs ys c d h k =
    let (digits, sum) = luhn_digits-sum (xs ++ c ∷ ys) h in
    let (digits', sum') = luhn_digits-sum (xs ++ d ∷ ys) k in
    let (low, high) = digit_bounds c (all-middle xs ys c digits) in
    let (low', high') = digit_bounds d (all-middle xs ys d digits') in
    let same =
      luhn_sum_injective false (reversed (digits_of ys) []) (reversed (digits_of xs) []) (c - b'0')
        (d - b'0') 0 (omega arith) (omega arith)
        (ap (λ t. luhn_sum false t 0 % 10) (sym (placed xs ys c))
          ∙ sum
          ∙ sym sum'
          ∙ ap (λ t. luhn_sum false t 0 % 10) (placed xs ys d)) in
    omega arith
  where
    placed :
        (xs ys : List ℕ) (c : ℕ)
        → reversed (digits_of (xs ++ c ∷ ys)) []
          ≡ reversed (digits_of ys) [] ++ (c - b'0') ∷ reversed (digits_of xs) []
    placed xs ys c =
        ap (λ t. reversed t []) (digits_of-append xs (c ∷ ys))
        ∙ reversed-middle (digits_of xs) (digits_of ys) [] (c - b'0')

-- One mistyped digit is always noticed: where a number passes the check, it no longer does with any one
-- character changed.
pub luhn_digits-changed :
    (xs ys : List ℕ) (c d : ℕ)
    → luhn_digits (xs ++ c ∷ ys) ≡ true
    → c ≢ d
    → luhn_digits (xs ++ d ∷ ys) ≡ false
luhn_digits-changed xs ys c d h ne = elim (Bool-cases (luhn_digits (xs ++ d ∷ ys))) [
  | inl passes ↦ absurd (ne (same_character xs ys c d h passes))
  | inr fails ↦ fails
]
