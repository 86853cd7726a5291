-- ===== src/Base/Lists.antt =====
-- Lists with lengths and positions over the native numbers.
use Prim.Native.Nat.{ℕ, zero, suc, ◌+◌, ◌-◌, ◌≤◌}
use mathlib.Core.Path.{◌≡◌, refl, ap}
use mathlib.Core.Logic.{◌⊎◌}
use mathlib.Core.Bool.{Bool, true, false}
use mathlib.Core.List.{List, [], ◌∷◌, ◌++◌}
use native.Mathlib.Omega.{arith}

module _ {ℓ} {A : Type ℓ} where
  abbrev pub length : List A → ℕ
  length [] = 0
  length (x ∷ xs) = suc (length xs)

  abbrev pub drop : ℕ → List A → List A
  drop zero xs = xs
  drop (suc n) [] = []
  drop (suc n) (x ∷ xs) = drop n xs

  -- `xs.slice(-n)` for a positive `n`: the last `n` entries.
  abbrev pub take_last : ℕ → List A → List A
  take_last n xs = drop (length xs - n) xs

  -- `xs.filter(p)` and `xs.some(p)`.
  abbrev pub filter_by : (A → Bool) → List A → List A
  filter_by p [] = []
  filter_by p (x ∷ xs) = elim (p x) [ true ↦ x ∷ filter_by p xs | false ↦ filter_by p xs ]

  abbrev pub some_of : (A → Bool) → List A → Bool
  some_of p [] = false
  some_of p (x ∷ xs) = elim (p x) [ true ↦ true | false ↦ some_of p xs ]

  -- Every entry satisfies a predicate; at least one entry does.
  abbrev pub All {κ} : (A → Type κ) → List A → Type κ
  All P [] = Unit
  All P (x ∷ xs) = P x × All P xs

  abbrev pub Has : (A → Type 0) → List A → Type 0
  Has P [] = ⊥
  Has P (x ∷ xs) = P x ⊎ Has P xs

  pub length-append : (xs ys : List A) → length (xs ++ ys) ≡ length xs + length ys
  length-append [] ys = omega arith
  length-append (x ∷ xs) ys = omega (arith, length-append xs ys)

  pub length-drop : (n : ℕ) (xs : List A) → length (drop n xs) ≡ length xs - n
  length-drop zero xs = omega arith
  length-drop (suc n) [] = omega arith
  length-drop (suc n) (x ∷ xs) = omega (arith, length-drop n xs)

  pub length-take_last : (n : ℕ) (xs : List A) → length (take_last n xs) ≤ n
  length-take_last n xs = omega (arith, length-drop (length xs - n) xs)

  pub All-append {κ} : (P : A → Type κ) (xs ys : List A) → All P xs → All P ys → All P (xs ++ ys)
  All-append P [] ys h k = k
  All-append P (x ∷ xs) ys h k = (h.0, All-append P xs ys h.1 k)

  pub All-drop {κ} : (P : A → Type κ) (n : ℕ) (xs : List A) → All P xs → All P (drop n xs)
  All-drop P zero xs h = h
  All-drop P (suc n) [] h = h
  All-drop P (suc n) (x ∷ xs) h = All-drop P n xs h.1

  pub filter_by-append :
      (p : A → Bool) (xs ys : List A) → filter_by p (xs ++ ys) ≡ filter_by p xs ++ filter_by p ys
  filter_by-append p [] ys = refl
  filter_by-append p (x ∷ xs) ys =
      elim (p x)
        as (λ b.
          (elim b [ true ↦ x ∷ filter_by p (xs ++ ys) | false ↦ filter_by p (xs ++ ys) ])
          ≡ (elim b [ true ↦ x ∷ filter_by p xs | false ↦ filter_by p xs ]) ++ filter_by p ys) [
            | true ↦ ap (◌∷◌ x) (filter_by-append p xs ys)
            | false ↦ filter_by-append p xs ys
          ]

  pub All-filter_by {κ} :
      (P : A → Type κ) (p : A → Bool) (xs : List A) → All P xs → All P (filter_by p xs)
  All-filter_by P p [] h = tt
  All-filter_by P p (x ∷ xs) h =
      elim (p x) as (λ b. All P (elim b [ true ↦ x ∷ filter_by p xs | false ↦ filter_by p xs ])) [
        | true ↦ (h.0, All-filter_by P p xs h.1)
        | false ↦ All-filter_by P p xs h.1
      ]
