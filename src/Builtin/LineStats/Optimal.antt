-- ===== src/Builtin/LineStats/Optimal.antt =====
-- `longestCommonSubsequenceLength` of packages/core/src/tools/builtin/fileChangeStats.ts and the
-- common subsequences of its two lists.
use kross.Base.{
  ◌+◌, ◌≤◌, ◌≡◌, refl, true, List, [], ◌∷◌, ◌++◌, arith, length, ap, sym, ◌∙◌, Bool-cases, inl, inr,
  subst, ◌⊎◌, ◌↔◌, true_of_false, dec_le,
}
use mathlib.Core.List.{append-nil}
use kross.Builtin.LineStats.{Text, line_eq, longest_common_subsequence_length}
use kross.Builtin.LineStats.Lcs.{lcs, rev_onto, length-lcs}

-- `zs` is a subsequence of `xs`.
pub data Sub : List Text → List Text → Type 0 where
  end : Sub [] []
  skip : {zs xs : List Text} (x : Text) → Sub zs xs → Sub zs (x ∷ xs)
  keep : {zs xs : List Text} (x : Text) → Sub zs xs → Sub (x ∷ zs) (x ∷ xs)

line_eq_iff : (x y : Text) → (line_eq x y ≡ true) ↔ (x ≡ y)
unfolding line_eq
line_eq_iff [] [] = (λ h. refl, λ h. refl)
line_eq_iff [] (y ∷ ys) = (λ h. cc, λ h. cc)
line_eq_iff (x ∷ xs) [] = (λ h. cc, λ h. cc)
line_eq_iff (x ∷ xs) (y ∷ ys) =
    (λ h. ground (arith, line_eq_iff xs ys), λ h. ground (arith, line_eq_iff xs ys))

abbrev tail : List Text → List Text
tail [] = []
tail (x ∷ xs) = xs

Sub-nil : (xs : List Text) → Sub [] xs
Sub-nil [] = end
Sub-nil (x ∷ xs) = skip x (Sub-nil xs)

Sub-weaken : {zs xs : List Text} → Sub zs xs → Sub (tail zs) xs
Sub-weaken end = end
Sub-weaken (skip x s) = skip x (Sub-weaken s)
Sub-weaken (keep x s) = skip x s

Sub-tail : {zs xs : List Text} → Sub zs xs → Sub (tail zs) (tail xs)
Sub-tail end = end
Sub-tail (skip x s) = Sub-weaken s
Sub-tail (keep x s) = s

length-tail : (zs : List Text) → length zs ≤ length (tail zs) + 1
length-tail [] = omega arith
length-tail (z ∷ zs) = omega arith

Sub-cons_cases :
    {zs l : List Text}
    → Sub zs l
    → (x : Text) (xs : List Text) → l ≡ x ∷ xs
    → Sub zs xs ⊎ ((ws : List Text) × (zs ≡ x ∷ ws))
Sub-cons_cases end x xs e = cc
Sub-cons_cases {zs} (skip y s) x xs e = inl (subst (Sub zs) (ap tail e) s)
Sub-cons_cases (keep {zs = ws} y s) x xs e = inr (ws, cc)

Sub-of-nil : {zs l : List Text} → Sub zs l → l ≡ [] → length zs ≡ 0
Sub-of-nil end e = refl
Sub-of-nil (skip x s) e = cc
Sub-of-nil (keep x s) e = cc

-- No common subsequence is longer than the recurrence says.
lcs-upper : (xs ys zs : List Text) → Sub zs xs → Sub zs ys → length zs ≤ lcs xs ys
unfolding lcs
lcs-upper [] ys zs s t = omega (arith, Sub-of-nil s refl)
lcs-upper (x ∷ xs) [] zs s t = omega (arith, Sub-of-nil t refl)
lcs-upper (x ∷ xs) (y ∷ ys) zs s t = elim (Bool-cases (line_eq x y)) [
  | inl e ↦
      rw (e, lcs)
        (omega (arith, lcs-upper xs ys (tail zs) (Sub-tail s) (Sub-tail t), length-tail zs))
  | inr e ↦ elim (Sub-cons_cases s x xs refl) [
    | inl s' ↦ rw (e, lcs) (omega (arith, lcs-upper xs (y ∷ ys) zs s' t))
    | inr (ws, p) ↦ elim (Sub-cons_cases t y ys refl) [
      | inl t' ↦ rw (e, lcs) (omega (arith, lcs-upper (x ∷ xs) ys zs s t'))
      | inr (vs, q) ↦ true_of_false (sym e ∙ (line_eq_iff x y).1 cc)
    ]
  ]
]

-- Some common subsequence is as long.
lcs_attained :
    (xs ys : List Text) → (zs : List Text) × Sub zs xs × Sub zs ys × (length zs ≡ lcs xs ys)
unfolding lcs
lcs_attained [] ys = ([], end, Sub-nil ys, refl)
lcs_attained (x ∷ xs) [] = ([], Sub-nil (x ∷ xs), end, refl)
lcs_attained (x ∷ xs) (y ∷ ys) = elim (Bool-cases (line_eq x y)) [
  | inl e ↦
      let (zs, s, t, l) = lcs_attained xs ys in
      (
        x ∷ zs,
        keep x s,
        subst (λ v. Sub (x ∷ zs) (v ∷ ys)) ((line_eq_iff x y).0 e) (keep x t),
        rw (e, lcs) (omega (arith, l)),
      )
  | inr e ↦ elim (dec_le (lcs xs (y ∷ ys)) (lcs (x ∷ xs) ys)) [
    | yes h ↦
        let (zs, s, t, l) = lcs_attained (x ∷ xs) ys in
        (zs, s, skip y t, rw (e, lcs) (omega (arith, l)))
    | no h ↦
        let (zs, s, t, l) = lcs_attained xs (y ∷ ys) in
        (zs, skip x s, t, rw (e, lcs) (omega (arith, l)))
  ]
]

Sub-rev_onto :
    {zs xs ws ys : List Text} → Sub zs xs → Sub ws ys → Sub (rev_onto zs ws) (rev_onto xs ys)
unfolding rev_onto
Sub-rev_onto end t = t
Sub-rev_onto (skip x s) t = Sub-rev_onto s (skip x t)
Sub-rev_onto (keep x s) t = Sub-rev_onto s (keep x t)

length-rev_onto : (zs ws : List Text) → length (rev_onto zs ws) ≡ length zs + length ws
unfolding rev_onto
length-rev_onto [] ws = omega arith
length-rev_onto (z ∷ zs) ws = omega (arith, length-rev_onto zs (z ∷ ws))

rev_onto-rev_onto : (xs ys zs : List Text) → rev_onto (rev_onto xs ys) zs ≡ rev_onto ys (xs ++ zs)
unfolding rev_onto
rev_onto-rev_onto [] ys zs = refl
rev_onto-rev_onto (x ∷ xs) ys zs = rev_onto-rev_onto xs (x ∷ ys) zs

rev_rev : (xs : List Text) → rev_onto (rev_onto xs []) [] ≡ xs
unfolding rev_onto
rev_rev xs = rev_onto-rev_onto xs [] [] ∙ append-nil xs

-- No common subsequence of the two lists of lines is longer than the computed length, and some
-- common subsequence is as long.
pub longest_common_subsequence_length-optimal :
    (a b : List Text)
    → ((c : List Text) → Sub c a → Sub c b → length c ≤ longest_common_subsequence_length a b)
      × ((c : List Text) × Sub c a × Sub c b × (length c ≡ longest_common_subsequence_length a b))
longest_common_subsequence_length-optimal a b = (
  λ c s t. omega (
    arith,
    length-lcs a b,
    lcs-upper (rev_onto a []) (rev_onto b []) (rev_onto c []) (Sub-rev_onto s end)
        (Sub-rev_onto t end),
    length-rev_onto c [],
  ),
  attained,
)
  where
    attained :
        (c : List Text) × Sub c a × Sub c b × (length c ≡ longest_common_subsequence_length a b)
    attained =
        let (zs, s, t, l) = lcs_attained (rev_onto a []) (rev_onto b []) in
        (
          rev_onto zs [],
          subst (Sub (rev_onto zs [])) (rev_rev a) (Sub-rev_onto s end),
          subst (Sub (rev_onto zs [])) (rev_rev b) (Sub-rev_onto t end),
          omega (arith, l, length-lcs a b, length-rev_onto zs []),
        )

-- For any two lists of lines there is a common subsequence that has the length computed by the
-- rolling rows.
pub longest_common_subsequence_length-attained :
    (a b : List Text)
    → (c : List Text) × Sub c a × Sub c b × (length c ≡ longest_common_subsequence_length a b)
longest_common_subsequence_length-attained a b = (longest_common_subsequence_length-optimal a b).1
