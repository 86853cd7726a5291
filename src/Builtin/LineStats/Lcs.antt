-- ===== src/Builtin/LineStats/Lcs.antt =====
-- The rolling rows of `longestCommonSubsequenceLength` in
-- packages/core/src/tools/builtin/fileChangeStats.ts, against a recursion on the two lists.
use kross.Base.{
  if◌then◌else◌, ℕ, ◌+◌, ◌≡◌, refl, max, true, false, List, [], ◌∷◌, arith, ap, sym, ◌∙◌,
}
use kross.Builtin.LineStats.{
  Text, line_eq, next_row, rows, zeros, last_or_zero, head_or_zero,
  longest_common_subsequence_length,
}

-- The recurrence, with the last lines first.
unfoldable pub lcs : List Text → List Text → ℕ
lcs [] ys = 0
lcs (x ∷ xs) [] = 0
lcs (x ∷ xs) (y ∷ ys) = elim (line_eq x y) [
  | true ↦ lcs xs ys + 1
  | false ↦ max (lcs xs (y ∷ ys)) (lcs (x ∷ xs) ys)
]

-- The row of `done`, lines of `a` read so far, at each prefix of `b` from `seen` on.
prefix_row : List Text → List Text → List Text → List ℕ
prefix_row done seen [] = lcs done seen ∷ []
prefix_row done seen (y ∷ ys) = lcs done seen ∷ prefix_row done (y ∷ seen) ys

head-prefix_row :
    (done seen ys : List Text) → head_or_zero (prefix_row done seen ys) ≡ lcs done seen
unfolding prefix_row
head-prefix_row done seen [] = refl
head-prefix_row done seen (y ∷ ys) = refl

left-eq-lcs :
    (x y : Text) (done seen ys : List Text)
    → (if line_eq x y
        then lcs done seen + 1
        else max (head_or_zero (prefix_row done (y ∷ seen) ys)) (lcs (x ∷ done) seen))
      ≡ lcs (x ∷ done) (y ∷ seen)
unfolding lcs
left-eq-lcs x y done seen ys = ground (arith, head-prefix_row done (y ∷ seen) ys)

next_row-prefix_row :
    (x : Text) (done seen ys : List Text)
    → next_row x ys (prefix_row done seen ys) (lcs (x ∷ done) seen) ≡ prefix_row (x ∷ done) seen ys
unfolding next_row prefix_row
next_row-prefix_row x done seen [] = refl
next_row-prefix_row x done seen (y ∷ ys) = ap (◌∷◌ (lcs (x ∷ done) seen)) (
    ap (next_row x ys (prefix_row done (y ∷ seen) ys)) (left-eq-lcs x y done seen ys)
    ∙ next_row-prefix_row x done (y ∷ seen) ys)

unfoldable pub rev_onto : List Text → List Text → List Text
rev_onto [] done = done
rev_onto (x ∷ xs) done = rev_onto xs (x ∷ done)

lcs-nil : (xs : List Text) → lcs xs [] ≡ 0
unfolding lcs
lcs-nil [] = refl
lcs-nil (x ∷ xs) = refl

rows-prefix_row :
    (a done b : List Text) → rows a b (prefix_row done [] b) ≡ prefix_row (rev_onto a done) [] b
unfolding rows rev_onto
rows-prefix_row [] done b = refl
rows-prefix_row (x ∷ a) done b =
    ap (rows a b) (
      ap (next_row x b (prefix_row done [] b)) (sym (lcs-nil (x ∷ done)))
      ∙ next_row-prefix_row x done [] b)
    ∙ rows-prefix_row a (x ∷ done) b

zeros-prefix_row : (seen b : List Text) → zeros b ≡ prefix_row [] seen b
unfolding prefix_row lcs
zeros-prefix_row seen [] = refl
zeros-prefix_row seen (y ∷ b) = ap (◌∷◌ 0) (zeros-prefix_row (y ∷ seen) b)

last-prefix_row :
    (done seen ys : List Text)
    → last_or_zero (prefix_row done seen ys) ≡ lcs done (rev_onto ys seen)
unfolding prefix_row rev_onto
last-prefix_row done seen [] = refl
last-prefix_row done seen (y ∷ []) = refl
last-prefix_row done seen (y ∷ z ∷ ys) = last-prefix_row done (y ∷ seen) (z ∷ ys)

-- The rolling rows compute the recurrence.
pub length-lcs :
    (a b : List Text) → longest_common_subsequence_length a b ≡ lcs (rev_onto a []) (rev_onto b [])
unfolding longest_common_subsequence_length lcs rev_onto
length-lcs [] b = refl
length-lcs (x ∷ a) [] = sym (lcs-nil (rev_onto a (x ∷ [])))
length-lcs (x ∷ a) (y ∷ b) =
    ap (λ row. last_or_zero (rows (x ∷ a) (y ∷ b) row)) (zeros-prefix_row [] (y ∷ b))
    ∙ ap last_or_zero (rows-prefix_row (x ∷ a) [] (y ∷ b))
    ∙ last-prefix_row (rev_onto (x ∷ a) []) [] (y ∷ b)
