-- ===== src/Builtin/LineStats/Balance.antt =====
-- `lineDiffStats` of packages/core/src/tools/builtin/fileChangeStats.ts and the line counts of the
-- texts.
use kross.Base.{◌+◌, ◌*◌, ◌≤◌, ◌≡◌, refl, List, [], ◌∷◌, arith, length}
use kross.Builtin.LineStats.{
  Text, split_lines, longest_common_subsequence_length, diff_lines, line_diff_stats, lcs_limit,
}
use kross.Builtin.LineStats.Optimal.{
  Sub, end, skip, keep, longest_common_subsequence_length-optimal,
}

length-Sub-le : {zs xs : List Text} → Sub zs xs → length zs ≤ length xs
length-Sub-le end = omega arith
length-Sub-le (skip x s) = omega (arith, length-Sub-le s)
length-Sub-le (keep x s) = omega (arith, length-Sub-le s)

Sub-refl : (xs : List Text) → Sub xs xs
Sub-refl [] = end
Sub-refl (x ∷ xs) = keep x (Sub-refl xs)

lcs-le :
    (a b : List Text)
    → (longest_common_subsequence_length a b ≤ length a)
      × (longest_common_subsequence_length a b ≤ length b)
lcs-le a b =
    let (c, s, t, l) = (longest_common_subsequence_length-optimal a b).1 in
    (omega (arith, l, length-Sub-le s), omega (arith, l, length-Sub-le t))

lcs_self : (a : List Text) → longest_common_subsequence_length a a ≡ length a
lcs_self a = omega (
  arith,
  lcs-le a a,
  (longest_common_subsequence_length-optimal a a).0 a (Sub-refl a) (Sub-refl a),
)

diff_lines_balance :
    (a b : List Text)
    → length a + (diff_lines a b).lines_added ≡ length b + (diff_lines a b).lines_removed
unfolding diff_lines
diff_lines_balance [] [] = refl
diff_lines_balance [] (y ∷ b) = ground (arith, lcs-le [] (y ∷ b))
diff_lines_balance (x ∷ a) b = ground (arith, lcs-le (x ∷ a) b)

-- For any two texts, also those too large for the exact count, the old line count and the added
-- lines are together the new line count and the removed lines.
pub line_diff_stats_balance :
    (before after : Text)
    → length (split_lines before) + (line_diff_stats before after).lines_added
      ≡ length (split_lines after) + (line_diff_stats before after).lines_removed
unfolding line_diff_stats
line_diff_stats_balance before after = diff_lines_balance (split_lines before) (split_lines after)

diff_lines_self : (a : List Text) → diff_lines a a ≡ record { lines_added = 0; lines_removed = 0 }
unfolding diff_lines
diff_lines_self [] = refl
diff_lines_self (x ∷ a) = ground (arith, lcs_self (x ∷ a))

bound_of :
    (a b c : List Text) → Sub c a → Sub c b → length c ≤ longest_common_subsequence_length a b
bound_of a b c s t = (longest_common_subsequence_length-optimal a b).0 c s t

-- If the product of the line counts is within the limit of the exact count, then for every common
-- subsequence of the two lists of lines the added lines and its length are at most the new line
-- count, and the removed lines and its length at most the old one: no other choice of kept lines
-- counts fewer changes.
pub diff_lines_minimal :
    (a b c : List Text)
    → length a * length b ≤ lcs_limit
    → Sub c a
    → Sub c b
    → ((diff_lines a b).lines_added + length c ≤ length b)
      × ((diff_lines a b).lines_removed + length c ≤ length a)
unfolding diff_lines
diff_lines_minimal [] [] c h s t = omega (arith, length-Sub-le s)
diff_lines_minimal [] (y ∷ b) c h s t = ground (arith, bound_of [] (y ∷ b) c s t, lcs-le [] (y ∷ b))
diff_lines_minimal (x ∷ a) b c h s t = ground (arith, bound_of (x ∷ a) b c s t, lcs-le (x ∷ a) b)

-- For any text, of any size, a write of the same text counts no added and no removed line.
pub line_diff_stats_self :
    (text : Text) → line_diff_stats text text ≡ record { lines_added = 0; lines_removed = 0 }
unfolding line_diff_stats
line_diff_stats_self text = diff_lines_self (split_lines text)
