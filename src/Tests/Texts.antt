-- ===== src/Tests/Texts.antt =====
-- Two texts with a common line.
use kross.Base.{◌+◌, ◌≤◌, ◌≡◌, List, [], ◌∷◌, arith, length}
use kross.Builtin.LineStats.{Text, longest_common_subsequence_length, diff_lines}
use kross.Builtin.LineStats.Optimal.{
  Sub, longest_common_subsequence_length-attained, end, skip, keep,
}
use kross.Builtin.LineStats.Balance.{diff_lines_minimal}

abbrev before : Text
before = 97 ∷ 10 ∷ 98 ∷ []

abbrev after : Text
after = 98 ∷ 10 ∷ 99 ∷ []

abbrev old_lines : List Text
old_lines = (97 ∷ []) ∷ (98 ∷ []) ∷ []

abbrev new_lines : List Text
new_lines = (98 ∷ []) ∷ (99 ∷ []) ∷ []

abbrev common : List Text
common = (98 ∷ []) ∷ []

longest_common_subsequence_length-attained_example :
    (c : List Text) × Sub c old_lines
    × Sub c new_lines
    × (length c ≡ longest_common_subsequence_length old_lines new_lines)
longest_common_subsequence_length-attained_example =
    longest_common_subsequence_length-attained old_lines new_lines

diff_lines_minimal_example :
    ((diff_lines old_lines new_lines).lines_added + length common ≤ length new_lines)
    × ((diff_lines old_lines new_lines).lines_removed + length common ≤ length old_lines)
diff_lines_minimal_example =
    diff_lines_minimal old_lines new_lines common (ground arith)
      (skip (97 ∷ []) (keep (98 ∷ []) end)) (keep (98 ∷ []) (skip (99 ∷ []) end))
