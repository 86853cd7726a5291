-- ===== src/Builtin/LineStats.antt =====
-- packages/core/src/tools/builtin/fileChangeStats.ts. A text is the list of its UTF-16 units.
pub mod Lcs
pub mod Optimal
pub mod Balance
use kross.Base.{
  ℕ, ◌+◌, ◌-◌, ◌*◌, max, Bool, true, false, ◌&&◌, List, [], ◌∷◌, if◌then◌else◌, ltb, ◌==◌, length,
}

abbrev pub Text : Type 0
Text = List ℕ

pub record LineChangeStats : Type 0 where
  pub lines_added : ℕ
  pub lines_removed : ℕ

-- `a === b` on two lines.
pub line_eq : Text → Text → Bool
line_eq [] [] = true
line_eq [] (y ∷ ys) = false
line_eq (x ∷ xs) [] = false
line_eq (x ∷ xs) (y ∷ ys) = (x == y) && line_eq xs ys

-- `text.endsWith('\n') ? text.slice(0, -1) : text`.
strip_line_end : Text → Text
strip_line_end [] = []
strip_line_end (c ∷ []) = if c == b'\n' then [] else c ∷ []
strip_line_end (c ∷ d ∷ text) = c ∷ strip_line_end (d ∷ text)

abbrev add_unit : ℕ → List Text → List Text
add_unit c [] = (c ∷ []) ∷ []
add_unit c (line ∷ lines) = (c ∷ line) ∷ lines

-- `text.split('\n')`, which is never empty.
split_at_line_ends : Text → List Text
split_at_line_ends [] = [] ∷ []
split_at_line_ends (c ∷ text) =
    let rest = split_at_line_ends text in if c == b'\n' then [] ∷ rest else add_unit c rest

abbrev lines_of : Text → List Text
lines_of [] = []
lines_of (c ∷ text) = split_at_line_ends (c ∷ text)

pub split_lines : Text → List Text
unfolding strip_line_end split_at_line_ends
split_lines [] = []
split_lines (c ∷ text) = lines_of (strip_line_end (c ∷ text))

abbrev count_of : Text → ℕ
count_of [] = 0
count_of (c ∷ text) = length (split_at_line_ends (c ∷ text))

count_lines : Text → ℕ
unfolding strip_line_end split_at_line_ends
count_lines [] = 0
count_lines (c ∷ text) = count_of (strip_line_end (c ∷ text))

unfoldable hunk_line_stats : Text → Text → ℕ → LineChangeStats
unfolding count_lines
hunk_line_stats old_text new_text occurrences = record {
  lines_added = count_lines new_text * max 1 occurrences;
  lines_removed = count_lines old_text * max 1 occurrences;
}

abbrev pub head_or_zero : List ℕ → ℕ
head_or_zero [] = 0
head_or_zero (p ∷ prev) = p

abbrev pub last_or_zero : List ℕ → ℕ
last_or_zero [] = 0
last_or_zero (p ∷ []) = p
last_or_zero (p ∷ q ∷ prev) = last_or_zero (q ∷ prev)

-- The inner loop, from column j on: `prev` begins with prev[j - 1], and `left` is curr[j - 1].
pub next_row : Text → List Text → List ℕ → ℕ → List ℕ
next_row line [] prev left = left ∷ []
next_row line (other ∷ b) [] left =
    left ∷ next_row line b [] (if line_eq line other then 1 else max 0 left)
next_row line (other ∷ b) (p ∷ prev) left =
    left ∷ next_row line b prev (if line_eq line other then p + 1 else max (head_or_zero prev) left)

-- The outer loop over the lines of `a`.
pub rows : List Text → List Text → List ℕ → List ℕ
unfolding next_row
rows [] b prev = prev
rows (line ∷ a) b prev = rows a b (next_row line b prev 0)

abbrev pub zeros : List Text → List ℕ
zeros [] = 0 ∷ []
zeros (line ∷ b) = 0 ∷ zeros b

pub longest_common_subsequence_length : List Text → List Text → ℕ
unfolding rows
longest_common_subsequence_length [] b = 0
longest_common_subsequence_length (line ∷ a) [] = 0
longest_common_subsequence_length (line ∷ a) (other ∷ b) =
    last_or_zero (rows (line ∷ a) (other ∷ b) (zeros (other ∷ b)))

abbrev pub lcs_limit : ℕ
lcs_limit = 200000

-- `lineDiffStats` on the split lines.
pub diff_lines : List Text → List Text → LineChangeStats
diff_lines [] [] = record { lines_added = 0; lines_removed = 0 }
diff_lines a b =
    if ltb lcs_limit (length a * length b)
    then record { lines_added = length b - length a; lines_removed = length a - length b }
    else let lcs = longest_common_subsequence_length a b in
      record { lines_added = length b - lcs; lines_removed = length a - lcs }

pub line_diff_stats : Text → Text → LineChangeStats
unfolding diff_lines split_lines
line_diff_stats before after = diff_lines (split_lines before) (split_lines after)
