-- ===== src/Context/Prefix.antt =====
-- The choice of the prefix that a compaction replaces, in
-- packages/core/src/context/contextGovernor.ts. The body that is cut out of an earlier summary is an
-- argument.
use kross.Base.{
  length, filter_by, if◌then◌else◌, leb, ◌==◌, drop, ℕ, zero, suc, ◌+◌, ◌-◌, max, Bool, true, false,
  not, ◌&&◌, Option, none, some, List, [], ◌∷◌, ◌++◌, ℕ_discrete,
}
use kross.Base.Maps.{Map, get, set}
use kross.Context.Thread.{ThreadEntryKind, ThreadEntry, ConversationThread, reply, compaction}
use kross.Context.Edits.{is_settled, take}
use kross.Context.Tokens.{Text, content_of, assistant, chat}

-- `ThreadEntry[]` of one turn, as a range of positions.
pub record EntryRange : Type 0 where
  pub turn_id : ℕ
  pub start : ℕ
  pub end_at : ℕ
  pub tokens : ℕ
  pub compaction_only : Bool

pub record CompactionSelection : Type 0 where
  pub entry_count : ℕ
  pub turns : Map ℕ (List ThreadEntry)
  pub previous_summary : Text
  pub dropped_message_count : ℕ
  pub dropped_turn_count : ℕ

abbrev pub is_compaction : ThreadEntryKind → Bool
is_compaction compaction = true
is_compaction _ = false

abbrev pub sum_tokens : List ThreadEntry → ℕ
sum_tokens [] = 0
sum_tokens (e ∷ es) = e.tokens_est + sum_tokens es

abbrev pub one_entry : ℕ → ThreadEntry → EntryRange
one_entry i e = record {
  turn_id = e.turn_id;
  start = i;
  end_at = suc i;
  tokens = e.tokens_est;
  compaction_only = is_compaction e.kind;
}

-- An entry before a range of its turn widens the range.
abbrev pub put_before : ℕ → ThreadEntry → List EntryRange → List EntryRange
put_before i e [] = one_entry i e ∷ []
put_before i e (r ∷ rs) = elim (r.turn_id == e.turn_id) [
  | true ↦
      record r {
        start = i;
        tokens = e.tokens_est + r.tokens;
        compaction_only = is_compaction e.kind && r.compaction_only;
      }
      ∷ rs
  | false ↦ one_entry i e ∷ r ∷ rs
]

-- The runs of entries of one turn; the number is the position of the first entry.
unfoldable pub runs : ℕ → List ThreadEntry → List EntryRange
runs i [] = []
runs i (e ∷ es) = put_before i e (runs (suc i) es)

abbrev is_other : ℕ → Option ℕ → Bool
is_other turn none = true
is_other turn (some n) = not (turn == n)

abbrev is_compactable : ConversationThread → EntryRange → Bool
is_compactable t r =
    is_other r.turn_id t.open_turn_id
    && not r.compaction_only
    && is_settled (get ℕ_discrete r.turn_id t.turns)

unfoldable pub get_compactable_ranges : ConversationThread → List EntryRange
unfolding runs get ℕ_discrete
get_compactable_ranges t = filter_by (is_compactable t) (runs 0 t.entries)

abbrev pub is_assistant : ThreadEntry → Bool
is_assistant e = elim e.kind [
  | reply ↦ elim e.message [ chat assistant c calls ↦ true | _ ↦ false ]
  | _ ↦ false
]

-- The loop over the positions of a range, on the entries from position `i`; `left` of them are in
-- the range.
unfoldable pub find_split : ℕ → ℕ → ℕ → List ThreadEntry → Option ℕ
unfolding take
find_split budget i zero es = none
find_split budget i (suc left) [] = none
find_split budget i (suc left) (e ∷ es) =
    if is_assistant e && leb (sum_tokens (take (suc left) (e ∷ es))) budget
    then some i
    else find_split budget (suc i) left es

unfoldable pub find_safe_suffix_start : List ThreadEntry → EntryRange → ℕ → Option ℕ
unfolding find_split
find_safe_suffix_start entries r budget =
    find_split budget (suc r.start) (r.end_at - suc r.start) (drop (suc r.start) entries)

abbrev pub or_start : ℕ → Option ℕ → ℕ
or_start start none = start
or_start start (some split) = split

-- The loop from the last range back. The boundary that is kept so far is the last argument.
unfoldable pub walk_back : List ThreadEntry → ℕ → List EntryRange → ℕ → ℕ → ℕ
unfolding find_safe_suffix_start
walk_back entries budget [] retained boundary = boundary
walk_back entries budget (r ∷ rs) retained boundary =
    let rest = walk_back entries budget rs (retained + r.tokens) r.start in
    if leb (retained + r.tokens) budget
    then rest
    else if retained == 0
    then or_start r.start (find_safe_suffix_start entries r budget)
    else r.end_at

unfoldable pub reverse_onto : List EntryRange → List EntryRange → List EntryRange
reverse_onto [] acc = acc
reverse_onto (r ∷ rs) acc = reverse_onto rs (r ∷ acc)

abbrev add_to_turn : ℕ → ThreadEntry → Map ℕ (List ThreadEntry) → Map ℕ (List ThreadEntry)
add_to_turn turn e m = elim (get ℕ_discrete turn m) [
  | none ↦ set ℕ_discrete turn (e ∷ []) m
  | some es ↦ set ℕ_discrete turn (es ++ e ∷ []) m
]

group_turns : List ThreadEntry → Map ℕ (List ThreadEntry) → Map ℕ (List ThreadEntry)
unfolding get set ℕ_discrete
group_turns [] m = m
group_turns (e ∷ es) m = elim (is_compaction e.kind) [
  | true ↦ group_turns es m
  | false ↦ group_turns es (add_to_turn e.turn_id e m)
]

abbrev is_nil : Text → Bool
is_nil [] = true
is_nil (c ∷ text) = false

-- `join('\n\n')`.
abbrev join_summaries : List Text → Text
join_summaries [] = []
join_summaries (t ∷ []) = t
join_summaries (t ∷ u ∷ ts) = t ++ 10 ∷ 10 ∷ join_summaries (u ∷ ts)

abbrev no_selection : Map ℕ (List ThreadEntry) → List Text → Bool
no_selection [] [] = true
no_selection _ _ = false

module _ (body : Text → Text) where
  abbrev previous_summaries : List ThreadEntry → List Text
  previous_summaries [] = []
  previous_summaries (e ∷ es) =
      let rest = previous_summaries es in
      if is_compaction e.kind && not (is_nil (body (content_of e.message)))
      then body (content_of e.message) ∷ rest
      else rest

  unfoldable pub build_compaction_selection : List ThreadEntry → ℕ → Option CompactionSelection
  unfolding take group_turns
  build_compaction_selection entries entry_count =
      let prefix = take entry_count entries in
      let turns = group_turns prefix [] in
      if entry_count == 0
      then none
      else if no_selection turns (previous_summaries prefix)
      then none
      else some (record {
        entry_count = entry_count;
        turns = turns;
        previous_summary = join_summaries (previous_summaries prefix);
        dropped_message_count = length (filter_by (λ e. not (is_compaction e.kind)) prefix);
        dropped_turn_count = length turns;
      })

  -- The ranges, last first.
  unfoldable pub select_automatic_prefix : ConversationThread → ℕ → Option CompactionSelection
  unfolding get_compactable_ranges reverse_onto walk_back build_compaction_selection
  select_automatic_prefix t preserve_recent_tokens =
      elim (reverse_onto (get_compactable_ranges t) []) [
        | [] ↦ none
        | r ∷ rs ↦
            build_compaction_selection t.entries
              (walk_back t.entries (max 1 preserve_recent_tokens) (r ∷ rs) 0 r.end_at)
      ]

  -- `ranges[ranges.length - preserveFullTurns]`, and the end of the last range where there is none.
  unfoldable pub manual_boundary : ℕ → ℕ → List EntryRange → ℕ
  manual_boundary preserve last [] = last
  manual_boundary preserve last (r ∷ rs) =
      if length (r ∷ rs) == preserve then r.start else manual_boundary preserve r.end_at rs

  unfoldable pub select_manual_prefix : ConversationThread → ℕ → Option CompactionSelection
  unfolding get_compactable_ranges manual_boundary build_compaction_selection
  select_manual_prefix t preserve_full_turns =
      let ranges = get_compactable_ranges t in
      if leb (length ranges) preserve_full_turns
      then none
      else build_compaction_selection t.entries (manual_boundary preserve_full_turns 0 ranges)
