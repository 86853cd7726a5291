-- ===== src/Context/Pairing/Dangling.antt =====
-- The thread that `interruptTurn` of packages/core/src/context/conversationThread.ts leaves.
use kross.Base.{
  All, Bool-cases, if◌then◌else◌, ◌==◌, ℕ, String, ◌≡◌, refl, sym, ap, ◌∙◌, inl, inr, Bool, true,
  false, none, some, List, [], ◌∷◌, ◌++◌, map, subst,
}
use kross.Conductor.Plan.{has}
use kross.Gateway.Schedule.{ToolCall}
use kross.Context.Thread.{
  ThreadEntry, is_turn, or_else, result_ids, some_calls, matched, matched_message, match_calls,
}
use kross.Context.Tokens.{Text, LlmMessage, system, user, assistant, chat, tool}
use kross.Context.Edits.{is_tool}
use kross.Context.Pairing.Interrupt.{calls_of, with_message-fields}

-- The calls of the message have results among the ids.
abbrev pub AllAnswered : List String → LlmMessage → Type 0
AllAnswered ids m = All (λ (c : ToolCall). has c.id ids ≡ true) (calls_of m)

-- No call of the turn is without a result of the turn.
abbrev pub NoneDangling : ℕ → List String → List ThreadEntry → Type 0
NoneDangling turn ids es =
    All (λ (e : ThreadEntry). is_turn turn e ≡ true → AllAnswered ids e.message) es

matched-AllAnswered :
    (ids : List String) (calls : List ToolCall)
    → All (λ (c : ToolCall). has c.id ids ≡ true) (matched ids calls)
matched-AllAnswered ids [] = tt
matched-AllAnswered ids (c ∷ calls) =
    elim (has c.id ids)
        as (λ b.
          (has c.id ids ≡ b)
          → All (λ (d : ToolCall). has d.id ids ≡ true)
              (elim b [ true ↦ c ∷ matched ids calls | false ↦ matched ids calls ])) [
                | true ↦ λ e. (e, matched-AllAnswered ids calls)
                | false ↦ λ e. matched-AllAnswered ids calls
              ]
      refl

some_calls-AllAnswered :
    (ids : List String) (c : Text) (cs : List ToolCall)
    → All (λ (d : ToolCall). has d.id ids ≡ true) cs
    → AllAnswered ids (chat assistant c (some_calls cs))
some_calls-AllAnswered ids c [] h = tt
some_calls-AllAnswered ids c (d ∷ cs) h = h

matched_message-AllAnswered :
    (ids : List String) (m : LlmMessage) → AllAnswered ids (or_else (matched_message true ids m) m)
unfolding matched_message
matched_message-AllAnswered ids (chat assistant c (some calls)) =
    some_calls-AllAnswered ids c (matched ids calls) (matched-AllAnswered ids calls)
matched_message-AllAnswered ids (chat assistant c none) = tt
matched_message-AllAnswered ids (chat user c calls) = tt
matched_message-AllAnswered ids (chat system c calls) = tt
matched_message-AllAnswered ids (tool id name c) = tt

abbrev add_result : Bool → LlmMessage → List String → List String
add_result b (chat role c calls) rest = rest
add_result b (tool id name c) rest = if b then id ∷ rest else rest

result_ids-cons :
    (turn : ℕ) (e : ThreadEntry) (es : List ThreadEntry)
    → result_ids turn (e ∷ es) ≡ add_result (is_turn turn e) e.message (result_ids turn es)
unfolding result_ids
result_ids-cons turn e es = go e.message refl
  where
    go :
        (m : LlmMessage)
        → e.message ≡ m
        → result_ids turn (e ∷ es) ≡ add_result (is_turn turn e) m (result_ids turn es)
    go (chat role c calls) k = rw (result_ids, k) refl
    go (tool id name c) k = elim (Bool-cases (is_turn turn e)) [
      | inl b ↦ rw (result_ids, k, b) refl
      | inr b ↦ rw (result_ids, k, b) refl
    ]

matched_message-add_result :
    (b d : Bool) (ids : List String) (m : LlmMessage) (rest : List String)
    → add_result d (or_else (matched_message b ids m) m) rest ≡ add_result d m rest
unfolding matched_message
matched_message-add_result true d ids (chat assistant c (some calls)) rest = refl
matched_message-add_result false d ids (chat assistant c (some calls)) rest = refl
matched_message-add_result true d ids (chat assistant c none) rest = refl
matched_message-add_result false d ids (chat assistant c none) rest = refl
matched_message-add_result true d ids (chat user c calls) rest = refl
matched_message-add_result false d ids (chat user c calls) rest = refl
matched_message-add_result true d ids (chat system c calls) rest = refl
matched_message-add_result false d ids (chat system c calls) rest = refl
matched_message-add_result true d ids (tool id name c) rest = refl
matched_message-add_result false d ids (tool id name c) rest = refl

pub result_ids-append :
    (turn : ℕ) (es : List ThreadEntry) (n : ThreadEntry)
    → is_tool n.message ≡ false
    → result_ids turn (es ++ n ∷ []) ≡ result_ids turn es
result_ids-append turn [] n h = result_ids-cons turn n [] ∙ go n.message h
  where
    go :
        (m : LlmMessage)
        → is_tool m ≡ false
        → add_result (is_turn turn n) m (result_ids turn []) ≡ result_ids turn []
    go (chat role c calls) h = refl
    go (tool id name c) h = cc
result_ids-append turn (e ∷ es) n h =
    result_ids-cons turn e (es ++ n ∷ [])
    ∙ ap (add_result (is_turn turn e) e.message) (result_ids-append turn es n h)
    ∙ sym (result_ids-cons turn e es)

module _ (estimate : LlmMessage → ℕ) (turn : ℕ) (ids : List String) where
  pub match_calls-result_ids :
      (es : List ThreadEntry)
      → result_ids turn (map (match_calls estimate turn ids) es) ≡ result_ids turn es
  unfolding match_calls
  match_calls-result_ids [] = refl
  match_calls-result_ids (e ∷ es) =
      let f =
        with_message-fields estimate turn ids e (matched_message (is_turn turn e) ids e.message) in
      let rest = map (match_calls estimate turn ids) es in
      result_ids-cons turn (match_calls estimate turn ids e) rest
      ∙ ap
          (λ t.
            add_result (t == turn) (match_calls estimate turn ids e).message (result_ids turn rest))
          f.1
      ∙ ap (λ m. add_result (is_turn turn e) m (result_ids turn rest)) f.0
      ∙ matched_message-add_result (is_turn turn e) (is_turn turn e) ids e.message
          (result_ids turn rest)
      ∙ ap (add_result (is_turn turn e) e.message) (match_calls-result_ids es)
      ∙ sym (result_ids-cons turn e es)

  pub match_calls-NoneDangling :
      (es : List ThreadEntry) → NoneDangling turn ids (map (match_calls estimate turn ids) es)
  unfolding match_calls
  match_calls-NoneDangling [] = tt
  match_calls-NoneDangling (e ∷ es) = (
    λ h.
        let f =
          with_message-fields estimate turn ids e
            (matched_message (is_turn turn e) ids e.message) in
        let b = subst (λ t. (t == turn) ≡ true) f.1 h in
        subst (AllAnswered ids) (sym f.0) (
          subst
            (λ (d : Bool). AllAnswered ids (or_else (matched_message d ids e.message) e.message))
            (sym b) (matched_message-AllAnswered ids e.message)),
    match_calls-NoneDangling es,
  )
