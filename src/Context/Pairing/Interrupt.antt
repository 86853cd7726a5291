-- ===== src/Context/Pairing/Interrupt.antt =====
-- `interruptTurn` of packages/core/src/context/conversationThread.ts.
use kross.Base.{
  All, text_eq_iff, Bool-cases, ◌==◌, ℕ, String, ◌≡◌, refl, sym, ◌∙◌, inl, inr, Bool, true, false,
  Option, none, some, List, [], ◌∷◌, map, arith, subst,
}
use kross.Conductor.Plan.{has}
use kross.Gateway.Schedule.{ToolCall}
use kross.Context.Thread.{
  ThreadEntry, is_turn, or_else, result_ids, some_calls, matched, matched_message, with_message,
  match_calls,
}
use kross.Context.Tokens.{Text, LlmMessage, system, user, assistant, chat, tool}
use kross.Context.Pairing.{Caller, call_ids, ids_of_calls, next_caller, advance, AnswersTo, Paired}

abbrev pub calls_of : LlmMessage → List ToolCall
calls_of (chat assistant c (some calls)) = calls
calls_of _ = []

has-matched :
    (ids : List String) (calls : List ToolCall) (x : String)
    → has x (call_ids calls) ≡ true
    → has x ids ≡ true
    → has x (ids_of_calls (some_calls (matched ids calls))) ≡ true
unfolding has
has-matched ids calls x h k = unwrap (matched ids calls) (inner calls h)
  where
    unwrap :
        (cs : List ToolCall)
        → has x (call_ids cs) ≡ true
        → has x (ids_of_calls (some_calls cs)) ≡ true
    unwrap [] h = h
    unwrap (c ∷ cs) h = h

    inner :
        (cs : List ToolCall) → has x (call_ids cs) ≡ true → has x (call_ids (matched ids cs)) ≡ true
    inner [] h = h
    inner (c ∷ cs) h = ground (arith, inner cs, text_eq_iff x c.id)

-- What a caller is asked by results of the turn that stand in the ids, another may be asked.
abbrev Serves : ℕ → List String → Caller → Caller → Type 0
Serves turn ids p q =
    (t : ℕ) (id : String)
    → ((t == turn) ≡ true → has id ids ≡ true)
    → AnswersTo t (tool id id []) p
    → AnswersTo t (tool id id []) q

AnswersTo-content :
    (t : ℕ) (id name other : String) (c d : Text) (p : Caller)
    → AnswersTo t (tool id name c) p
    → AnswersTo t (tool id other d) p
AnswersTo-content t id name other c d none h = h
AnswersTo-content t id name other c d (some q) h = h

-- The results of the turn are in the ids.
abbrev Listed : ℕ → List String → ThreadEntry → Type 0
Listed turn ids e =
    (id name : String) (c : Text)
    → e.message ≡ tool id name c
    → (e.turn_id == turn) ≡ true
    → has id ids ≡ true

module _ (estimate : LlmMessage → ℕ) (turn : ℕ) (ids : List String) where
  abbrev pub new_message : ThreadEntry → LlmMessage
  new_message e = or_else (matched_message (is_turn turn e) ids e.message) e.message

  pub with_message-fields :
      (e : ThreadEntry) (o : Option LlmMessage)
      → ((with_message estimate e o).message ≡ or_else o e.message)
        × ((with_message estimate e o).turn_id ≡ e.turn_id)
  with_message-fields e none = (refl, refl)
  with_message-fields e (some m) = (refl, refl)

  answer :
      (t : ℕ) (b : Bool) (id name : String) (c : Text) (p q : Caller)
      → ((t == turn) ≡ b)
      → ((i n : String) (d : Text) → tool id name c ≡ tool i n d → b ≡ true → has i ids ≡ true)
      → Serves turn ids p q
      → AnswersTo t (tool id name c) p
      → AnswersTo t (tool id name c) q
  answer t b id name c p q e l s h =
      AnswersTo-content t id id name [] c q
        (s t id (λ k. l id name c refl (sym e ∙ k)) (AnswersTo-content t id name id c [] p h))

  -- The message of an entry and its change, by cases of the message.
  matched-Answers :
      (t : ℕ) (b : Bool) (m : LlmMessage) (p q : Caller)
      → ((t == turn) ≡ b)
      → ((id name : String) (c : Text) → m ≡ tool id name c → b ≡ true → has id ids ≡ true)
      → Serves turn ids p q
      → AnswersTo t m p
      → AnswersTo t (or_else (matched_message b ids m) m) q
  unfolding matched_message
  matched-Answers t true (tool id name c) p q e l s h = answer t true id name c p q e l s h
  matched-Answers t false (tool id name c) p q e l s h = answer t false id name c p q e l s h
  matched-Answers t true (chat assistant c (some calls)) p q e l s h = tt
  matched-Answers t false (chat assistant c (some calls)) p q e l s h = tt
  matched-Answers t true (chat assistant c none) p q e l s h = tt
  matched-Answers t false (chat assistant c none) p q e l s h = tt
  matched-Answers t true (chat user c calls) p q e l s h = tt
  matched-Answers t false (chat user c calls) p q e l s h = tt
  matched-Answers t true (chat system c calls) p q e l s h = tt
  matched-Answers t false (chat system c calls) p q e l s h = tt

  matched-Serves :
      (t : ℕ) (b : Bool) (m : LlmMessage) (p q : Caller)
      → ((t == turn) ≡ b)
      → Serves turn ids p q
      → Serves turn ids (next_caller t m p) (next_caller t (or_else (matched_message b ids m) m) q)
  unfolding matched_message
  matched-Serves t true (tool id name c) p q e s = s
  matched-Serves t false (tool id name c) p q e s = s
  matched-Serves t true (chat assistant c (some calls)) p q e s =
      λ u id l h. (h.0, has-matched ids calls id h.1 (l (subst (λ v. (v == turn) ≡ true) h.0 e)))
  matched-Serves t false (chat assistant c (some calls)) p q e s = λ u id l h. h
  matched-Serves t true (chat assistant c none) p q e s = λ u id l h. h
  matched-Serves t false (chat assistant c none) p q e s = λ u id l h. h
  matched-Serves t true (chat user c calls) p q e s = λ u id l h. h
  matched-Serves t false (chat user c calls) p q e s = λ u id l h. h
  matched-Serves t true (chat system c calls) p q e s = λ u id l h. h
  matched-Serves t false (chat system c calls) p q e s = λ u id l h. h

  pub match_calls-Paired :
      (p q : Caller) (es : List ThreadEntry)
      → All (Listed turn ids) es
      → Serves turn ids p q
      → Paired p es
      → Paired q (map (match_calls estimate turn ids) es)
  unfolding match_calls
  match_calls-Paired p q [] l s h = tt
  match_calls-Paired p q (e ∷ es) l s h =
      let f = with_message-fields e (matched_message (is_turn turn e) ids e.message) in
      let answers =
        matched-Answers e.turn_id (is_turn turn e) e.message p q refl
          (λ id name c k b. l.0 id name c k b) s h.0 in
      let serves = matched-Serves e.turn_id (is_turn turn e) e.message p q refl s in
      (
        subst (λ m. AnswersTo (match_calls estimate turn ids e).turn_id m q) (sym f.0)
            (subst (λ t. AnswersTo t (new_message e) q) (sym f.1) answers),
        match_calls-Paired (advance p e) _ es l.1
            (subst
              (λ m.
                Serves turn ids (advance p e)
                  (next_caller (match_calls estimate turn ids e).turn_id m q))
              (sym f.0)
              (subst (λ t. Serves turn ids (advance p e) (next_caller t (new_message e) q))
                (sym f.1) serves))
            h.1,
      )

-- The results of a turn are those that stand in the entries.
pub result_ids-Listed :
    (turn : ℕ) (ids : List String) (es : List ThreadEntry)
    → ((x : String) → has x (result_ids turn es) ≡ true → has x ids ≡ true)
    → All (Listed turn ids) es
unfolding result_ids has
result_ids-Listed turn ids [] h = tt
result_ids-Listed turn ids (e ∷ es) h = (
  λ id name c k b. h id (first id name c k b),
  result_ids-Listed turn ids es λ x k. h x (later e.message refl x k),
)
  where
    first :
        (id name : String) (c : Text)
        → e.message ≡ tool id name c
        → (e.turn_id == turn) ≡ true
        → has id (result_ids turn (e ∷ es)) ≡ true
    first id name c k b = rw (result_ids, k, b) (ground (arith, text_eq_iff id id))

    later :
        (m : LlmMessage)
        → e.message ≡ m
        → (x : String) → has x (result_ids turn es) ≡ true
        → has x (result_ids turn (e ∷ es)) ≡ true
    later (chat role c calls) k x h = rw (result_ids, k) h
    later (tool id name c) k x h = elim (Bool-cases (e.turn_id == turn)) [
      | inl b ↦ rw (result_ids, k, b) (ground arith)
      | inr b ↦ rw (result_ids, k, b) h
    ]
