-- ===== src/Context/Pairing.antt =====
-- The pairing of tool calls and tool results in the entries of a `ConversationThread` of
-- packages/core/src/context/conversationThread.ts.
use kross.Base.{
  Bool-cases, Option-cases, ◌==◌, drop, ℕ, zero, suc, String, ◌≡◌, refl, sym, subst, inl, inr, true,
  ◌&&◌, Option, none, some, List, [], ◌∷◌, ◌++◌,
}
use kross.Context.Thread.{ThreadEntry, ConversationThread, update_entry, append_entry}
use kross.Context.Edits.{
  with_content, is_tool, is_tool_result, add_notice, elide, elide_tool_result, truncate,
  truncate_entry,
}
use kross.Context.Tokens.{Text, LlmMessage, system, user, assistant, chat, tool}
use kross.Conductor.Plan.{has}
use kross.Gateway.Schedule.{ToolCall}
pub mod Cuts
pub mod Selected
pub mod Governed
pub mod Govern
pub mod Interrupt
pub mod Dangling
pub mod Interrupted
pub mod Oversized

-- The turn and the call ids of the assistant message that results may follow.
abbrev pub Caller : Type 0
Caller = Option (ℕ × List String)

abbrev pub call_ids : List ToolCall → List String
call_ids [] = []
call_ids (c ∷ calls) = c.id ∷ call_ids calls

abbrev pub ids_of_calls : Option (List ToolCall) → List String
ids_of_calls none = []
ids_of_calls (some calls) = call_ids calls

-- A user message or a notice ends the results.
abbrev pub next_caller : ℕ → LlmMessage → Caller → Caller
next_caller turn (tool id name c) p = p
next_caller turn (chat assistant c calls) p = some (turn, ids_of_calls calls)
next_caller turn (chat role c calls) p = none

abbrev pub advance : Caller → ThreadEntry → Caller
advance p e = next_caller e.turn_id e.message p

abbrev pub AnswersTo : ℕ → LlmMessage → Caller → Type 0
AnswersTo turn (chat role c calls) p = Unit
AnswersTo turn (tool id name c) none = ⊥
AnswersTo turn (tool id name c) (some (t, ids)) = (t ≡ turn) × (has id ids ≡ true)

abbrev pub Answers : Caller → ThreadEntry → Type 0
Answers p e = AnswersTo e.turn_id e.message p

-- Each tool result stands behind the assistant message of its turn that called it, with nothing
-- but other results between.
abbrev pub Paired : Caller → List ThreadEntry → Type 0
Paired p [] = Unit
Paired p (e ∷ es) = Answers p e × Paired (advance p e) es

abbrev pub after : Caller → List ThreadEntry → Caller
after p [] = p
after p (e ∷ es) = after (advance p e) es

pub append-Paired :
    (p : Caller) (xs ys : List ThreadEntry)
    → Paired p xs
    → Paired (after p xs) ys
    → Paired p (xs ++ ys)
append-Paired p [] ys h k = k
append-Paired p (x ∷ xs) ys h k = (h.0, append-Paired (advance p x) xs ys h.1 k)

pub drop-Paired :
    (n : ℕ) (p : Caller) (es : List ThreadEntry) → Paired p es → (q : Caller) × Paired q (drop n es)
drop-Paired zero p es h = (p, h)
drop-Paired (suc n) p [] h = (p, tt)
drop-Paired (suc n) p (e ∷ es) h = drop-Paired n (advance p e) es h.1

-- A change of one entry that keeps its part in the pairing.
pub update_entry-Paired :
    (id : ℕ) (f : ThreadEntry → ThreadEntry)
    → ((p : Caller) (e : ThreadEntry) → advance p (f e) ≡ advance p e)
    → ((p : Caller) (e : ThreadEntry) → Answers p e → Answers p (f e))
    → (p : Caller) (es : List ThreadEntry) → Paired p es
    → Paired p (update_entry id f es)
unfolding update_entry
update_entry-Paired id f a b p [] h = h
update_entry-Paired id f a b p (e ∷ es) h = elim (Bool-cases (e.id == id)) [
  | inl k ↦ rw (k, update_entry) (b p e h.0, subst (λ q. Paired q es) (sym (a p e)) h.1)
  | inr k ↦ rw (k, update_entry) (h.0, update_entry-Paired id f a b (advance p e) es h.1)
]

pub with_content-next_caller :
    (turn : ℕ) (c : Text) (m : LlmMessage) (p : Caller)
    → next_caller turn (with_content c m) p ≡ next_caller turn m p
with_content-next_caller turn c (tool id name d) p = refl
with_content-next_caller turn c (chat assistant d calls) p = refl
with_content-next_caller turn c (chat user d calls) p = refl
with_content-next_caller turn c (chat system d calls) p = refl

pub with_content-AnswersTo :
    (turn : ℕ) (c : Text) (m : LlmMessage) (p : Caller)
    → AnswersTo turn m p
    → AnswersTo turn (with_content c m) p
with_content-AnswersTo turn c (tool id name d) none h = h
with_content-AnswersTo turn c (tool id name d) (some q) h = h
with_content-AnswersTo turn c (chat assistant d calls) p h = tt
with_content-AnswersTo turn c (chat user d calls) p h = tt
with_content-AnswersTo turn c (chat system d calls) p h = tt

module _ (estimate : LlmMessage → ℕ) where
  pub truncate_entry-Paired :
      (id : ℕ) (c : Text) (t : ConversationThread)
      → Paired none t.entries
      → Paired none (truncate_entry estimate id c t).entries
  unfolding truncate_entry
  truncate_entry-Paired id c t h =
      update_entry-Paired id (truncate estimate c)
        (λ p e. with_content-next_caller e.turn_id c e.message p)
        (λ p e k. with_content-AnswersTo e.turn_id c e.message p k) none t.entries h

  elide-advance :
      (c : Text) (p : Caller) (e : ThreadEntry) → advance p (elide estimate c e) ≡ advance p e
  elide-advance c p e = elim (Bool-cases (is_tool_result e.kind && is_tool e.message)) [
    | inl k ↦ rw (k) (with_content-next_caller e.turn_id c e.message p)
    | inr k ↦ rw (k) refl
  ]

  elide-Answers :
      (c : Text) (p : Caller) (e : ThreadEntry) → Answers p e → Answers p (elide estimate c e)
  elide-Answers c p e h = elim (Bool-cases (is_tool_result e.kind && is_tool e.message)) [
    | inl k ↦ rw (k) (with_content-AnswersTo e.turn_id c e.message p h)
    | inr k ↦ rw (k) h
  ]

  pub elide_tool_result-Paired :
      (id : ℕ) (c : Text) (t : ConversationThread)
      → Paired none t.entries
      → Paired none (elide_tool_result estimate id c t).entries
  unfolding elide_tool_result
  elide_tool_result-Paired id c t h =
      update_entry-Paired id (elide estimate c) (elide-advance c) (elide-Answers c) none t.entries h

  pub add_notice-Paired :
      (c : Text) (t : ConversationThread)
      → Paired none t.entries
      → Paired none (add_notice estimate c t).entries
  unfolding add_notice append_entry
  add_notice-Paired c t h = elim (Option-cases t.open_turn_id) [
    | inl e ↦ rw (e, add_notice) (append-Paired none t.entries _ h (tt, tt))
    | inr (n, e) ↦ rw (e, add_notice) (append-Paired none t.entries _ h (tt, tt))
  ]
