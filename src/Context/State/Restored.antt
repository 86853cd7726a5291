-- ===== src/Context/State/Restored.antt =====
-- `restoreState` of packages/core/src/context/conversationThread.ts on a state that it accepts, with
-- the open turn preserved.
use kross.Base.{
  All, length, Option-cases, true_of_false, ℕ, ◌+◌, ◌≤◌, ◌≡◌, refl, sym, ap, ◌∙◌, ◌⊎◌, inl, inr,
  Bool, true, false, ◌&&◌, Option, none, some, List, [], ◌∷◌, ◌++◌, map, arith, ℕ_discrete, subst,
}
use kross.Base.Maps.{Map, keys, get, set, get-set, get-set_self}
use kross.Context.State.{
  SerializedThreadEntry, ConversationThreadState, save_entry, export_state, open_turns,
  is_open_consistent, every_entry, is_conversation_thread_state, restore_turns, restore_entry,
  restore_entries, found_turns, remove_all_unmatched, settle_open, restore_state,
}
use kross.Context.Thread.{TurnStatus, ThreadEntry, ConversationThread, has_turn, clear}
use kross.Context.Tokens.{Text, LlmMessage}
use kross.Context.Edits.{build_messages}
use mathlib.Core.List.{append-nil, append_assoc, map-append}

abbrev is_mapped : ℕ → Map ℕ ℕ → Bool
is_mapped n ids = elim (get ℕ_discrete n ids) [ none ↦ false | some m ↦ true ]

set-is_mapped :
    (n k m : ℕ) (ids : Map ℕ ℕ)
    → is_mapped n ids ≡ true
    → is_mapped n (set ℕ_discrete k m ids) ≡ true
set-is_mapped n k m ids h = ground (arith, get-set ℕ_discrete k n m ids)

set-is_mapped_self : (n m : ℕ) (ids : Map ℕ ℕ) → is_mapped n (set ℕ_discrete n m ids) ≡ true
set-is_mapped_self n m ids = rw (is_mapped, get-set_self ℕ_discrete n m ids) refl

messages_of : List ThreadEntry → List LlmMessage
messages_of es = map (λ (e : ThreadEntry). e.message) es

module _ (estimate : LlmMessage → ℕ) where
  -- Every turn id is mapped, and the entries stay.
  restore_turns-mapped :
      (b : Bool) (turns : Map ℕ TurnStatus) (ids : Map ℕ ℕ) (t : ConversationThread) (n : ℕ)
      → (has_turn n (keys turns) ≡ true) ⊎ (is_mapped n ids ≡ true)
      → is_mapped n (restore_turns estimate b turns ids t).0 ≡ true
  unfolding restore_turns
  restore_turns-mapped b [] ids t n (inl h) = cc
  restore_turns-mapped b [] ids t n (inr h) = h
  restore_turns-mapped b ((k, s) ∷ turns) ids t n h =
      restore_turns-mapped b turns (set ℕ_discrete k (t.turn_counter + 1) ids) _ n (moved h)
    where
      moved :
          (has_turn n (k ∷ keys turns) ≡ true) ⊎ (is_mapped n ids ≡ true)
          → (has_turn n (keys turns) ≡ true)
            ⊎ (is_mapped n (set ℕ_discrete k (t.turn_counter + 1) ids) ≡ true)
      moved (inr m) = inr (set-is_mapped n k (t.turn_counter + 1) ids m)
      moved (inl m) = elim (ℕ_discrete k n) [
        | yes q ↦ inr (
            subst (λ j. is_mapped j (set ℕ_discrete k (t.turn_counter + 1) ids) ≡ true) q
              (set-is_mapped_self k (t.turn_counter + 1) ids))
        | no q ↦ inl (ground (arith, m, q))
      ]

  restore_turns-entries :
      (b : Bool) (turns : Map ℕ TurnStatus) (ids : Map ℕ ℕ) (t : ConversationThread)
      → (restore_turns estimate b turns ids t).1.entries ≡ t.entries
  unfolding restore_turns
  restore_turns-entries b [] ids t = refl
  restore_turns-entries b ((k, s) ∷ turns) ids t =
      restore_turns-entries b turns (set ℕ_discrete k (t.turn_counter + 1) ids) _

  restore_entries-messages :
      (ids : Map ℕ ℕ) (es : List SerializedThreadEntry) (t : ConversationThread)
      → All (λ (e : SerializedThreadEntry). is_mapped e.turn_id ids ≡ true) es
      → build_messages (restore_entries estimate ids es t)
        ≡ build_messages t ++ map (λ (e : SerializedThreadEntry). e.message) es
  unfolding restore_entries build_messages
  restore_entries-messages ids [] t h = sym (append-nil _)
  restore_entries-messages ids (e ∷ es) t h = elim (Option-cases (get ℕ_discrete e.turn_id ids)) [
    | inl q ↦ true_of_false (rw (is_mapped, q) at h.0)
    | inr (n, q) ↦
        rw (restore_entries, q)
          (restore_entries-messages ids es (restore_entry estimate n e t) h.1
            ∙ ap (λ ms. ms ++ map (λ (e : SerializedThreadEntry). e.message) es)
                (map-append (λ (x : ThreadEntry). x.message) t.entries _)
            ∙ append_assoc (build_messages t) (e.message ∷ []) _)
  ]

  found_turns-length :
      (ids : Map ℕ ℕ) (ns : List ℕ) → length (found_turns estimate ids ns) ≤ length ns
  found_turns-length ids [] = omega arith
  found_turns-length ids (n ∷ ns) = ground (arith, found_turns-length ids ns)

  settle_open-messages :
      (ns : List ℕ) (t : ConversationThread)
      → length ns ≤ 1
      → build_messages (settle_open estimate true ns t) ≡ build_messages t
  unfolding build_messages remove_all_unmatched
  settle_open-messages [] t h = refl
  settle_open-messages (n ∷ []) t h = refl
  settle_open-messages (n ∷ m ∷ ns) t h = absurd (omega (arith, h))

consistent-length : (o : Option ℕ) (ns : List ℕ) → is_open_consistent o ns ≡ true → length ns ≤ 1
consistent-length none [] h = omega arith
consistent-length none (n ∷ ns) h = cc
consistent-length (some m) [] h = cc
consistent-length (some m) (n ∷ []) h = omega arith
consistent-length (some m) (n ∷ k ∷ ns) h = cc

every_entry-All :
    (ids : List ℕ) (es : List SerializedThreadEntry)
    → every_entry ids es ≡ true
    → All (λ (e : SerializedThreadEntry). has_turn e.turn_id ids ≡ true) es
every_entry-All ids [] h = tt
every_entry-All ids (e ∷ es) h = (ground arith, every_entry-All ids es (ground arith))

module _ (estimate : LlmMessage → ℕ) (c : Text) where
  -- The messages of the restored thread are those of the state, and its loop goes on where it was.
  restore_state-accepted :
      (s : ConversationThreadState) (u : ConversationThread)
      → is_conversation_thread_state s ≡ true
      → ((restore_state estimate true c s u).0 ≡ true)
        × (build_messages (restore_state estimate true c s u).1
            ≡ map (λ (e : SerializedThreadEntry). e.message) s.entries)
        × ((restore_state estimate true c s u).1.current_iteration ≡ s.current_iteration)
  unfolding restore_state is_conversation_thread_state clear build_messages
  restore_state-accepted s u h = rw (restore_state, h) (refl, messages, refl)
    where
      ids : Map ℕ ℕ
      ids = (restore_turns estimate true s.turns [] (clear u)).0

      t1 : ConversationThread
      t1 = (restore_turns estimate true s.turns [] (clear u)).1

      ns : List ℕ
      ns = found_turns estimate ids (open_turns s.turns)

      few : (a b : Bool) → a && b ≡ true → a ≡ true
      few a b k = ground arith

      rest : (a b : Bool) → a && b ≡ true → b ≡ true
      rest a b k = ground arith

      mapped :
          (es : List SerializedThreadEntry)
          → All (λ (e : SerializedThreadEntry). has_turn e.turn_id (keys s.turns) ≡ true) es
          → All (λ (e : SerializedThreadEntry). is_mapped e.turn_id ids ≡ true) es
      mapped [] k = tt
      mapped (e ∷ es) k = (
        restore_turns-mapped estimate true s.turns [] (clear u) e.turn_id (inl k.0),
        mapped es k.1,
      )

      messages :
          build_messages (settle_open estimate true ns (restore_entries estimate ids s.entries t1))
          ≡ map (λ (e : SerializedThreadEntry). e.message) s.entries
      messages =
          settle_open-messages estimate ns (restore_entries estimate ids s.entries t1) (
            omega (
              arith,
              found_turns-length estimate ids (open_turns s.turns),
              consistent-length s.open_turn_id (open_turns s.turns) (
                  few (is_open_consistent s.open_turn_id (open_turns s.turns))
                    (every_entry (keys s.turns) s.entries) h),
            ))
          ∙ restore_entries-messages estimate ids s.entries t1 (
              mapped s.entries (
                every_entry-All (keys s.turns) s.entries (
                  rest (is_open_consistent s.open_turn_id (open_turns s.turns))
                    (every_entry (keys s.turns) s.entries) h)))
          ∙ ap
              (λ es.
                map (λ (e : ThreadEntry). e.message) es
                ++ map (λ (e : SerializedThreadEntry). e.message) s.entries)
              (restore_turns-entries estimate true s.turns [] (clear u))

  saved-messages :
      (es : List ThreadEntry)
      → map (λ (e : SerializedThreadEntry). e.message) (map save_entry es)
        ≡ map (λ (e : ThreadEntry). e.message) es
  saved-messages [] = refl
  saved-messages (e ∷ es) = ap (◌∷◌ e.message) (saved-messages es)

  -- If the saved state of a thread is one that the check of saved states accepts, then restoring it
  -- into any thread, with the open turn preserved, succeeds; the messages of the restored thread
  -- are those of the saved one, in order; and so is its iteration.
  pub restore_state-export_state :
      (t u : ConversationThread)
      → is_conversation_thread_state (export_state t) ≡ true
      → ((restore_state estimate true c (export_state t) u).0 ≡ true)
        × (build_messages (restore_state estimate true c (export_state t) u).1 ≡ build_messages t)
        × ((restore_state estimate true c (export_state t) u).1.current_iteration
            ≡ t.current_iteration)
  unfolding export_state build_messages
  restore_state-export_state t u h =
      let (a, b, d) = restore_state-accepted (export_state t) u h in
      (a, b ∙ saved-messages t.entries, d)
