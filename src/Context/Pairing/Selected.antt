-- ===== src/Context/Pairing/Selected.antt =====
-- The boundary that a compaction selects, in packages/core/src/context/contextGovernor.ts.
use kross.Base.{
  All, Bool-cases, some_inj, leb, ◌==◌, drop, ℕ, zero, suc, ◌+◌, ◌-◌, max, ◌≡◌, refl, sym, inl, inr,
  Bool, true, false, ◌&&◌, Option, none, some, List, [], ◌∷◌, arith, subst,
}
use kross.Context.Thread.{
  ThreadEntryKind, ThreadEntry, ConversationThread, user_input, reply, tool_result, compaction,
  notice,
}
use kross.Context.Edits.{take, is_tool}
use kross.Context.Tokens.{Text, LlmMessage, assistant, chat, tool}
use kross.Context.Prefix.{
  EntryRange, CompactionSelection, sum_tokens, get_compactable_ranges, is_assistant, find_split,
  find_safe_suffix_start, or_start, walk_back, reverse_onto, build_compaction_selection,
  select_automatic_prefix,
}
use kross.Context.Pairing.{Caller, Paired, drop-Paired}
use kross.Context.Pairing.Cuts.{Safe, chat-Paired, SafeRange, drop-suc, ranges-Safe}

assistant-Paired :
    (p : Caller) (e : ThreadEntry) (es : List ThreadEntry)
    → is_assistant e ≡ true
    → Paired p (e ∷ es)
    → Paired none (e ∷ es)
assistant-Paired p e es a h = chat-Paired p e es (no_tool e.kind e.message a) h
  where
    no_tool :
        (k : ThreadEntryKind) (m : LlmMessage)
        → (elim k [ reply ↦ elim m [ chat assistant c calls ↦ true | _ ↦ false ] | _ ↦ false ])
          ≡ true
        → is_tool m ≡ false
    no_tool reply (chat role c calls) a = refl
    no_tool reply (tool id name c) a = cc
    no_tool user_input m a = cc
    no_tool tool_result m a = cc
    no_tool compaction m a = cc
    no_tool notice m a = cc

find_split-Safe :
    (entries : List ThreadEntry) (budget i left : ℕ) (es : List ThreadEntry) (n : ℕ)
    → Paired none entries
    → drop i entries ≡ es
    → find_split budget i left es ≡ some n
    → Safe entries n
unfolding find_split
find_split-Safe entries budget i zero es n h d f = cc
find_split-Safe entries budget i (suc left) [] n h d f = cc
find_split-Safe entries budget i (suc left) (e ∷ es) n h d f =
    elim (Bool-cases (is_assistant e && leb (sum_tokens (take (suc left) (e ∷ es))) budget)) [
      | inl k ↦
          let (q, r) = drop-Paired i none entries h in
          subst (Safe entries) (some_inj (rw (k, find_split) at f)) (
            subst (Paired none) (sym d)
              (assistant-Paired q e es (both _ _ k) (subst (Paired q) d r)))
      | inr k ↦
          find_split-Safe entries budget (suc i) left es n h (drop-suc i e es entries d)
            (rw (k, find_split) at f)
    ]
  where
    both : (a b : Bool) → a && b ≡ true → a ≡ true
    both a b k = ground arith

or_start-Safe :
    (entries : List ThreadEntry) (start : ℕ) (o : Option ℕ)
    → Safe entries start
    → ((n : ℕ) → o ≡ some n → Safe entries n)
    → Safe entries (or_start start o)
or_start-Safe entries start none h k = h
or_start-Safe entries start (some n) h k = k n refl

walk_back-Safe :
    (entries : List ThreadEntry) (budget : ℕ) (rs : List EntryRange) (retained boundary : ℕ)
    → Paired none entries
    → All (SafeRange entries) rs
    → Safe entries boundary
    → Safe entries (walk_back entries budget rs retained boundary)
unfolding walk_back find_safe_suffix_start
walk_back-Safe entries budget [] retained boundary h a b = b
walk_back-Safe entries budget (r ∷ rs) retained boundary h a b =
    elim (Bool-cases (leb (retained + r.tokens) budget)) [
      | inl k ↦
          rw (walk_back, k)
            (walk_back-Safe entries budget rs (retained + r.tokens) r.start h a.1 a.0.0)
      | inr k ↦ elim (Bool-cases (retained == 0)) [
        | inl q ↦
            rw (walk_back, k, q)
              (or_start-Safe entries r.start (find_safe_suffix_start entries r budget) a.0.0 λ n f.
                find_split-Safe entries budget (suc r.start) (r.end_at - suc r.start)
                  (drop (suc r.start) entries) n h refl f)
        | inr q ↦ rw (walk_back, k, q) a.0.1
      ]
    ]

reverse_onto-All :
    (P : EntryRange → Type 0) (rs acc : List EntryRange)
    → All P rs
    → All P acc
    → All P (reverse_onto rs acc)
unfolding reverse_onto
reverse_onto-All P [] acc h k = k
reverse_onto-All P (r ∷ rs) acc h k = reverse_onto-All P rs (r ∷ acc) h.1 (h.0, k)

module _ (body : Text → Text) where
  selected-count :
      (entries : List ThreadEntry) (n : ℕ) (s : CompactionSelection)
      → build_compaction_selection body entries n ≡ some s
      → s.entry_count ≡ n
  unfolding build_compaction_selection
  selected-count entries n s h = ground arith

  pub select_automatic_prefix-Safe :
      (t : ConversationThread) (recent : ℕ) (s : CompactionSelection)
      → Paired none t.entries
      → select_automatic_prefix body t recent ≡ some s
      → Safe t.entries s.entry_count
  unfolding select_automatic_prefix
  select_automatic_prefix-Safe t recent s h f =
      go (reverse_onto (get_compactable_ranges t) [])
        (reverse_onto-All (SafeRange t.entries) (get_compactable_ranges t) [] (ranges-Safe t h) tt)
        f
    where
      go :
          (rs : List EntryRange)
          → All (SafeRange t.entries) rs
          → (elim rs [
            | [] ↦ none
            | r ∷ rs ↦
                build_compaction_selection body t.entries
                  (walk_back t.entries (max 1 recent) (r ∷ rs) 0 r.end_at)
          ])
            ≡ some s
          → Safe t.entries s.entry_count
      go [] a f = cc
      go (r ∷ rs) a f =
          subst (Safe t.entries) (sym (selected-count t.entries _ s f))
            (walk_back-Safe t.entries (max 1 recent) (r ∷ rs) 0 r.end_at h a a.0.1)
