-- ===== src/Context/Pairing/Cuts.antt =====
-- Where a compaction cuts the entries of a thread, in
-- packages/core/src/context/contextGovernor.ts.
use kross.Base.{
  All, All-filter_by, Bool-cases, true_of_false, ◌==◌, drop, ℕ, zero, suc, ◌+◌, String, ◌≡◌, refl,
  sym, ap, ◌∙◌, ◌≢◌, inl, inr, true, false, ◌&&◌, none, some, List, [], ◌∷◌, arith, subst,
}
use kross.Context.Thread.{ThreadEntry, ConversationThread}
use kross.Context.Edits.{is_tool}
use kross.Context.Tokens.{Text, LlmMessage, system, user, assistant, chat, tool}
use kross.Context.Prefix.{
  EntryRange, is_compaction, one_entry, put_before, runs, get_compactable_ranges,
}
use kross.Context.Pairing.{Caller, next_caller, advance, AnswersTo, Paired}

-- The entries from a position on are paired on their own.
abbrev pub Safe : List ThreadEntry → ℕ → Type 0
Safe entries n = Paired none (drop n entries)

-- What a message that is no result leaves does not depend on the caller before it.
pub chat-Paired :
    (p : Caller) (e : ThreadEntry) (es : List ThreadEntry)
    → is_tool e.message ≡ false
    → Paired p (e ∷ es)
    → Paired none (e ∷ es)
chat-Paired p e es n h = go e.message n h.0 h.1
  where
    go :
        (m : LlmMessage)
        → is_tool m ≡ false
        → AnswersTo e.turn_id m p
        → Paired (next_caller e.turn_id m p) es
        → AnswersTo e.turn_id m none × Paired (next_caller e.turn_id m none) es
    go (tool id name c) n a k = cc
    go (chat assistant c calls) n a k = (tt, k)
    go (chat user c calls) n a k = (tt, k)
    go (chat system c calls) n a k = (tt, k)

caller-turn :
    (p : Caller) (turn other : ℕ) (m : LlmMessage) (id name : String) (c : Text)
    → AnswersTo turn m p
    → AnswersTo other (tool id name c) (next_caller turn m p)
    → turn ≡ other
caller-turn p turn other (chat assistant d calls) id name c a k = k.0
caller-turn p turn other (chat user d calls) id name c a k = absurd k
caller-turn p turn other (chat system d calls) id name c a k = absurd k
caller-turn none turn other (tool i n d) id name c a k = absurd a
caller-turn (some (t, ids)) turn other (tool i n d) id name c a k = sym a.0 ∙ k.0

-- A change of turn is a safe place.
turn-Paired :
    (p : Caller) (x y : ThreadEntry) (ys : List ThreadEntry)
    → x.turn_id ≢ y.turn_id
    → Paired p (x ∷ y ∷ ys)
    → Paired none (y ∷ ys)
turn-Paired p x y ys n h = go y.message refl
  where
    go : (m : LlmMessage) → y.message ≡ m → Paired none (y ∷ ys)
    go (chat role c calls) e = chat-Paired (advance p x) y ys (ap is_tool e) h.1
    go (tool id name c) e = absurd (
        n (
          caller-turn p x.turn_id y.turn_id x.message id name c h.0
            (subst (λ m. AnswersTo y.turn_id m (advance p x)) e h.1.0)))

abbrev pub SafeRange : List ThreadEntry → EntryRange → Type 0
SafeRange entries r = Safe entries r.start × Safe entries r.end_at

-- The runs from a position: the first begins there, and all other ends are safe.
abbrev RunsFrom : List ThreadEntry → ℕ → List ThreadEntry → List EntryRange → Type 0
RunsFrom entries i es [] = es ≡ []
RunsFrom entries i es (r ∷ rs) =
    ((y : ThreadEntry) × (ys : List ThreadEntry) × (es ≡ y ∷ ys) × (r.turn_id ≡ y.turn_id))
    × (r.start ≡ i)
    × Safe entries r.end_at
    × All (SafeRange entries) rs

pub drop-suc :
    (n : ℕ) (e : ThreadEntry) (es entries : List ThreadEntry)
    → drop n entries ≡ e ∷ es
    → drop (suc n) entries ≡ es
drop-suc zero e es [] h = cc
drop-suc zero e es (x ∷ entries) h = cc
drop-suc (suc n) e es [] h = cc
drop-suc (suc n) e es (x ∷ entries) h = drop-suc n e es entries h

put_before-RunsFrom :
    (entries : List ThreadEntry) (p : Caller) (i : ℕ) (e : ThreadEntry) (es : List ThreadEntry)
    (rs : List EntryRange)
    → drop (suc i) entries ≡ es
    → Paired p (e ∷ es)
    → RunsFrom entries (suc i) es rs
    → RunsFrom entries i (e ∷ es) (put_before i e rs)
put_before-RunsFrom entries p i e es [] d h k =
    ((e, es, refl, refl), refl, subst (Paired none) (sym (d ∙ k)) tt, tt)
put_before-RunsFrom entries p i e es (r ∷ rs) d h k = elim (Bool-cases (r.turn_id == e.turn_id)) [
  | inl q ↦
      subst (RunsFrom entries i (e ∷ es)) (sym (joined q))
        ((e, es, refl, ground (arith, q)), refl, k.2, k.3)
  | inr q ↦
      let (y, ys, u, v) = k.0 in
      let safe = subst (Paired none) (sym (d ∙ u)) (
        turn-Paired p e y ys (λ w. true_of_false (sym q ∙ same r.turn_id e.turn_id (v ∙ sym w)))
          (subst (λ zs. Paired p (e ∷ zs)) u h)) in
      subst (RunsFrom entries i (e ∷ es)) (sym (apart q))
        ((e, es, refl, refl), refl, safe, ((subst (Safe entries) (sym k.1) safe, k.2), k.3))
]
  where
    same : (a b : ℕ) → a ≡ b → (a == b) ≡ true
    same a b h = ground arith

    joined :
        (r.turn_id == e.turn_id) ≡ true
        → put_before i e (r ∷ rs)
          ≡ record r {
            start = i;
            tokens = e.tokens_est + r.tokens;
            compaction_only = is_compaction e.kind && r.compaction_only;
          }
            ∷ rs
    joined q = rw (put_before, q) refl

    apart : (r.turn_id == e.turn_id) ≡ false → put_before i e (r ∷ rs) ≡ one_entry i e ∷ r ∷ rs
    apart q = rw (put_before, q) refl

runs-RunsFrom :
    (entries : List ThreadEntry) (p : Caller) (i : ℕ) (es : List ThreadEntry)
    → drop i entries ≡ es
    → Paired p es
    → RunsFrom entries i es (runs i es)
unfolding runs
runs-RunsFrom entries p i [] d h = refl
runs-RunsFrom entries p i (e ∷ es) d h =
    put_before-RunsFrom entries p i e es (runs (suc i) es) (drop-suc i e es entries d) h
      (runs-RunsFrom entries (advance p e) (suc i) es (drop-suc i e es entries d) h.1)

All-SafeRange :
    (entries : List ThreadEntry) (rs : List EntryRange)
    → Paired none entries
    → RunsFrom entries 0 entries rs
    → All (SafeRange entries) rs
All-SafeRange entries [] h k = tt
All-SafeRange entries (r ∷ rs) h k = ((subst (Safe entries) (sym k.1) h, k.2), k.3)

pub ranges-Safe :
    (t : ConversationThread)
    → Paired none t.entries
    → All (SafeRange t.entries) (get_compactable_ranges t)
unfolding get_compactable_ranges
ranges-Safe t h =
    All-filter_by (SafeRange t.entries) _ (runs 0 t.entries) (
      All-SafeRange t.entries (runs 0 t.entries) h
        (runs-RunsFrom t.entries none 0 t.entries refl h))
