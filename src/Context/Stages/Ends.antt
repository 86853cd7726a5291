-- ===== src/Context/Stages/Ends.antt =====
-- The loop of `applyHardTruncation` in packages/core/src/context/contextGovernor.ts over a list that
-- grows while it runs.
use kross.Base.{
  length, length-append, Bool-cases, Option-cases, leb, ◌==◌, le→leb, drop, ℕ, zero, suc, ◌+◌, ◌/◌,
  ◌≤◌, max, ◌≡◌, refl, ◌∙◌, inl, inr, Bool, true, false, none, some, List, [], ◌∷◌, ◌++◌, arith, ap,
}
use kross.Session.ContextPolicy.{ContextPolicy}
use kross.Context.Thread.{
  ThreadEntryKind, ThreadEntry, ConversationThread, plain, update_entry, new_entry, append_entry,
  notice,
}
use kross.Context.Edits.{add_notice, truncate, truncate_entry}
use kross.Context.Tokens.{Text, LlmMessage, content_of, user}
use kross.Context.Aging.{Texts, estimate_thread_tokens, truncate_head_tail, entry_at}
use kross.Context.Stages.{
  Stage, changed_stage, per_message_cap, truncate_one, truncate_from, apply_hard_truncation,
  hard_truncation, truncated,
}

-- How many entries are over the cap.
abbrev over : ℕ → List ThreadEntry → ℕ
over cap [] = 0
over cap (e ∷ es) = elim (leb e.tokens_est cap) [ true ↦ over cap es | false ↦ suc (over cap es) ]

over_le : (cap : ℕ) (es : List ThreadEntry) → over cap es ≤ length es
over_le cap [] = omega arith
over_le cap (e ∷ es) = ground (arith, over_le cap es)

over_under :
    (cap : ℕ) (e : ThreadEntry) (es : List ThreadEntry)
    → leb e.tokens_est cap ≡ true
    → over cap (e ∷ es) ≡ over cap es
over_under cap e es h = ground arith

over_beyond :
    (cap : ℕ) (e : ThreadEntry) (es : List ThreadEntry)
    → leb e.tokens_est cap ≡ false
    → over cap (e ∷ es) ≡ suc (over cap es)
over_beyond cap e es h = ground arith

over-append :
    (cap : ℕ) (es : List ThreadEntry) (e : ThreadEntry)
    → leb e.tokens_est cap ≡ true
    → over cap (es ++ e ∷ []) ≡ over cap es
over-append cap [] e h = ground arith
over-append cap (x ∷ es) e h = ground (arith, over-append cap es e h)

entry_at-drop :
    (i : ℕ) (es : List ThreadEntry) (e : ThreadEntry)
    → entry_at i es ≡ some e
    → drop i es ≡ e ∷ drop (suc i) es
entry_at-drop i [] e h = cc
entry_at-drop zero (x ∷ es) e h = cc
entry_at-drop (suc i) (x ∷ es) e h = entry_at-drop i es e h

drop-append :
    (i : ℕ) (es ys : List ThreadEntry) (e : ThreadEntry)
    → entry_at i es ≡ some e
    → drop (suc i) (es ++ ys) ≡ drop (suc i) es ++ ys
drop-append i [] ys e h = cc
drop-append zero (x ∷ es) ys e h = refl
drop-append (suc i) (x ∷ es) ys e h = drop-append i es ys e h

-- The change is at the entry or before it.
drop-update_entry :
    (i : ℕ) (f : ThreadEntry → ThreadEntry) (es ys : List ThreadEntry) (e : ThreadEntry)
    → entry_at i es ≡ some e
    → drop (suc i) (update_entry e.id f es ++ ys) ≡ drop (suc i) es ++ ys
unfolding update_entry
drop-update_entry i f [] ys e h = cc
drop-update_entry zero f (x ∷ es) ys e h = ground (arith, h)
drop-update_entry (suc i) f (x ∷ es) ys e h = elim (Bool-cases (x.id == e.id)) [
  | inl k ↦ rw (k, update_entry) (drop-append i es ys e h)
  | inr k ↦ rw (k, update_entry) (drop-update_entry i f es ys e h)
]

module _ (estimate : LlmMessage → ℕ) where
  add_notice-entries :
      (c : Text) (t : ConversationThread)
      → (n : ThreadEntry) × ((add_notice estimate c t).entries ≡ t.entries ++ n ∷ [])
        × (n.tokens_est ≡ estimate (plain user c))
  unfolding add_notice append_entry
  add_notice-entries c t = elim (Option-cases t.open_turn_id) [
    | inl e ↦ (
      new_entry estimate (t.entry_counter + 1) (t.turn_counter + 1) notice (plain user c) none none
          none,
      rw (e, add_notice) refl,
      refl,
    )
    | inr (n, e) ↦ (
      new_entry estimate (t.entry_counter + 1) n notice (plain user c) none none none,
      rw (e, add_notice) refl,
      refl,
    )
  ]

module _ (estimate : LlmMessage → ℕ) (texts : Texts) (policy : ContextPolicy) (cap : ℕ)
    (small : (k : ThreadEntryKind) → estimate (plain user (texts.thread_notice k)) ≤ cap) where
  -- What is left behind the entry that is truncated.
  truncate_one-drop :
      (i : ℕ) (e : ThreadEntry) (t : ConversationThread)
      → entry_at i t.entries ≡ some e
      → (n : ThreadEntry) × (drop (suc i) (truncate_one estimate texts policy cap e t).entries
          ≡ drop (suc i) t.entries ++ n ∷ [])
        × (leb n.tokens_est cap ≡ true)
  unfolding truncate_one truncate_entry
  truncate_one-drop i e t h =
      let c = truncate_head_tail (content_of e.message) cap ++ texts.truncation_notice e in
      let (n, p, q) =
        add_notice-entries estimate (texts.thread_notice e.kind)
          (truncate_entry estimate e.id c t) in
      (
        n,
        ap (drop (suc i)) p ∙ drop-update_entry i (truncate estimate c) t.entries (n ∷ []) e h,
        is_small n q,
      )
    where
      is_small :
          (n : ThreadEntry)
          → n.tokens_est ≡ estimate (plain user (texts.thread_notice e.kind))
          → leb n.tokens_est cap ≡ true
      is_small n q = le→leb n.tokens_est cap (omega (arith, q, small e.kind))

  pub truncate_from-ends :
      (fuel i : ℕ) (t : ConversationThread)
      → length (drop i t.entries) + over cap (drop i t.entries) ≤ fuel
      → (r : Bool × ConversationThread) × (truncate_from estimate texts policy fuel cap i t
          ≡ some r)
  unfolding truncate_from
  truncate_from-ends zero i t l = elim (Option-cases (entry_at i t.entries)) [
    | inl e ↦ ((false, t), rw (truncate_from, e) refl)
    | inr (x, e) ↦ absurd (omega (arith, l, ap length (entry_at-drop i t.entries x e)))
  ]
  truncate_from-ends (suc fuel) i t l = elim (Option-cases (entry_at i t.entries)) [
    | inl e ↦ ((false, t), rw (truncate_from, e) refl)
    | inr (x, e) ↦ elim (Bool-cases (leb x.tokens_est cap)) [
      | inl k ↦
          let (r, q) =
            truncate_from-ends fuel (suc i) t (under x k (entry_at-drop i t.entries x e)) in
          (r, rw (truncate_from, e, k) q)
      | inr k ↦
          let (n, p, m) = truncate_one-drop i x t e in
          let (r, q) =
            truncate_from-ends fuel (suc i) (truncate_one estimate texts policy cap x t)
              (beyond x k (entry_at-drop i t.entries x e) n m _ p) in
          ((true, r.1), rw (truncate_from, e, k, q) refl)
    ]
  ]
    where
      under :
          (x : ThreadEntry)
          → leb x.tokens_est cap ≡ true
          → drop i t.entries ≡ x ∷ drop (suc i) t.entries
          → length (drop (suc i) t.entries) + over cap (drop (suc i) t.entries) ≤ fuel
      under x k d =
          let rest = drop (suc i) t.entries in
          omega (arith, l, ap length d, ap (over cap) d, over_under cap x rest k)

      beyond :
          (x : ThreadEntry)
          → leb x.tokens_est cap ≡ false
          → drop i t.entries ≡ x ∷ drop (suc i) t.entries
          → (n : ThreadEntry) → leb n.tokens_est cap ≡ true
          → (es : List ThreadEntry) → es ≡ drop (suc i) t.entries ++ n ∷ []
          → length es + over cap es ≤ fuel
      beyond x k d n m es p =
          let rest = drop (suc i) t.entries in
          omega (
            arith,
            l,
            ap length d,
            ap (over cap) d,
            over_beyond cap x rest k,
            ap length p,
            length-append rest (n ∷ []),
            ap (over cap) p,
            over-append cap rest n m,
          )

module _ (estimate : LlmMessage → ℕ) (texts : Texts) (policy : ContextPolicy)
    (small : (k : ThreadEntryKind) → estimate (plain user (texts.thread_notice k)) ≤ 256) where
  pub apply_hard_truncation-ends :
      (budget : ℕ) (t : ConversationThread)
      → (s : Stage) × (apply_hard_truncation estimate texts policy budget t ≡ some s)
  unfolding apply_hard_truncation
  apply_hard_truncation-ends budget t = elim (Bool-cases (leb (estimate_thread_tokens t) budget)) [
    | inl k ↦ ((none, t), rw (apply_hard_truncation, k) refl)
    | inr k ↦
        let cap = per_message_cap estimate texts policy budget t in
        let (r, q) =
          truncate_from-ends estimate texts policy cap
            (λ j.
              le-cap (estimate (plain user (texts.thread_notice j)))
                (budget / max 1 (length t.entries)) (small j))
            (length t.entries + length t.entries) 0 t (omega (arith, over_le cap t.entries)) in
        (
          changed_stage estimate texts policy hard_truncation truncated t r,
          rw (apply_hard_truncation, k, q) refl,
        )
  ]
    where
      le-cap : (n m : ℕ) → n ≤ 256 → n ≤ max 256 m
      le-cap n m h = omega (arith, h)
