-- ===== src/Conductor/Dispatch/Progress.antt =====
-- The end of the loop over the workers in `conductorExecutePhase` of
-- packages/core/src/runtime/modeFlows.ts.
use kross.Base.{
  All, String-discrete, ℕ, String, ◌≡◌, refl, sym, ap, subst, ◌∙◌, inl, inr, if_pos, if_neg, true,
  false, none, some, List, [], ◌∷◌, arith, some_inj, Bool-cases, true_of_false, text_eq,
  text_eq_iff,
}
use kross.Base.Maps.{Map, get, set, get-set}
use kross.Conductor.Plan.{Task, has, index_tasks, is_known, depends, ids_of, search_plan}
use kross.Conductor.Plan.Order.{visits}
use kross.Conductor.Plan.Sound.{IsOrdered}
use kross.Conductor.Plan.Cycles.{All-of_has, has_of_All}
use kross.Conductor.Plan.Decides.{ids-known}
use kross.Conductor.Plan.Accepted.{IsResolved, AllResolved, IsPlan}
use kross.Conductor.Outcome.{TaskOutcome}
use kross.Conductor.Dispatch.{Dispatch, dependencies, is_some, all_settled, find_ready}
use kross.Conductor.Dispatch.Rounds.{IsSound}

-- A property of all tasks holds of those that the map of the plan gives.
index_tasks-All :
    (P : Task → Type 0) (ts : List Task) (m : Map String Task)
    → All P ts
    → ((id : String) (t : Task) → get String-discrete id m ≡ some t → P t)
    → (id : String) (t : Task) → get String-discrete id (index_tasks ts m) ≡ some t
    → P t
unfolding index_tasks
index_tasks-All P [] m a h = h
index_tasks-All P (u ∷ ts) m a h = index_tasks-All P ts (set String-discrete u.id u m) a.1 λ id t e.
    elim (String-discrete u.id id) [
      | yes q ↦
          subst P
            (some_inj (
              sym (if_pos (String-discrete u.id id) q _ _)
              ∙ sym (get-set String-discrete u.id id u m)
              ∙ e))
            a.0
      | no n ↦ h id t (
          sym (if_neg (String-discrete u.id id) n _ _)
          ∙ sym (get-set String-discrete u.id id u m)
          ∙ e)
    ]

All-resolved :
    (ids : List String) (id : String) (ds : List String)
    → All (IsResolved ids id) ds
    → All (λ d. has d ids ≡ true) ds
All-resolved ids id [] h = tt
All-resolved ids id (d ∷ ds) h = (h.0.1, All-resolved ids id ds h.1)

AllResolved-All :
    (ids : List String) (ts : List Task)
    → AllResolved ids ts
    → All (λ t. All (λ d. has d ids ≡ true) (dependencies t)) ts
AllResolved-All ids [] h = tt
AllResolved-All ids (t ∷ ts) h =
    (All-resolved ids t.id (dependencies t) h.0, AllResolved-All ids ts h.1)

find_ready-none :
    (outcomes : Map String TaskOutcome) (ts : List Task)
    → find_ready outcomes ts ≡ none
    → All (λ t. all_settled outcomes (dependencies t) ≡ false) ts
unfolding find_ready
find_ready-none outcomes [] h = tt
find_ready-none outcomes (t ∷ ts) h = ground (arith, find_ready-none outcomes ts)

all_settled-All :
    (outcomes : Map String TaskOutcome) (ds : List String)
    → All (λ d. is_some (get String-discrete d outcomes) ≡ true) ds
    → all_settled outcomes ds ≡ true
unfolding all_settled
all_settled-All outcomes [] h = refl
all_settled-All outcomes (d ∷ ds) h = rw (h.0, all_settled-All outcomes ds h.1) refl

-- A pending id has a pending task.
pending_of_has :
    (P : Task → Type 0) (x : String) (ts : List Task)
    → All P ts
    → has x (ids_of ts) ≡ true
    → (t : Task) × (t.id ≡ x) × P t × ((Q : Task → Type 0) → All Q ts → Q t)
unfolding has
pending_of_has P x [] a h = cc
pending_of_has P x (t ∷ ts) a h = elim (Bool-cases (text_eq x t.id)) [
  | inl e ↦ (t, sym ((text_eq_iff x t.id).0 e), a.0, λ Q q. q.0)
  | inr e ↦ let (u, k, p, g) = pending_of_has P x ts a.1 (ground arith) in (u, k, p, λ Q q. g Q q.1)
]

pub has_nil : (x : String) → has x [] ≡ false
unfolding has
has_nil x = refl

module _ (tasks : List Task) (plan : IsPlan tasks) where
  abbrev pub IsSettled : Dispatch → String → Type 0
  IsSettled s x = is_some (get String-discrete x s.outcomes) ≡ true

  -- A dependency of a task of the plan is an id of the plan.
  listed_dependencies :
      (id : String) (t : Task)
      → get String-discrete id (index_tasks tasks []) ≡ some t
      → All (λ d. has d (ids_of tasks) ≡ true) (dependencies t)
  unfolding get
  listed_dependencies =
      index_tasks-All (λ t. All (λ d. has d (ids_of tasks) ≡ true) (dependencies t)) tasks []
        (AllResolved-All (ids_of tasks) tasks plan.resolved) λ id t e. cc

  known_of_listed :
      (d : String) → has d (ids_of tasks) ≡ true → is_known (index_tasks tasks []) d ≡ true
  known_of_listed d h = has_of_All _ (ids_of tasks) d (ids-known tasks []) h

  depends-planned :
      (t : Task)
      → get String-discrete t.id (index_tasks tasks []) ≡ some t
      → depends (index_tasks tasks []) t.id ≡ dependencies t
  unfolding depends
  depends-planned t e = rw (e) refl

  -- A pending task whose dependencies are settled is ready.
  module _ (s : Dispatch) (vs : List String)
      (settled : All (λ x. has x (ids_of tasks) ≡ true → IsSettled s x) vs) where
    ready :
        (t : Task)
        → get String-discrete t.id (index_tasks tasks []) ≡ some t
        → All (λ d. is_known (index_tasks tasks []) d ≡ true → has d vs ≡ true) (dependencies t)
        → all_settled s.outcomes (dependencies t) ≡ true
    ready t e a = all_settled-All s.outcomes (dependencies t) (
        All-of_has (IsSettled s) (dependencies t) λ d k.
          let l = has_of_All _ (dependencies t) d (listed_dependencies t.id t e) k in
          has_of_All _ vs d settled (has_of_All _ (dependencies t) d a k (known_of_listed d l)) l)

  -- Where nothing runs and nothing is ready, what is visited is settled.
  module _ (room : ℕ) (s : Dispatch) (sound : IsSound tasks room s) (still : s.running ≡ [])
      (none_ready : find_ready s.outcomes s.pending ≡ none) where
    visited-IsSettled :
        (vs : List String)
        → IsOrdered (is_known (index_tasks tasks [])) (depends (index_tasks tasks [])) vs
        → All (λ x. has x (ids_of tasks) ≡ true → IsSettled s x) vs
    visited-IsSettled [] o = tt
    visited-IsSettled (v ∷ vs) o =
        let rest = visited-IsSettled vs o.2 in
        (
          (λ h. elim (sound.placed v h) [
            | inl a ↦ a
            | inr (inr r) ↦
                true_of_false (sym (has_nil v) ∙ subst (λ us. has v (ids_of us) ≡ true) still r)
            | inr (inl p) ↦
                let (t, q, e, g) = pending_of_has _ v s.pending sound.planned p in
                let a =
                  subst (All (λ d. is_known (index_tasks tasks []) d ≡ true → has d vs ≡ true))
                    (ap (depends (index_tasks tasks [])) (sym q) ∙ depends-planned t e) o.0 in
                true_of_false (
                  sym (g _ (find_ready-none s.outcomes s.pending none_ready))
                  ∙ ready s vs rest t e a)
          ]),
          rest,
        )

    -- No task is left pending.
    pub none_pending : s.pending ≡ []
    none_pending =
        let (vs, o, p) = visits tasks (search_plan tasks) plan.acyclic refl in
        no_first vs s.pending sound.planned (find_ready-none s.outcomes s.pending none_ready)
          (visited-IsSettled vs o) p
      where
        no_first :
            (vs : List String) (ts : List Task)
            → All (λ t. get String-discrete t.id (index_tasks tasks []) ≡ some t) ts
            → All (λ t. all_settled s.outcomes (dependencies t) ≡ false) ts
            → All (λ x. has x (ids_of tasks) ≡ true → IsSettled s x) vs
            → All (λ x. has x vs ≡ true) (ids_of tasks)
            → ts ≡ []
        no_first vs [] a b c d = refl
        no_first vs (t ∷ ts) a b c d = true_of_false (
            sym b.0
            ∙ ready s vs c t a.0 (
                All-of_has _ (dependencies t) λ x k l.
                  has_of_All _ (ids_of tasks) x d
                    (has_of_All _ (dependencies t) x (listed_dependencies t.id t a.0) k)))
