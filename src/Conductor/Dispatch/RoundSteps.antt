-- ===== src/Conductor/Dispatch/RoundSteps.antt =====
-- The events of one round of the loop of `conductorExecutePhase` in
-- packages/core/src/runtime/modeFlows.ts.
use kross.Base.{
  All, Option, true_of_false, length, text_eq, text_eq_iff, String-discrete, Bool-cases, ℕ, ◌-◌,
  ◌≤◌, String, ◌≡◌, sym, ap, subst, ◌∙◌, inl, inr, true, false, some, List, [], ◌∷◌, ◌++◌, arith,
}
use kross.Base.Maps.{get, set}
use kross.Conductor.Plan.{Task, has, index_tasks, ids_of}
use kross.Conductor.Dispatch.Machine.{
  Scheduler, remove, Steps-append, Follows, succeed, fail, here, step,
}
use kross.Conductor.Outcome.{TaskOutcome}
use kross.Conductor.Dispatch.{
  Dispatch, Event, max_concurrency, dependency_outcome_succeeded, has_failed, race, skip_blocked,
  prepare, completed,
}
use kross.Conductor.Execution.{Completion}
use kross.Conductor.Dispatch.Start.{Apart}
use kross.Conductor.Dispatch.Rounds.{settle_race, skip_blocked-running}
use kross.Conductor.Dispatch.Ids.{
  All-race, has-race_winner, race-Apart, ids_of-race, has-remove, apart_of_has,
}
use kross.Conductor.Dispatch.Simulates.{
  Simulates, has-done_set, has-failures_set, has-failures_keep,
}
use kross.Conductor.Dispatch.Serves.{Serves, Comes, Succeeds, succeeded-Serves, Serves-succeeded}
use kross.Conductor.Dispatch.Refines.{deps, skip_blocked-Follows, start_workers-Follows}

module _ (tasks : List Task) (perform : Task → Completion) where
  pub Follows-append :
      {P Q : Scheduler → Type 0} (a : Scheduler) (es fs : List Event)
      → Follows (deps tasks) (Succeeds tasks perform) a es P
      → ((b : Scheduler) → P b → Follows (deps tasks) (Succeeds tasks perform) b fs Q)
      → Follows (deps tasks) (Succeeds tasks perform) a (es ++ fs) Q
  Follows-append a es fs (b, p, x) k =
      let (c, q, y) = k b x in (c, Steps-append (deps tasks) (Succeeds tasks perform) p q, y)

  has_first : (t : Task) (ts : List Task) → has t.id (ids_of (t ∷ ts)) ≡ true
  unfolding has
  has_first t ts = ground (arith, text_eq_iff t.id t.id)

  All-later :
      (t : Task) (ts us : List Task)
      → All
          (λ u.
            (has u.id (ids_of ts) ≡ true)
            × (get String-discrete u.id (index_tasks tasks []) ≡ some u))
          us
      → All
          (λ u.
            (has u.id (ids_of (t ∷ ts)) ≡ true)
            × (get String-discrete u.id (index_tasks tasks []) ≡ some u))
          us
  unfolding has
  All-later t ts [] h = tt
  All-later t ts (u ∷ us) h = ((ground arith, h.0.1), All-later t ts us h.1)

  All-IsPending :
      (ts : List Task)
      → All (λ t. get String-discrete t.id (index_tasks tasks []) ≡ some t) ts
      → All
          (λ t.
            (has t.id (ids_of ts) ≡ true)
            × (get String-discrete t.id (index_tasks tasks []) ≡ some t))
          ts
  All-IsPending [] h = tt
  All-IsPending (t ∷ ts) h = ((has_first t ts, h.0), All-later t ts ts (All-IsPending ts h.1))

  pub prepare-Follows :
      (a : Scheduler) (s : Dispatch)
      → length s.running ≤ max_concurrency
      → Simulates tasks a s
      → Follows
          (deps tasks)
          (Succeeds tasks perform)
          a
          (prepare s).0
          (λ b. Simulates tasks b (prepare s).1)
  unfolding prepare
  prepare-Follows a s h v =
      let s' = (skip_blocked s.pending s).1 in
      Follows-append a (skip_blocked s.pending s).0 _
        (skip_blocked-Follows tasks (Succeeds tasks perform) s.pending a s v.apart_pending
          (All-IsPending s.pending v.planned) v)
        λ b w.
          start_workers-Follows tasks (Succeeds tasks perform) (max_concurrency - length s'.running)
            b s' (omega (arith, h, ap length (skip_blocked-running s.pending s))) w

  has_other :
      (x w : String) (xs : List String)
      → has x xs ≡ false
      → text_eq x w ≡ false
      → has x (w ∷ xs) ≡ false
  unfolding has
  has_other x w xs h k = ground arith

  -- A task that ran has its outcome.
  pub settle_race-Follows :
      (n : ℕ) (t : Task) (ts : List Task) (o : TaskOutcome) (a : Scheduler) (s : Dispatch)
      → s.running ≡ t ∷ ts
      → o ≡ (perform (race n t ts).0).outcome
      → Simulates tasks a s
      → Follows
          (deps tasks)
          (Succeeds tasks perform)
          a
          (completed (race n t ts).0.id ∷ [])
          (λ b. Simulates tasks b (settle_race (race n t ts).0 (race n t ts).1 o s))
  settle_race-Follows n t ts o a s e c v = elim (Bool-cases (dependency_outcome_succeeded o)) [
    | inl k ↦ (
      record { done = w ∷ a.done; failures = a.failures; running = remove w a.running },
      step (succeed runs (subst Outcomes (sym known.0) (subst Serves c (succeeded-Serves o k))))
          here,
      base (
          has-failures_keep a.failures s.outcomes w o k (sym (v.done w) ∙ v.unsettled w runs)
            v.failures),
    )
    | inr k ↦ (
      record { done = w ∷ a.done; failures = w ∷ a.failures; running = remove w a.running },
      step (fail runs λ y. fails k (subst Serves (sym c) (subst Outcomes known.0 y))) here,
      base (has-failures_set a.failures s.outcomes w o k v.failures),
    )
  ]
    where
      w : String
      w = (race n t ts).0.id

      e' : a.running ≡ ids_of (t ∷ ts)
      e' = v.running ∙ ap ids_of e

      Outcomes : Option Task → Type 0
      Outcomes u = Comes perform u

      IsPlanned : Task → Type 0
      IsPlanned u = get String-discrete u.id (index_tasks tasks []) ≡ some u

      known : IsPlanned (race n t ts).0 × All IsPlanned (race n t ts).1
      known = All-race IsPlanned n t ts (subst (All IsPlanned) e v.staged)

      fails : dependency_outcome_succeeded o ≡ false → ¬ (Serves o)
      fails k y = true_of_false (sym k ∙ Serves-succeeded o y)

      apart : Apart (ids_of (t ∷ ts))
      apart = subst (λ us. Apart (ids_of us)) e v.apart_running

      runs : has w a.running ≡ true
      runs = subst (λ xs. has w xs ≡ true) (sym e') (has-race_winner n t ts)

      left : remove w a.running ≡ ids_of (race n t ts).1
      left = ap (remove w) e' ∙ ids_of-race n t ts apart

      base :
          {fs : List String}
          → ((x : String)
              → has x fs ≡ has_failed (get String-discrete x (set String-discrete w o s.outcomes)))
          → Simulates tasks
              (record { done = w ∷ a.done; failures = fs; running = remove w a.running })
              (settle_race (race n t ts).0 (race n t ts).1 o s)
      base {fs} f = record {
        done = has-done_set a.done s.outcomes w o v.done;
        failures = f;
        running = left;
        apart_running = race-Apart n t ts apart;
        apart_pending = v.apart_pending;
        fresh = λ x h.
            let (f, g) = v.fresh x h in
            (
              has_other x w a.done f (apart_of_has x w a.running g runs),
              ground (arith, has-remove x w a.running),
            );
        unsettled = λ x h.
            let g = has-remove x w a.running in
            has_other x w a.done (v.unsettled x (ground (arith, g))) (ground (arith, g));
        planned = v.planned;
        staged = known.1;
      }
