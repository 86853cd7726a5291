-- ===== src/Conductor/Dispatch/SkippedFirst.antt =====
-- The two inner loops of `conductorExecutePhase` in packages/core/src/runtime/modeFlows.ts on a task
-- that the plan lists before its dependency.
use kross.Base.{
  length, text_eq, String-discrete, ◌-◌, String, ◌≡◌, refl, ◌∙◌, true, false, none, some, List, [],
  ◌∷◌, ◌++◌, arith, ap,
}
use kross.Base.Maps.{Map, get, set, get-set_self}
use kross.Conductor.Plan.{Task}
use kross.Conductor.Outcome.{TaskOutcome}
use kross.Conductor.Dispatch.{
  Dispatch, Event, max_concurrency, has_failed, dependencies, failed_dependency, drop_task,
  all_settled, find_ready, start_task, start_workers, skip_message, skip_task, skip_blocked,
  prepare, skipped, started,
}
use kross.Conductor.Execution.{failed_worker_outcome}
use kross.Conductor.Dispatch.Ids.{text_eq_self}

module _ (m : Map String TaskOutcome) (t u : Task) (z : String) where
  abbrev before : Dispatch
  before = record { outcomes = m; pending = t ∷ u ∷ []; running = [] }

  abbrev skipped_u : Map String TaskOutcome
  skipped_u = set String-discrete u.id (failed_worker_outcome u (skip_message z u.id)) m

  skips :
      failed_dependency m (dependencies t) ≡ none
      → failed_dependency m (dependencies u) ≡ some z
      → text_eq t.id u.id ≡ false
      → skip_blocked (t ∷ u ∷ []) before
        ≡ (skipped u.id z ∷ [], record { outcomes = skipped_u; pending = t ∷ []; running = [] })
  unfolding skip_blocked skip_task
  skips e f n =
      rw (e, skip_blocked, f, skip_blocked)
        (ap
          (λ ts. (skipped u.id z ∷ [], record { outcomes = skipped_u; pending = ts; running = [] }))
          drops)
    where
      drops : drop_task u.id (t ∷ u ∷ []) ≡ t ∷ []
      drops = ground (arith, n, text_eq_self u.id)

  starts :
      all_settled skipped_u (dependencies t) ≡ true
      → (start_workers 3 (record { outcomes = skipped_u; pending = t ∷ []; running = [] })).0
        ≡ started t.id ∷ []
  unfolding start_workers start_task find_ready
  starts e =
      rw (found, start_workers)
        (ap
          (λ ts.
            started t.id
            ∷ (start_workers 2 (record { outcomes = skipped_u; pending = ts; running = t ∷ [] })).0)
          drops)
    where
      found : find_ready skipped_u (t ∷ []) ≡ some t
      found = rw (e, find_ready) refl

      drops : drop_task t.id (t ∷ []) ≡ []
      drops = ground (arith, text_eq_self t.id)

-- If exactly two tasks are pending and no worker runs, the first depends on the second alone, which
-- is open, and the second depends alone on a task with an outcome that failed, then the events of a
-- round up to its race are that the second task is skipped and the first one started: it runs
-- although its dependency did not succeed.
pub prepare-start_after_skip :
    (m : Map String TaskOutcome) (t u : Task) (z : String)
    → dependencies t ≡ u.id ∷ []
    → dependencies u ≡ z ∷ []
    → text_eq t.id u.id ≡ false
    → get String-discrete u.id m ≡ none
    → has_failed (get String-discrete z m) ≡ true
    → (prepare (record { outcomes = m; pending = t ∷ u ∷ []; running = [] })).0
      ≡ skipped u.id z ∷ started t.id ∷ []
unfolding prepare failed_dependency all_settled
prepare-start_after_skip m t u z a b n f h =
    ap
      (λ (k : List Event × Dispatch).
        k.0 ++ (start_workers (max_concurrency - length k.1.running) k.1).0)
      (skips m t u z (ap (failed_dependency m) a ∙ (rw (failed_dependency, f) refl))
        (ap (failed_dependency m) b ∙ (rw (failed_dependency, h) refl)) n)
    ∙ ap (◌∷◌ (skipped u.id z)) (
        starts m t u z (
          ap (all_settled _) a
          ∙ (rw
              (get-set_self String-discrete u.id (failed_worker_outcome u (skip_message z u.id)) m)
              refl)))
