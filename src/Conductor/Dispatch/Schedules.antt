-- ===== src/Conductor/Dispatch/Schedules.antt =====
-- The events of the loop of `conductorExecutePhase` in packages/core/src/runtime/modeFlows.ts.
use kross.Base.{
  length, Bool-cases, ℕ, zero, suc, ◌≤◌, ◌≡◌, refl, ap, inl, inr, Bool, List, [], ◌∷◌, arith,
}
use kross.Base.Maps.{values, get}
use kross.Conductor.Plan.{Task, has, index_tasks}
use kross.Conductor.Dispatch.Machine.{Scheduler, Follows, here}
use kross.Conductor.Plan.Decides.{length-ids_of}
use kross.Conductor.Dispatch.{
  Dispatch, max_concurrency, race, Run, prepare, is_idle, finish_round, dispatch, dispatch_plan,
  completed,
}
use kross.Conductor.Execution.{Completion}
use kross.Conductor.Dispatch.Start.{start-planned, start-Apart}
use kross.Conductor.Dispatch.Rounds.{length-race, settle_race, prepare-running_le}
use kross.Conductor.Dispatch.Simulates.{Simulates}
use kross.Conductor.Dispatch.Serves.{Succeeds}
use kross.Conductor.Dispatch.Refines.{deps}
use kross.Conductor.Dispatch.RoundSteps.{Follows-append, prepare-Follows, settle_race-Follows}

module _ (tasks : List Task) (perform : Task → Completion) where
  module _ (winner : ℕ → ℕ) (aborted_at : ℕ → Bool) where
    -- A state that simulates, with at most three workers.
    abbrev Leads : Scheduler → Run → Type 0
    Leads a run =
        Follows (deps tasks) (Succeeds tasks perform) a run.0
          (λ b. length b.running ≤ max_concurrency)

    few :
        (a : Scheduler) (s : Dispatch)
        → length s.running ≤ max_concurrency
        → Simulates tasks a s
        → length a.running ≤ max_concurrency
    few a s h v = omega (arith, h, ap length v.running, length-ids_of s.running)

    finish_round-Leads :
        (n : ℕ) (a : Scheduler) (s : Dispatch) (us : List Task) (next : Dispatch → Run)
        → s.running ≡ us
        → length s.running ≤ max_concurrency
        → Simulates tasks a s
        → ((b : Scheduler) (u : Dispatch)
            → length u.running ≤ max_concurrency
            → Simulates tasks b u
            → Leads b (next u))
        → Leads a (finish_round perform winner aborted_at n s us next)
    finish_round-Leads n a s [] next e h v k = (a, here, few a s h v)
    finish_round-Leads n a s (t ∷ ts) next e h v k =
        elim (Bool-cases (perform (race (winner n) t ts).0).is_aborted) [
          | inl q ↦ rw (q) (a, here, few a s h v)
          | inr q ↦
              let w = race (winner n) t ts in
              let o = (perform w.0).outcome in
              let r =
                Follows-append tasks perform a (completed w.0.id ∷ []) _
                  (settle_race-Follows tasks perform (winner n) t ts o a s e refl v)
                  λ b x.
                    k b (settle_race w.0 w.1 o s)
                      (omega (arith, h, ap length e, length-race (winner n) t ts)) x in
              rw (q) r
        ]

    dispatch-Leads :
        (fuel n : ℕ) (a : Scheduler) (s : Dispatch)
        → length s.running ≤ max_concurrency
        → Simulates tasks a s
        → Leads a (dispatch perform winner aborted_at fuel n s)
    unfolding dispatch
    dispatch-Leads zero n a s h v = (a, here, few a s h v)
    dispatch-Leads (suc fuel) n a s h v = elim (Bool-cases (is_idle s.pending s.running)) [
      | inl i ↦ rw (i, dispatch) (a, here, few a s h v)
      | inr i ↦ elim (Bool-cases (aborted_at n)) [
        | inl q ↦ rw (i, q, dispatch) (a, here, few a s h v)
        | inr q ↦
            let r =
              Follows-append tasks perform a (prepare s).0 _ (prepare-Follows tasks perform a s h v)
                λ b x.
                  finish_round-Leads n b (prepare s).1 (prepare s).1.running
                    (dispatch perform winner aborted_at fuel (suc n)) refl (prepare-running_le s h)
                    x (λ c u l y. dispatch-Leads fuel (suc n) c u l y) in
            rw (i, q, dispatch) r
      ]
    ]

    start_Simulates :
        Simulates tasks
          (record { done = []; failures = []; running = [] })
          (record { outcomes = []; pending = values (index_tasks tasks []); running = [] })
    unfolding has get
    start_Simulates = record {
      done = λ x. refl;
      failures = λ x. refl;
      running = refl;
      apart_running = tt;
      apart_pending = start-Apart tasks;
      fresh = λ x h. (refl, refl);
      unsettled = λ x h. cc;
      planned = start-planned tasks;
      staged = tt;
    }

    -- Whatever the tasks, the outcomes, the winners and the aborts are, the events of the loop over
    -- the workers follow the steps of the abstract scheduler: a task is skipped or started at most
    -- once; it is skipped only for a dependency that was skipped before, or whose worker completed
    -- before with an outcome that does not serve its dependents, as one that is completed, or needs
    -- a review, is whole and changed a file, with no failed verification, does; it is started only
    -- where each of its dependencies is done and fewer than three workers run; it completes only
    -- while it runs; and at most three workers run at the end.
    pub dispatch_plan-Follows :
        Follows
          (deps tasks)
          (Succeeds tasks perform)
          (record { done = []; failures = []; running = [] })
          (dispatch_plan perform winner aborted_at tasks).0
          (λ b. length b.running ≤ max_concurrency)
    unfolding dispatch_plan
    dispatch_plan-Follows = dispatch-Leads (length tasks) 0 _ _ (omega arith) start_Simulates
