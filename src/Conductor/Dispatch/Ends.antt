-- ===== src/Conductor/Dispatch/Ends.antt =====
-- The end of the loop over the workers in `conductorExecutePhase` of
-- packages/core/src/runtime/modeFlows.ts, on a plan that its schema accepts.
use kross.Base.{
  All, String-discrete, ℕ, zero, suc, ◌+◌, ◌-◌, ◌≤◌, String, ◌≡◌, refl, sym, ap, subst, ◌∙◌, inl,
  inr, Bool, true, false, none, List, [], ◌∷◌, arith, length, Option-cases, true_of_false,
  Bool-cases, length-append,
}
use kross.Base.Maps.{values, Map, get}
use kross.Conductor.Plan.{Task, has, ids_of}
use kross.Conductor.Plan.Cycles.{All-of_has}
use kross.Conductor.Plan.Accepted.{IsPlan}
use kross.Conductor.Outcome.{TaskOutcome}
use kross.Conductor.Dispatch.{
  dispatch_plan, settle_all, Dispatch, max_concurrency, is_some, find_ready, start_task,
  start_workers, race, Run, skip_blocked, prepare, is_idle, finish_round, dispatch, settled,
  index_tasks,
}
use kross.Conductor.Execution.{Completion}
use kross.Conductor.Dispatch.Rounds.{IsSound, settle_race, settle_race-IsSound, prepare-IsSound}
use kross.Conductor.Dispatch.Start.{start-has, start-planned, start-length_le}
use kross.Conductor.Dispatch.Progress.{has_nil, none_pending}

start_workers-length_ge :
    (room : ℕ) (s : Dispatch) → length s.running ≤ length (start_workers room s).1.running
unfolding start_workers start_task
start_workers-length_ge zero s = omega arith
start_workers-length_ge (suc room) s = elim (Option-cases (find_ready s.outcomes s.pending)) [
  | inl e ↦ rw (e, start_workers) (omega arith)
  | inr (t, e) ↦
      let k = start_workers-length_ge room (start_task t s) in
      rw (e, start_workers) (omega (arith, k, length-append s.running (t ∷ [])))
]

-- Where there is room and no worker runs, no task is ready.
start_workers_idle :
    (room : ℕ) (s : Dispatch)
    → 1 ≤ room
    → (start_workers room s).1.running ≡ []
    → find_ready (start_workers room s).1.outcomes (start_workers room s).1.pending ≡ none
unfolding start_workers start_task
start_workers_idle zero s h i = absurd (omega (arith, h))
start_workers_idle (suc room) s h i = elim (Option-cases (find_ready s.outcomes s.pending)) [
  | inl e ↦ rw (e, start_workers) e
  | inr (t, e) ↦
      let k = start_workers-length_ge room (start_task t s) in
      let j = ap length (rw (e, start_workers) at i) in
      absurd (omega (arith, k, j, length-append s.running (t ∷ [])))
]

prepare_idle :
    (s : Dispatch)
    → (prepare s).1.running ≡ []
    → find_ready (prepare s).1.outcomes (prepare s).1.pending ≡ none
unfolding prepare
prepare_idle s i =
    let s' = (skip_blocked s.pending s).1 in
    let room = max_concurrency - length s'.running in
    start_workers_idle room s' (omega (arith, start_workers-length_ge room s', ap length i)) i

-- The run ends with an outcome for each task, and no task was left as one that cannot be scheduled.
abbrev pub SettlesAll : List Task → Run → Type 0
SettlesAll tasks run =
    (o : Map String TaskOutcome) × (run.1 ≡ settled o [])
    × All (λ x. is_some (get String-discrete x o) ≡ true) (ids_of tasks)

idle_nil : (ts us : List Task) → is_idle ts us ≡ true → (ts ≡ []) × (us ≡ [])
idle_nil [] [] h = (refl, refl)
idle_nil [] (u ∷ us) h = cc
idle_nil (t ∷ ts) us h = cc

idle_of_length : (ts us : List Task) → length ts + length us ≤ 0 → is_idle ts us ≡ true
idle_of_length [] [] h = refl
idle_of_length [] (u ∷ us) h = absurd (omega (arith, h))
idle_of_length (t ∷ ts) us h = absurd (omega (arith, h))

-- The state that the loop begins with.
start-IsSound :
    (tasks : List Task)
    → IsSound tasks
        (length tasks)
        (record { outcomes = []; pending = values (index_tasks tasks []); running = [] })
start-IsSound tasks = record {
  placed = λ x h. inr (inl (start-has tasks x h));
  planned = start-planned tasks;
  bounded = omega (arith, start-length_le tasks);
}

module _ (perform : Task → Completion) (winner : ℕ → ℕ) (aborted_at : ℕ → Bool)
    (awake : (n : ℕ) → aborted_at n ≡ false)
    (performs : (t : Task) → (perform t).is_aborted ≡ false) (tasks : List Task)
    (plan : IsPlan tasks) where
  idle_settled :
      (room : ℕ) (s : Dispatch)
      → IsSound tasks room s
      → (s.pending ≡ []) × (s.running ≡ [])
      → All (λ x. is_some (get String-discrete x s.outcomes) ≡ true) (ids_of tasks)
  idle_settled room s v e = All-of_has _ (ids_of tasks) λ x h. elim (v.placed x h) [
    | inl a ↦ a
    | inr (inl p) ↦ true_of_false (sym (has_nil x) ∙ subst (λ us. has x (ids_of us) ≡ true) e.0 p)
    | inr (inr r) ↦ true_of_false (sym (has_nil x) ∙ subst (λ us. has x (ids_of us) ≡ true) e.1 r)
  ]

  finish_SettlesAll :
      (room n : ℕ) (s : Dispatch) (us : List Task) (next : Dispatch → Run)
      → s.running ≡ us
      → IsSound tasks (suc room) s
      → (us ≡ [] → find_ready s.outcomes s.pending ≡ none)
      → ((u : Dispatch) → IsSound tasks room u → SettlesAll tasks (next u))
      → SettlesAll tasks (finish_round perform winner aborted_at n s us next)
  unfolding settle_all
  finish_SettlesAll room n s [] next e v f k =
      let p = none_pending tasks plan (suc room) s v e (f refl) in
      (s.outcomes, rw (p) refl, idle_settled (suc room) s v (p, e))
  finish_SettlesAll room n s (t ∷ ts) next e v f k =
      let won = race (winner n) t ts in
      let u = settle_race won.0 won.1 (perform won.0).outcome s in
      let r = k u (settle_race-IsSound tasks room (winner n) t ts (perform won.0).outcome s e v) in
      rw (performs won.0) r

  dispatch-SettlesAll :
      (fuel n : ℕ) (s : Dispatch)
      → IsSound tasks fuel s
      → SettlesAll tasks (dispatch perform winner aborted_at fuel n s)
  unfolding dispatch
  dispatch-SettlesAll zero n s v =
      let h = idle_of_length s.pending s.running v.bounded in
      (s.outcomes, rw (h) refl, idle_settled 0 s v (idle_nil s.pending s.running h))
  dispatch-SettlesAll (suc fuel) n s v = elim (Bool-cases (is_idle s.pending s.running)) [
    | inl h ↦
        rw (h, dispatch)
          (s.outcomes, refl, idle_settled (suc fuel) s v (idle_nil s.pending s.running h))
    | inr h ↦
        let k =
          finish_SettlesAll fuel n (prepare s).1 (prepare s).1.running
            (dispatch perform winner aborted_at fuel (suc n)) refl
            (prepare-IsSound tasks (suc fuel) s v) (prepare_idle s)
            (dispatch-SettlesAll fuel (suc n)) in
        rw (h, awake n, dispatch) k
  ]

  -- On a list of tasks that the refinement of the plan accepts, whichever worker wins each race: as
  -- long as nothing is aborted, the loop over the workers ends within as many rounds as the plan
  -- has tasks, each task of the plan has an outcome then, and no task is given up as one that
  -- cannot be scheduled.
  pub dispatch_plan-SettlesAll : SettlesAll tasks (dispatch_plan perform winner aborted_at tasks)
  unfolding dispatch_plan
  dispatch_plan-SettlesAll = dispatch-SettlesAll (length tasks) 0 _ (start-IsSound tasks)
