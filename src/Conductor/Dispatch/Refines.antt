-- ===== src/Conductor/Dispatch/Refines.antt =====
-- The loop of `conductorExecutePhase` in packages/core/src/runtime/modeFlows.ts and the schedules
-- that it may produce.
use kross.Base.{
  All, All-append, All-filter_by, length, length-append, text_eq, text_eq_iff, String-discrete,
  Bool-cases, Option-cases, true_of_false, ℕ, zero, suc, ◌+◌, ◌≤◌, String, ◌≡◌, refl, ap, ◌∙◌, ◌≢◌,
  inl, inr, true, false, not, some, List, [], ◌∷◌, ◌++◌, arith, sym, subst, ◌<◌,
}
use kross.Base.Maps.{get}
use kross.Conductor.Plan.{Task, has, index_tasks, depends, ids_of}
use kross.Conductor.Dispatch.Machine.{Step, Scheduler, IsNew, Follows, here, step, skip, start}
use kross.Conductor.Plan.Cycles.{All-of_has, has_of_All}
use kross.Conductor.Plan.Decides.{length-ids_of}
use kross.Conductor.Dispatch.{
  Dispatch, max_concurrency, dependencies, failed_dependency, is_some, find_ready, start_task,
  start_workers, skip_task, skip_blocked, started,
}
use kross.Conductor.Dispatch.Start.{Apart}
use kross.Conductor.Dispatch.Rounds.{has-drop_task}
use kross.Conductor.Dispatch.Ids.{
  has-dropped, drop_task-Apart, ids_of-append, has-append_one, append-Apart,
}
use kross.Conductor.Dispatch.Simulates.{
  failed_dependency-some, find_ready-some, Simulates, has-done_set, has-failures_set,
  skipped_failed,
}

module _ (tasks : List Task) where
  abbrev pub deps : String → List String
  deps = depends (index_tasks tasks [])

  deps-planned :
      (t : Task)
      → get String-discrete t.id (index_tasks tasks []) ≡ some t
      → deps t.id ≡ dependencies t
  unfolding depends
  deps-planned t e = rw (e) refl

  abbrev skipping : String → Scheduler → Scheduler
  skipping x a = record a { done = x ∷ a.done; failures = x ∷ a.failures }

  skip_task-Simulates :
      (t : Task) (d : String) (a : Scheduler) (s : Dispatch)
      → has t.id (ids_of s.pending) ≡ true
      → Simulates tasks a s
      → Simulates tasks (skipping t.id a) (skip_task t d s)
  unfolding skip_task has
  skip_task-Simulates t d a s p v = record {
    done = has-done_set a.done s.outcomes t.id _ v.done;
    failures = has-failures_set a.failures s.outcomes t.id _ (skipped_failed t _) v.failures;
    running = v.running;
    apart_running = v.apart_running;
    apart_pending = drop_task-Apart t.id s.pending v.apart_pending;
    fresh = λ x h. still_fresh x (has-dropped x t.id s.pending h);
    unsettled = λ x h. not_skipped x h;
    planned = All-filter_by _ (λ u. not (text_eq u.id t.id)) s.pending v.planned;
    staged = v.staged;
  }
    where
      still_fresh :
          (x : String)
          → (text_eq x t.id ≡ false) × (has x (ids_of s.pending) ≡ true)
          → IsNew (skipping t.id a) x
      still_fresh x h = ground (arith, v.fresh x h.1, h.0)

      not_skipped : (x : String) → has x a.running ≡ true → has x (t.id ∷ a.done) ≡ false
      not_skipped x h = elim (Bool-cases (text_eq x t.id)) [
        | inl e ↦ true_of_false (
            sym (v.fresh t.id p).1
            ∙ subst (λ y. has y a.running ≡ true) ((text_eq_iff x t.id).0 e) h)
        | inr e ↦ ground (arith, v.unsettled x h)
      ]

  abbrev starting : String → Scheduler → Scheduler
  starting x a = record a { running = a.running ++ x ∷ [] }

  start_task-Simulates :
      (t : Task) (a : Scheduler) (s : Dispatch)
      → has t.id (ids_of s.pending) ≡ true
      → get String-discrete t.id (index_tasks tasks []) ≡ some t
      → Simulates tasks a s
      → Simulates tasks (starting t.id a) (start_task t s)
  unfolding start_task
  start_task-Simulates t a s p e v = record {
    done = v.done;
    failures = v.failures;
    running = ap (λ xs. xs ++ t.id ∷ []) v.running ∙ sym (ids_of-append s.running t);
    apart_running = subst Apart (sym (ids_of-append s.running t)) (
        append-Apart t.id (ids_of s.running) v.apart_running
          (subst (λ xs. has t.id xs ≡ false) v.running (v.fresh t.id p).1));
    apart_pending = drop_task-Apart t.id s.pending v.apart_pending;
    fresh = λ x h. still_fresh x (has-dropped x t.id s.pending h);
    unsettled = λ x h. not_done x h;
    planned = All-filter_by _ (λ u. not (text_eq u.id t.id)) s.pending v.planned;
    staged = All-append _ s.running (t ∷ []) v.staged (e, tt);
  }
    where
      still_fresh :
          (x : String)
          → (text_eq x t.id ≡ false) × (has x (ids_of s.pending) ≡ true)
          → IsNew (starting t.id a) x
      still_fresh x h = (
        (v.fresh x h.1).0,
        ground (arith, (v.fresh x h.1).1, h.0, has-append_one x t.id a.running),
      )

      not_done : (x : String) → has x (a.running ++ t.id ∷ []) ≡ true → has x a.done ≡ false
      not_done x h = elim (Bool-cases (text_eq x t.id)) [
        | inl e ↦
            subst (λ y. has y a.done ≡ false) (sym ((text_eq_iff x t.id).0 e)) (v.fresh t.id p).0
        | inr e ↦ v.unsettled x (ground (arith, has-append_one x t.id a.running))
      ]

  abbrev IsPending : Dispatch → Task → Type 0
  IsPending s t =
      (has t.id (ids_of s.pending) ≡ true)
      × (get String-discrete t.id (index_tasks tasks []) ≡ some t)

  ne_of_absent : (x y : String) (xs : List String) → has x (y ∷ xs) ≡ false → y ≢ x
  unfolding has
  ne_of_absent x y xs h = λ q. true_of_false (sym h ∙ ground (arith, text_eq_iff x y, sym q))

  still-IsPending :
      (t : Task) (d : String) (s : Dispatch) (ts : List Task)
      → has t.id (ids_of ts) ≡ false
      → All (IsPending s) ts
      → All (IsPending (skip_task t d s)) ts
  unfolding has skip_task
  still-IsPending t d s [] n h = tt
  still-IsPending t d s (u ∷ ts) n h = (
    (has-drop_task u.id t.id s.pending (ne_of_absent t.id u.id (ids_of ts) n) h.0.0, h.0.1),
    still-IsPending t d s ts (ground arith) h.1,
  )

  -- The first loop. The tasks that it goes through are pending until they are skipped.
  pub skip_blocked-Follows :
      (S : String → Type 0) (ts : List Task) (a : Scheduler) (s : Dispatch)
      → Apart (ids_of ts)
      → All (IsPending s) ts
      → Simulates tasks a s
      → Follows deps S a (skip_blocked ts s).0 (λ b. Simulates tasks b (skip_blocked ts s).1)
  unfolding skip_blocked
  skip_blocked-Follows S [] a s n p v = (a, here, v)
  skip_blocked-Follows S (t ∷ ts) a s n p v =
      elim (Option-cases (failed_dependency s.outcomes (dependencies t))) [
        | inl e ↦ rw (e, skip_blocked) (skip_blocked-Follows S ts a s n.1 p.1 v)
        | inr (d, e) ↦
            let f = failed_dependency-some s.outcomes (dependencies t) d e in
            let k =
              skip {a = a} (v.fresh t.id p.0.0)
                (subst (λ ds. has d ds ≡ true) (sym (deps-planned t p.0.1)) f.0)
                (v.failures d ∙ f.1) in
            let (b, q, w) =
              skip_blocked-Follows S ts (skipping t.id a) (skip_task t d s) n.1
                (still-IsPending t d s ts n.0 p.1) (skip_task-Simulates t d a s p.0.0 v) in
            rw (e, skip_blocked) (b, step k q, w)
      ]

  -- The second loop.
  pub start_workers-Follows :
      (S : String → Type 0) (room : ℕ) (a : Scheduler) (s : Dispatch)
      → length s.running + room ≤ max_concurrency
      → Simulates tasks a s
      → Follows deps S a (start_workers room s).0 (λ b. Simulates tasks b (start_workers room s).1)
  unfolding start_workers start_task
  start_workers-Follows S zero a s h v = (a, here, v)
  start_workers-Follows S (suc room) a s h v =
      elim (Option-cases (find_ready s.outcomes s.pending)) [
        | inl e ↦ rw (e, start_workers) (a, here, v)
        | inr (t, e) ↦
            let (p, q, r) = find_ready-some _ s.outcomes s.pending t v.planned e in
            let k : Step deps S a (started t.id) (starting t.id a) =
              start (v.fresh t.id p) (ready t q r) (room_left s.running v.running h) in
            let (b, es, w) =
              start_workers-Follows S room (starting t.id a) (start_task t s)
                (omega (arith, h, length-append s.running (t ∷ [])))
                (start_task-Simulates t a s p q v) in
            rw (e, start_workers) (b, step k es, w)
      ]
    where
      room_left :
          (ts : List Task)
          → a.running ≡ ids_of ts
          → length ts + suc room ≤ max_concurrency
          → length a.running < max_concurrency
      room_left ts e l = omega (arith, l, ap length e, length-ids_of ts)

      ready :
          (t : Task)
          → get String-discrete t.id (index_tasks tasks []) ≡ some t
          → All (λ d. is_some (get String-discrete d s.outcomes) ≡ true) (dependencies t)
          → All (λ d. has d a.done ≡ true) (deps t.id)
      ready t q r =
          subst (All (λ d. has d a.done ≡ true)) (sym (deps-planned t q))
            (All-of_has _ (dependencies t) λ d k. v.done d ∙ has_of_All _ (dependencies t) d r k)
