-- ===== src/Conductor/Dispatch/Rounds.antt =====
-- What a round of `conductorExecutePhase` in packages/core/src/runtime/modeFlows.ts keeps.
use kross.Base.{
  ℕ, zero, suc, ◌+◌, ◌-◌, ◌≤◌, String, ◌≡◌, refl, sym, ap, subst, ◌∙◌, ◌≢◌, ◌⊎◌, inl, inr, ite,
  if_pos, if_neg, true, not, some, List, [], ◌∷◌, ◌++◌, arith, text_eq_iff, length, String-discrete,
  All, All-filter_by, Option-cases, text_eq, length-append,
}
use kross.Base.Maps.{Map, get, set, get-set}
use kross.Conductor.Plan.{Task, has, index_tasks, ids_of}
use kross.Conductor.Outcome.{TaskOutcome}
use kross.Conductor.Dispatch.{
  Dispatch, max_concurrency, dependencies, failed_dependency, drop_task, is_some, find_ready,
  start_task, start_workers, race, skip_task, skip_blocked, prepare,
}

pub has-drop_task :
    (x id : String) (ts : List Task)
    → x ≢ id
    → has x (ids_of ts) ≡ true
    → has x (ids_of (drop_task id ts)) ≡ true
unfolding has
has-drop_task x id [] n h = h
has-drop_task x id (t ∷ ts) n h =
    ground (arith, has-drop_task x id ts n, text_eq_iff t.id id, text_eq_iff x t.id)

has-append_left :
    (x : String) (ts us : List Task) → has x (ids_of ts) ≡ true → has x (ids_of (ts ++ us)) ≡ true
unfolding has
has-append_left x [] us h = cc
has-append_left x (t ∷ ts) us h = ground (arith, has-append_left x ts us)

has-append_last : (t : Task) (ts : List Task) → has t.id (ids_of (ts ++ t ∷ [])) ≡ true
unfolding has
has-append_last t [] = ground (arith, text_eq_iff t.id t.id)
has-append_last t (u ∷ ts) = ground (arith, has-append_last t ts)

has-race :
    (x : String) (n : ℕ) (t : Task) (ts : List Task)
    → has x (ids_of (t ∷ ts)) ≡ true
    → (x ≡ (race n t ts).0.id) ⊎ (has x (ids_of (race n t ts).1) ≡ true)
unfolding has race
has-race x n t [] h = ground (arith, text_eq_iff x t.id)
has-race x zero t (u ∷ us) h = ground (arith, text_eq_iff x t.id)
has-race x (suc n) t (u ∷ us) h = ground (arith, text_eq_iff x t.id, has-race x n u us)

pub length-race : (n : ℕ) (t : Task) (ts : List Task) → length (race n t ts).1 ≡ length ts
unfolding race
length-race n t [] = refl
length-race zero t (u ∷ us) = refl
length-race (suc n) t (u ∷ us) = omega (arith, length-race n u us)

length-drop_task_le : (id : String) (ts : List Task) → length (drop_task id ts) ≤ length ts
length-drop_task_le id [] = omega arith
length-drop_task_le id (t ∷ ts) = ground (arith, length-drop_task_le id ts)

-- A ready task is one of those pending.
length-drop_ready :
    (outcomes : Map String TaskOutcome) (ts : List Task) (t : Task)
    → find_ready outcomes ts ≡ some t
    → suc (length (drop_task t.id ts)) ≤ length ts
unfolding find_ready
length-drop_ready outcomes [] t h = cc
length-drop_ready outcomes (u ∷ ts) t h =
    ground
      (arith, length-drop_ready outcomes ts t, length-drop_task_le t.id ts, text_eq_iff u.id t.id)

-- The task has an outcome, is pending or is running.
abbrev pub IsPlaced : Dispatch → String → Type 0
IsPlaced s x =
    (is_some (get String-discrete x s.outcomes) ≡ true)
    ⊎ (has x (ids_of s.pending) ≡ true)
    ⊎ (has x (ids_of s.running) ≡ true)

-- What the rounds keep: no task is lost, the pending ones are the plan's, and at most `room` are
-- not settled.
pub record IsSound (tasks : List Task) (room : ℕ) (s : Dispatch) : Type 0 where
  pub placed : (x : String) → has x (ids_of tasks) ≡ true → IsPlaced s x
  pub planned : All (λ t. get String-discrete t.id (index_tasks tasks []) ≡ some t) s.pending
  pub bounded : length s.pending + length s.running ≤ room

settle-IsPlaced :
    (o : TaskOutcome) (s u : Dispatch) (id x : String)
    → u.outcomes ≡ set String-discrete id o s.outcomes
    → (x ≢ id → has x (ids_of s.pending) ≡ true → has x (ids_of u.pending) ≡ true)
    → (x ≢ id → has x (ids_of s.running) ≡ true → has x (ids_of u.running) ≡ true)
    → IsPlaced s x
    → IsPlaced u x
settle-IsPlaced o s u id x e p r h = elim (String-discrete id x) [
  | yes q ↦ inl (rw (k, if_pos (String-discrete id x) q) refl)
  | no n ↦ elim h [
    | inl a ↦ inl (rw (k, if_neg (String-discrete id x) n) a)
    | inr (inl a) ↦ inr (inl (p (λ q. n (sym q)) a))
    | inr (inr a) ↦ inr (inr (r (λ q. n (sym q)) a))
  ]
]
  where
    k :
        get String-discrete x u.outcomes
        ≡ ite (String-discrete id x) (some o) (get String-discrete x s.outcomes)
    k = ap (get String-discrete x) e ∙ get-set String-discrete id x o s.outcomes

pub skip_task-IsSound :
    (tasks : List Task) (room : ℕ) (t : Task) (d : String) (s : Dispatch)
    → IsSound tasks room s
    → IsSound tasks room (skip_task t d s)
unfolding skip_task
skip_task-IsSound tasks room t d s v = record {
  placed = λ x h.
      settle-IsPlaced _ s (skip_task t d s) t.id x refl (λ n p. has-drop_task x t.id s.pending n p)
        (λ n r. r) (v.placed x h);
  planned = All-filter_by _ (λ u. not (text_eq u.id t.id)) s.pending v.planned;
  bounded = omega (arith, v.bounded, length-drop_task_le t.id s.pending);
}

IsPlaced-start_task :
    (t : Task) (s : Dispatch) (x : String) → IsPlaced s x → IsPlaced (start_task t s) x
unfolding start_task
IsPlaced-start_task t s x (inl a) = inl a
IsPlaced-start_task t s x (inr (inr r)) = inr (inr (has-append_left x s.running (t ∷ []) r))
IsPlaced-start_task t s x (inr (inl p)) = elim (String-discrete x t.id) [
  | yes q ↦ inr (inr (rw (q) (has-append_last t s.running)))
  | no n ↦ inr (inl (has-drop_task x t.id s.pending n p))
]

pub start_task-IsSound :
    (tasks : List Task) (room : ℕ) (t : Task) (s : Dispatch)
    → find_ready s.outcomes s.pending ≡ some t
    → IsSound tasks room s
    → IsSound tasks room (start_task t s)
unfolding start_task
start_task-IsSound tasks room t s f v = record {
  placed = λ x h. IsPlaced-start_task t s x (v.placed x h);
  planned = All-filter_by _ (λ u. not (text_eq u.id t.id)) s.pending v.planned;
  bounded = omega (
    arith,
    v.bounded,
    length-drop_ready s.outcomes s.pending t f,
    length-append s.running (t ∷ []),
  );
}

-- The state after a race that settles its winner.
abbrev pub settle_race : Task → List Task → TaskOutcome → Dispatch → Dispatch
settle_race t others o s = record s {
  outcomes = set String-discrete t.id o s.outcomes;
  running = others;
}

pub settle_race-IsSound :
    (tasks : List Task) (room n : ℕ) (t : Task) (ts : List Task) (o : TaskOutcome) (s : Dispatch)
    → s.running ≡ t ∷ ts
    → IsSound tasks (suc room) s
    → IsSound tasks room (settle_race (race n t ts).0 (race n t ts).1 o s)
settle_race-IsSound tasks room n t ts o s e v = record {
  placed = λ x h.
      settle-IsPlaced o s (settle_race (race n t ts).0 (race n t ts).1 o s) (race n t ts).0.id x
        refl (λ m p. p) (λ m r. still x m (subst (λ us. has x (ids_of us) ≡ true) e r))
        (v.placed x h);
  planned = v.planned;
  bounded = omega (arith, v.bounded, ap length e, length-race n t ts);
}
  where
    still :
        (x : String)
        → x ≢ (race n t ts).0.id
        → has x (ids_of (t ∷ ts)) ≡ true
        → has x (ids_of (race n t ts).1) ≡ true
    still x m r = elim (has-race x n t ts r) [ inl q ↦ absurd (m q) | inr k ↦ k ]

-- A property that skips and starts keep is kept up to the race.
module _ (P : Dispatch → Type 0)
    (skips : (t : Task) (d : String) (s : Dispatch) → P s → P (skip_task t d s))
    (starts : (t : Task) (s : Dispatch)
      → find_ready s.outcomes s.pending ≡ some t
      → P s
      → P (start_task t s)) where
  skip_blocked_keeps : (ts : List Task) (s : Dispatch) → P s → P (skip_blocked ts s).1
  unfolding skip_blocked
  skip_blocked_keeps [] s p = p
  skip_blocked_keeps (t ∷ ts) s p =
      elim (Option-cases (failed_dependency s.outcomes (dependencies t))) [
        | inl e ↦ rw (e, skip_blocked) (skip_blocked_keeps ts s p)
        | inr (d, e) ↦
            rw (e, skip_blocked) (skip_blocked_keeps ts (skip_task t d s) (skips t d s p))
      ]

  start_workers_keeps : (room : ℕ) (s : Dispatch) → P s → P (start_workers room s).1
  unfolding start_workers
  start_workers_keeps zero s p = p
  start_workers_keeps (suc room) s p = elim (Option-cases (find_ready s.outcomes s.pending)) [
    | inl e ↦ rw (e, start_workers) p
    | inr (t, e) ↦
        rw (e, start_workers) (start_workers_keeps room (start_task t s) (starts t s e p))
  ]

  pub prepare_keeps : (s : Dispatch) → P s → P (prepare s).1
  unfolding prepare
  prepare_keeps s p = start_workers_keeps _ _ (skip_blocked_keeps s.pending s p)

pub prepare-IsSound :
    (tasks : List Task) (room : ℕ) (s : Dispatch)
    → IsSound tasks room s
    → IsSound tasks room (prepare s).1
prepare-IsSound tasks room =
    prepare_keeps (IsSound tasks room) (skip_task-IsSound tasks room)
      (start_task-IsSound tasks room)

pub skip_blocked-running :
    (ts : List Task) (s : Dispatch) → (skip_blocked ts s).1.running ≡ s.running
unfolding skip_blocked skip_task
skip_blocked-running [] s = refl
skip_blocked-running (t ∷ ts) s =
    elim (Option-cases (failed_dependency s.outcomes (dependencies t))) [
      | inl e ↦ rw (e, skip_blocked) (skip_blocked-running ts s)
      | inr (d, e) ↦ rw (e, skip_blocked) (skip_blocked-running ts (skip_task t d s))
    ]

start_workers-running_le :
    (room : ℕ) (s : Dispatch) → length (start_workers room s).1.running ≤ length s.running + room
unfolding start_workers start_task
start_workers-running_le zero s = omega arith
start_workers-running_le (suc room) s = elim (Option-cases (find_ready s.outcomes s.pending)) [
  | inl e ↦ rw (e, start_workers) (omega arith)
  | inr (t, e) ↦
      let k = start_workers-running_le room (start_task t s) in
      rw (e, start_workers) (omega (arith, k, length-append s.running (t ∷ [])))
]

-- At most three workers run.
pub prepare-running_le :
    (s : Dispatch)
    → length s.running ≤ max_concurrency
    → length (prepare s).1.running ≤ max_concurrency
unfolding prepare
prepare-running_le s h =
    let s' = (skip_blocked s.pending s).1 in
    omega (
      arith,
      h,
      ap length (skip_blocked-running s.pending s),
      start_workers-running_le (max_concurrency - length s'.running) s',
    )
