-- ===== src/Server/IdleReaper/Rightly.antt =====
-- The workspaces that `sweep` of packages/server/src/idleReaper.ts stops.
use kross.Base.{
  ◌+◌, ◌≤◌, ℕ, String, ◌≡◌, refl, inl, inr, Bool, true, false, Option, none, some, List, [], ◌∷◌,
  arith, All, Bool-cases, String-discrete, Has, Option-cases,
}
use kross.Base.Maps.{get}
use kross.Server.IdleReaper.{
  ready, Workspace, Registry, list, Surroundings, Reaped, is_idle, reap, Sweep, note, after_reap,
  sweep_each, sweep, passes, stops_it, rejects, swept, rejected,
}

-- The workspace was listed as ready, had been idle for the limit when it was visited, and was not
-- busy.
pub record IsRight (idle_ms : ℕ) (world : String → Surroundings) (w : Workspace) : Type 0 where
  pub listed : w.status ≡ ready
  pub last_active : ℕ
  pub known : w.last_active_at ≡ some last_active
  pub idle_for : last_active + idle_ms ≤ (world w.id).now
  pub quiet : (world w.id).busy ≡ some false

is_idle-ready : (idle_ms now : ℕ) (w : Workspace) → is_idle idle_ms now w ≡ true → w.status ≡ ready
unfolding is_idle
is_idle-ready idle_ms now w h = ground arith

is_idle_long :
    (idle_ms now : ℕ) (w : Workspace)
    → is_idle idle_ms now w ≡ true
    → (t : ℕ) × (w.last_active_at ≡ some t) × (t + idle_ms ≤ now)
unfolding is_idle
is_idle_long idle_ms now w h = elim (Option-cases w.last_active_at) [
  | inl n ↦ absurd (ground arith)
  | inr (t, n) ↦ (t, n, ground arith)
]

-- Each id belongs to one of the workspaces, in order, and that one was stopped rightly.
abbrev pub AllRight : ℕ → (String → Surroundings) → List Workspace → List String → Type 0
AllRight idle_ms world ws ids = All (λ id. Has (λ w. (w.id ≡ id) × IsRight idle_ms world w) ws) ids

abbrev pub StopsRightly : ℕ → (String → Surroundings) → List Workspace → Sweep → Type 0
StopsRightly idle_ms world ws (swept ids registry) = AllRight idle_ms world ws ids
StopsRightly idle_ms world ws (rejected registry) = Unit

busy-cases :
    (b : Option Bool) (x y : Reaped) (registry m : Registry)
    → (elim b [ some false ↦ x | _ ↦ passes registry ]) ≡ stops_it m
    → b ≡ some false
busy-cases none x y registry m h = cc
busy-cases (some true) x y registry m h = cc
busy-cases (some false) x y registry m h = refl

reap-IsRight :
    (idle_ms : ℕ) (world : String → Surroundings) (w : Workspace) (registry m : Registry)
    → reap idle_ms (world w.id) w registry ≡ stops_it m
    → IsRight idle_ms world w
unfolding reap
reap-IsRight idle_ms world w registry m h = elim (Bool-cases (is_idle idle_ms (world w.id).now w)) [
  | inr e ↦ cc (rw (e) at h)
  | inl e ↦ elim (Option-cases (get String-discrete w.id registry)) [
    | inl n ↦ cc (rw (e, n, reap) at h)
    | inr (r, n) ↦
        let (t, known, long) = is_idle_long idle_ms (world w.id).now w e in
        record {
          listed = is_idle-ready idle_ms (world w.id).now w e;
          last_active = t;
          known = known;
          idle_for = long;
          quiet = busy-cases (world w.id).busy _ (passes registry) _ m (rw (e, n, reap) at h);
        }
  ]
]

Has-weaken :
    (idle_ms : ℕ) (world : String → Surroundings) (w : Workspace) (ws : List Workspace)
    (ids : List String)
    → AllRight idle_ms world ws ids
    → AllRight idle_ms world (w ∷ ws) ids
Has-weaken idle_ms world w ws [] h = tt
Has-weaken idle_ms world w ws (id ∷ ids) h = (inr h.0, Has-weaken idle_ms world w ws ids h.1)

after_reap-StopsRightly :
    (idle_ms : ℕ) (world : String → Surroundings) (w : Workspace) (ws : List Workspace) (v : Reaped)
    (next : Registry → Sweep)
    → ((m : Registry) → v ≡ stops_it m → IsRight idle_ms world w)
    → ((m : Registry) → StopsRightly idle_ms world ws (next m))
    → StopsRightly idle_ms world (w ∷ ws) (after_reap v w.id next)
after_reap-StopsRightly idle_ms world w ws (passes m) next r k = later (next m) (k m)
  where
    later : (s : Sweep) → StopsRightly idle_ms world ws s → StopsRightly idle_ms world (w ∷ ws) s
    later (swept ids registry) h = Has-weaken idle_ms world w ws ids h
    later (rejected registry) h = tt
after_reap-StopsRightly idle_ms world w ws (stops_it m) next r k = noted (next m) (k m)
  where
    noted :
        (s : Sweep)
        → StopsRightly idle_ms world ws s
        → StopsRightly idle_ms world (w ∷ ws) (note w.id s)
    noted (swept ids registry) h = (inl (refl, r m refl), Has-weaken idle_ms world w ws ids h)
    noted (rejected registry) h = tt
after_reap-StopsRightly idle_ms world w ws (rejects m) next r k = tt

sweep_each-StopsRightly :
    (idle_ms : ℕ) (world : String → Surroundings) (ws : List Workspace) (registry : Registry)
    → StopsRightly idle_ms world ws (sweep_each idle_ms world ws registry)
unfolding sweep_each
sweep_each-StopsRightly idle_ms world [] registry = tt
sweep_each-StopsRightly idle_ms world (w ∷ ws) registry =
    after_reap-StopsRightly idle_ms world w ws _ _
      (λ m e. reap-IsRight idle_ms world w registry m e)
      (λ m. sweep_each-StopsRightly idle_ms world ws m)

-- Whatever others do to the registry meanwhile: each id that a sweep reports as stopped is that of
-- a workspace that the registry listed as ready at the start of the sweep, with a time of last
-- activity that lay at least the limit before the time when the sweep came to it, and that answered
-- that it was not busy.
pub sweep-StopsRightly :
    (idle_ms : ℕ) (world : String → Surroundings) (registry : Registry)
    → StopsRightly idle_ms world (list registry) (sweep idle_ms world registry)
unfolding sweep
sweep-StopsRightly idle_ms world registry =
    sweep_each-StopsRightly idle_ms world (list registry) registry
