-- ===== src/Server/IdleReaper.antt =====
-- `IdleWorkspaceReaper.sweep` of packages/server/src/idleReaper.ts over the registry of
-- workspaceRegistry.ts. Times are numbers. What happens to the registry while a sweep waits, for
-- `isBusy` and for the container to stop, is the surroundings of a workspace.
use kross.Base.{
  ℕ, ◌+◌, String, Bool, true, false, not, ◌&&◌, Option, none, some, List, [], ◌∷◌, map,
  if◌then◌else◌, String-discrete, ltb, leb,
}
use kross.Base.Maps.{Map, values, get, set}
pub mod Rightly

pub data Status : Type 0 where
  creating ready stopped failed : Status

pub record Workspace : Type 0 where
  pub id : String
  pub status : Status
  pub updated_at : ℕ
  pub last_active_at : Option ℕ

pub record WorkspaceRecord : Type 0 where
  pub workspace : Workspace
  pub container_name : String
  pub volume_name : String
  pub worker_token : String

abbrev pub Registry : Type 0
Registry = Map String WorkspaceRecord

-- A stable sort, the latest update first.
insert_by_update : Workspace → List Workspace → List Workspace
insert_by_update w [] = w ∷ []
insert_by_update w (x ∷ xs) =
    if leb x.updated_at w.updated_at then w ∷ x ∷ xs else x ∷ insert_by_update w xs

sort_by_update : List Workspace → List Workspace
unfolding insert_by_update
sort_by_update [] = []
sort_by_update (x ∷ xs) = insert_by_update x (sort_by_update xs)

pub list : Registry → List Workspace
unfolding sort_by_update
list registry = sort_by_update (map (λ r. r.workspace) (values registry))

pub put : WorkspaceRecord → Registry → Registry
unfolding set
put entry registry = set String-discrete entry.workspace.id entry registry

-- What a sweep meets at one workspace: the time of the test, the answer of `isBusy` or `none` where
-- it throws, whether the container stops, the time then, and what others do to the registry while
-- the sweep waits for each.
pub record Surroundings : Type 0 where
  pub now : ℕ
  pub busy : Option Bool
  pub while_asking : Registry → Registry
  pub stops : Bool
  pub while_stopping : Registry → Registry
  pub stopped_at : ℕ

-- What a visit of one workspace does: go on without a stop, stop the workspace, or reject.
pub data Reaped : Type 0 where
  passes : Registry → Reaped
  stops_it : Registry → Reaped
  rejects : Registry → Reaped

abbrev is_ready : Status → Bool
is_ready ready = true
is_ready _ = false

-- `now - Date.parse(lastActiveAt) >= idleMs`, of a workspace that is ready.
unfoldable pub is_idle : ℕ → ℕ → Workspace → Bool
is_idle idle_ms now w =
    is_ready w.status
    && elim w.last_active_at [ none ↦ false | some t ↦ not (ltb now (t + idle_ms)) ]

abbrev pub mark_stopped : ℕ → WorkspaceRecord → WorkspaceRecord
mark_stopped now r = record r {
  workspace = record (r.workspace) { status = stopped; updated_at = now };
}

-- `orchestrator.stop(record)`, and the copy of the record that is put back.
abbrev pub stop_it : Surroundings → WorkspaceRecord → Registry → Reaped
stop_it s r registry =
    if s.stops
    then stops_it (put (mark_stopped s.stopped_at r) (s.while_stopping registry))
    else rejects (s.while_stopping registry)

abbrev pub ask : Surroundings → WorkspaceRecord → Registry → Reaped
ask s r registry = elim s.busy [
  | some false ↦ stop_it s r (s.while_asking registry)
  | _ ↦ passes (s.while_asking registry)
]

pub reap : ℕ → Surroundings → Workspace → Registry → Reaped
unfolding is_idle get put
reap idle_ms s w registry =
    if is_idle idle_ms s.now w
    then elim (get String-discrete w.id registry) [
      | none ↦ passes registry
      | some r ↦ ask s r registry
    ]
    else passes registry

pub data Sweep : Type 0 where
  swept : List String → Registry → Sweep
  rejected : Registry → Sweep

abbrev pub note : String → Sweep → Sweep
note id (swept ids registry) = swept (id ∷ ids) registry
note id (rejected registry) = rejected registry

abbrev pub after_reap : Reaped → String → (Registry → Sweep) → Sweep
after_reap (passes registry) id next = next registry
after_reap (stops_it registry) id next = note id (next registry)
after_reap (rejects registry) id next = rejected registry

module _ (idle_ms : ℕ) (world : String → Surroundings) where
  pub sweep_each : List Workspace → Registry → Sweep
  unfolding reap
  sweep_each [] registry = swept [] registry
  sweep_each (w ∷ ws) registry =
      after_reap (reap idle_ms (world w.id) w registry) w.id (sweep_each ws)

  -- The workspaces are listed once, before the first of them.
  pub sweep : Registry → Sweep
  unfolding sweep_each list
  sweep registry = sweep_each (list registry) registry
