-- ===== src/Conductor/Plan.antt =====
-- packages/core/src/modes/conductorPlan.ts: the refinement of a task plan and its search for a
-- dependency cycle. The shape tests of zod stand before it and are not modelled.
pub mod Fuel
pub mod Sound
pub mod Cycles
pub mod Decides
pub mod Order
pub mod Accepted
use kross.Base.{
  ℕ, zero, suc, Bool, true, false, not, Option, none, some, List, [], ◌∷◌, ◌++◌, String,
  if◌then◌else◌, String-discrete, text_eq, some_of, filter_by, length,
}
use kross.Base.Maps.{Map, get, set}

pub record Task : Type 0 where
  pub id : String
  pub title : String
  pub prompt : String
  pub depends_on : Option (List String)
  pub repo_id : Option String
  pub model_profile_id : Option String

-- `set.has(id)`.
unfoldable pub has : String → List String → Bool
has id ids = some_of (text_eq id) ids

abbrev pub or_empty : Option (List String) → List String
or_empty none = []
or_empty (some ids) = ids

-- `new Map(tasks.map((task) => [task.id, task]))`: of two tasks with one id the later stays.
unfoldable pub index_tasks : List Task → Map String Task → Map String Task
index_tasks [] by_id = by_id
index_tasks (t ∷ ts) by_id = index_tasks ts (set String-discrete t.id t by_id)

abbrev is_found : Option Task → Bool
is_found none = false
is_found (some t) = true

abbrev depends_of : Option Task → List String
depends_of none = []
depends_of (some t) = or_empty t.depends_on

unfoldable pub is_known : Map String Task → String → Bool
is_known by_id id = is_found (get String-discrete id by_id)

-- `byId.get(id)?.dependsOn ?? []`.
unfoldable pub depends : Map String Task → String → List String
depends by_id id = depends_of (get String-discrete id by_id)

-- The two sets of the search; `visited` holds the latest id first.
pub record Search : Type 0 where
  pub visiting : List String
  pub visited : List String

pub data Visit : Type 0 where
  cycle : Visit
  clear : Search → Visit
  no_fuel : Visit

-- The end of a visit: the id leaves `visiting` and joins `visited`.
abbrev pub leave : String → Visit → Visit
leave id (clear s) =
    clear (record {
      visiting = filter_by (λ j. not (text_eq id j)) s.visiting;
      visited = id ∷ s.visited;
    })
leave id v = v

-- What the search looks at: the ids of the map, and each task's dependencies.
module _ (known : String → Bool) (deps : String → List String) where
  -- The loop over the dependencies; `visit` is the call that it makes.
  unfoldable pub visit_each : (String → Search → Visit) → List String → Search → Visit
  visit_each visit [] s = clear s
  visit_each visit (d ∷ ds) s = elim (known d) [
    | false ↦ visit_each visit ds s
    | true ↦ elim (visit d s) [
      | clear s' ↦ visit_each visit ds s'
      | cycle ↦ cycle
      | no_fuel ↦ no_fuel
    ]
  ]

  -- `visit`, on the depth of calls that is left.
  unfoldable pub visit : ℕ → String → Search → Visit
  unfolding has
  visit zero id s = no_fuel
  visit (suc fuel) id s =
      if has id s.visiting
      then cycle
      else if has id s.visited
      then clear s
      else leave id (visit_each (visit fuel) (deps id) (record s { visiting = id ∷ s.visiting }))

  -- `tasks.some((task) => visit(task.id))`.
  unfoldable pub visit_tasks : ℕ → List String → Search → Visit
  visit_tasks fuel [] s = clear s
  visit_tasks fuel (id ∷ ids) s = elim (visit fuel id s) [
    | clear s' ↦ visit_tasks fuel ids s'
    | cycle ↦ cycle
    | no_fuel ↦ no_fuel
  ]

abbrev pub ids_of : List Task → List String
ids_of [] = []
ids_of (t ∷ ts) = t.id ∷ ids_of ts

-- The search of a plan. No chain of open visits is longer than the plan has tasks.
unfoldable pub search_plan : List Task → Visit
unfolding index_tasks is_known depends visit_tasks
search_plan tasks =
    let by_id = index_tasks tasks [] in
    visit_tasks (is_known by_id) (depends by_id) (suc (length tasks)) (ids_of tasks)
      (record { visiting = []; visited = [] })

abbrev is_cycle : Visit → Bool
is_cycle cycle = true
is_cycle _ = false

unfoldable pub has_dependency_cycle : List Task → Bool
has_dependency_cycle tasks = is_cycle (search_plan tasks)

pub data Issue : Type 0 where
  duplicate_id : String → Issue
  self_dependency : String → Issue
  unknown_dependency : String → Issue
  cyclic : Issue

-- The first loop of the refinement: its issues and the set of ids.
unfoldable pub id_issues : List String → List Task → List Issue × List String
id_issues ids [] = ([], ids)
id_issues ids (t ∷ ts) =
    let rest = id_issues (if has t.id ids then ids else ids ++ t.id ∷ []) ts in
    ((if has t.id ids then duplicate_id t.id ∷ [] else []) ++ rest.0, rest.1)

unfoldable pub dependency_issues : List String → String → List String → List Issue
dependency_issues ids id [] = []
dependency_issues ids id (d ∷ ds) =
    (if text_eq d id
      then self_dependency id ∷ []
      else if has d ids
      then []
      else unknown_dependency d ∷ [])
    ++ dependency_issues ids id ds

unfoldable pub all_dependency_issues : List String → List Task → List Issue
unfolding dependency_issues
all_dependency_issues ids [] = []
all_dependency_issues ids (t ∷ ts) =
    dependency_issues ids t.id (or_empty t.depends_on) ++ all_dependency_issues ids ts

-- The issues of a plan, in the order in which they are added.
unfoldable pub plan_issues : List Task → List Issue
unfolding id_issues all_dependency_issues has_dependency_cycle
plan_issues tasks =
    let (duplicates, ids) = id_issues [] tasks in
    duplicates
    ++ all_dependency_issues ids tasks
    ++ (if has_dependency_cycle tasks then cyclic ∷ [] else [])
