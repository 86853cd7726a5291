-- ===== src/Conductor/Plan/Decides.antt =====
-- `hasDependencyCycle` of packages/core/src/modes/conductorPlan.ts on the tasks of a plan.
use kross.Base.{
  suc, ◌≡◌, refl, ◌≢◌, ◌↔◌, ◌⊎◌, inl, inr, true, List, [], ◌∷◌, String, arith, text_eq_iff, All,
  length, String-discrete, true_of_false,
}
use kross.Base.Maps.{get-set_self, Map, get, set, get-set}
use kross.Conductor.Plan.{
  Task, Visit, cycle, clear, no_fuel, has, index_tasks, is_known, depends, ids_of, search_plan,
  has_dependency_cycle,
}
use kross.Conductor.Plan.Sound.{visit_tasks-IsOrdered}
use kross.Conductor.Plan.Cycles.{HasCycle, visit_tasks-HasCycle, not-HasCycle, has_of_All}
use kross.Conductor.Plan.Fuel.{visit_tasks_ends, missing-le-length}

-- A task of the list makes its id known; what is known was there before or is listed.
index_tasks-known :
    (ts : List Task) (m : Map String Task) (id : String)
    → is_known m id ≡ true
    → is_known (index_tasks ts m) id ≡ true
unfolding index_tasks is_known
index_tasks-known [] m id h = h
index_tasks-known (t ∷ ts) m id h =
    index_tasks-known ts (set String-discrete t.id t m) id
      (ground (arith, get-set String-discrete t.id id t m))

known-has :
    (ts : List Task) (m : Map String Task) (id : String)
    → is_known (index_tasks ts m) id ≡ true
    → (has id (ids_of ts) ≡ true) ⊎ (is_known m id ≡ true)
unfolding index_tasks is_known has
known-has [] m id h = inr h
known-has (t ∷ ts) m id h = ground (
  arith,
  known-has ts (set String-discrete t.id t m) id h,
  get-set String-discrete t.id id t m,
  text_eq_iff id t.id,
)

set-known : (t : Task) (m : Map String Task) → is_known (set String-discrete t.id t m) t.id ≡ true
unfolding is_known
set-known t m = rw (get-set_self String-discrete t.id t m)

pub ids-known :
    (ts : List Task) (m : Map String Task)
    → All (λ id. is_known (index_tasks ts m) id ≡ true) (ids_of ts)
unfolding index_tasks
ids-known [] m = tt
ids-known (t ∷ ts) m = (
  index_tasks-known ts (set String-discrete t.id t m) t.id (set-known t m),
  ids-known ts (set String-discrete t.id t m),
)

-- A task of the plan that reaches itself through dependencies within the plan.
abbrev pub PlanCycle : List Task → Type 0
PlanCycle tasks = HasCycle (is_known (index_tasks tasks [])) (depends (index_tasks tasks []))

pub listed :
    (ts : List Task) (id : String)
    → is_known (index_tasks ts []) id ≡ true
    → has id (ids_of ts) ≡ true
unfolding is_known get
listed ts id h = elim (known-has ts [] id h) [ inl k ↦ k | inr k ↦ true_of_false k ]

pub length-ids_of : (ts : List Task) → length (ids_of ts) ≡ length ts
length-ids_of [] = refl
length-ids_of (t ∷ ts) = omega (arith, length-ids_of ts)

-- The depth-first search of a plan never runs out of its fuel, the number of tasks and one.
pub search_plan-ne-no_fuel : (tasks : List Task) → search_plan tasks ≢ no_fuel
unfolding search_plan
search_plan-ne-no_fuel tasks =
    visit_tasks_ends (is_known (index_tasks tasks [])) (depends (index_tasks tasks []))
      (ids_of tasks) (listed tasks) (suc (length tasks)) (ids_of tasks) _ (ids-known tasks []) tt
      (omega (arith, missing-le-length (ids_of tasks) [], length-ids_of tasks))

outcome_iff :
    (tasks : List Task) (w : Visit)
    → search_plan tasks ≡ w
    → (has_dependency_cycle tasks ≡ true) ↔ PlanCycle tasks
unfolding search_plan has_dependency_cycle
outcome_iff tasks cycle e = (
  λ h.
      visit_tasks-HasCycle (is_known (index_tasks tasks [])) (depends (index_tasks tasks [])) _ _ _
        tt refl e,
  λ c. rw e refl,
)
outcome_iff tasks (clear t) e = (
  λ h. true_of_false (rw e at h),
  λ c.
      let (o, w, p) =
        visit_tasks-IsOrdered (is_known (index_tasks tasks [])) (depends (index_tasks tasks [])) _
          (ids_of tasks) _ t tt e in
      absurd (
        not-HasCycle _ _ t.visited o (λ a k. has_of_All _ (ids_of tasks) a p (listed tasks a k)) c),
)
outcome_iff tasks no_fuel e = absurd (search_plan-ne-no_fuel tasks e)

-- `hasDependencyCycle` is true of a list of tasks if and only if some task depends on itself
-- through a chain of dependencies between tasks of the list.
pub has_dependency_cycle_iff :
    (tasks : List Task) → (has_dependency_cycle tasks ≡ true) ↔ PlanCycle tasks
has_dependency_cycle_iff tasks = outcome_iff tasks (search_plan tasks) refl
