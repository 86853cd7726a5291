-- ===== src/Conductor/Plan/Order.antt =====
-- The order of the visits of `hasDependencyCycle` in packages/core/src/modes/conductorPlan.ts.
use kross.Base.{All, String, ◌≡◌, refl, true, List, []}
use kross.Conductor.Plan.{
  Task, has, index_tasks, is_known, depends, Visit, ids_of, search_plan, has_dependency_cycle,
  cycle, clear, no_fuel,
}
use kross.Conductor.Plan.Sound.{IsOrdered, visit_tasks-IsOrdered}
use kross.Conductor.Plan.Decides.{PlanCycle, search_plan-ne-no_fuel, has_dependency_cycle_iff}

found : (tasks : List Task) → search_plan tasks ≡ cycle → has_dependency_cycle tasks ≡ true
unfolding has_dependency_cycle
found tasks e = rw (e) refl

-- The ids of the tasks are visited so that dependencies come first.
pub visits :
    (tasks : List Task) (w : Visit)
    → ¬ PlanCycle tasks
    → search_plan tasks ≡ w
    → (vs : List String) × IsOrdered
        (is_known (index_tasks tasks []))
        (depends (index_tasks tasks []))
        vs
      × All (λ id. has id vs ≡ true) (ids_of tasks)
unfolding search_plan
visits tasks cycle n e = absurd (n ((has_dependency_cycle_iff tasks).0 (found tasks e)))
visits tasks no_fuel n e = absurd (search_plan-ne-no_fuel tasks e)
visits tasks (clear t) n e =
    let (o, w, p) =
      visit_tasks-IsOrdered (is_known (index_tasks tasks [])) (depends (index_tasks tasks [])) _
        (ids_of tasks) _ t tt e in
    (t.visited, o, p)
