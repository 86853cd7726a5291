-- ===== src/Conductor/Dispatch/Machine.antt =====
-- The schedules that the loop of `conductorExecutePhase` in packages/core/src/runtime/modeFlows.ts
-- may produce, as steps on sets of ids.
use kross.Base.{
  All, length, filter_by, text_eq, ◌<◌, String, ◌≡◌, true, false, not, List, [], ◌∷◌, ◌++◌,
}
use kross.Conductor.Plan.{has}
use kross.Conductor.Dispatch.{Event, max_concurrency, skipped, started, completed}

pub record Scheduler : Type 0 where
  pub done : List String
  pub failures : List String
  pub running : List String

abbrev pub remove : String → List String → List String
remove x ids = filter_by (λ y. not (text_eq x y)) ids

abbrev pub IsNew : Scheduler → String → Type 0
IsNew a x = (has x a.done ≡ false) × (has x a.running ≡ false)

-- `Succeeds` is true of the tasks that come to what their dependents need.
module _ (deps : String → List String) (Succeeds : String → Type 0) where
  -- A task is skipped once, for a dependency that failed, and started once, where there is room and
  -- its dependencies are done. A task that runs completes, and fails if and only if it does not
  -- succeed.
  pub data Step : Scheduler → Event → Scheduler → Type 0 where
    skip :
        {a : Scheduler} {x d : String}
        → IsNew a x
        → has d (deps x) ≡ true
        → has d a.failures ≡ true
        → Step a (skipped x d) (record a { done = x ∷ a.done; failures = x ∷ a.failures })
    start :
        {a : Scheduler} {x : String}
        → IsNew a x
        → All (λ d. has d a.done ≡ true) (deps x)
        → length a.running < max_concurrency
        → Step a (started x) (record a { running = a.running ++ x ∷ [] })
    succeed :
        {a : Scheduler} {x : String}
        → has x a.running ≡ true
        → Succeeds x
        → Step a (completed x) (record a { done = x ∷ a.done; running = remove x a.running })
    fail :
        {a : Scheduler} {x : String}
        → has x a.running ≡ true
        → ¬ (Succeeds x)
        → Step a
            (completed x)
            (record { done = x ∷ a.done; failures = x ∷ a.failures; running = remove x a.running })

  pub data Steps : Scheduler → List Event → Scheduler → Type 0 where
    here : {a : Scheduler} → Steps a [] a
    step :
        {a b c : Scheduler} {e : Event} {es : List Event}
        → Step a e b
        → Steps b es c
        → Steps a (e ∷ es) c

  pub Steps-append :
      {a b c : Scheduler} {es fs : List Event} → Steps a es b → Steps b fs c → Steps a (es ++ fs) c
  Steps-append here q = q
  Steps-append (step s p) q = step s (Steps-append p q)

  -- The events can be followed from a state, and some property holds where they lead.
  abbrev pub Follows : Scheduler → List Event → (Scheduler → Type 0) → Type 0
  Follows a es P = (b : Scheduler) × Steps a es b × P b
