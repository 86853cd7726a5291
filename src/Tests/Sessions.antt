-- ===== src/Tests/Sessions.antt =====
-- A small context window, a repeated batch, and a todo list with a repeated id.
use kross.Base.{
  true, String, ◌≡◌, ◌↔◌, refl, false, none, some, List, [], ◌∷◌, arith, String-discrete,
}
use kross.Base.Maps.{set}
use kross.Session.ContextPolicy.{
  ContextPolicyOptions, not_finite, negative, number, create_context_policy,
}
use kross.Session.ContextPolicy.Bounds.{Splits, tiny, create_context_policy-Budgets}
use kross.Session.Stall.{Detector, observe, progress}
use kross.Session.Stall.Repeats.{repeat_observe, answer_to_repeat, observe_repeats}
use kross.Session.Todo.{TodoItem, TodoWriteInput, Snapshot, write, pending, ok}
use kross.Session.Todo.Laws.{Written, write-Written}

abbrev small_window : ContextPolicyOptions
small_window = record {
  context_window = some 100;
  is_subagent = true;
  preserve_full_turns = none;
  preserve_recent_tokens = some (number 0 true);
  preserve_tool_iterations = some not_finite;
  max_tool_result_tokens = some negative;
}

create_context_policy-Budgets_example :
    Splits true (create_context_policy 200000 small_window)
    × (((create_context_policy 200000 small_window).preserve_recent_tokens ≡ 0)
        ↔ (some (number 0 true) ≡ tiny))
    × (((create_context_policy 200000 small_window).max_tool_result_tokens ≡ 0)
        ↔ (some negative ≡ tiny))
create_context_policy-Budgets_example = create_context_policy-Budgets 200000 small_window

abbrev idle : Detector
idle = record {
  repeat_threshold = 2;
  previous_fingerprint = none;
  repeated_count = 0;
  recovery_issued = false;
}

observe_repeats_example :
    ((observe "f" idle).0 ≡ record { state = progress; repeated_count = 0 })
    × ((observe "f" (repeat_observe 3 "f" (observe "f" idle).1)).0
        ≡ record { state = answer_to_repeat 2 4; repeated_count = 4 })
observe_repeats_example = observe_repeats "f" idle 3 (ground arith) refl

abbrev todo : String → TodoItem
todo content = record { id = "1"; content = content; status = pending }

abbrev same : String → String
same text = text

abbrev one_todo : TodoWriteInput
one_todo = record { todos = todo "first" ∷ todo "second" ∷ []; merge = none }

abbrev written : List TodoItem × Snapshot
written = (
  todo "second" ∷ [],
  record {
    todos = todo "second" ∷ [];
    counts = record { pending = 1; in_progress = 0; completed = 0; cancelled = 0 };
  },
)

write_ok : write same one_todo [] ≡ ok written
unfolding write set String-discrete
write_ok = refl

write-Written_example : Written same one_todo [] written
write-Written_example = write-Written same one_todo [] written write_ok
