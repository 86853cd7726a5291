-- ===== src/Tests/Loops.antt =====
-- A run of the tool loop in which the model makes one call and then answers.
use kross.Base.{ℕ, zero, suc, refl, false, none, some, [], ◌∷◌, arith}
use kross.Tests.Contexts.{call, counting, texts, policy, quiet}
use kross.Runtime.CompleteLoop.{Response, World, run_complete_tool_loop}
use kross.Runtime.CompleteLoop.Turns.{EndsWell}
use kross.Runtime.CompleteLoop.Ends.{run_complete_tool_loop-EndsWell}
use kross.Context.Thread.{ConversationThread}
use kross.Gateway.Schedule.{joins, content}

abbrev fresh_thread : ConversationThread
fresh_thread = record {
  entries = [];
  turns = [];
  open_turn_id = none;
  current_iteration = 0;
  entry_counter = 0;
  turn_counter = 0;
}

abbrev answering : ℕ → Response
answering (suc zero) = record { text = []; tool_calls = call "c1" ∷ [] }
answering n = record { text = 111 ∷ 107 ∷ []; tool_calls = [] }

abbrev reading : World
reading = record {
  budget = λ n b. 10;
  around = λ n. quiet;
  complete = λ n b ms. some (answering n);
  soft_land = λ ms. some [];
  judge = λ n c. joins;
  perform = λ n c. content "text";
  scheduler_aborted = λ n m. false;
  aborted_at = λ n p. false;
  trim = λ s. s;
  units = λ s. 120 ∷ [];
  fingerprint = λ cs ms. "f";
  empty_summary = 101 ∷ [];
  stalled_summary = 115 ∷ [];
  limit_summary = 108 ∷ [];
}

run_complete_tool_loop-EndsWell_example :
    EndsWell counting texts policy reading
      (λ k. omega arith)
      1
      (run_complete_tool_loop counting texts policy reading (104 ∷ []) 5 fresh_thread)
run_complete_tool_loop-EndsWell_example =
    run_complete_tool_loop-EndsWell counting texts policy reading (λ k. omega arith) (104 ∷ []) 5
      fresh_thread refl tt
