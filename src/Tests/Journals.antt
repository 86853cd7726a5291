-- ===== src/Tests/Journals.antt =====
-- A mutation that was left open, and the events of a session with a crash.
use kross.Base.{All, ◌≢◌, ◌≡◌, refl, true, false, some, [], ◌∷◌, String-discrete}
use kross.Base.Maps.{set, delete}
use kross.Mutations.Journal.{
  append_undone, list_active, PreparedMutation, File, empty, add, load_event, load_lines, load,
  append, Journal, append_rolled_back, list_incomplete, recover, start, write, prepared,
  rolled_back, malformed, event,
}
use kross.Mutations.Journal.Active.{list_active-append_undone}
use kross.Mutations.Journal.Reload.{perform_all, IsSynced, perform_all-reload, prepare, commit}
use kross.Mutations.Journal.Recovery.{start_twice, start_torn_restores_again}

abbrev open_write : PreparedMutation
open_write = record {
  transaction_id = "t1";
  run_id = "r1";
  tool_name = write;
  created_at = 5;
  pre = [];
}

abbrev new_journal : Journal
new_journal = record { file = record { lines = []; torn = false }; state = empty }

new_journal-IsSynced : IsSynced new_journal
unfolding load load_lines
new_journal-IsSynced = record { whole = refl; told = refl }

perform_all-reload_example :
    load (perform_all (prepare open_write ∷ commit "t1" [] ∷ []) new_journal).file
    ≡ some (perform_all (prepare open_write ∷ commit "t1" [] ∷ []) new_journal).state
perform_all-reload_example =
    perform_all-reload (prepare open_write ∷ commit "t1" [] ∷ []) new_journal new_journal-IsSynced

abbrev left_open : Journal
left_open = record {
  file = record { lines = event (prepared open_write) ∷ []; torn = false };
  state = record { pending = ("t1", open_write) ∷ []; done = []; inactive = [] };
}

abbrev recovered : Journal
recovered = record {
  file = record {
    lines = event (prepared open_write) ∷ event (rolled_back "t1" "recovered-incomplete") ∷ [];
    torn = false;
  };
  state = record { pending = []; done = []; inactive = "t1" ∷ [] };
}

left_open-start : start left_open.file ≡ some (recovered, open_write ∷ [])
unfolding start load load_lines load_event recover append_rolled_back append list_incomplete add set
    delete String-discrete
left_open-start = refl

start_twice_example : start recovered.file ≡ some (recovered, [])
start_twice_example = start_twice left_open.file refl left_open-start

abbrev cut_file : File
cut_file = record { lines = event (prepared open_write) ∷ []; torn = true }

abbrev lost : Journal
lost = record {
  file = record { lines = event (prepared open_write) ∷ malformed ∷ []; torn = false };
  state = record { pending = []; done = []; inactive = "t1" ∷ [] };
}

cut_file-start : start cut_file ≡ some (lost, open_write ∷ [])
unfolding start load load_lines load_event recover append_rolled_back append list_incomplete add set
    delete String-discrete
cut_file-start = refl

start_torn_restores_again_example : (k : Journal) × (start lost.file ≡ some (k, open_write ∷ []))
start_torn_restores_again_example =
    start_torn_restores_again cut_file open_write refl cut_file-start

abbrev written_file : Journal
written_file = record {
  file = record { lines = []; torn = false };
  state = record {
    pending = [];
    done = ("t1", record { prepared = open_write; post = [] }) ∷ [];
    inactive = [];
  };
}

list_active-append_undone_example :
    All
      (λ r. r.prepared.transaction_id ≢ "t1")
      (list_active (append_undone "t1" 7 written_file).state)
list_active-append_undone_example = list_active-append_undone "t1" 7 written_file
