-- ===== src/Tests/Servers.antt =====
-- A sweep over one idle workspace, which is deleted while its container stops.
use kross.Base.{true, false, some, [], ◌∷◌}
use kross.Server.IdleReaper.{WorkspaceRecord, Registry, list, Surroundings, sweep, ready}
use kross.Server.IdleReaper.Rightly.{StopsRightly, sweep-StopsRightly}

abbrev idle_record : WorkspaceRecord
idle_record = record {
  workspace = record { id = "w"; status = ready; updated_at = 10; last_active_at = some 10 };
  container_name = "c";
  volume_name = "v";
  worker_token = "t";
}

abbrev one_workspace : Registry
one_workspace = ("w", idle_record) ∷ []

abbrev deleting : Surroundings
deleting = record {
  now = 100;
  busy = some false;
  while_asking = λ registry. registry;
  stops = true;
  while_stopping = λ registry. [];
  stopped_at = 101;
}

sweep-StopsRightly_example :
    StopsRightly 60 (λ id. deleting) (list one_workspace) (sweep 60 (λ id. deleting) one_workspace)
sweep-StopsRightly_example = sweep-StopsRightly 60 (λ id. deleting) one_workspace
