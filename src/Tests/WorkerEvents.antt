-- ===== src/Tests/WorkerEvents.antt =====
-- The events of a session with a crash between them.
use kross.Base.{◌≡◌, refl, Bool, true, false, some, [], ◌∷◌, ◌++◌, arith, filter_by, ltb}
use kross.Worker.EventJournal.{
  ServerEvent, Envelope, Journal, should_persist, read, last_seq, persist, ensure_range,
  append_after, append, replay, find_completed_request, complete_request, session_updated,
  malformed, envelope, limited,
}
use kross.Worker.EventJournal.Sequence.{
  issue, Ascending, issue-Ascending, fresh, fresh-Covers, append_event, crash_at,
}
use kross.Worker.EventJournal.Replay.{kept, replay-append, replay-append_torn}
use kross.Worker.EventJournal.Requests.{IsIndex, complete_request-IsIndex, find-complete_request}

abbrev update : ServerEvent
update = record { type = session_updated; payload = "u" }

issue-Ascending_example :
    Ascending 0 (issue (append_event update ∷ crash_at true ∷ append_event update ∷ []) fresh)
issue-Ascending_example =
    issue-Ascending (append_event update ∷ crash_at true ∷ append_event update ∷ []) 0 fresh
      fresh-Covers

abbrev first_update : Envelope
first_update = record { seq = 10001; event = update }

-- A journal whose number is in memory.
abbrev warm : Bool → Journal
warm torn = record {
  disk = record { lines = []; torn = torn; reservation = some (limited 20000) };
  memory = record { last = some 10000; limit = some 20000 };
}

abbrev after_update : Journal
after_update = record {
  disk = record {
    lines = envelope first_update ∷ [];
    torn = false;
    reservation = some (limited 20000);
  };
  memory = record { last = some 10001; limit = some 20000 };
}

abbrev after_torn : Journal
after_torn = record {
  disk = record { lines = malformed ∷ []; torn = false; reservation = some (limited 20000) };
  memory = record { last = some 10001; limit = some 20000 };
}

append-warm : append update (warm false) ≡ some (first_update, after_update)
unfolding append last_seq append_after ensure_range persist should_persist
append-warm = refl

append_torn : append update (warm true) ≡ some (first_update, after_torn)
unfolding append last_seq append_after ensure_range persist should_persist
append_torn = refl

nothing_read : read (warm false).disk.lines ≡ some []
unfolding read
nothing_read = refl

update_kept : should_persist update.type ≡ true
unfolding should_persist
update_kept = refl

replay-append_example :
    replay 5 after_update
    ≡ some (filter_by (λ x. ltb 5 x.seq) (kept session_updated []) ++ first_update ∷ [])
replay-append_example =
    replay-append update (warm false) after_update first_update [] 5 refl nothing_read update_kept
      append-warm (ground arith)

replay-append_torn_example : replay 5 after_torn ≡ replay 5 (warm true)
replay-append_torn_example =
    replay-append_torn update (warm true) after_torn first_update 5 refl (λ e. cc) append_torn

no_requests-IsIndex : IsIndex []
no_requests-IsIndex = record { one_per_id = tt; bounded = ground arith }

complete_request-IsIndex_example : IsIndex (complete_request "q1" (first_update ∷ []) [])
complete_request-IsIndex_example =
    complete_request-IsIndex "q1" (first_update ∷ []) [] no_requests-IsIndex

find-complete_request_example :
    find_completed_request "q1" (complete_request "q1" (first_update ∷ []) [])
    ≡ some (first_update ∷ [])
find-complete_request_example = find-complete_request "q1" first_update [] []
