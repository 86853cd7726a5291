-- ===== src/Worker/EventJournal/Requests.antt =====
-- The index of completed requests in packages/worker/src/eventJournal.ts.
use kross.Base.{
  zero, sym, All-filter_by, All-append, ℕ, suc, ◌≤◌, ◌≡◌, refl, ◌≢◌, Bool, not, some, List, [], ◌∷◌,
  ◌++◌, String, arith, text_eq, text_eq_iff, filter_by, length, drop, length-append,
  length-take_last, All,
}
use kross.Worker.EventJournal.{
  Envelope, CompletedRequest, max_requests, find_completed_request, complete_request,
}

-- No two entries have one id.
abbrev OnePerId : List CompletedRequest → Type 0
OnePerId [] = Unit
OnePerId (r ∷ rs) = All (λ s. s.request_id ≢ r.request_id) rs × OnePerId rs

pub record IsIndex (entries : List CompletedRequest) : Type 0 where
  pub one_per_id : OnePerId entries
  pub bounded : length entries ≤ max_requests

find-append_last :
    (id : String) (r : CompletedRequest) (entries : List CompletedRequest)
    → r.request_id ≡ id
    → All (λ s. s.request_id ≢ id) entries
    → find_completed_request id (entries ++ r ∷ []) ≡ some r.events
unfolding find_completed_request
find-append_last id r [] e a = ground (arith, text_eq_iff r.request_id id)
find-append_last id r (s ∷ entries) e a =
    ground (arith, find-append_last id r entries, text_eq_iff s.request_id id)

filter-others :
    (id : String) (entries : List CompletedRequest)
    → All (λ s. s.request_id ≢ id) (filter_by (λ r. not (text_eq r.request_id id)) entries)
filter-others id [] = tt
filter-others id (s ∷ entries) =
    ground (arith, filter-others id entries, text_eq_iff s.request_id id)

filter-OnePerId :
    (p : CompletedRequest → Bool) (entries : List CompletedRequest)
    → OnePerId entries
    → OnePerId (filter_by p entries)
filter-OnePerId p [] h = tt
filter-OnePerId p (s ∷ entries) h = ground (
  arith,
  filter-OnePerId p entries,
  All-filter_by (λ r. r.request_id ≢ s.request_id) p entries h.0,
)

append-OnePerId :
    (entries : List CompletedRequest) (r : CompletedRequest)
    → OnePerId entries
    → All (λ s. s.request_id ≢ r.request_id) entries
    → OnePerId (entries ++ r ∷ [])
append-OnePerId [] r h a = (tt, tt)
append-OnePerId (s ∷ entries) r h a =
    (All-append _ entries (r ∷ []) h.0 ((λ e. a.0 (sym e)), tt), append-OnePerId entries r h.1 a.1)

drop-OnePerId :
    (n : ℕ) (entries : List CompletedRequest) → OnePerId entries → OnePerId (drop n entries)
drop-OnePerId zero entries h = h
drop-OnePerId (suc n) [] h = h
drop-OnePerId (suc n) (s ∷ entries) h = drop-OnePerId n entries h.1

-- If an index of requests has one entry for each id and at most 500 entries, it still has after a
-- request is recorded.
pub complete_request-IsIndex :
    (id : String) (events : List Envelope) (entries : List CompletedRequest)
    → IsIndex entries
    → IsIndex (complete_request id events entries)
unfolding complete_request
complete_request-IsIndex id [] entries v = v
complete_request-IsIndex id (e ∷ es) entries v = record {
  one_per_id =
      drop-OnePerId _ _
        (append-OnePerId _ _ (filter-OnePerId _ entries v.one_per_id) (filter-others id entries));
  bounded = length-take_last max_requests (
      filter_by (λ r. not (text_eq r.request_id id)) entries
      ++ record { request_id = id; events = e ∷ es } ∷ []);
}

-- `find` passes over a prefix that is dropped, while the last entry stays.
find-drop :
    (id : String) (r : CompletedRequest) (n : ℕ) (entries : List CompletedRequest)
    → r.request_id ≡ id
    → All (λ s. s.request_id ≢ id) entries
    → n ≤ length entries
    → find_completed_request id (drop n (entries ++ r ∷ [])) ≡ some r.events
find-drop id r zero entries e a h = find-append_last id r entries e a
find-drop id r (suc n) [] e a h = absurd (omega arith)
find-drop id r (suc n) (s ∷ entries) e a h = find-drop id r n entries e a.1 (omega arith)

-- A request that is recorded with at least one event is found with exactly these events, whatever
-- was recorded before, also where older entries are dropped to keep 500.
pub find-complete_request :
    (id : String) (e : Envelope) (es : List Envelope) (entries : List CompletedRequest)
    → find_completed_request id (complete_request id (e ∷ es) entries) ≡ some (e ∷ es)
unfolding complete_request
find-complete_request id e es entries =
    find-drop id (record { request_id = id; events = e ∷ es }) _ _ refl (filter-others id entries)
      (omega (
        arith,
        length-append (filter_by (λ r. not (text_eq r.request_id id)) entries)
            (record { request_id = id; events = e ∷ es } ∷ []),
      ))
