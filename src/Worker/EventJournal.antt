-- ===== src/Worker/EventJournal.antt =====
-- packages/worker/src/eventJournal.ts, for one pair of a workspace and a session: its files and its
-- entries in the three in-memory maps. Timestamps and correlation ids are left out of envelopes.
pub mod Sequence
pub mod Replay
pub mod Requests
use kross.Base.{
  ℕ, ◌+◌, max, Bool, true, false, not, ◌||◌, Option, none, some, List, [], ◌∷◌, ◌++◌, String,
  if◌then◌else◌, ltb, text_eq, filter_by, take_last,
}

pub data EventType : Type 0 where
  approval_pending session_snapshot session_updated git_result other : EventType

pub record ServerEvent : Type 0 where
  pub type : EventType
  pub payload : String

pub record Envelope : Type 0 where
  pub seq : ℕ
  pub event : ServerEvent

-- A line of the event file: blank, no JSON, of a version that `assertWorkerDataVersion` refuses,
-- refused by the schema, or an envelope.
pub data Line : Type 0 where
  blank malformed unsupported invalid : Line
  envelope : Envelope → Line

-- The sequence file: a bare number, a JSON object with a limit, one of a version that is refused,
-- or anything else.
pub data Reservation : Type 0 where
  legacy limited : ℕ → Reservation
  unsupported unreadable : Reservation

pub record CompletedRequest : Type 0 where
  pub request_id : String
  pub events : List Envelope

-- The files: the event file's whole lines and whether a cut-off line follows them, and the
-- sequence file if there is one.
pub record Disk : Type 0 where
  pub lines : List Line
  pub torn : Bool
  pub reservation : Option Reservation

-- The entries of `lastSequences` and `sequenceLimits`.
pub record Memory : Type 0 where
  pub last : Option ℕ
  pub limit : Option ℕ

pub record Journal : Type 0 where
  pub disk : Disk
  pub memory : Memory

abbrev pub forgotten : Memory
forgotten = record { last = none; limit = none }

unfoldable pub should_persist : EventType → Bool
should_persist other = false
should_persist _ = true

-- `read`; `none` is the error of an unsupported version. A cut-off line is no JSON.
unfoldable pub read : List Line → Option (List Envelope)
read [] = some []
read (blank ∷ lines) = read lines
read (malformed ∷ lines) = read lines
read (unsupported ∷ lines) = none
read (invalid ∷ lines) = read lines
read (envelope e ∷ lines) = elim (read lines) [ none ↦ none | some es ↦ some (e ∷ es) ]

-- `read(…).at(-1)?.seq ?? 0`.
abbrev pub last_seq_of : List Envelope → ℕ
last_seq_of [] = 0
last_seq_of (e ∷ []) = e.seq
last_seq_of (e ∷ f ∷ es) = last_seq_of (f ∷ es)

-- `readSequenceReservation`, and 0 with no file.
pub read_reservation : Option Reservation → Option ℕ
read_reservation none = some 0
read_reservation (some (legacy n)) = some n
read_reservation (some (limited n)) = some n
read_reservation (some unsupported) = none
read_reservation (some unreadable) = some 0

abbrev pub reserve_step : ℕ
reserve_step = 10000

pub reserve_sequence_range : ℕ → Journal → Journal
reserve_sequence_range after j = record {
  disk = record (j.disk) { reservation = some (limited (after + reserve_step)) };
  memory = record (j.memory) { limit = some (after + reserve_step) };
}

-- The part of `lastSeq` behind the cache.
pub load_last_seq : Journal → Option (ℕ × Journal)
unfolding read read_reservation reserve_sequence_range
load_last_seq j = elim (read j.disk.lines) [
  | none ↦ none
  | some events ↦ elim (read_reservation j.disk.reservation) [
    | none ↦ none
    | some reserved ↦
        let baseline = max (last_seq_of events) reserved in
        some (
          baseline,
          reserve_sequence_range baseline
              (record j { memory = record (j.memory) { last = some baseline } }),
        )
  ]
]

unfoldable pub last_seq : Journal → Option (ℕ × Journal)
unfolding load_last_seq
last_seq j = elim j.memory.last [ some n ↦ some (n, j) | none ↦ load_last_seq j ]

abbrev or_current : Option ℕ → ℕ → ℕ
or_current none n = n
or_current (some limit) n = limit

-- A snapshot replaces the file; another event goes behind it, and behind a cut-off line the two run
-- together.
unfoldable pub persist : Envelope → Disk → Disk
unfolding should_persist
persist e disk = if not (should_persist e.event.type) then disk else elim e.event.type [
  | session_snapshot ↦ record disk { lines = envelope e ∷ []; torn = false }
  | _ ↦ record disk {
    lines = disk.lines ++ (if disk.torn then malformed else envelope e) ∷ [];
    torn = false;
  }
]

-- The reservation of a new range where the next number lies beyond the limit.
unfoldable pub ensure_range : ℕ → Journal → Journal
unfolding reserve_sequence_range
ensure_range current j =
    if ltb (or_current j.memory.limit current) (current + 1)
    then reserve_sequence_range current j
    else j

abbrev pub issue_envelope : ServerEvent → ℕ → Envelope
issue_envelope event current = record { seq = current + 1; event = event }

-- `append` once `lastSeq` has answered.
unfoldable pub append_after : ServerEvent → ℕ → Journal → Envelope × Journal
unfolding persist
append_after event current j = (
  issue_envelope event current,
  record {
    disk = persist (issue_envelope event current) (ensure_range current j).disk;
    memory = record ((ensure_range current j).memory) { last = some (current + 1) };
  },
)

unfoldable pub append : ServerEvent → Journal → Option (Envelope × Journal)
unfolding last_seq append_after
append event j = elim (last_seq j) [
  | none ↦ none
  | some (current, k) ↦ some (append_after event current k)
]

pub replay : ℕ → Journal → Option (List Envelope)
unfolding read
replay after_seq j = elim (read j.disk.lines) [
  | none ↦ none
  | some events ↦ some (filter_by (λ e. ltb after_seq e.seq) events)
]

-- The process ends, perhaps in the middle of a line of the event file, and starts again.
pub crash : Bool → Journal → Journal
crash cut j = record { disk = record (j.disk) { torn = j.disk.torn || cut }; memory = forgotten }

abbrev pub max_requests : ℕ
max_requests = 500

pub find_completed_request : String → List CompletedRequest → Option (List Envelope)
find_completed_request id [] = none
find_completed_request id (r ∷ rs) =
    if text_eq r.request_id id then some r.events else find_completed_request id rs

pub complete_request : String → List Envelope → List CompletedRequest → List CompletedRequest
complete_request id [] entries = entries
complete_request id (e ∷ es) entries = take_last max_requests (
    filter_by (λ r. not (text_eq r.request_id id)) entries
    ++ record { request_id = id; events = e ∷ es } ∷ [])
