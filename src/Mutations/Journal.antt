-- ===== src/Mutations/Journal.antt =====
-- packages/core/src/mutations/mutationJournal.ts. A time is a number, as ISO texts order like the
-- times that they stand for; ids and hashes are texts. Blobs are not modelled.
pub mod Reload
pub mod Recovery
pub mod Active
use kross.Base.{
  ℕ, Bool, false, not, Option, none, some, List, [], ◌∷◌, ◌++◌, String, if◌then◌else◌,
  String-discrete, text_eq, some_of, filter_by, leb,
}
use kross.Base.Maps.{Map, get, set, delete, values}

pub data ToolName : Type 0 where
  apply_patch write edit delete_file move : ToolName

pub data EntryKind : Type 0 where
  file directory symlink : EntryKind

pub record EntrySnapshot : Type 0 where
  pub path : String
  pub kind : EntryKind
  pub hash : String
  pub content_ref : Option String
  pub link_target : Option String

pub record RootSnapshot : Type 0 where
  pub path : String
  pub hash : String
  pub entries : List EntrySnapshot

pub record PreparedMutation : Type 0 where
  pub transaction_id : String
  pub run_id : String
  pub tool_name : ToolName
  pub created_at : ℕ
  pub pre : List RootSnapshot

pub record MutationRecord : Type 0 where
  pub prepared : PreparedMutation
  pub post : List RootSnapshot

pub data Event : Type 0 where
  prepared : PreparedMutation → Event
  committed : String → List RootSnapshot → Event
  rolled_back : String → String → Event
  undone : String → ℕ → Event

-- A line of the file as `load` reads it, so an event stands for its JSON: blank, no JSON, JSON of a version that
-- `assertSupportedDataVersion` refuses, JSON that is no event, or an event.
pub data Line : Type 0 where
  blank malformed unsupported unknown : Line
  event : Event → Line

-- The file: its whole lines, and whether a cut-off line without a line end follows them.
pub record File : Type 0 where
  pub lines : List Line
  pub torn : Bool

-- The maps of the journal object; `inactive` is a set.
pub record State : Type 0 where
  pub pending : Map String PreparedMutation
  pub done : Map String MutationRecord
  pub inactive : List String

abbrev pub empty : State
empty = record { pending = []; done = []; inactive = [] }

unfoldable pub add : String → List String → List String
add id ids = if some_of (text_eq id) ids then ids else ids ++ id ∷ []

-- What `load` does with one event.
unfoldable pub load_event : Event → State → State
unfolding add
load_event (prepared m) s = record s { pending = set String-discrete m.transaction_id m s.pending }
load_event (committed id post) s = elim (get String-discrete id s.pending) [
  | none ↦ s
  | some m ↦ record s {
    done = set String-discrete id (record { prepared = m; post = post }) s.done;
    pending = delete String-discrete id s.pending;
  }
]
load_event (rolled_back id reason) s = record s {
  pending = delete String-discrete id s.pending;
  inactive = add id s.inactive;
}
load_event (undone id at) s = record s { inactive = add id s.inactive }

-- The loop of `load`; `none` is the error of an unsupported version.
unfoldable pub load_lines : List Line → State → Option State
load_lines [] s = some s
load_lines (blank ∷ lines) s = load_lines lines s
load_lines (malformed ∷ lines) s = load_lines lines s
load_lines (unsupported ∷ lines) s = none
load_lines (unknown ∷ lines) s = load_lines lines s
load_lines (event e ∷ lines) s = load_lines lines (load_event e s)

-- A cut-off line is no JSON, so `load` skips it.
unfoldable pub load : File → Option State
unfolding load_lines
load disk = load_lines disk.lines empty

-- `appendFileSync` of a line: behind a cut-off line the two run together and are no JSON.
unfoldable pub append : Event → File → File
append e disk = record {
  lines = disk.lines ++ (if disk.torn then malformed else event e) ∷ [];
  torn = false;
}

pub record Journal : Type 0 where
  pub file : File
  pub state : State

pub append_prepared : PreparedMutation → Journal → Journal
unfolding append
append_prepared m j = record {
  file = append (prepared m) j.file;
  state = record (j.state) { pending = set String-discrete m.transaction_id m j.state.pending };
}

-- `none` is `Unknown prepared mutation`.
pub append_committed : String → List RootSnapshot → Journal → Option (Journal × MutationRecord)
unfolding append
append_committed id post j = elim (get String-discrete id j.state.pending) [
  | none ↦ none
  | some m ↦
      let committed_record : MutationRecord = record { prepared = m; post = post } in
      some (
        record {
          file = append (committed id post) j.file;
          state = record (j.state) {
            done = set String-discrete id committed_record j.state.done;
            pending = delete String-discrete id j.state.pending;
          };
        },
        committed_record,
      )
]

unfoldable pub append_rolled_back : String → String → Journal → Journal
unfolding append add
append_rolled_back id reason j = record {
  file = append (rolled_back id reason) j.file;
  state = record (j.state) {
    pending = delete String-discrete id j.state.pending;
    inactive = add id j.state.inactive;
  };
}

pub append_undone : String → ℕ → Journal → Journal
unfolding append add
append_undone id now j = record {
  file = append (undone id now) j.file;
  state = record (j.state) { inactive = add id j.state.inactive };
}

abbrev is_active : State → MutationRecord → Bool
is_active s r = not (some_of (text_eq r.prepared.transaction_id) s.inactive)

-- A stable sort by `createdAt`, as `Array.prototype.sort` is.
insert_by_time : MutationRecord → List MutationRecord → List MutationRecord
insert_by_time r [] = r ∷ []
insert_by_time r (x ∷ xs) =
    if leb r.prepared.created_at x.prepared.created_at then r ∷ x ∷ xs else x ∷ insert_by_time r xs

sort_by_time : List MutationRecord → List MutationRecord
unfolding insert_by_time
sort_by_time [] = []
sort_by_time (x ∷ xs) = insert_by_time x (sort_by_time xs)

pub list_active : State → List MutationRecord
unfolding sort_by_time
list_active s = sort_by_time (filter_by (is_active s) (values s.done))

unfoldable pub list_incomplete : State → List PreparedMutation
list_incomplete s = values s.pending

-- `recoverIncomplete` of mutationService.ts, over the mutations that `listIncomplete` gave: each is
-- restored, then rolled back. The restored mutations are the second part.
unfoldable pub recover : List PreparedMutation → Journal → Journal
unfolding append_rolled_back
recover [] j = j
recover (m ∷ ms) j = recover ms (append_rolled_back m.transaction_id "recovered-incomplete" j)

-- A start of the service on a file: the journal that it leaves, and what it restored.
unfoldable pub start : File → Option (Journal × List PreparedMutation)
unfolding load recover list_incomplete
start disk = elim (load disk) [
  | none ↦ none
  | some s ↦
      some (recover (list_incomplete s) (record { file = disk; state = s }), list_incomplete s)
]
