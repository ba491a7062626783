-- ===== src/Store.antt =====
-- harness/store/store.go and harness/store/memory/memory.go: session journals, kept in memory. A
-- payload is its text. A handle is its number among the journals that were made, which stands for
-- the pointer; `draw` makes the IDs from the clock and the random source, by the state and the
-- place in the batch, and `canceled` is the context's error. The lock makes each operation one
-- step.
pub mod Chains
pub mod Grows
pub mod Releases
use Prim.Native.Char.{Char, code}
use Prim.Native.Nat.{◌%◌, ◌^◌}
use Prim.Native.String.{len}
use agentic.Prelude.{
  ℕ, zero, suc, ◌+◌, String, List, [], ◌∷◌, ◌++◌, Option, none, some, Bool, true, false, not, ◌&&◌,
  ◌||◌, ◌==◌, Result, ok, err, ◌>>=◌, lookup, insert, is_some, length, get_elem?, set, ltb, leb,
  nat_eq, if◌then◌else◌,
}
use agentic.Faults.{Fault}

abbrev pub current_schema : ℕ
current_schema = 1

-- `Durability`, a byte.
abbrev pub durability_sync : ℕ
durability_sync = 1

pub record PendingEntry : Type 0 where
  pub kind : String
  pub payload : String
  pub durability : ℕ

pub record Entry : Type 0 where
  pub schema : ℕ
  pub seq : ℕ
  pub id : String
  pub parent_id : String
  pub kind : String
  pub payload : String
  pub durability : ℕ

pub record Cursor : Type 0 where
  pub seq : ℕ
  pub entry_id : String

abbrev pub zero_cursor : Cursor
zero_cursor = record { seq = 0; entry_id = "" }

abbrev pub cursor_of : Entry → Cursor
cursor_of entry = record { seq = entry.seq; entry_id = entry.id }

abbrev pub same_cursor : Cursor → Cursor → Bool
same_cursor one two = nat_eq one.seq two.seq && one.entry_id == two.entry_id

pub record Commit : Type 0 where
  pub entries : List Entry
  pub cursor : Cursor

pub data StoreError : Type 0 where
  canceled_by : Fault → StoreError
  invalid_session_id session_exists session_not_found session_open : String → StoreError
  journal_closed : String → StoreError
  conflict : Cursor → Cursor → StoreError
  empty_kind : StoreError
  invalid_durability : ℕ → StoreError
  no_entry_id : Fault → StoreError

abbrev pub is_session_rune : Char → Bool
is_session_rune c =
    (leb b'a' (code c) && leb (code c) b'z')
    || (leb b'A' (code c) && leb (code c) b'Z')
    || (leb b'0' (code c) && leb (code c) b'9')
    || (nat_eq (code c) b'_' || nat_eq (code c) b'-')

unfoldable pub all_session_runes : String → Bool
all_session_runes String.[] = true
all_session_runes (String.◌∷◌ c s) = is_session_rune c && all_session_runes s

unfoldable pub validate_session_id : String → Option StoreError
validate_session_id id =
    if id == "" || ltb 128 (len id)
    then some (invalid_session_id id)
    else if all_session_runes id
    then none
    else some (invalid_session_id id)

-- The cursor behind a log, or another if it is empty: `tail`, and the cursor of `NewCommit`.
unfoldable pub tail_from : Cursor → List Entry → Cursor
tail_from cursor [] = cursor
tail_from cursor (entry ∷ entries) = tail_from (cursor_of entry) entries

abbrev pub tail : List Entry → Cursor
tail = tail_from zero_cursor

abbrev pub new_commit : List Entry → Cursor → Commit
new_commit entries fallback = record { entries = entries; cursor = tail_from fallback entries }

-- `Journal`.
pub record Handle : Type 0 where
  pub session_id : String
  pub closed : Bool

pub record Repository : Type 0 where
  pub sessions : List (String × List Entry)
  pub open_by : List (String × ℕ)
  pub handles : List Handle

abbrev pub new_repository : Repository
new_repository = record { sessions = []; open_by = []; handles = [] }

abbrev pub Draw : Type 0
Draw = Repository → ℕ → Result Fault String

-- The sequence number of the next entry, a uint64.
abbrev pub next_seq : ℕ → ℕ
next_seq seq = (seq + 1) % (2 ^ 64)

abbrev pub entry_at : Cursor → String → PendingEntry → Entry
entry_at cursor id item = record {
  schema = current_schema;
  seq = next_seq cursor.seq;
  id = id;
  parent_id = cursor.entry_id;
  kind = item.kind;
  payload = item.payload;
  durability = item.durability;
}

unfoldable pub sequence_one : Result Fault String → Cursor → PendingEntry → Result StoreError Entry
sequence_one drawn cursor item =
    if item.kind == ""
    then err empty_kind
    else if ltb durability_sync item.durability
    then err (invalid_durability item.durability)
    else elim drawn [ err e ↦ err (no_entry_id e) | ok id ↦ ok (entry_at cursor id item) ]

unfoldable pub sequence :
    Draw → Repository → ℕ → Cursor → List PendingEntry → Result StoreError (List Entry)
sequence draw repository i cursor [] = ok []
sequence draw repository i cursor (item ∷ items) =
    sequence_one (draw repository i) cursor item >>= λ entry.
    sequence draw repository (suc i) (cursor_of entry) items >>= λ rest. ok (entry ∷ rest)

unfoldable pub remove_key {ℓ} : {V : Type ℓ} → String → List (String × V) → List (String × V)
remove_key key [] = []
remove_key key ((slot, value) ∷ rest) =
    let later = remove_key key rest in if slot == key then later else (slot, value) ∷ later

-- The first checks of `Create` and `Open`.
unfoldable pub check_call : Option Fault → String → Option StoreError
check_call (some e) id = some (canceled_by e)
check_call none id = validate_session_id id

-- A new handle that holds the session.
abbrev pub hold : Repository → String → Repository
hold repository id = record repository {
  open_by = insert id (length repository.handles) repository.open_by;
  handles = repository.handles ++ record { session_id = id; closed = false } ∷ [];
}

unfoldable pub create :
    Draw
    → Option Fault
    → Repository
    → String
    → List PendingEntry
    → Repository × Result StoreError (ℕ × Commit)
create draw canceled repository id pending = elim (check_call canceled id) [
  | some e ↦ (repository, err e)
  | none ↦
      if is_some (lookup id repository.sessions)
      then (repository, err (session_exists id))
      else elim (sequence draw repository 0 zero_cursor pending) [
        | err e ↦ (repository, err e)
        | ok entries ↦ (
          record (hold repository id) { sessions = insert id entries repository.sessions },
          ok (length repository.handles, new_commit entries zero_cursor),
        )
      ]
]

unfoldable pub open_session : Option Fault → Repository → String → Repository × Result StoreError ℕ
open_session canceled repository id = elim (check_call canceled id) [
  | some e ↦ (repository, err e)
  | none ↦
      if not (is_some (lookup id repository.sessions))
      then (repository, err (session_not_found id))
      else if is_some (lookup id repository.open_by)
      then (repository, err (session_open id))
      else (hold repository id, ok (length repository.handles))
]

abbrev is_holder : ℕ → Option ℕ → Bool
is_holder journal none = false
is_holder journal (some holder) = nat_eq holder journal

-- `validateOpenLocked`, of a handle with its number; a number without a handle is refused.
unfoldable pub validate_open : Repository → ℕ → Result StoreError String
validate_open repository journal = elim (get_elem? repository.handles journal) [
  | none ↦ err (journal_closed "")
  | some handle ↦
      if handle.closed || not (is_holder journal (lookup handle.session_id repository.open_by))
      then err (journal_closed handle.session_id)
      else ok handle.session_id
]

-- `r.sessions[id]`, nil on a missing key.
abbrev pub entries_of : Option (List Entry) → List Entry
entries_of none = []
entries_of (some entries) = entries

abbrev pub log_of : Repository → String → List Entry
log_of repository id = entries_of (lookup id repository.sessions)

unfoldable pub load : Option Fault → Repository → ℕ → Result StoreError Commit
load (some e) repository journal = err (canceled_by e)
load none repository journal = validate_open repository journal >>= λ id.
    ok (record { entries = log_of repository id; cursor = tail (log_of repository id) })

unfoldable pub append_to :
    Draw → Repository → String → Cursor → List PendingEntry → Repository × Result StoreError Commit
append_to draw repository id expected pending =
    if not (same_cursor expected (tail (log_of repository id)))
    then (repository, err (conflict expected (tail (log_of repository id))))
    else elim (sequence draw repository 0 (tail (log_of repository id)) pending) [
      | err e ↦ (repository, err e)
      | ok entries ↦ (
        record repository {
          sessions = insert id (log_of repository id ++ entries) repository.sessions;
        },
        ok (new_commit entries (tail (log_of repository id))),
      )
    ]

unfoldable pub append :
    Draw
    → Option Fault
    → Repository
    → ℕ
    → Cursor
    → List PendingEntry
    → Repository × Result StoreError Commit
append draw (some e) repository journal expected pending = (repository, err (canceled_by e))
append draw none repository journal expected pending = elim (validate_open repository journal) [
  | err e ↦ (repository, err e)
  | ok id ↦ append_to draw repository id expected pending
]

unfoldable pub close : Repository → ℕ → Repository
close repository journal = elim (get_elem? repository.handles journal) [
  | none ↦ repository
  | some handle ↦ if handle.closed then repository else record repository {
    handles = set repository.handles journal (record handle { closed = true });
    open_by =
        (if is_holder journal (lookup handle.session_id repository.open_by)
          then remove_key handle.session_id repository.open_by
          else repository.open_by);
  }
]

-- A call of the repository or of one of its handles.
pub data Call : Type 0 where
  creates : Option Fault → String → List PendingEntry → Call
  opens : Option Fault → String → Call
  loads : Option Fault → ℕ → Call
  appends : Option Fault → ℕ → Cursor → List PendingEntry → Call
  closes : ℕ → Call

abbrev pub perform : Draw → Repository → Call → Repository
perform draw repository (creates canceled id pending) =
    (create draw canceled repository id pending).0
perform draw repository (opens canceled id) = (open_session canceled repository id).0
perform draw repository (loads canceled journal) = repository
perform draw repository (appends canceled journal expected pending) =
    (append draw canceled repository journal expected pending).0
perform draw repository (closes journal) = close repository journal

-- A sequence of calls.
abbrev pub perform_all : Draw → Repository → List Call → Repository
perform_all draw repository [] = repository
perform_all draw repository (call ∷ calls) = perform_all draw (perform draw repository call) calls
