-- ===== src/Store/Chains.antt =====
-- The logs of harness/store/memory/memory.go are chains: entry after entry, the next sequence
-- number and the ID of the entry before as the parent.
use agentic.Prelude.{
  ℕ, suc, ◌≡◌, refl, sym, ap, ◌∙◌, inl, inr, ◌⊎◌, subst, String, List, [], ◌∷◌, ◌++◌, Option, none,
  some, Result, ok, >>=-eq-ok, Bool-cases, Option-cases, Result-cases, lookup, insert,
  lookup-insert, is_some, if◌then◌else◌, append-nil, get_elem?, eq_iff, ◌==◌, arith,
}
use agentic.Faults.{Fault}
use agentic.Store.{
  PendingEntry, Entry, Cursor, zero_cursor, cursor_of, tail_from, tail, Repository, new_repository,
  Draw, next_seq, entry_at, sequence_one, sequence, check_call, create, open_session, validate_open,
  log_of, same_cursor, append_to, append, close, Call, creates, opens, loads, appends, closes,
  perform, perform_all, current_schema, entries_of,
}

abbrev pub IsChain : Cursor → List Entry → Type 0
IsChain cursor [] = Unit {0}
IsChain cursor (entry ∷ entries) =
    (entry.schema ≡ current_schema)
    × (entry.seq ≡ next_seq cursor.seq)
    × (entry.parent_id ≡ cursor.entry_id)
    × IsChain (cursor_of entry) entries

IsChain-append :
    (cursor : Cursor) (one two : List Entry)
    → IsChain cursor one
    → IsChain (tail_from cursor one) two
    → IsChain cursor (one ++ two)
unfolding tail_from
IsChain-append cursor [] two c d = d
IsChain-append cursor (entry ∷ one) two (s, n, p, c) d =
    (s, n, p, IsChain-append (cursor_of entry) one two c d)

sequence_one-entry_at :
    (drawn : Result Fault String) (cursor : Cursor) (item : PendingEntry) {entry : Entry}
    → sequence_one drawn cursor item ≡ ok entry
    → (id : String) × (entry_at cursor id item ≡ entry)
unfolding sequence_one
sequence_one-entry_at drawn cursor item h = elim (Result-cases drawn) [
  | inl (id, e) ↦ (id, ground arith)
  | inr (f, e) ↦ absurd (ground arith)
]

pub sequence-IsChain :
    (draw : Draw) (repository : Repository) (i : ℕ) (cursor : Cursor) (items : List PendingEntry)
    {entries : List Entry}
    → sequence draw repository i cursor items ≡ ok entries
    → IsChain cursor entries
unfolding sequence
sequence-IsChain draw repository i cursor [] {entries} h =
    let same : [] ≡ entries = ground arith in subst (IsChain cursor) same tt
sequence-IsChain draw repository i cursor (item ∷ items) {entries} h =
    let (entry, e, later) = >>=-eq-ok (sequence_one (draw repository i) cursor item) _ h in
    let (rest, f, joined) =
      >>=-eq-ok (sequence draw repository (suc i) (cursor_of entry) items)
        (λ rest. ok (entry ∷ rest)) later in
    let same : entry ∷ rest ≡ entries = ground arith in
    let (id, made) = sequence_one-entry_at (draw repository i) cursor item e in
    subst (IsChain cursor) same (
      ap (λ x. x.schema) (sym made),
      ap (λ x. x.seq) (sym made),
      ap (λ x. x.parent_id) (sym made),
      sequence-IsChain draw repository (suc i) (cursor_of entry) items f,
    )

-- A call leaves the logs, or puts a chain behind one of them.
abbrev pub Step : Repository → Repository → Type 0
Step repository next =
    (next.sessions ≡ repository.sessions)
    ⊎ ((id : String) × (entries : List Entry) × IsChain (tail (log_of repository id)) entries
        × (next.sessions ≡ insert id (log_of repository id ++ entries) repository.sessions))

module _ (draw : Draw) (repository : Repository) where
  create-Step :
      (canceled : Option Fault) (id : String) (pending : List PendingEntry)
      → Step repository (create draw canceled repository id pending).0
  unfolding create tail_from
  create-Step canceled id pending = elim (Option-cases (check_call canceled id)) [
    | inr (x, e) ↦ rw (e, create) (inl refl)
    | inl e ↦ elim (Option-cases (lookup id repository.sessions)) [
      | inr (log, f) ↦ rw (e, f, create) (inl refl)
      | inl f ↦ elim (Result-cases (sequence draw repository 0 zero_cursor pending)) [
        | inr (x, g) ↦ rw (e, f, g, create) (inl refl)
        | inl (entries, g) ↦
            let bare : log_of repository id ≡ [] = ap entries_of f in
            rw (e, f, g, create)
              (inr (
                id,
                entries,
                rw bare (sequence-IsChain draw repository 0 zero_cursor pending g),
                rw bare refl,
              ))
      ]
    ]
  ]

  append_to-Step :
      (id : String) (expected : Cursor) (pending : List PendingEntry)
      → Step repository (append_to draw repository id expected pending).0
  unfolding append_to
  append_to-Step id expected pending =
      elim (Bool-cases (same_cursor expected (tail (log_of repository id)))) [
        | inr stale ↦ rw (stale, append_to) (inl refl)
        | inl current ↦
            elim (Result-cases (sequence draw repository 0 (tail (log_of repository id)) pending)) [
              | inr (x, g) ↦ rw (current, g, append_to) (inl refl)
              | inl (entries, g) ↦
                  rw (current, g, append_to)
                    (inr (
                      id,
                      entries,
                      sequence-IsChain draw repository 0 (tail (log_of repository id)) pending g,
                      refl,
                    ))
            ]
      ]

  append-Step :
      (canceled : Option Fault) (journal : ℕ) (expected : Cursor) (pending : List PendingEntry)
      → Step repository (append draw canceled repository journal expected pending).0
  unfolding append
  append-Step (some x) journal expected pending = inl refl
  append-Step none journal expected pending =
      elim (Result-cases (validate_open repository journal)) [
        | inr (x, e) ↦ rw (e, append) (inl refl)
        | inl (id, e) ↦ rw (e, append) (append_to-Step id expected pending)
      ]

  open_session-sessions :
      (canceled : Option Fault) (id : String)
      → (open_session canceled repository id).0.sessions ≡ repository.sessions
  unfolding open_session
  open_session-sessions canceled id = elim (Option-cases (check_call canceled id)) [
    | inr (x, e) ↦ rw (e, open_session) refl
    | inl e ↦ elim (Bool-cases (is_some (lookup id repository.sessions))) [
      | inr f ↦ rw (e, f, open_session) refl
      | inl f ↦ elim (Bool-cases (is_some (lookup id repository.open_by))) [
        | inl g ↦ rw (e, f, g, open_session) refl
        | inr g ↦ rw (e, f, g, open_session) refl
      ]
    ]
  ]

  close-sessions : (journal : ℕ) → (close repository journal).sessions ≡ repository.sessions
  unfolding close
  close-sessions journal = elim (Option-cases (get_elem? repository.handles journal)) [
    | inl e ↦ rw (e, close) refl
    | inr (handle, e) ↦ elim (Bool-cases handle.closed) [
      | inl f ↦ rw (e, f, close) refl
      | inr f ↦ rw (e, f, close) refl
    ]
  ]

  pub perform-Step : (call : Call) → Step repository (perform draw repository call)
  perform-Step (creates canceled id pending) = create-Step canceled id pending
  perform-Step (opens canceled id) = inl (open_session-sessions canceled id)
  perform-Step (loads canceled journal) = inl refl
  perform-Step (appends canceled journal expected pending) =
      append-Step canceled journal expected pending
  perform-Step (closes journal) = inl (close-sessions journal)

-- Every log is a chain from the zero cursor.
abbrev pub AllChains : Repository → Type 0
AllChains repository = (id : String) → IsChain zero_cursor (log_of repository id)

log_of-insert :
    (id other : String) (log : List Entry) (repository next : Repository)
    → next.sessions ≡ insert id log repository.sessions
    → log_of next other ≡ (if id == other then log else log_of repository other)
log_of-insert id other log repository next e =
    ap (λ s. entries_of (lookup other s)) e
    ∙ ap entries_of (lookup-insert id other log repository.sessions)
    ∙ pushed
  where
    pushed :
        entries_of (if id == other then some log else lookup other repository.sessions)
        ≡ (if id == other then log else log_of repository other)
    pushed = elim (Bool-cases (id == other)) [ inl h ↦ rw h refl | inr h ↦ rw h refl ]

-- What a step does to a log: it grows by a chain behind its tail.
pub Step-grows :
    (repository next : Repository) (id : String)
    → Step repository next
    → (more : List Entry) × (log_of next id ≡ log_of repository id ++ more)
      × IsChain (tail (log_of repository id)) more
Step-grows repository next id (inl same) =
    ([], ap (λ s. entries_of (lookup id s)) same ∙ sym (append-nil (log_of repository id)), tt)
Step-grows repository next id (inr (key, entries, chain, e)) =
    let log = log_of-insert key id (log_of repository key ++ entries) repository next e in
    elim (Bool-cases (key == id)) [
      | inl h ↦
          let same : key ≡ id = (eq_iff key id).0 h in
          (
            entries,
            log ∙ rw (h, same) refl,
            subst (λ k. IsChain (tail (log_of repository k)) entries) same chain,
          )
      | inr h ↦ ([], log ∙ rw h (sym (append-nil (log_of repository id))), tt)
    ]

Step-AllChains :
    (repository next : Repository) → Step repository next → AllChains repository → AllChains next
Step-AllChains repository next step all id =
    let (more, e, chain) = Step-grows repository next id step in
    subst (IsChain zero_cursor) (sym e)
      (IsChain-append zero_cursor (log_of repository id) more (all id) chain)

perform_all-keeps :
    (draw : Draw) (calls : List Call) (repository : Repository)
    → AllChains repository
    → AllChains (perform_all draw repository calls)
perform_all-keeps draw [] repository all = all
perform_all-keeps draw (call ∷ calls) repository all =
    perform_all-keeps draw calls (perform draw repository call) (
      Step-AllChains repository (perform draw repository call) (perform-Step draw repository call)
        all)

-- After any calls of a new repository and of its handles, in any order, each log numbers its
-- entries from one on (as uint64), and each entry names the one before it as its parent.
pub perform_all-AllChains :
    (draw : Draw) (calls : List Call) → AllChains (perform_all draw new_repository calls)
unfolding lookup
perform_all-AllChains draw calls = perform_all-keeps draw calls new_repository (λ id. tt)
