-- ===== src/Store/Grows.antt =====
-- What a call of harness/store/memory/memory.go does to the logs, and what an append has done when
-- it succeeds.
use agentic.Prelude.{
  ℕ, ◌≡◌, refl, sym, ap, ◌∙◌, inl, inr, ◌⊎◌, subst, String, List, [], ◌∷◌, ◌++◌, Option, none, some,
  true, Result, ok, err, Bool-cases, Result-cases, insert, lookup-insert, eq_refl, eq_iff,
  append-nil, append_assoc, arith,
}
use agentic.Faults.{Fault}
use agentic.Store.{
  PendingEntry, Entry, Cursor, zero_cursor, cursor_of, StoreError, Commit, tail_from, tail,
  new_commit, Repository, Draw, sequence, validate_open, log_of, entries_of, same_cursor, append_to,
  append, load, Call, perform, perform_all,
}
use agentic.Store.Chains.{IsChain, sequence-IsChain, perform-Step, Step-grows}

-- Whatever is called, in any order, what a log holds stays at its beginning.
pub perform_all-grows :
    (draw : Draw) (calls : List Call) (repository : Repository) (id : String)
    → (more : List Entry) × (log_of (perform_all draw repository calls) id
        ≡ log_of repository id ++ more)
perform_all-grows draw [] repository id = ([], sym (append-nil (log_of repository id)))
perform_all-grows draw (call ∷ calls) repository id =
    let next = perform draw repository call in
    let (one, e, _) = Step-grows repository next id (perform-Step draw repository call) in
    let (rest, f) = perform_all-grows draw calls next id in
    (one ++ rest, f ∙ ap (λ log. log ++ rest) e ∙ append_assoc (log_of repository id) one rest)

same_cursor-eq : (one two : Cursor) → same_cursor one two ≡ true → one ≡ two
same_cursor-eq one two h =
    let seq : one.seq ≡ two.seq = ground arith in
    let id : one.entry_id ≡ two.entry_id = ground (arith, eq_iff one.entry_id two.entry_id) in
    cc (seq, id)

tail_from-append :
    (cursor : Cursor) (one two : List Entry)
    → tail_from cursor (one ++ two) ≡ tail_from (tail_from cursor one) two
unfolding tail_from
tail_from-append cursor [] two = refl
tail_from-append cursor (entry ∷ one) two = tail_from-append (cursor_of entry) one two

-- A refusal changes nothing; a commit is of the session that the handle holds, at its tail, and the
-- handle then loads the log as it was with the committed entries behind it.
abbrev pub Contract : Repository → ℕ → Cursor → Repository × Result StoreError Commit → Type 0
Contract repository journal expected (next, result) =
    ((refusal : StoreError) × (result ≡ err refusal) × (next ≡ repository))
    ⊎ ((id : String) × (commit : Commit) × (result ≡ ok commit)
        × (validate_open repository journal ≡ ok id)
        × (expected ≡ tail (log_of repository id))
        × IsChain expected commit.entries
        × (load none next journal
            ≡ ok (record {
              entries = log_of repository id ++ commit.entries;
              cursor = commit.cursor;
            })))

module _ (draw : Draw) (repository : Repository) (journal : ℕ) (expected : Cursor) where
  longer : String → List Entry → Repository
  longer id entries = record repository {
    sessions = insert id (log_of repository id ++ entries) repository.sessions;
  }

  load-longer :
      (id : String) (entries : List Entry)
      → validate_open repository journal ≡ ok id
      → load none (longer id entries) journal
        ≡ ok (record {
          entries = log_of repository id ++ entries;
          cursor = tail_from (tail (log_of repository id)) entries;
        })
  unfolding load validate_open longer
  load-longer id entries held =
      let log = log_of repository id ++ entries in
      let read : log_of (longer id entries) id ≡ log =
        ap entries_of (lookup-insert id id log repository.sessions) ∙ rw (eq_refl id) refl in
      rw (held, read, tail_from-append zero_cursor (log_of repository id) entries) refl

  append_to-Contract :
      (id : String) (pending : List PendingEntry)
      → validate_open repository journal ≡ ok id
      → Contract repository journal expected (append_to draw repository id expected pending)
  unfolding append_to longer
  append_to-Contract id pending held =
      let log = log_of repository id in
      elim (Bool-cases (same_cursor expected (tail (log_of repository id)))) [
        | inr stale ↦ rw (stale, append_to) (inl (_, refl, refl))
        | inl current ↦
            let at : expected ≡ tail (log_of repository id) = same_cursor-eq expected _ current in
            elim (Result-cases (sequence draw repository 0 (tail (log_of repository id)) pending)) [
              | inr (x, g) ↦ rw (current, g, append_to) (inl (x, refl, refl))
              | inl (entries, g) ↦
                  rw (current, g, append_to)
                    (inr (
                      id,
                      new_commit entries (tail log),
                      refl,
                      held,
                      at,
                      rw at (sequence-IsChain draw repository 0 (tail log) pending g),
                      load-longer id entries held,
                    ))
            ]
      ]

  -- Every branch of `Append`: a refusal changes nothing; a commit is of the session that the handle
  -- holds, with the expected cursor at its tail, and the handle then loads the log as it was with
  -- the committed entries, a chain, behind it.
  pub append-Contract :
      (canceled : Option Fault) (pending : List PendingEntry)
      → Contract repository journal expected
          (append draw canceled repository journal expected pending)
  unfolding append
  append-Contract (some x) pending = inl (_, refl, refl)
  append-Contract none pending = elim (Result-cases (validate_open repository journal)) [
    | inr (x, e) ↦ rw (e, append) (inl (x, refl, refl))
    | inl (id, e) ↦
        subst (Contract repository journal expected) (sym (rw (append, e) refl))
          (append_to-Contract id pending e)
  ]
