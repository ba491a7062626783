-- ===== src/Examples/Journals.antt =====
-- A journal that is created, appended to, and written to with a stale cursor: harness/store.
use agentic.Prelude.{◌≡◌, refl, none, List, [], ◌∷◌, ◌++◌, ok, err}
use agentic.Store.{
  PendingEntry, Entry, zero_cursor, Draw, Repository, new_repository, Call, creates, appends,
  closes, opens, log_of, tail, create, append, append_to, perform_all, sequence, sequence_one,
  validate_open, validate_session_id, all_session_runes, check_call, tail_from, conflict, close,
  open_session, journal_closed,
}
use agentic.Prelude.{lookup, insert}
use agentic.Store.Releases.{open_session-close}
use agentic.Store.Chains.{AllChains, perform_all-AllChains}
use agentic.Store.Grows.{Contract, perform_all-grows, append-Contract}

abbrev drawn : Draw
drawn repository i = ok "e1"

abbrev note : PendingEntry
note = record { kind = "note"; payload = "{}"; durability = 1 }

abbrev story : List Call
story =
    creates none "s1" (note ∷ [])
    ∷ appends none 0 (record { seq = 1; entry_id = "e1" }) (note ∷ note ∷ [])
    ∷ appends none 0 zero_cursor (note ∷ [])
    ∷ closes 0
    ∷ opens none "s1"
    ∷ []

perform_all-AllChains_example : AllChains (perform_all drawn new_repository story)
perform_all-AllChains_example = perform_all-AllChains drawn story

abbrev created : Repository
created = perform_all drawn new_repository (creates none "s1" (note ∷ []) ∷ [])

perform_all-grows_example :
    (more : List Entry) × (log_of (perform_all drawn created story) "s1"
      ≡ log_of created "s1" ++ more)
perform_all-grows_example = perform_all-grows drawn story created "s1"

-- The write with the zero cursor is refused.
stale_write :
    (append drawn none created 0 zero_cursor (note ∷ [])).1
    ≡ err (conflict zero_cursor (record { seq = 1; entry_id = "e1" }))
unfolding append append_to create check_call validate_session_id all_session_runes sequence
    sequence_one validate_open tail_from lookup insert
stale_write = refl

append-Contract_example :
    Contract created 0
      (tail (log_of created "s1"))
      (append drawn none created 0 (tail (log_of created "s1")) (note ∷ []))
append-Contract_example =
    append-Contract drawn created 0 (tail (log_of created "s1")) none (note ∷ [])

created_held : validate_open created 0 ≡ ok "s1"
unfolding create check_call validate_session_id all_session_runes sequence sequence_one
    validate_open lookup insert
created_held = refl

open_session-close_example :
    (next : Repository) × (open_session none (close created 0) "s1" ≡ (next, ok 1))
    × (validate_open next 0 ≡ err (journal_closed "s1"))
    × (validate_open next 1 ≡ ok "s1")
unfolding create check_call validate_session_id all_session_runes sequence sequence_one
    validate_open lookup insert
open_session-close_example = open_session-close created 0 "s1" created_held refl refl
