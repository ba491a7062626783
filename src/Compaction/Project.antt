-- ===== src/Compaction/Project.antt =====
-- `Project` and `Estimate` of harness/contextpolicy/contextpolicy.go. The transforms, the
-- compactor, the token counter over JSON, SHA-256, `ctx.Err()`, `json.Marshal` of messages and
-- `reflect.DeepEqual` are fields of the policy. Counts and the configured numbers are not negative.
pub mod Shows
use agentic.Prelude.{
  ℕ, ◌+◌, ◌*◌, ◌/◌, String, List, [], ◌∷◌, ◌++◌, Option, none, some, Bool, true, false, not, ◌||◌,
  ◌==◌, Result, ok, err, ◌>>=◌, length, is_empty, take, drop, ltb, nat_eq, if◌then◌else◌,
}
use agentic.Message.{Message}
use agentic.Compaction.{
  CompactionError, Compaction, validate_context_tail, compaction_cut, segment, apply, recipe,
}

pub data ProjectError : Type 0 where
  failed : String → ProjectError
  cleared_partition durable_rewritten context_window_exceeded : ProjectError
  refused invalid_summary : CompactionError → ProjectError

-- A transform may set either of the two partitions to nil.
abbrev pub Transform : Type 0
Transform =
    List Message × List Message
    → Result ProjectError (Option (List Message) × Option (List Message))

pub record Policy (T : Type 0) : Type 0 where
  pub context_error : Option String
  pub transforms : List Transform
  pub compactor : Option (List Message → Result ProjectError Message)
  pub context_window_tokens : ℕ
  pub trigger_percent : ℕ
  pub target_percent : ℕ
  pub recent_messages : ℕ
  pub message_overhead : ℕ
  pub part_overhead : ℕ
  pub tool_overhead : ℕ
  pub tools : List T
  pub count_message : Message → Result ProjectError ℕ
  pub count_tool : T → Result ProjectError ℕ
  pub marshal : List Message → Option String
  pub compactions_equal : Option Compaction → Option Compaction → Bool
  pub prefix_hash : List Message → String

pub record Projection : Type 0 where
  pub messages : List Message
  pub durable_additions : List Message
  pub compaction : Option Compaction
  pub compaction_changed : Bool

abbrev pub or_refused {ℓ} : {A : Type ℓ} → Result CompactionError A → Result ProjectError A
or_refused (ok a) = ok a
or_refused (err e) = err (refused e)

module _ {T : Type 0} (p : Policy T) where
  unfoldable pub message_total : ℕ → List Message → Result ProjectError ℕ
  message_total total [] = ok total
  message_total total (message ∷ messages) = p.count_message message >>= λ count.
      message_total
        (total + (count + p.message_overhead + length message.content * p.part_overhead)) messages

  unfoldable pub tool_total : ℕ → List T → Result ProjectError ℕ
  tool_total total [] = ok total
  tool_total total (tool ∷ tools) =
      p.count_tool tool >>= λ count. tool_total (total + (count + p.tool_overhead)) tools

  -- `Estimate`.
  unfoldable pub estimate : List Message → Result ProjectError ℕ
  estimate messages = message_total 0 messages >>= λ total. tool_total total p.tools

  abbrev pub trigger : ℕ
  trigger = p.context_window_tokens * p.trigger_percent / 100

  abbrev pub target : ℕ
  target = p.context_window_tokens * p.target_percent / 100

  -- `messagesEqual`.
  abbrev pub same_json : Option String → Option String → Bool
  same_json (some left) (some right) = left == right
  same_json _ _ = false

  unfoldable pub messages_equal : List Message → List Message → Bool
  messages_equal left right =
      if not (nat_eq (length left) (length right))
      then false
      else if is_empty left
      then true
      else same_json (p.marshal left) (p.marshal right)

  -- The two calls of `validateContextTail`.
  abbrev pub check_tails :
      List Message → List Message → List Message → Result ProjectError (List Message × List Message)
  check_tails added durable ephemeral = elim (validate_context_tail added) [
    | some e ↦ err (refused e)
    | none ↦ elim (validate_context_tail ephemeral) [
      | some e ↦ err (refused e)
      | none ↦ ok (durable, ephemeral)
    ]
  ]

  -- The checks on what a transform has made of the partitions.
  unfoldable pub check_partitions :
      List Message
      → Option (List Message) × Option (List Message)
      → Result ProjectError (List Message × List Message)
  check_partitions before (none, ephemeral) = err cleared_partition
  check_partitions before (some durable, none) = err cleared_partition
  check_partitions before (some durable, some ephemeral) =
      if ltb (length durable) (length before)
        || not (messages_equal (take (length before) durable) before)
      then err durable_rewritten
      else check_tails (drop (length before) durable) durable ephemeral

  unfoldable pub run_transforms :
      List Transform
      → List Message × List Message
      → Result ProjectError (List Message × List Message)
  run_transforms [] (durable, ephemeral) = ok (durable, ephemeral)
  run_transforms (transform ∷ transforms) (durable, ephemeral) =
      transform (durable, ephemeral) >>= λ after.
      check_partitions durable after >>= λ next. run_transforms transforms next

  -- The persisted recipe, applied again.
  unfoldable pub current_view :
      Option Compaction → List Message → Result ProjectError (List Message)
  current_view none view = ok view
  current_view (some c) view = or_refused (apply p.prefix_hash view c)

  -- The compacted view, unless it is above the target.
  abbrev pub within_target :
      Option Compaction
      → Compaction
      → List Message
      → List Message
      → ℕ
      → Result ProjectError Projection
  within_target current next additions compacted total =
      if ltb target total
      then err context_window_exceeded
      else ok (record {
        messages = compacted;
        durable_additions = additions;
        compaction = some next;
        compaction_changed = not (p.compactions_equal current (some next));
      })

  unfoldable pub fit :
      Option Compaction → Compaction → List Message → List Message → Result ProjectError Projection
  fit current next additions compacted =
      estimate compacted >>= within_target current next additions compacted

  -- A summary is checked, made into a recipe and applied.
  unfoldable pub use_summary :
      Option Compaction
      → List Message
      → List Message
      → List Message
      → ℕ × ℕ
      → Message
      → Result ProjectError Projection
  use_summary current additions durable ephemeral cut summary =
      elim (validate_context_tail (summary ∷ [])) [
        | some e ↦ err (invalid_summary e)
        | none ↦
            or_refused (
              apply p.prefix_hash (durable ++ ephemeral) (recipe p.prefix_hash durable cut summary))
            >>= fit current (recipe p.prefix_hash durable cut summary) additions
      ]

  unfoldable pub compact :
      (List Message → Result ProjectError Message)
      → Option Compaction
      → List Message
      → List Message
      → List Message
      → Option (ℕ × ℕ)
      → Result ProjectError Projection
  compact summarize current additions durable ephemeral none = err context_window_exceeded
  compact summarize current additions durable ephemeral (some (first, cut)) =
      summarize (segment first cut durable)
      >>= use_summary current additions durable ephemeral (first, cut)

  abbrev pub unchanged : Option Compaction → List Message → List Message → Projection
  unchanged current additions view = record {
    messages = view;
    durable_additions = additions;
    compaction = current;
    compaction_changed = false;
  }

  abbrev pub compact_above :
      (List Message → Result ProjectError Message)
      → Option Compaction
      → List Message
      → List Message
      → List Message
      → List Message
      → ℕ
      → Result ProjectError Projection
  compact_above summarize current additions durable ephemeral view total =
      if ltb total trigger
      then ok (unchanged current additions view)
      else (or_refused (compaction_cut durable p.recent_messages)
          >>= compact summarize current additions durable ephemeral)

  -- From the view on: nothing to compact with, small enough, or compacted.
  unfoldable pub shrink :
      Option (List Message → Result ProjectError Message)
      → Option Compaction
      → List Message
      → List Message
      → List Message
      → List Message
      → Result ProjectError Projection
  shrink none current additions durable ephemeral view = ok (unchanged current additions view)
  shrink (some summarize) current additions durable ephemeral view =
      if nat_eq p.context_window_tokens 0
      then ok (unchanged current additions view)
      else (estimate view >>= compact_above summarize current additions durable ephemeral view)

  abbrev pub project_from :
      List Message
      → Option Compaction
      → List Message × List Message
      → Result ProjectError Projection
  project_from messages current (durable, ephemeral) =
      current_view current (durable ++ ephemeral)
      >>= shrink p.compactor current (drop (length messages) durable) durable ephemeral

  -- `Project`.
  unfoldable pub project : List Message → Option Compaction → Result ProjectError Projection
  project messages current = elim p.context_error [
    | some e ↦ err (failed e)
    | none ↦ run_transforms p.transforms (messages, []) >>= project_from messages current
  ]
