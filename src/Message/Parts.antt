-- ===== src/Message/Parts.antt =====
-- The accessors of a message: `GetTextContent`, `GetToolUses`, `GetToolResults`,
-- `GetThinkingContent` and `IsRedacted` of internal/core/message.go.
use Prim.Native.String.{◌++◌ as append}
use agentic.Prelude.{String, List, [], ◌∷◌, Option, none, some, Bool, ◌==◌}
use agentic.Message.{
  Message, Part, ToolUse, ToolResult, ThinkingBlock, ContentType, content_text, content_tool_use,
  content_tool_result, content_thinking,
}

-- One part's text, if its type says text.
abbrev pub part_text : ContentType → Part → Option String
part_text content_text part = some part.text
part_text _ part = none

abbrev pub part_tool_use : ContentType → Part → Option ToolUse
part_tool_use content_tool_use part = part.tool_use
part_tool_use _ part = none

abbrev pub part_tool_result : ContentType → Part → Option ToolResult
part_tool_result content_tool_result part = part.tool_result
part_tool_result _ part = none

abbrev pub part_thinking : ContentType → Part → Option ThinkingBlock
part_thinking content_thinking part = part.thinking
part_thinking _ part = none

abbrev pub append_present : String → Option String → String
append_present text none = text
append_present text (some more) = append text more

abbrev pub cons_present {ℓ} : {A : Type ℓ} → Option A → List A → List A
cons_present none rest = rest
cons_present (some a) rest = a ∷ rest

-- The loop of `GetTextContent` with its accumulator.
unfoldable pub text_loop : String → List Part → String
text_loop text [] = text
text_loop text (part ∷ parts) =
    text_loop (append_present text (part_text part.content_type part)) parts

unfoldable pub get_text_content : Message → String
unfolding text_loop
get_text_content m = text_loop "" m.content

-- The loops of `GetToolUses` and `GetToolResults`, over the parts.
unfoldable pub tool_uses : List Part → List ToolUse
tool_uses [] = []
tool_uses (part ∷ parts) = cons_present (part_tool_use part.content_type part) (tool_uses parts)

unfoldable pub tool_results : List Part → List ToolResult
tool_results [] = []
tool_results (part ∷ parts) =
    cons_present (part_tool_result part.content_type part) (tool_results parts)

abbrev pub get_tool_uses : Message → List ToolUse
get_tool_uses m = tool_uses m.content

abbrev pub get_tool_results : Message → List ToolResult
get_tool_results m = tool_results m.content

abbrev pub thinking_text : Option ThinkingBlock → Option String
thinking_text none = none
thinking_text (some block) = some block.text

unfoldable pub thinking_loop : String → List Part → String
thinking_loop text [] = text
thinking_loop text (part ∷ parts) =
    thinking_loop (append_present text (thinking_text (part_thinking part.content_type part))) parts

unfoldable pub get_thinking_content : Message → String
unfolding thinking_loop
get_thinking_content m = thinking_loop "" m.content

unfoldable pub is_redacted : ThinkingBlock → Bool
is_redacted block = block.id == "redacted_thinking"
