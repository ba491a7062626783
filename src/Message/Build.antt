-- ===== src/Message/Build.antt =====
-- The constructors of messages in internal/core/message.go, and what the accessors read back.
use agentic.Prelude.{String, List, [], ◌∷◌, none, some, Bool, map, ◌≡◌, refl, ap}
use agentic.Message.{
  Message, Part, ToolUse, ToolResult, MessageRole, assistant, tool, ContentType, content_text,
  content_tool_use, content_tool_result,
}
use agentic.Message.Parts.{tool_uses, tool_results}

-- A `Part` literal with every field but the type left at its zero value.
abbrev pub empty_part : ContentType → Part
empty_part kind = record {
  content_type = kind;
  text = "";
  image_url = none;
  tool_use = none;
  tool_result = none;
  thinking = none;
  image_data = none;
  audio_url = none;
  video_url = none;
  document_url = none;
  cache_point = none;
  uploaded_file = none;
}

abbrev pub new_text_message : MessageRole → String → Message
new_text_message role text = record {
  role = role;
  content = record (empty_part content_text) { text = text } ∷ [];
}

abbrev pub tool_use_part : ToolUse → Part
tool_use_part use_ = record (empty_part content_tool_use) { tool_use = some use_ }

abbrev pub new_tool_use_message : List ToolUse → Message
new_tool_use_message uses = record { role = assistant; content = map tool_use_part uses }

abbrev pub tool_result_part : ToolResult → Part
tool_result_part result = record (empty_part content_tool_result) { tool_result = some result }

abbrev pub new_tool_result_message_for : String → String → String → Bool → Message
new_tool_result_message_for id name content is_error = record {
  role = tool;
  content =
      tool_result_part
        (record { tool_use_id = id; name = name; content = content; is_error = is_error })
      ∷ [];
}

abbrev pub new_tool_result_message : String → String → Bool → Message
new_tool_result_message id content is_error = new_tool_result_message_for id "" content is_error

-- The tool uses of a tool-use message are read back as given, and it holds no results.
pub tool_uses-tool_use_part : (uses : List ToolUse) → tool_uses (map tool_use_part uses) ≡ uses
unfolding tool_uses
tool_uses-tool_use_part [] = refl
tool_uses-tool_use_part (use_ ∷ uses) = ap (◌∷◌ use_) (tool_uses-tool_use_part uses)

pub tool_results-tool_use_part : (uses : List ToolUse) → tool_results (map tool_use_part uses) ≡ []
unfolding tool_results
tool_results-tool_use_part [] = refl
tool_results-tool_use_part (use_ ∷ uses) = tool_results-tool_use_part uses
