-- ===== src/Message.antt =====
-- The message data model of internal/core/message.go.
-- A pointer field is an `Option`; a Go string type with constants is a data type with one more
-- constructor for the other strings. A JSON-shaped Go value (`map[string]interface{}`) is `Json`.
pub mod Parts
pub mod Build
use agentic.Prelude.{String, List, Option, Bool}

-- Numbers keep the text that they are written with: nothing here computes with them.
mutual
  pub data Json : Type 0 where
    null : Json
    boolean : Bool → Json
    number : String → Json
    text : String → Json
    array : Items → Json
    object : Fields → Json

  pub data Items : Type 0 where
    nil : Items
    cons : Json → Items → Items

  pub data Fields : Type 0 where
    end : Fields
    field : String → Json → Fields → Fields

pub data MessageRole : Type 0 where
  system user assistant tool : MessageRole
  other_role : String → MessageRole

pub data ContentType : Type 0 where
  content_text content_image_url content_tool_use content_tool_result : ContentType
  content_thinking content_image_data content_audio_url content_video_url : ContentType
  content_document_url content_cache_point content_uploaded_file : ContentType
  other_content : String → ContentType

pub record ImageUrl : Type 0 where
  pub url : String
  pub detail : String
  pub media_type : String

pub record ThinkingBlock : Type 0 where
  pub text : String
  pub id : String
  pub signature : String
  pub provider_name : String
  pub provider_details : Option Fields

pub record ImageData : Type 0 where
  pub bytes : String
  pub media_type : String
  pub vendor_metadata : Option Fields

pub record AudioUrl : Type 0 where
  pub url : String
  pub format : String
  pub vendor_metadata : Option Fields

pub record VideoUrl : Type 0 where
  pub url : String
  pub media_type : String
  pub vendor_metadata : Option Fields

pub record DocumentUrl : Type 0 where
  pub url : String
  pub media_type : String
  pub vendor_metadata : Option Fields

pub record CachePoint : Type 0 where
  pub ttl : String

pub record UploadedFile : Type 0 where
  pub file_id : String
  pub provider_name : String
  pub vendor_metadata : Option Fields

pub record ToolUse : Type 0 where
  pub id : String
  pub name : String
  pub input : Option Fields

pub record ToolResult : Type 0 where
  pub tool_use_id : String
  pub name : String
  pub content : String
  pub is_error : Bool

pub record Part : Type 0 where
  pub content_type : ContentType
  pub text : String
  pub image_url : Option ImageUrl
  pub tool_use : Option ToolUse
  pub tool_result : Option ToolResult
  pub thinking : Option ThinkingBlock
  pub image_data : Option ImageData
  pub audio_url : Option AudioUrl
  pub video_url : Option VideoUrl
  pub document_url : Option DocumentUrl
  pub cache_point : Option CachePoint
  pub uploaded_file : Option UploadedFile

pub record Message : Type 0 where
  pub role : MessageRole
  pub content : List Part

-- The comparison `message.Role == RoleX` with each of the constants.
abbrev pub is_system : MessageRole → Bool
is_system system = Bool.true
is_system _ = Bool.false

abbrev pub is_user : MessageRole → Bool
is_user user = Bool.true
is_user _ = Bool.false

abbrev pub is_assistant : MessageRole → Bool
is_assistant assistant = Bool.true
is_assistant _ = Bool.false

abbrev pub is_tool : MessageRole → Bool
is_tool tool = Bool.true
is_tool _ = Bool.false
