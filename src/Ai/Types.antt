-- ===== src/Ai/Types.antt =====
-- internal/agent/ai/types.go, and the type switches of message.go and content.go.
-- An interface value is a data type with a constructor for each implementation and one for nil. A
-- pointer to a message or content (`*UserMessage`) is read as the value that it points to, as every
-- type switch of the code does; a nil pointer inside a non-nil interface is left out.
-- A string-typed constant is a constructor, and `other` is any string that is no constant.
-- The usage cost, which is made of floats, and tool definitions are left out.
use Prim.Native.String.{◌++◌}
use oops.Prelude.{ℕ, String, Option, none, some, List, [], ◌∷◌, Bool, true, false}

-- What the modelled code calls of Go's standard library.
pub record Stdlib : Type 0 where
  -- json.Valid, and the test of aiutils.IsJSONObject
  pub json_valid : String → Bool
  pub is_json_object : String → Bool
  -- strings.TrimSpace
  pub trim_space : String → String
  -- time.Time.UnixMilli, of an instant in nanoseconds since the zero time
  pub unix_milli : ℕ → ℕ

pub data ContentType : Type 0 where
  text thinking image tool_call unset : ContentType
  other : String → ContentType

pub record TextContent : Type 0 where
  pub type : ContentType
  pub text : String
  pub text_signature : String

pub record ThinkingContent : Type 0 where
  pub type : ContentType
  pub thinking : String
  pub thinking_signature : String
  pub redacted : Bool

pub record ImageContent : Type 0 where
  pub type : ContentType
  pub data_base64 : String
  pub mime_type : String
  pub url : String
  pub detail : String

pub record ToolCallContent : Type 0 where
  pub type : ContentType
  pub id : String
  pub name : String
  pub arguments : String
  pub thought_signature : String

pub data Content : Type 0 where
  text : TextContent → Content
  thinking : ThinkingContent → Content
  image : ImageContent → Content
  tool_call : ToolCallContent → Content
  nil : Content

pub data MessageRole : Type 0 where
  user assistant tool_result unset : MessageRole
  other : String → MessageRole

pub data StopReason : Type 0 where
  stop length tool_use error aborted : StopReason
  other : String → StopReason

pub record Usage : Type 0 where
  pub input : ℕ
  pub output : ℕ
  pub cache_read : ℕ
  pub cache_write : ℕ
  pub total_tokens : ℕ

pub record UserMessage : Type 0 where
  pub role : MessageRole
  pub content : List Content
  pub timestamp : ℕ

pub record AssistantMessage : Type 0 where
  pub role : MessageRole
  pub content : List Content
  pub provider : String
  pub model : String
  pub response_model : String
  pub response_id : String
  pub usage : Usage
  pub stop_reason : StopReason
  pub error_message : String
  pub timestamp : ℕ

pub record ToolResultMessage : Type 0 where
  pub role : MessageRole
  pub tool_call_id : String
  pub tool_name : String
  pub content : List Content
  pub details : Option String
  pub is_error : Bool
  pub timestamp : ℕ

pub data AgentMessage : Type 0 where
  user : UserMessage → AgentMessage
  assistant : AssistantMessage → AgentMessage
  tool_result : ToolResultMessage → AgentMessage
  nil : AgentMessage

abbrev pub MessageList : Type 0
MessageList = List AgentMessage

abbrev pub as_user_message : AgentMessage → Option UserMessage
as_user_message (AgentMessage.user m) = some m
as_user_message _ = none

abbrev pub as_assistant_message : AgentMessage → Option AssistantMessage
as_assistant_message (AgentMessage.assistant m) = some m
as_assistant_message _ = none

abbrev pub as_tool_result_message : AgentMessage → Option ToolResultMessage
as_tool_result_message (AgentMessage.tool_result m) = some m
as_tool_result_message _ = none

abbrev pub is_nil : AgentMessage → Bool
is_nil AgentMessage.nil = true
is_nil _ = false

-- `message.MessageRole() == RoleUser` of a message that is not nil
abbrev pub message_role : AgentMessage → MessageRole
message_role (AgentMessage.user m) = MessageRole.user
message_role (AgentMessage.assistant m) = MessageRole.assistant
message_role (AgentMessage.tool_result m) = MessageRole.tool_result
message_role AgentMessage.nil = MessageRole.unset

abbrev pub is_user_role : AgentMessage → Bool
is_user_role (AgentMessage.user m) = true
is_user_role _ = false

abbrev pub as_tool_call : Content → Option ToolCallContent
as_tool_call (Content.tool_call c) = some c
as_tool_call _ = none

pub tool_calls : List Content → List ToolCallContent
tool_calls [] = []
tool_calls (Content.tool_call c ∷ rest) = c ∷ tool_calls rest
tool_calls (_ ∷ rest) = tool_calls rest

unfoldable pub tool_calls_from_assistant : AssistantMessage → List ToolCallContent
unfolding tool_calls
tool_calls_from_assistant message = tool_calls message.content

unfoldable pub text_from_content : List Content → String
text_from_content [] = ""
text_from_content (Content.text c ∷ rest) = c.text ++ text_from_content rest
text_from_content (_ ∷ rest) = text_from_content rest

abbrev pub new_text_content : String → TextContent
new_text_content t = record { type = ContentType.text; text = t; text_signature = "" }
