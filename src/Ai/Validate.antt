-- ===== src/Ai/Validate.antt =====
-- The `Validate` methods of internal/agent/ai/content.go and message.go.
use oops.Prelude.{
  List, [], ◌∷◌, Bool, true, false, not, ◌&&◌, Result, ok, err, ◌>>◌, fail_if, str_eq,
}
use oops.Ai.Types.{
  Stdlib, Content, ContentType, TextContent, ThinkingContent, ImageContent, ToolCallContent,
  MessageRole, StopReason, UserMessage, AssistantMessage, ToolResultMessage, AgentMessage,
}

pub data Error : Type 0 where
  content_type : Error
  image_requires_data : Error
  tool_call_requires_id tool_call_requires_name tool_call_requires_arguments : Error
  arguments_not_json arguments_not_object : Error
  nil_content : Error
  message_role unknown_stop_reason : Error
  requires_tool_call_id requires_tool_name : Error
  nil_message : Error

-- `c.Type != "" && c.Type != want`, for each constant
abbrev wrong_text : ContentType → Bool
wrong_text ContentType.text = false
wrong_text ContentType.unset = false
wrong_text _ = true

abbrev wrong_thinking : ContentType → Bool
wrong_thinking ContentType.thinking = false
wrong_thinking ContentType.unset = false
wrong_thinking _ = true

abbrev wrong_image : ContentType → Bool
wrong_image ContentType.image = false
wrong_image ContentType.unset = false
wrong_image _ = true

abbrev wrong_tool_call : ContentType → Bool
wrong_tool_call ContentType.tool_call = false
wrong_tool_call ContentType.unset = false
wrong_tool_call _ = true

abbrev wrong_user_role : MessageRole → Bool
wrong_user_role MessageRole.user = false
wrong_user_role MessageRole.unset = false
wrong_user_role _ = true

abbrev wrong_assistant_role : MessageRole → Bool
wrong_assistant_role MessageRole.assistant = false
wrong_assistant_role MessageRole.unset = false
wrong_assistant_role _ = true

abbrev wrong_tool_result_role : MessageRole → Bool
wrong_tool_result_role MessageRole.tool_result = false
wrong_tool_result_role MessageRole.unset = false
wrong_tool_result_role _ = true

abbrev pub is_stop_reason : StopReason → Bool
is_stop_reason (StopReason.other s) = false
is_stop_reason _ = true

module _ (std : Stdlib) where
  validate_text : TextContent → Result Error (Unit {0})
  validate_text c = fail_if (wrong_text c.type) content_type

  validate_thinking : ThinkingContent → Result Error (Unit {0})
  validate_thinking c = fail_if (wrong_thinking c.type) content_type

  validate_image : ImageContent → Result Error (Unit {0})
  validate_image c = do
    fail_if (wrong_image c.type) content_type
    fail_if (str_eq c.data_base64 "" && str_eq c.url "") image_requires_data

  validate_tool_call : ToolCallContent → Result Error (Unit {0})
  validate_tool_call c = do
    fail_if (wrong_tool_call c.type) content_type
    fail_if (str_eq c.id "") tool_call_requires_id
    fail_if (str_eq c.name "") tool_call_requires_name
    fail_if (str_eq c.arguments "") tool_call_requires_arguments
    fail_if (not (std.json_valid c.arguments)) arguments_not_json
    fail_if (not (std.is_json_object c.arguments)) arguments_not_object

  validate_content : Content → Result Error (Unit {0})
  unfolding validate_text validate_thinking validate_image validate_tool_call
  validate_content (Content.text c) = validate_text c
  validate_content (Content.thinking c) = validate_thinking c
  validate_content (Content.image c) = validate_image c
  validate_content (Content.tool_call c) = validate_tool_call c
  validate_content Content.nil = err nil_content

  -- The test of a nil item comes first, then the item's own `Validate`.
  unfoldable pub validate_content_list : List Content → Result Error (Unit {0})
  unfolding validate_content
  validate_content_list [] = ok tt
  validate_content_list (item ∷ rest) = do validate_content item; validate_content_list rest

  validate_user : UserMessage → Result Error (Unit {0})
  validate_user m = do
    fail_if (wrong_user_role m.role) message_role
    validate_content_list m.content

  validate_assistant : AssistantMessage → Result Error (Unit {0})
  validate_assistant m = do
    fail_if (wrong_assistant_role m.role) message_role
    fail_if (not (is_stop_reason m.stop_reason)) unknown_stop_reason
    validate_content_list m.content

  validate_tool_result : ToolResultMessage → Result Error (Unit {0})
  validate_tool_result m = do
    fail_if (wrong_tool_result_role m.role) message_role
    fail_if (str_eq m.tool_call_id "") requires_tool_call_id
    fail_if (str_eq m.tool_name "") requires_tool_name
    validate_content_list m.content

  -- `message.Validate()`; the callers test for nil first.
  unfoldable pub validate_message : AgentMessage → Result Error (Unit {0})
  unfolding validate_user validate_assistant validate_tool_result validate_content_list
  validate_message (AgentMessage.user m) = validate_user m
  validate_message (AgentMessage.assistant m) = validate_assistant m
  validate_message (AgentMessage.tool_result m) = validate_tool_result m
  validate_message AgentMessage.nil = err nil_message
