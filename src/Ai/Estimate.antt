-- ===== src/Ai/Estimate.antt =====
-- internal/agent/ai/estimate.go and utils/estimate.go: the estimates of tokens. `byte_length` is Go's
-- `len` of a string.
use oops.Prelude.{
  ℕ, ◌+◌, ◌-◌, ◌/◌, ◌==◌, String, List, [], ◌∷◌, if◌then◌else◌, ltb, Bool, true, false,
}
use oops.Ai.Types.{Content, AgentMessage, MessageList, Usage, StopReason}

abbrev chars_per_token : ℕ
chars_per_token = 4

abbrev estimated_image_chars : ℕ
estimated_image_chars = 4800

unfoldable pub estimate_tokens_for_chars : ℕ → ℕ
estimate_tokens_for_chars chars =
    if chars == 0 then 0 else (chars + chars_per_token - 1) / chars_per_token

abbrev pub usage_context_tokens : Usage → ℕ
usage_context_tokens usage =
    if ltb 0 usage.total_tokens
    then usage.total_tokens
    else usage.input + usage.output + usage.cache_read + usage.cache_write

abbrev pub is_stopped : StopReason → Bool
is_stopped StopReason.error = true
is_stopped StopReason.aborted = true
is_stopped _ = false

module _ (byte_length : String → ℕ) where
  unfoldable pub estimate_text_tokens : String → ℕ
  estimate_text_tokens text = estimate_tokens_for_chars (byte_length text)

  abbrev pub content_chars : Content → ℕ
  content_chars (Content.text t) = byte_length t.text
  content_chars (Content.thinking t) = byte_length t.thinking
  content_chars (Content.image i) = estimated_image_chars
  content_chars (Content.tool_call t) = byte_length t.name + byte_length t.arguments
  content_chars Content.nil = 0

  abbrev pub all_chars : List Content → ℕ
  all_chars [] = 0
  all_chars (item ∷ rest) = content_chars item + all_chars rest

  abbrev pub estimate_content_tokens : List Content → ℕ
  estimate_content_tokens content = estimate_tokens_for_chars (all_chars content)

  unfoldable pub estimate_message_tokens : AgentMessage → ℕ
  estimate_message_tokens AgentMessage.nil = 0
  estimate_message_tokens (AgentMessage.user m) = estimate_content_tokens m.content
  estimate_message_tokens (AgentMessage.assistant m) = estimate_content_tokens m.content
  estimate_message_tokens (AgentMessage.tool_result m) = estimate_content_tokens m.content

  unfoldable pub estimate_messages : MessageList → ℕ
  estimate_messages [] = 0
  estimate_messages (m ∷ rest) = estimate_message_tokens m + estimate_messages rest
