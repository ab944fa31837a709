-- ===== src/Compaction/Usage.antt =====
-- internal/agent/runtime/compaction/compaction.go: settings, the size of a context, and the limits on
-- it. Token counts are natural numbers; a reserve above the window gives a negative bound, which every
-- count exceeds.
use oops.Prelude.{
  ℕ, suc, ◌+◌, String, Option, none, some, [], ◌∷◌, Bool, true, false, not, ◌&&◌, ◌||◌, drop, ltb,
  if◌then◌else◌,
}
use oops.Ai.Types.{MessageList, as_assistant_message, AssistantMessage}
use oops.Ai.Estimate.{usage_context_tokens, is_stopped, estimate_messages}

pub record Settings : Type 0 where
  pub enabled : Bool
  pub reserve_tokens : ℕ
  pub keep_recent_tokens : ℕ

abbrev pub default_settings : Settings
default_settings = record { enabled = true; reserve_tokens = 16384; keep_recent_tokens = 20000 }

pub record ContextUsageEstimate : Type 0 where
  pub tokens : ℕ
  pub usage_tokens : ℕ
  pub trailing_tokens : ℕ
  pub last_usage_index : Option ℕ
  pub has_usage : Bool

-- The usage that a message reports, if it counts.
abbrev pub reported_by : Option AssistantMessage → Option ℕ
reported_by none = none
reported_by (some m) =
    if is_stopped m.stop_reason || not (ltb 0 (usage_context_tokens m.usage))
    then none
    else some (usage_context_tokens m.usage)

-- The last message that reports a usage, and that usage.
unfoldable pub latest_usage : MessageList → Option (ℕ × ℕ)
latest_usage [] = none
latest_usage (m ∷ rest) = elim (latest_usage rest) [
  | some (index, usage) ↦ some (suc index, usage)
  | none ↦ elim (reported_by (as_assistant_message m)) [
    | none ↦ none
    | some usage ↦ some (0, usage)
  ]
]

module _ (byte_length : String → ℕ) where
  unfoldable pub estimate_context_tokens : MessageList → ContextUsageEstimate
  estimate_context_tokens messages = elim (latest_usage messages) [
    | some (index, usage) ↦
        let trailing = estimate_messages byte_length (drop (suc index) messages) in
        record {
          tokens = usage + trailing;
          usage_tokens = usage;
          trailing_tokens = trailing;
          last_usage_index = some index;
          has_usage = true;
        }
    | none ↦
        let estimated = estimate_messages byte_length messages in
        record {
          tokens = estimated;
          usage_tokens = 0;
          trailing_tokens = estimated;
          last_usage_index = none;
          has_usage = false;
        }
  ]

-- `contextTokens > contextWindow-settings.ReserveTokens`, with the reserve brought to the left.
unfoldable pub should_compact : ℕ → ℕ → Settings → Bool
should_compact tokens window settings =
    settings.enabled && ltb window (tokens + settings.reserve_tokens)

unfoldable pub output_limit : ℕ → ℕ → ℕ
output_limit requested model_limit =
    if ltb 0 model_limit && ltb model_limit requested then model_limit else requested
