-- ===== src/Policy.antt =====
-- crates/capture-policy/src/lib.rs: the data of a capture policy and its errors. The modules below
-- hold the functions and their theorems.
pub mod Names
pub mod Hosts
pub mod Rules
pub mod Attribution
pub mod Scrub
pub mod Sanitize
use code_is_cheap.Common.{ℕ, List, [], ◌∷◌}
use code_is_cheap.Text.{Text, text}
use code_is_cheap.Capture.{CaptureEnvelope, client_label_header}

abbrev pub capture_policy_version : Text
capture_policy_version = text "0.1"

abbrev pub max_additional_target_hosts : ℕ
max_additional_target_hosts = 16

pub record CaptureTarget : Type 0 where
  pub id : Text
  pub hosts : List Text
  pub methods : List Text
  pub paths : List Text

pub record UserAgentRule : Type 0 where
  pub application : Text
  pub patterns : List Text

pub record AttributionPolicy : Type 0 where
  pub client_label_header : Text
  pub max_label_bytes : ℕ
  pub user_agents : List UserAgentRule
  pub gateway_fallback : Text
  pub proxy_fallback : Text

pub record CapturePolicy : Type 0 where
  pub version : Text
  pub targets : List CaptureTarget
  pub sensitive_names : List Text
  pub attribution : AttributionPolicy

pub record SanitizedCapture : Type 0 where
  pub envelope : CaptureEnvelope
  pub target_id : Text
  pub newly_redacted : ℕ

pub data PolicyError : Type 0 where
  invalid_json : Text → PolicyError
  unsupported_version : Text → PolicyError
  empty_targets : PolicyError
  invalid_target : Text → PolicyError
  duplicate_target : Text → PolicyError
  invalid_sensitive_name : Text → PolicyError
  duplicate_sensitive_name : Text → PolicyError
  too_many_additional_hosts : PolicyError
  invalid_additional_host : Text → PolicyError
  duplicate_additional_host : Text → PolicyError
  invalid_attribution : Text → PolicyError
  out_of_scope : PolicyError

abbrev user_agent_rule : Text → List Text → UserAgentRule
user_agent_rule application patterns = record { application = application; patterns = patterns }

-- `AttributionPolicy::default`.
abbrev pub default_attribution : AttributionPolicy
default_attribution = record {
  client_label_header = client_label_header;
  max_label_bytes = 64;
  user_agents =
      user_agent_rule (text "Cursor") (text "cursor/" ∷ text "cursor " ∷ [])
      ∷ user_agent_rule (text "VS Code") (text "vscode/" ∷ text "visual studio code" ∷ [])
      ∷ user_agent_rule (text "Claude Code") (text "claude-code" ∷ text "claude code" ∷ [])
      ∷ user_agent_rule (text "Codex CLI")
          (text "codex-cli" ∷ text "openai-codex" ∷ text "codex/" ∷ [])
      ∷ user_agent_rule (text "JetBrains")
          (text "jetbrains" ∷ text "intellij" ∷ text "pycharm" ∷ text "webstorm" ∷ [])
      ∷ user_agent_rule (text "Microsoft Edge") (text "edg/" ∷ [])
      ∷ user_agent_rule (text "Google Chrome") (text "chrome/" ∷ [])
      ∷ user_agent_rule (text "Mozilla Firefox") (text "firefox/" ∷ [])
      ∷ user_agent_rule (text "Apple Safari") (text "safari/" ∷ [])
      ∷ user_agent_rule (text "curl") (text "curl/" ∷ [])
      ∷ user_agent_rule (text "Python") (text "python-requests/" ∷ text "aiohttp/" ∷ [])
      ∷ user_agent_rule (text "Node.js") (text "node-fetch" ∷ text "undici" ∷ [])
      ∷ [];
  gateway_fallback = text "Gateway client";
  proxy_fallback = text "Proxy client";
}
