-- ===== src/Agents/Tools.antt =====
-- The tools that agents may call (packages/ai/src/policy.ts) and the gateway that calls them
-- (packages/ai/src/tools.ts). The redaction of secrets, the hash and the JSON text of a value are
-- parameters. A handler is a function on the outside world that returns a value or throws; what it
-- throws has a message or none. Durations are left out.
pub mod Policies
pub mod Gateways
use coder_er.Base.{
  ℕ, ◌*◌, Bool, true, false, not, ◌&&◌, ◌||◌, Option, none, some, List, [], ◌∷◌, ◌++◌, map, all,
  length, leb, ltb, take, contains, Text, codes, lower, includes_text, ◌==◌, nat_equality,
  list_equality, Result, ok, err, throw_if, if◌then◌else◌,
}
use coder_er.Security.Requests.{trim}
use coder_er.Agents.Citations.{Fraction}

pub data InvestigationAgentKind : Type 0 where
  triage repository_mapper root_cause_investigator contract_analyst security_reviewer plan_composer
        independent_critic :
      InvestigationAgentKind

abbrev pub agent_name : InvestigationAgentKind → Text
agent_name triage = codes "TRIAGE"
agent_name repository_mapper = codes "REPOSITORY_MAPPER"
agent_name root_cause_investigator = codes "ROOT_CAUSE_INVESTIGATOR"
agent_name contract_analyst = codes "CONTRACT_ANALYST"
agent_name security_reviewer = codes "SECURITY_REVIEWER"
agent_name plan_composer = codes "PLAN_COMPOSER"
agent_name independent_critic = codes "INDEPENDENT_CRITIC"

abbrev pub agent_kinds : List InvestigationAgentKind
agent_kinds =
    triage ∷ repository_mapper ∷ root_cause_investigator ∷ contract_analyst ∷ security_reviewer
    ∷ plan_composer ∷ independent_critic ∷ []

unfoldable pub agent_tool_allowlist : InvestigationAgentKind → List Text
agent_tool_allowlist triage =
    codes "incident.get_evidence"
    ∷ codes "incident.get_timeline"
    ∷ codes "reproduction.get_result"
    ∷ []
agent_tool_allowlist repository_mapper =
    codes "repository.get_manifest"
    ∷ codes "repository.list_tree"
    ∷ codes "repository.search_text"
    ∷ codes "repository.get_config_summary"
    ∷ []
agent_tool_allowlist root_cause_investigator =
    codes "repository.read_file_range"
    ∷ codes "repository.search_text"
    ∷ codes "reproduction.get_result"
    ∷ codes "reproduction.get_log_chunks"
    ∷ codes "health.get_latest_snapshot"
    ∷ []
agent_tool_allowlist contract_analyst =
    codes "repository.read_file_range"
    ∷ codes "repository.search_text"
    ∷ codes "repository.get_dependency_graph"
    ∷ codes "repository.get_config_summary"
    ∷ []
agent_tool_allowlist security_reviewer =
    codes "repository.read_file_range"
    ∷ codes "repository.search_text"
    ∷ codes "incident.get_evidence"
    ∷ codes "reproduction.get_artifact_manifest"
    ∷ []
agent_tool_allowlist plan_composer =
    codes "repository.read_file_range" ∷ codes "health.get_latest_snapshot" ∷ []
agent_tool_allowlist independent_critic =
    codes "incident.get_evidence"
    ∷ codes "incident.get_timeline"
    ∷ codes "reproduction.get_result"
    ∷ codes "repository.read_file_range"
    ∷ []

pub data AiProvider : Type 0 where
  openai : AiProvider

pub record AiPolicy : Type 0 where
  pub provider : AiProvider
  pub allowed_models : List Text
  pub model_by_agent : InvestigationAgentKind → Text
  pub allowed_tools : List Text
  pub maximum_concurrent_investigations : ℕ
  pub maximum_model_invocations : ℕ
  pub maximum_tool_calls : ℕ
  pub maximum_input_tokens : ℕ
  pub maximum_output_tokens : ℕ
  pub maximum_cost_usd : Fraction
  pub timeout_ms : ℕ
  pub retention_days : ℕ
  pub require_human_approval : Bool
  pub require_independent_critic : Bool
  pub require_security_review : Bool
  pub store_provider_responses : Bool
  pub policy_version : Text

pub data PolicyError : Type 0 where
  no_model invalid_models : PolicyError

-- `new Set(…)`: of texts that are equal the first is kept.
abbrev pub first_of : List Text → List Text → List Text
first_of seen [] = []
first_of seen (t ∷ ts) =
    let known = first_of seen ts in
    let fresh = first_of (t ∷ seen) ts in if contains seen t then known else t ∷ fresh

abbrev pub all_tools : List InvestigationAgentKind → List Text
all_tools [] = []
all_tools (agent ∷ agents) = agent_tool_allowlist agent ++ all_tools agents

-- What the schema asks of the name of a model, once it is trimmed.
abbrev pub is_model_name : Text → Bool
is_model_name name = leb 1 (length name) && leb (length name) 128

unfoldable pub default_policy_of : Text → List Text → AiPolicy
default_policy_of primary models = record {
  provider = openai;
  allowed_models = map trim models;
  model_by_agent = λ agent. trim primary;
  allowed_tools = first_of [] (all_tools agent_kinds);
  maximum_concurrent_investigations = 4;
  maximum_model_invocations = 20;
  maximum_tool_calls = 100;
  maximum_input_tokens = 200000;
  maximum_output_tokens = 30000;
  maximum_cost_usd = record { numerator = 25; denominator = 1 };
  timeout_ms = 45 * 60 * 1000;
  retention_days = 30;
  require_human_approval = true;
  require_independent_critic = true;
  require_security_review = true;
  store_provider_responses = false;
  policy_version = codes "codeer-ai-policy-v1";
}

unfoldable pub default_ai_policy : List Text → Result PolicyError AiPolicy
default_ai_policy [] = err no_model
default_ai_policy ([] ∷ models) = err no_model
default_ai_policy ((c ∷ primary) ∷ models) =
    if all is_model_name (map trim ((c ∷ primary) ∷ models)) && leb (length models) 19
    then ok (default_policy_of (c ∷ primary) ((c ∷ primary) ∷ models))
    else err invalid_models

abbrev pub not_authorized : Text → InvestigationAgentKind → Text
not_authorized subject agent =
    subject ++ (codes " is not authorized for " ++ (agent_name agent ++ codes "."))

unfoldable pub assert_agent_tool_allowed :
    AiPolicy → InvestigationAgentKind → Text → Result Text (Unit {0})
assert_agent_tool_allowed policy agent tool_name =
    throw_if
      (not (contains policy.allowed_tools tool_name)
        || not (contains (agent_tool_allowlist agent) tool_name))
      (not_authorized (codes "Tool " ++ tool_name) agent)

unfoldable pub assert_model_allowed :
    AiPolicy → InvestigationAgentKind → Text → Result Text (Unit {0})
assert_model_allowed policy agent model =
    throw_if
      (not (contains policy.allowed_models model) || not (policy.model_by_agent agent == model))
      (not_authorized (codes "Model " ++ model) agent)

pub record ToolCallContext : Type 0 where
  pub organization_id : Text
  pub incident_id : Text
  pub investigation_id : Text
  pub agent_kind : InvestigationAgentKind
  pub correlation_id : Text
  pub lease_owner : Text

pub data ToolCallStatus : Type 0 where
  requested authorized completed denied failed : ToolCallStatus

pub record ToolCallAudit : Type 0 where
  pub id : Text
  pub tool_name : Text
  pub status : ToolCallStatus
  pub input_hash : Text
  pub output_hash : Option Text
  pub denied_reason : Option Text

pub record ToolFailure : Type 0 where
  pub message : Text
  pub audit : ToolCallAudit

pub data RegisterError : Type 0 where
  invalid_tool_name already_registered : Text → RegisterError

abbrev pub is_tool_code : ℕ → Bool
is_tool_code c = leb 97 c && leb c 122 || leb 48 c && leb c 57 || c == 95 || c == 46 || c == 45

-- `/^[a-z][a-z0-9_.-]{2,127}$/`
abbrev pub is_tool_name : Text → Bool
is_tool_name [] = false
is_tool_name (c ∷ t) =
    leb 97 c && leb c 122 && all is_tool_code t && leb 2 (length t) && leb (length t) 127

pub record Platform (Json : Type 0) : Type 0 where
  pub redact_secrets : Json → Json
  pub to_json : Json → Text
  pub sha256_hex : Text → Text
  pub byte_length : Text → ℕ

abbrev pub Handler : Type 0 → Type 0 → Type 0
Handler W Json = ToolCallContext → Json → W → Result (Option Text) Json × W

pub record ToolOutput (Json : Type 0) : Type 0 where
  pub output : Json
  pub audit : ToolCallAudit

module _ {W Json : Type 0} where
  abbrev pub handler_of : List (Text × Handler W Json) → Text → Option (Handler W Json)
  handler_of [] name = none
  handler_of (entry ∷ handlers) name =
      let rest = handler_of handlers name in if entry.0 == name then some entry.1 else rest

  unfoldable pub register :
      List (Text × Handler W Json)
      → Text
      → Handler W Json
      → Result RegisterError (List (Text × Handler W Json))
  register handlers name handler =
      if not (is_tool_name name)
      then err (invalid_tool_name name)
      else elim (handler_of handlers name) [
        | some other ↦ err (already_registered name)
        | none ↦ ok (handlers ++ (name, handler) ∷ [])
      ]

-- `/not authorized|not registered|exceeded/i`
abbrev pub is_denial : Text → Bool
is_denial message =
    includes_text (lower message) (codes "not authorized")
    || includes_text (lower message) (codes "not registered")
    || includes_text (lower message) (codes "exceeded")

abbrev pub maximum_output_bytes : ℕ
maximum_output_bytes = 2 * 1024 * 1024

abbrev pub message_of : Option Text → Text
message_of none = codes "Tool call failed."
message_of (some message) = message

module _ {Json : Type 0} (p : Platform Json) where
  -- The output and its JSON text.
  abbrev pub bounded : Json → Result Text (Json × Text)
  bounded output =
      if ltb maximum_output_bytes (p.byte_length (p.to_json output))
      then err (codes "Tool output exceeded the two megabyte boundary.")
      else ok (output, p.to_json output)

module _ {Json : Type 0} (p : Platform Json) where
  abbrev pub output_of : Text → Text → Text → Json × Text → ToolOutput Json
  output_of id tool_name input_hash (output, serialized) = record {
    output = output;
    audit = record {
      id = id;
      tool_name = tool_name;
      status = completed;
      input_hash = input_hash;
      output_hash = some (p.sha256_hex serialized);
      denied_reason = none;
    };
  }

abbrev pub failure_of : Text → Text → Text → Text → ToolFailure
failure_of id tool_name input_hash message = record {
  message = message;
  audit = record {
    id = id;
    tool_name = tool_name;
    status = if is_denial message then denied else failed;
    input_hash = input_hash;
    output_hash = none;
    denied_reason = some (take 2000 message);
  };
}

module _ {W Json : Type 0} (p : Platform Json) where
  -- What is thrown on the way, or the output and its text, and the world after it.
  abbrev pub handled : Result (Option Text) Json × W → Result Text (Json × Text) × W
  handled (err thrown, w) = (err (message_of thrown), w)
  handled (ok output, w) = (bounded p (p.redact_secrets output), w)

  unfoldable pub call :
      List (Text × Handler W Json)
      → AiPolicy
      → ToolCallContext
      → Text
      → Json
      → W
      → Result Text (Json × Text) × W
  call handlers policy context tool_name input w =
      elim (assert_agent_tool_allowed policy context.agent_kind tool_name) [
        | err message ↦ (err message, w)
        | ok _ ↦ elim (handler_of handlers tool_name) [
          | none ↦ (err (codes "Tool is not registered: " ++ tool_name), w)
          | some handler ↦ handled (handler context (p.redact_secrets input) w)
        ]
      ]

  -- The audit of a call, by what came of it.
  abbrev pub audited :
      Text → Text → Text → Result Text (Json × Text) × W → Result ToolFailure (ToolOutput Json) × W
  audited id tool_name input_hash (ok out, w) = (ok (output_of p id tool_name input_hash out), w)
  audited id tool_name input_hash (err message, w) =
      (err (failure_of id tool_name input_hash message), w)

  unfoldable pub execute :
      List (Text × Handler W Json)
      → Text
      → AiPolicy
      → ToolCallContext
      → Text
      → Json
      → W
      → Result ToolFailure (ToolOutput Json) × W
  execute handlers id policy context tool_name input w =
      audited id tool_name (p.sha256_hex (p.to_json (p.redact_secrets input)))
        (call handlers policy context tool_name input w)
