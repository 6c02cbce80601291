-- ===== src/Examples/Agents.antt =====
-- Citations, plans and calls of tools at concrete inputs.
use coder_er.Base.{
  ℕ, suc, ◌≡◌, ◌↔◌, refl, true, false, ◌&&◌, inl, some, List, [], ◌∷◌, length, contains, Text,
  codes, ok, err, nat_equality, list_equality,
}
use coder_er.Base.Integers.{negsuc}
use coder_er.Agents.Citations.{
  repository_file, InvestigationCitation, ContextItem, primary, RootCauseHypothesis, Diagnosis,
  TreatmentPlan, duplicate, no_primary, repeated_sequence, not_contiguous, citation_key, item_of,
  item_problems, check_citations, validate_citations, check_hypotheses,
  validate_diagnosis_grounding, validate_treatment_plan_grounding,
}
use coder_er.Agents.Citations.Diagnoses.{IsGroundedDiagnosis, validate_diagnosis_grounding_iff}
use coder_er.Agents.Citations.Plans.{IsGroundedPlan, validate_treatment_plan_grounding_iff}
use coder_er.Agents.Tools.{
  triage, agent_tool_allowlist, AiPolicy, default_policy_of, default_ai_policy,
  assert_agent_tool_allowed, assert_model_allowed, ToolCallContext, Platform, Handler,
  already_registered, register, ToolOutput, output_of, call, execute,
}
use coder_er.Agents.Tools.Policies.{default_ai_policy-tools, default_ai_policy-models}
use coder_er.Agents.Tools.Gateways.{IsDenied, IsCompleted, execute-IsDenied, execute-IsCompleted}

abbrev manifest : ContextItem
manifest = record {
  source_type = repository_file;
  source_id = codes "manifest";
  digest = codes "abc";
  path = some (codes "package.json");
  line_start = some 10;
  line_end = some 20;
}

abbrev cited : InvestigationCitation
cited = record {
  source_type = repository_file;
  source_id = codes "manifest";
  digest = codes "abc";
  path = some (codes "package.json");
  line_start = some 12;
  line_end = some 14;
}

abbrev hypothesis : RootCauseHypothesis
hypothesis = record {
  disposition = primary;
  supporting_evidence = cited ∷ [];
  contradicting_evidence = [];
}

abbrev diagnosis : Diagnosis
diagnosis = record {
  confidence = record { numerator = 15; denominator = 16 };
  hypotheses = hypothesis ∷ [];
  unknowns = [];
  citations = cited ∷ [];
}

abbrev plan : TreatmentPlan
plan = record {
  steps = record { sequence = 1; citations = cited ∷ [] } ∷ [];
  rollback_strategy = codes "Revert the commit.";
}

grounded_diagnosis : (validate_diagnosis_grounding diagnosis (manifest ∷ [])).valid ≡ true
unfolding validate_diagnosis_grounding check_hypotheses validate_citations check_citations
    item_problems item_of citation_key
grounded_diagnosis = refl

no_hypothesis :
    (validate_diagnosis_grounding (record diagnosis { hypotheses = [] }) (manifest ∷ [])).errors
    ≡ no_primary ∷ []
unfolding validate_diagnosis_grounding check_hypotheses validate_citations check_citations
    item_problems item_of citation_key
no_hypothesis = refl

-- Three faults of one citation are taken off the count of citations three times.
three_faults :
    (validate_citations
      (record cited { path = some (codes "README.md"); line_start = some 1; line_end = some 99 }
        ∷ [])
      (manifest ∷ [])).validated_count
    ≡ negsuc 1
unfolding validate_citations check_citations item_problems item_of citation_key
three_faults = refl

validate_diagnosis_grounding_iff_example :
    ((validate_diagnosis_grounding diagnosis (manifest ∷ [])).valid ≡ true)
    ↔ IsGroundedDiagnosis (manifest ∷ []) diagnosis
validate_diagnosis_grounding_iff_example =
    validate_diagnosis_grounding_iff diagnosis (manifest ∷ [])

-- Two steps with one number that rest on the same evidence.
shared_evidence :
    (validate_treatment_plan_grounding
      (record plan {
        steps =
            record { sequence = 1; citations = cited ∷ [] }
            ∷ record { sequence = 1; citations = cited ∷ [] }
            ∷ [];
      })
      (manifest ∷ [])).errors
    ≡ duplicate (codes "REPOSITORY_FILE:manifest:abc:package.json:12:14")
      ∷ repeated_sequence
      ∷ not_contiguous
      ∷ []
unfolding validate_treatment_plan_grounding validate_citations check_citations item_problems item_of
    citation_key
shared_evidence = refl

validate_treatment_plan_grounding_iff_example :
    ((validate_treatment_plan_grounding plan (manifest ∷ [])).valid ≡ true)
    ↔ IsGroundedPlan (manifest ∷ []) plan
validate_treatment_plan_grounding_iff_example =
    validate_treatment_plan_grounding_iff plan (manifest ∷ [])

abbrev policy : AiPolicy
policy = default_policy_of (codes "gpt-enterprise") (codes "gpt-enterprise" ∷ [])

default_policy : default_ai_policy (codes "gpt-enterprise" ∷ []) ≡ ok policy
unfolding default_ai_policy
default_policy = refl

triage_reads_evidence :
    assert_agent_tool_allowed policy triage (codes "incident.get_evidence") ≡ ok tt
unfolding agent_tool_allowlist
triage_reads_evidence =
    (default_ai_policy-tools (codes "gpt-enterprise" ∷ []) policy triage
        (codes "incident.get_evidence") default_policy).1
      refl

triage_uses_primary : assert_model_allowed policy triage (codes "gpt-enterprise") ≡ ok tt
triage_uses_primary =
    (default_ai_policy-models (codes "gpt-enterprise" ∷ []) policy triage (codes "gpt-enterprise")
        default_policy).1
      refl

abbrev platform : Platform Text
platform = record {
  redact_secrets = λ t. t;
  to_json = λ t. t;
  sha256_hex = λ t. t;
  byte_length = length;
}

-- A handler that counts its runs.
abbrev evidence_handler : Handler ℕ Text
evidence_handler context input runs = (ok (codes "safe"), suc runs)

abbrev handlers : List (Text × Handler ℕ Text)
handlers = (codes "incident.get_evidence", evidence_handler) ∷ []

registered_twice :
    register handlers (codes "incident.get_evidence") evidence_handler
    ≡ err (already_registered (codes "incident.get_evidence"))
unfolding register
registered_twice = refl

abbrev context : ToolCallContext
context = record {
  organization_id = codes "organization";
  incident_id = codes "incident";
  investigation_id = codes "investigation";
  agent_kind = triage;
  correlation_id = codes "correlation";
  lease_owner = codes "worker";
}

not_of_triage :
    (contains policy.allowed_tools (codes "repository.read_file_range")
      && contains (agent_tool_allowlist triage) (codes "repository.read_file_range"))
    ≡ false
unfolding default_policy_of agent_tool_allowlist
not_of_triage = refl

execute-IsDenied_example :
    IsDenied platform handlers
      (codes "1")
      policy
      context
      (codes "repository.read_file_range")
      (codes "{}")
      0
      (execute platform handlers
        (codes "1")
        policy
        context
        (codes "repository.read_file_range")
        (codes "{}")
        0)
execute-IsDenied_example =
    execute-IsDenied platform handlers (codes "1") policy context
      (codes "repository.read_file_range") (codes "{}") 0 (inl not_of_triage)

abbrev output : ToolOutput Text
output =
    output_of platform (codes "1") (codes "incident.get_evidence") (codes "{}")
      (codes "safe", codes "safe")

executed :
    execute platform handlers
      (codes "1")
      policy
      context
      (codes "incident.get_evidence")
      (codes "{}")
      0
    ≡ (ok output, 1)
unfolding execute call assert_agent_tool_allowed agent_tool_allowlist default_policy_of
executed = refl

execute-IsCompleted_example :
    IsCompleted platform handlers
      (codes "1")
      policy
      context
      (codes "incident.get_evidence")
      (codes "{}")
      0
      output
      1
execute-IsCompleted_example =
    execute-IsCompleted platform handlers (codes "1") policy context (codes "incident.get_evidence")
      (codes "{}") 0 output 1 executed
