-- ===== src/Agents/Tools/Policies.antt =====
-- What the default policy lets an agent call, and which model it may use.
use coder_er.Base.{
  ◌≡◌, ◌↔◌, refl, sym, ap, subst, Bool, true, false, not, ◌||◌, some, List, [], ◌∷◌, ◌++◌, codes,
  map, all, get_elem?, contains, Text, ◌==◌, nat_equality, list_equality, Equality, Bool-cases,
  &&_parts, inl, inr, Result, ok, err, throw_if, if◌then◌else◌, arith,
}
use coder_er.Security.Requests.{trim}
use coder_er.Agents.Tools.{
  InvestigationAgentKind, triage, repository_mapper, root_cause_investigator, contract_analyst,
  security_reviewer, plan_composer, independent_critic, agent_tool_allowlist, AiPolicy,
  default_policy_of, default_ai_policy, assert_agent_tool_allowed, assert_model_allowed,
  not_authorized,
}

passes_iff : {E : Type 0} (test : Bool) (e : E) → (throw_if test e ≡ ok tt) ↔ (test ≡ false)
passes_iff true e = (λ h. cc, λ h. cc)
passes_iff false e = (λ h. refl, λ h. refl)

same_text_iff : (s t : Text) → ((s == t) ≡ true) ↔ (s ≡ t)
same_text_iff s t = let texts : Equality Text = list_equality in texts.beq_iff s t

contains-all :
    (xs ys : List Text) (t : Text)
    → all (contains ys) xs ≡ true
    → contains xs t ≡ true
    → contains ys t ≡ true
contains-all [] ys t h e = cc
contains-all (x ∷ xs) ys t h e =
    let (here, rest) = &&_parts (contains ys x) (all (contains ys) xs) h in
    elim (Bool-cases (x == t)) [
      | inl same ↦ subst (λ u. contains ys u ≡ true) ((same_text_iff x t).0 same) here
      | inr other ↦ contains-all xs ys t rest (ground (arith, e, other))
    ]

-- Each agent's tools are tools of the policy.
all_tools_allowed :
    (primary : Text) (models : List Text) (agent : InvestigationAgentKind)
    → all (contains (default_policy_of primary models).allowed_tools) (agent_tool_allowlist agent)
      ≡ true
unfolding default_policy_of agent_tool_allowlist
all_tools_allowed primary models triage = refl
all_tools_allowed primary models repository_mapper = refl
all_tools_allowed primary models root_cause_investigator = refl
all_tools_allowed primary models contract_analyst = refl
all_tools_allowed primary models security_reviewer = refl
all_tools_allowed primary models plan_composer = refl
all_tools_allowed primary models independent_critic = refl

passed :
    {A E : Type 0} {a b : A} (test : Bool) (e : E)
    → ◌≡◌ {A = Result E A} (if test then ok a else err e) (ok b)
    → b ≡ a
passed true e h = cc
passed false e h = cc

-- A default policy is that of the first of the models.
abbrev IsDefaultOf : List Text → AiPolicy → Type 0
IsDefaultOf models policy =
    (primary : Text) × (rest : List Text) × (models ≡ primary ∷ rest)
    × (policy ≡ default_policy_of primary (primary ∷ rest))

default_policy_lem :
    (models : List Text) (policy : AiPolicy)
    → default_ai_policy models ≡ ok policy
    → IsDefaultOf models policy
unfolding default_ai_policy
default_policy_lem [] policy h = cc
default_policy_lem ([] ∷ models) policy h = cc
default_policy_lem ((c ∷ primary) ∷ models) policy h = (c ∷ primary, models, refl, passed _ _ h)

assert_tool_iff :
    (policy : AiPolicy) (agent : InvestigationAgentKind) (tool : Text)
    → (assert_agent_tool_allowed policy agent tool ≡ ok tt) ↔ (
        (contains policy.allowed_tools tool ≡ true)
        × (contains (agent_tool_allowlist agent) tool ≡ true))
unfolding assert_agent_tool_allowed
assert_tool_iff policy agent tool = ground (
  arith,
  passes_iff (
      not (contains policy.allowed_tools tool) || not (contains (agent_tool_allowlist agent) tool)),
)

both_hold : (a b : Bool) → (not (a || b) || not a) ≡ false → a ≡ true
both_hold a b h = ground arith

of_first : (a b : Bool) → a ≡ true → (not (a || b) || not a) ≡ false
of_first a b h = ground arith

some_injective : {a b : Text} → some a ≡ some b → a ≡ b
some_injective h = cc

assert_default_model_iff :
    (primary : Text) (rest : List Text) (agent : InvestigationAgentKind) (model : Text)
    → (assert_model_allowed (default_policy_of primary (primary ∷ rest)) agent model ≡ ok tt)
      ↔ (get_elem? (map trim (primary ∷ rest)) 0 ≡ some model)
unfolding assert_model_allowed default_policy_of
assert_default_model_iff primary rest agent model =
    let same = same_text_iff (trim primary) model in
    let passes =
      passes_iff
        (not (trim primary == model || contains (map trim rest) model)
          || not (trim primary == model))
        (not_authorized (codes "Model " ++ model) agent) in
    (
      λ h. ap (λ t. some t) (same.0 (both_hold _ _ (passes.0 h))),
      λ h. passes.1 (of_first _ _ (same.1 (some_injective h))),
    )

-- Under a default policy an agent may call a tool exactly when the tool stands on the agent's list.
pub default_ai_policy-tools :
    (models : List Text) (policy : AiPolicy) (agent : InvestigationAgentKind) (tool : Text)
    → default_ai_policy models ≡ ok policy
    → (assert_agent_tool_allowed policy agent tool ≡ ok tt)
      ↔ (contains (agent_tool_allowlist agent) tool ≡ true)
default_ai_policy-tools models policy agent tool h =
    let (primary, rest, _, same) = default_policy_lem models policy h in
    (
      λ passes. ((assert_tool_iff policy agent tool).0 passes).1,
      λ listed. (assert_tool_iff policy agent tool).1 (
        subst (λ q. contains (AiPolicy.allowed_tools q) tool ≡ true) (sym same)
            (contains-all (agent_tool_allowlist agent) _ tool
              (all_tools_allowed primary (primary ∷ rest) agent) listed),
        listed,
      ),
    )

-- Under a default policy every agent may use the first of the models, its outer spaces removed, and
-- no other model.
pub default_ai_policy-models :
    (models : List Text) (policy : AiPolicy) (agent : InvestigationAgentKind) (model : Text)
    → default_ai_policy models ≡ ok policy
    → (assert_model_allowed policy agent model ≡ ok tt)
      ↔ (get_elem? (map trim models) 0 ≡ some model)
default_ai_policy-models models policy agent model h =
    let (primary, rest, given, same) = default_policy_lem models policy h in
    rw (given, same) (assert_default_model_iff primary rest agent model)
