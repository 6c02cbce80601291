-- ===== src/Agents/Tools/Gateways.antt =====
-- What the gateway lets through, and what it records.
use coder_er.Base.{
  ◌≤◌, ◌≡◌, ◌≢◌, ◌⊎◌, inl, inr, refl, sym, ◌∙◌, ap, subst, Bool, true, false, not, ◌&&◌, ◌||◌,
  Option, none, some, List, [], ◌∷◌, ◌++◌, ltb, contains, Text, codes, lower, lower_code,
  includes_text, starts_with-append, nat_equality, list_equality, Bool-cases, Option-cases, Result,
  ok, err, throw_if, if◌then◌else◌, append_assoc, arith,
}
use coder_er.Agents.Tools.{
  InvestigationAgentKind, agent_name, agent_tool_allowlist, AiPolicy, assert_agent_tool_allowed,
  not_authorized, ToolCallContext, completed, denied, failed, ToolCallAudit, ToolFailure,
  ToolOutput, Platform, Handler, handler_of, is_denial, handled, call, audited, execute, output_of,
  failure_of, maximum_output_bytes,
}

includes_text-append : (s p t : Text) → includes_text (s ++ (p ++ t)) p ≡ true
includes_text-append [] [] [] = refl
includes_text-append [] [] (c ∷ t) = refl
includes_text-append [] (c ∷ p) t = ground (arith, starts_with-append (c ∷ p) t)
includes_text-append (c ∷ s) p t = ground (arith, includes_text-append s p t)

lower-append : (s t : Text) → lower (s ++ t) ≡ lower s ++ lower t
lower-append [] t = refl
lower-append (c ∷ s) t = ap (λ u. lower_code c ∷ u) (lower-append s t)

-- A message that holds a phrase in small letters mentions it.
mentions-phrase : (s q t : Text) → lower q ≡ q → includes_text (lower (s ++ (q ++ t))) q ≡ true
mentions-phrase s q t e =
    ap (λ u. includes_text u q)
      (lower-append s (q ++ t)
        ∙ ap (λ u. lower s ++ u) (lower-append q t ∙ ap (λ u. u ++ lower t) e))
    ∙ includes_text-append (lower s) q (lower t)

kept :
    {A E : Type 0} {b : A} (test : Bool) (e : E) (a : A)
    → ◌≡◌ {A = Result E A} (if test then err e else ok a) (ok b)
    → (test ≡ false) × (b ≡ a)
kept true e a h = cc
kept false e a h = (refl, cc)

audited-ok :
    {W Json : Type 0} (p : Platform Json) (id tool hash : Text)
    (result : Result Text (Json × Text) × W) {out : ToolOutput Json} {after : W}
    → audited p id tool hash result ≡ (ok out, after)
    → (x : Json × Text) × (result ≡ (ok x, after)) × (out ≡ output_of p id tool hash x)
audited-ok p id tool hash (ok x, v) h = (x, ap (λ r. (ok x, r.1)) h, cc (ap (λ r. r.0) h))
audited-ok p id tool hash (err message, v) h = cc

both_named : (a b : Bool) → (not a || not b) ≡ false → (a ≡ true) × (b ≡ true)
both_named a b h = ground arith

not_both : (a b : Bool) → (not a || not b) ≡ false → (a && b) ≢ false
not_both a b h = ground arith

first_holds : (a b c : Bool) → a ≡ true → (a || b || c) ≡ true
first_holds a b c h = ground arith

second_holds : (a b c : Bool) → b ≡ true → (a || b || c) ≡ true
second_holds a b c h = ground arith

not_authorized-denial :
    (tool : Text) (agent : InvestigationAgentKind)
    → is_denial (not_authorized (codes "Tool " ++ tool) agent) ≡ true
not_authorized-denial tool agent =
    let rest : Text = codes " for " ++ (agent_name agent ++ codes ".") in
    let start : Text = codes "Tool " ++ tool in
    first_holds _ _ _ (
      ap (λ u. includes_text (lower u) (codes "not authorized"))
        (sym (append_assoc start (codes " is ") (codes "not authorized" ++ rest)))
      ∙ mentions-phrase (start ++ codes " is ") (codes "not authorized") rest refl)

not_registered-denial : (tool : Text) → is_denial (codes "Tool is not registered: " ++ tool) ≡ true
not_registered-denial tool =
    second_holds _ _ _
      (mentions-phrase (codes "Tool is ") (codes "not registered") (codes ": " ++ tool) refl)

module _ {W Json : Type 0} (p : Platform Json) (handlers : List (Text × Handler W Json)) (id : Text)
    (policy : AiPolicy) (context : ToolCallContext) (tool : Text) (input : Json) (w : W) where
  abbrev forbidden : Bool
  forbidden =
      not (contains policy.allowed_tools tool)
      || not (contains (agent_tool_allowlist context.agent_kind) tool)

  asserted-forbidden :
      forbidden ≡ true
      → assert_agent_tool_allowed policy context.agent_kind tool
        ≡ err (not_authorized (codes "Tool " ++ tool) context.agent_kind)
  unfolding assert_agent_tool_allowed
  asserted-forbidden h =
      ap (λ b. throw_if b (not_authorized (codes "Tool " ++ tool) context.agent_kind)) h

  asserted-allowed :
      forbidden ≡ false → assert_agent_tool_allowed policy context.agent_kind tool ≡ ok tt
  unfolding assert_agent_tool_allowed
  asserted-allowed h =
      ap (λ b. throw_if b (not_authorized (codes "Tool " ++ tool) context.agent_kind)) h

  call-forbidden :
      forbidden ≡ true
      → call p handlers policy context tool input w
        ≡ (err (not_authorized (codes "Tool " ++ tool) context.agent_kind), w)
  unfolding call
  call-forbidden h = rw (call, asserted-forbidden h) refl

  call-unregistered :
      forbidden ≡ false
      → handler_of handlers tool ≡ none
      → call p handlers policy context tool input w
        ≡ (err (codes "Tool is not registered: " ++ tool), w)
  unfolding call
  call-unregistered h e = rw (call, asserted-allowed h, e) refl

  call-handled :
      (handler : Handler W Json)
      → forbidden ≡ false
      → handler_of handlers tool ≡ some handler
      → call p handlers policy context tool input w
        ≡ handled p (handler context (p.redact_secrets input) w)
  unfolding call
  call-handled handler h e = rw (call, asserted-allowed h, e) refl

  -- An error whose audit says the call was denied, and the world as it was.
  abbrev pub IsDenied : Result ToolFailure (ToolOutput Json) × W → Type 0
  IsDenied result =
      (failure : ToolFailure) × (result ≡ (err failure, w)) × (failure.audit.status ≡ denied)

  abbrev input_hash : Text
  input_hash = p.sha256_hex (p.to_json (p.redact_secrets input))

  execute-refused :
      (message : Text)
      → is_denial message ≡ true
      → call p handlers policy context tool input w ≡ (err message, w)
      → IsDenied (execute p handlers id policy context tool input w)
  unfolding execute
  execute-refused message d e = (
    failure_of id tool input_hash message,
    ap (audited p id tool input_hash) e,
    ap (λ b. if b then denied else failed) d,
  )

  -- An agent's call of a tool that the policy or the agent's list does not name, or of a tool that
  -- nobody registered, is thrown with an audit that says it was denied, and the world is untouched.
  pub execute-IsDenied :
      ((contains policy.allowed_tools tool
            && contains (agent_tool_allowlist context.agent_kind) tool)
          ≡ false)
        ⊎ (handler_of handlers tool ≡ none)
      → IsDenied (execute p handlers id policy context tool input w)
  execute-IsDenied reason = elim (Bool-cases forbidden) [
    | inl barred ↦
        execute-refused _ (not_authorized-denial tool context.agent_kind) (call-forbidden barred)
    | inr allowed ↦ elim reason [
      | inl off ↦ absurd (not_both _ _ allowed off)
      | inr missing ↦
          execute-refused _ (not_registered-denial tool) (call-unregistered allowed missing)
    ]
  ]

  -- A call of a tool that the policy and the agent's list name and that is registered, whose handler
  -- ran on the redacted input and returned a value: the output is that value redacted, within the
  -- bound, and its hash is in the audit.
  pub record IsCompleted (out : ToolOutput Json) (after : W) : Type 0 where
    pub permitted : contains policy.allowed_tools tool ≡ true
    pub listed : contains (agent_tool_allowlist context.agent_kind) tool ≡ true
    pub handler : Handler W Json
    pub registered : handler_of handlers tool ≡ some handler
    pub value : Json
    pub ran : handler context (p.redact_secrets input) w ≡ (ok value, after)
    pub redacted : out.output ≡ p.redact_secrets value
    pub within : p.byte_length (p.to_json out.output) ≤ maximum_output_bytes
    pub hashed : out.audit.output_hash ≡ some (p.sha256_hex (p.to_json out.output))
    pub status : out.audit.status ≡ completed

  handled-ok :
      (result : Result (Option Text) Json × W) (x : Json × Text) (after : W)
      → handled p result ≡ (ok x, after)
      → (value : Json) × (result ≡ (ok value, after))
        × (x ≡ (p.redact_secrets value, p.to_json (p.redact_secrets value)))
        × (p.byte_length (p.to_json (p.redact_secrets value)) ≤ maximum_output_bytes)
  handled-ok (err thrown, v) x after h = cc
  handled-ok (ok value, v) x after h =
      let output : Json = p.redact_secrets value in
      let (fits, same) =
        kept (ltb maximum_output_bytes (p.byte_length (p.to_json output))) _ _ (ap (λ r. r.0) h) in
      (value, ap (λ r. (ok value, r.1)) h, same, ground (arith, fits))

  -- A call that returns was authorized, and what it returns and records is as `IsCompleted` says.
  pub execute-IsCompleted :
      (out : ToolOutput Json) (after : W)
      → execute p handlers id policy context tool input w ≡ (ok out, after)
      → IsCompleted out after
  unfolding execute
  execute-IsCompleted out after h =
      let (x, called, same) =
        audited-ok p id tool input_hash (call p handlers policy context tool input w) h in
      elim (Bool-cases forbidden) [
        | inl barred ↦ cc (call-forbidden barred, called)
        | inr allowed ↦ elim (Option-cases (handler_of handlers tool)) [
          | inl missing ↦ cc (call-unregistered allowed missing, called)
          | inr (handler, registered) ↦
              let (value, ran, whole, within) =
                handled-ok (handler context (p.redact_secrets input) w) x after
                  (sym (call-handled handler allowed registered) ∙ called) in
              let made = same ∙ ap (output_of p id tool input_hash) whole in
              let redacted = ap (λ o. ToolOutput.output o) made in
              record {
                permitted = (both_named _ _ allowed).0;
                listed = (both_named _ _ allowed).1;
                handler = handler;
                registered = registered;
                value = value;
                ran = ran;
                redacted = redacted;
                within =
                    subst (λ j. p.byte_length (p.to_json j) ≤ maximum_output_bytes) (sym redacted)
                      within;
                hashed =
                    ap (λ o. ToolCallAudit.output_hash (ToolOutput.audit o)) made
                    ∙ ap (λ j. some (p.sha256_hex (p.to_json j))) (sym redacted);
                status = ap (λ o. ToolCallAudit.status (ToolOutput.audit o)) made;
              }
        ]
      ]
