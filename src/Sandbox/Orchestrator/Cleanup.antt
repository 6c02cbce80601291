-- ===== src/Sandbox/Orchestrator/Cleanup.antt =====
-- How every execution ends, and when it counts as cancelled.
use coder_er.Base.{
  ℕ, ◌≡◌, ◌≢◌, refl, sym, subst, ◌∙◌, Bool, true, false, Option, List, ◌∷◌, Text, Result, ok, err,
  if◌then◌else◌,
}
use coder_er.Sandbox.Logs.{Source}
use coder_er.Sandbox.Orchestrator.{
  Environment, Run, Thrown, Comparison, Input, Hook, AbortReason, call_hook, attempt, caught,
  finish, execute, ignoring, verified, failed_with, reason_status, is_settled, message,
  system_source, first_run, status_changed, cleanup_completed, cleaning, cleanup_failed,
  abort_error, policy_violation, other_error, timeout, other, SandboxExecutionStatus, SandboxResult,
  infrastructure_failed,
}
use coder_er.Sandbox.Orchestrator.Rules.{Post, IsHarmless}
use coder_er.Sandbox.Orchestrator.Reproduced.{IsJudged, attempt-Leads, emit-same}

module _ {W Hash : Type 0} (env : Environment W) (hash : Source → ℕ → Text → Option Hash → Hash)
    (compare_signature : Text → Comparison) (input : Input) where
  -- The last three hooks, and where the proof of the cleanup comes from.
  abbrev pub IsCleaned : Bool → Run W Hash → Type 0
  IsCleaned absent s =
      (w : W) × (earlier : List Hook) × (absent
        ≡ verified env hash compare_signature input (env.cleanup s.prepared w).0)
      × (s.trace
          ≡ status_changed s.status ∷ cleanup_completed absent ∷ status_changed cleaning ∷ earlier)
      × (absent ≡ false → s.status ≡ cleanup_failed)

  finish-IsCleaned :
      (s : Run W Hash)
      → let (absent, last) = finish env hash compare_signature input s in IsCleaned absent last
  unfolding finish call_hook
  finish-IsCleaned s =
      let w : W =
        (ignoring env hash compare_signature input
          (call_hook env hash compare_signature input (status_changed cleaning)) s).world in
      (w, s.trace, refl, refl, λ e. rw e refl)

  -- Whatever the provider, the hooks and the abort signal do, an execution ends with a cleanup: the
  -- last three hooks report CLEANING, the proof that the provider gave and the final status, which is
  -- CLEANUP_FAILED unless the absence of all resources was verified.
  pub execute-IsCleaned :
      (world : W) {r : Result Thrown (Unit {0})} {absent : Bool} {s : Run W Hash}
      → execute env hash compare_signature input world ≡ (r, (absent, s))
      → IsCleaned absent s
  unfolding execute
  execute-IsCleaned world e =
      let before =
        (caught env hash compare_signature input
          (attempt env hash compare_signature input (first_run world))).1 in
      subst (λ x. IsCleaned x.1.0 x.1.1) e (finish-IsCleaned before)

  reason_status-ne :
      (r : AbortReason)
      → r ≢ AbortReason.cancelled
      → reason_status r ≢ SandboxExecutionStatus.cancelled
  reason_status-ne timeout h e = cc
  reason_status-ne AbortReason.cancelled h e = h refl
  reason_status-ne other h e = cc

  kept-ne :
      (kept : Bool) (s : Run W Hash)
      → s.status ≢ SandboxExecutionStatus.cancelled
      → (if kept then s else record s {
        status = infrastructure_failed;
        result = SandboxResult.infrastructure_failed;
      }).status
        ≢ SandboxExecutionStatus.cancelled
  kept-ne true s h e = h e
  kept-ne false s h e = cc

  failed_with-status :
      (thrown : Thrown) (s : Run W Hash)
      → env.abort_reason s.world ≢ AbortReason.cancelled
      → s.status ≢ SandboxExecutionStatus.cancelled
      → (failed_with env hash compare_signature input thrown s).status
        ≢ SandboxExecutionStatus.cancelled
  failed_with-status (abort_error text) s reason open_status e =
      reason_status-ne (env.abort_reason s.world) reason e
  failed_with-status (policy_violation text) s reason open_status e = cc
  failed_with-status (other_error text) s reason open_status e =
      kept-ne (is_settled s.status) s open_status e

  caught-status :
      (x : Result Thrown (Unit {0}) × Run W Hash)
      → ((w : W) → env.abort_reason w ≢ AbortReason.cancelled)
      → Post (IsJudged env hash compare_signature input) IsHarmless x
      → (caught env hash compare_signature input x).1.status ≢ SandboxExecutionStatus.cancelled
  unfolding caught
  caught-status (ok done, s) reason judged e = cc (judged.0)
  caught-status (err thrown, s) reason harm e =
      failed_with-status thrown s (reason s.world) harm.1 (
        sym
          (emit-same env hash compare_signature input (system_source, message thrown)
            (failed_with env hash compare_signature input thrown s)).1
        ∙ e)

  finish-status :
      (s : Run W Hash)
      → s.status ≢ SandboxExecutionStatus.cancelled
      → (finish env hash compare_signature input s).1.status ≢ SandboxExecutionStatus.cancelled
  unfolding finish call_hook
  finish-status s open_status = reported _
    where
      reported :
          (absent : Bool)
          → (if absent then s.status else cleanup_failed) ≢ SandboxExecutionStatus.cancelled
      reported true e = open_status e
      reported false e = cc

  -- An execution counts as CANCELLED only if its signal was aborted with that reason. A cancellation
  -- that only the hook before a command reports ends it with another status.
  pub execute-cancelled :
      (world : W) {r : Result Thrown (Unit {0})} {absent : Bool} {s : Run W Hash}
      → ((w : W) → env.abort_reason w ≢ AbortReason.cancelled)
      → execute env hash compare_signature input world ≡ (r, (absent, s))
      → s.status ≢ SandboxExecutionStatus.cancelled
  unfolding execute
  execute-cancelled world reason e =
      let before =
        (caught env hash compare_signature input
          (attempt env hash compare_signature input (first_run world))).1 in
      subst (λ x. x.1.1.status ≢ SandboxExecutionStatus.cancelled) e
        (finish-status before (
          caught-status (attempt env hash compare_signature input (first_run world)) reason (
            attempt-Leads env hash compare_signature input (first_run world)
              (refl, refl, λ h. cc))))
