-- ===== src/Recovery/Store/Requests/Ordinary.antt =====
-- Histories of commands on a recovery run, and the approvals that are asked for in them.
use coder_er.Base.{
  ◌||◌, false, contains, leb, Option, ℕ, ◌≡◌, ◌≢◌, Bool, true, not, ◌&&◌, String, none, some, List,
  [], ◌∷◌, any, ◌==◌, nat_equality, string_equality,
}
use coder_er.Approvals.{is_human}
use coder_er.Recovery.Status.{ready_to_publish, recovery_run_status_equality}
use coder_er.Recovery.Store.{approve, RecoveryRunState}
use coder_er.Recovery.Store.Requests.{DecisionContext, RiskLevel, publication_decision_equality}
use coder_er.Recovery.Store.Commands.{
  WorkerCommand, acquire, beat, restart, release, reach, prepare, patch, finish, clean,
  RecoveryCommand, by_worker, cancel, resume, revise, decide, perform,
}

-- Whether a policy asks for one approval at most.
abbrev pub asks_one : Option ℕ → Bool
asks_one none = true
asks_one (some n) = leb n 1

-- The run after a command that takes effect, or that throws or finds no row.
abbrev pub attempt : RecoveryCommand → ℕ → RecoveryRunState → RecoveryRunState
attempt c now r = elim (perform c now r) [ none ↦ r | some r' ↦ r' ]

abbrev pub run_all : List (ℕ × RecoveryCommand) → RecoveryRunState → RecoveryRunState
run_all [] r = r
run_all ((now, c) ∷ later) r = run_all later (attempt c now r)

module _ (d : DecisionContext) where
  -- Whether a person is free to approve: everybody where one approval is enough and the plan's risk is
  -- neither high nor critical, and else who did not approve the plan.
  abbrev pub is_unbound : Bool
  is_unbound = elim d.risk [
    | none ↦ asks_one d.required_publication_approvals
    | some RiskLevel.low ↦ asks_one d.required_publication_approvals
    | some RiskLevel.medium ↦ asks_one d.required_publication_approvals
    | some RiskLevel.high ↦ false
    | some RiskLevel.critical ↦ false
  ]

  abbrev pub may_approve : String → Bool
  may_approve name = is_unbound || not (contains d.plan_approvers name)

  -- An approval by a human who may approve.
  abbrev pub is_proper : String → RecoveryCommand → Bool
  is_proper name (decide given actor decision expected) =
      actor.actor_id == name && decision == approve && is_human actor && may_approve name
  is_proper name _ = false

  abbrev pub has_approved : List (ℕ × RecoveryCommand) → String → Bool
  has_approved history name = any (λ x. is_proper name x.1) history

  -- A worker's command that records no patch and does not itself ask for READY_TO_PUBLISH.
  abbrev pub IsModest : WorkerCommand → Type 0
  IsModest (acquire seconds) = Unit
  IsModest (beat seconds) = Unit
  IsModest restart = Unit
  IsModest release = Unit
  IsModest (reach stage) = stage ≢ ready_to_publish
  IsModest (prepare path_ref path branch base) = Unit
  IsModest (patch elsewhere p) = ⊥
  IsModest (finish status code) = status ≢ ready_to_publish
  IsModest (clean absent deleted code) = Unit

  -- A modest command of a worker, a decision on the given policy and plan, or a request.
  abbrev pub IsOrdinary : RecoveryCommand → Type 0
  IsOrdinary (by_worker w c) = IsModest c
  IsOrdinary cancel = Unit
  IsOrdinary (resume clock) = Unit
  IsOrdinary (revise expected comment) = Unit
  IsOrdinary (decide given actor decision expected) = given ≡ d
