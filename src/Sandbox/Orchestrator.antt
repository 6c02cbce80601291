-- ===== src/Sandbox/Orchestrator.antt =====
-- One sandbox execution: `SandboxOrchestrator.execute` (packages/sandbox/src/orchestrator.ts). The
-- provider, the hooks and the abort signal are an environment over a world of its own; each call may
-- change the world and may throw. Texts are redacted; the output of a command is logged when the
-- command ends. The comparison of failure signatures and the hash of a log chunk are parameters, a
-- similarity is in ten-thousandths, the output of a command is its `stdout` and `stderr`, each with a
-- line feed, and the proof of a cleanup is whether absence was verified.
pub mod Rules
pub mod Reproduced
pub mod Cleanup
use coder_er.Base.{
  ℕ, zero, suc, ◌+◌, ◌-◌, Bool, true, false, not, ◌&&◌, ◌||◌, Option, none, some, List, [], ◌∷◌,
  ◌++◌, all, Text, ltb, codes, ◌==◌, nat_equality, list_equality, if◌then◌else◌, Result, ok, err,
}
use coder_er.Sandbox.Logs.{
  LogAccumulator, Chunk, Source, Stream, Appended, new_accumulator, maximum_chunk_bytes, append,
}

pub data SandboxExecutionStatus : Type 0 where
  requested policy_check preparing installing reproducing collecting cleaning completed
        policy_blocked cancelled timed_out infrastructure_failed cleanup_failed :
      SandboxExecutionStatus

pub data SandboxResult : Type 0 where
  reproduced not_reproduced inconclusive policy_blocked infrastructure_failed : SandboxResult

-- What is thrown, with its message: an abort, a violation of the policy, or another error.
pub data Thrown : Type 0 where
  abort_error policy_violation other_error : Text → Thrown

-- `abortSignal?.reason`
pub data AbortReason : Type 0 where
  timeout cancelled other : AbortReason

abbrev pub Command : Type 0
Command = Text

pub record Outcome : Type 0 where
  pub succeeded : Bool
  pub exit_code : Option ℕ
  pub timed_out : Bool
  pub oom_killed : Bool
  pub output : Text
  pub events : List (Source × Text)

pub record Comparison : Type 0 where
  pub matched : Bool
  pub similarity : ℕ
  pub observed_digest : Text

pub data Hook : Type 0 where
  status_changed : SandboxExecutionStatus → Hook
  command_started command_completed : ℕ → Command → Hook
  log_chunks artifacts_collected heartbeat : Hook
  cleanup_completed : Bool → Hook

pub record Environment (W : Type 0) : Type 0 where
  pub hook : Hook → W → Result Thrown (Unit {0}) × W
  pub cancellation_requested : W → Result Thrown Bool × W
  pub is_aborted : W → Bool
  pub abort_reason : W → AbortReason
  pub prepare : W → Result Thrown (Unit {0}) × W
  pub execute : Command → W → Result Thrown Outcome × W
  pub collect_artifacts : W → Result Thrown ℕ × W
  pub cleanup : Bool → W → Result Thrown Bool × W

pub record Input : Type 0 where
  pub install_commands : List Command
  pub reproduction_commands : List Command
  pub repeat_count : ℕ
  pub require_non_zero_exit : Bool
  pub maximum_log_bytes : ℕ

-- The local variables, the world, and the hooks that were called, the latest first.
pub record Run (W Hash : Type 0) : Type 0 where
  pub world : W
  pub trace : List Hook
  pub log : LogAccumulator Hash
  pub sequence : ℕ
  pub commands : List (ℕ × Command × Outcome)
  pub limited : Bool
  pub prepared : Bool
  pub comparisons : List Comparison
  pub comparison : Option Comparison
  pub artifacts : Option ℕ
  pub status : SandboxExecutionStatus
  pub result : SandboxResult

abbrev pub first_run : {W Hash : Type 0} → W → Run W Hash
first_run world = record {
  world = world;
  trace = [];
  log = new_accumulator;
  sequence = 0;
  commands = [];
  limited = false;
  prepared = false;
  comparisons = [];
  comparison = none;
  artifacts = none;
  status = infrastructure_failed;
  result = inconclusive;
}

-- A step that may throw; what it wrote stays written.
abbrev pub Action : Type 0 → Type 0 → Type 0 → Type 0
Action W Hash A = Run W Hash → Result Thrown A × Run W Hash

module _ {W Hash : Type 0} where
  abbrev pub after :
      {A B : Type 0}
      → Result Thrown A × Run W Hash
      → (A → Action W Hash B)
      → Result Thrown B × Run W Hash
  after (ok a, s) f = f a s
  after (err e, s) f = (err e, s)

  infixl 5 ◌>>=◌ ◌>>◌
  abbrev pub ◌>>=◌ : {A B : Type 0} → Action W Hash A → (A → Action W Hash B) → Action W Hash B
  ◌>>=◌ m f s = after (m s) f

  abbrev pub ◌>>◌ : {B : Type 0} → Action W Hash (Unit {0}) → Action W Hash B → Action W Hash B
  m >> k = m >>= λ _. k

  abbrev pub pure : {A : Type 0} → A → Action W Hash A
  pure a s = (ok a, s)

  abbrev pub throw : {A : Type 0} → Thrown → Action W Hash A
  throw e s = (err e, s)

  abbrev pub modify : (Run W Hash → Run W Hash) → Action W Hash (Unit {0})
  modify f s = (ok tt, f s)

  -- A call of the environment.
  abbrev pub settled :
      {A : Type 0} → Result Thrown A × W → Run W Hash → Result Thrown A × Run W Hash
  settled (r, w) s = (r, record s { world = w })

abbrev pub nonzero : Option ℕ → Bool
nonzero none = true
nonzero (some code) = not (code == 0)

-- The comparison of the highest similarity, the first of equal ones.
abbrev pub better : Comparison → Option Comparison → Option Comparison
better c none = some c
better c (some d) = if ltb c.similarity d.similarity then some d else some c

abbrev pub best : List Comparison → Option Comparison
best [] = none
best (c ∷ cs) = better c (best cs)

abbrev pub all_matched : List Comparison → Bool
all_matched [] = false
all_matched (c ∷ cs) = c.matched && all (λ d. d.matched) cs

abbrev pub none_matched : List Comparison → Bool
none_matched cs = all (λ c. not c.matched) cs

abbrev pub digest_of : Option Comparison → Text
digest_of none = []
digest_of (some c) = c.observed_digest

abbrev pub consistent : List Comparison → Bool
consistent cs = all (λ c. c.observed_digest == digest_of (best cs)) cs

unfoldable pub decide_result : Bool → List Comparison → SandboxResult
decide_result cut_short cs =
    if cut_short
    then inconclusive
    else if all_matched cs && consistent cs
    then reproduced
    else if none_matched cs && consistent cs
    then not_reproduced
    else inconclusive

abbrev pub reason_status : AbortReason → SandboxExecutionStatus
reason_status timeout = timed_out
reason_status AbortReason.cancelled = SandboxExecutionStatus.cancelled
reason_status other = infrastructure_failed

abbrev pub reason_result : AbortReason → SandboxResult
reason_result AbortReason.cancelled = inconclusive
reason_result _ = infrastructure_failed

abbrev pub is_settled : SandboxExecutionStatus → Bool
is_settled timed_out = true
is_settled completed = true
is_settled _ = false

abbrev pub message : Thrown → Text
message (abort_error text) = text
message (policy_violation text) = text
message (other_error text) = text

abbrev pub cancellation : Thrown
cancellation = abort_error (codes "Sandbox execution was cancelled.")

abbrev pub system_source : Source
system_source = record { stream = Stream.system; command_id = none; occurred_at = 0 }

module _ {W Hash : Type 0} (env : Environment W) (hash : Source → ℕ → Text → Option Hash → Hash)
    (compare_signature : Text → Comparison) (input : Input) where
  unfoldable pub call_hook : Hook → Action W Hash (Unit {0})
  call_hook h s = settled (env.hook h s.world) (record s { trace = h ∷ s.trace })

  unfoldable pub log_appended : Option (Appended Hash) → Action W Hash (Unit {0})
  unfolding call_hook
  log_appended none s = (ok tt, s)
  log_appended (some ([], (a, rest))) s = (ok tt, record s { log = a })
  log_appended (some (c ∷ chunks, (a, rest))) s = call_hook log_chunks (record s { log = a })

  unfoldable pub emit : Source × Text → Action W Hash (Unit {0})
  unfolding log_appended
  emit event s =
      log_appended
        (append hash input.maximum_log_bytes (maximum_chunk_bytes none) event.0 event.1 s.log) s

  unfoldable pub emit_all : List (Source × Text) → Action W Hash (Unit {0})
  unfolding emit
  emit_all [] = pure tt
  emit_all (event ∷ events) = let rest = emit_all events in emit event >>= λ _. rest

  unfoldable pub check_cancelled : Action W Hash (Unit {0})
  check_cancelled s =
      if env.is_aborted s.world
      then (err cancellation, s)
      else (settled (env.cancellation_requested s.world) >>= λ asked.
            if asked then throw cancellation else pure tt)
          s

  unfoldable pub execute_command : Command → Action W Hash Outcome
  unfolding check_cancelled call_hook emit_all
  execute_command command = check_cancelled >>= λ _.
      modify (λ s. record s { sequence = s.sequence + 1 }) >>= λ _.
      (λ s. call_hook (command_started s.sequence command) s) >>= λ _.
      (λ s. settled (env.execute command s.world) s) >>= λ outcome. emit_all outcome.events >>= λ _.
      modify (λ s. record s { commands = s.commands ++ (s.sequence, command, outcome) ∷ [] })
      >>= λ _. (λ s. call_hook (command_completed s.sequence command) s) >>= λ _.
          call_hook heartbeat >>= λ _. pure outcome

  abbrev pub note_limit : Outcome → Run W Hash → Run W Hash
  note_limit outcome s = record s { limited = s.limited || outcome.oom_killed }

  abbrev pub time_out : Run W Hash → Run W Hash
  time_out s = record s { status = timed_out; result = infrastructure_failed }

  unfoldable pub check_install : Outcome → Action W Hash (Unit {0})
  check_install outcome s =
      if outcome.timed_out
      then (err (other_error (codes "Installation command timed out.")), time_out s)
      else if not outcome.succeeded
      then (
        err (other_error (codes "Dependency installation failed before reproduction could begin.")),
        record (note_limit outcome s) { status = completed; result = inconclusive },
      )
      else (ok tt, note_limit outcome s)

  unfoldable pub install_all : List Command → Action W Hash (Unit {0})
  unfolding execute_command check_install
  install_all [] = pure tt
  install_all (command ∷ commands) =
      let rest = install_all commands in
      execute_command command >>= λ outcome. check_install outcome >>= λ _. rest

  unfoldable pub check_reproduction : Outcome → Action W Hash (Unit {0})
  check_reproduction outcome s =
      if outcome.timed_out
      then (
        err (other_error (codes "Reproduction command timed out.")),
        time_out (note_limit outcome s),
      )
      else (ok tt, note_limit outcome s)

  -- One round of the reproduction: whether an exit code was not zero, and the output.
  unfoldable pub reproduce_once : List Command → Bool → Text → Action W Hash (Bool × Text)
  unfolding execute_command check_reproduction
  reproduce_once [] observed output = pure (observed, output)
  reproduce_once (command ∷ commands) observed output = execute_command command >>= λ outcome.
      check_reproduction outcome >>= λ _.
      reproduce_once commands (observed || nonzero outcome.exit_code) (output ++ outcome.output)

  abbrev pub compared : Bool × Text → Comparison
  compared (observed, output) = record (compare_signature output) {
    matched = (compare_signature output).matched && (not input.require_non_zero_exit || observed);
  }

  unfoldable pub reproduce : ℕ → Action W Hash (Unit {0})
  unfolding reproduce_once
  reproduce zero = pure tt
  reproduce (suc n) =
      let rest = reproduce n in
      reproduce_once input.reproduction_commands false [] >>= λ run.
      modify (λ s. record s { comparisons = s.comparisons ++ compared run ∷ [] }) >>= λ _. rest

  abbrev pub decided : Run W Hash → Run W Hash
  decided s = record s {
    comparison = best s.comparisons;
    result = decide_result (s.limited || s.log.truncated) s.comparisons;
  }

  unfoldable pub install : List Command → Action W Hash (Unit {0})
  unfolding call_hook install_all
  install [] = pure tt
  install (c ∷ cs) = call_hook (status_changed installing) >>= λ _. install_all (c ∷ cs)

  unfoldable pub collect : Action W Hash (Unit {0})
  unfolding call_hook
  collect = call_hook (status_changed collecting) >>= λ _.
      (λ s. settled (env.collect_artifacts s.world) s) >>= λ artifacts.
      modify (λ s. record s { artifacts = some artifacts }) >>= λ _.
      call_hook artifacts_collected >>= λ _. modify (λ s. record s { status = completed })

  -- The `try` block.
  unfoldable pub attempt : Action W Hash (Unit {0})
  unfolding call_hook install reproduce collect
  attempt = call_hook (status_changed preparing) >>= λ _.
      (λ s. settled (env.prepare s.world) s) >>= λ _.
      modify (λ s. record s { prepared = true }) >>= λ _. call_hook heartbeat >>= λ _.
      install input.install_commands >>= λ _. call_hook (status_changed reproducing) >>= λ _.
      reproduce input.repeat_count >>= λ _. modify decided >>= λ _. collect

  abbrev pub failed_with : Thrown → Run W Hash → Run W Hash
  failed_with (abort_error text) s = record s {
    status = reason_status (env.abort_reason s.world);
    result = reason_result (env.abort_reason s.world);
  }
  failed_with (policy_violation text) s = record s {
    status = policy_blocked;
    result = policy_blocked;
  }
  failed_with (other_error text) s =
      if is_settled s.status
      then s
      else record s { status = infrastructure_failed; result = infrastructure_failed }

  -- The `catch` block.
  unfoldable pub caught :
      Result Thrown (Unit {0}) × Run W Hash → Result Thrown (Unit {0}) × Run W Hash
  unfolding emit
  caught (ok done, s) = (ok done, s)
  caught (err e, s) = emit (system_source, message e) (failed_with e s)

  abbrev pub verified : Result Thrown Bool → Bool
  verified (ok absent) = absent
  verified (err e) = false

  -- A call whose rejection is ignored.
  abbrev pub ignoring : Action W Hash (Unit {0}) → Run W Hash → Run W Hash
  ignoring m s = (m s).1

  abbrev pub cleaned : Result Thrown Bool × W → Run W Hash → Bool × Run W Hash
  cleaned (r, w) s =
      (verified r, record s { world = w; status = if verified r then s.status else cleanup_failed })

  -- The `finally` block.
  unfoldable pub finish : Run W Hash → Bool × Run W Hash
  unfolding call_hook
  finish s =
      let s1 = ignoring (call_hook (status_changed cleaning)) s in
      let (absent, s2) = cleaned (env.cleanup s1.prepared s1.world) s1 in
      let s3 = ignoring (call_hook (cleanup_completed absent)) s2 in
      (absent, ignoring (call_hook (status_changed s3.status)) s3)

  -- Whether the execution returns or rethrows, whether the cleanup was verified, and the last state.
  unfoldable pub execute : W → Result Thrown (Unit {0}) × (Bool × Run W Hash)
  unfolding attempt caught finish
  execute world = let (r, s) = caught (attempt (first_run world)) in (r, finish s)
