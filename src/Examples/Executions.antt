-- ===== src/Examples/Executions.antt =====
-- Sandbox executions in small environments.
use coder_er.Base.{
  ℕ, ◌≡◌, ◌≢◌, refl, Bool, true, false, Option, some, [], ◌∷◌, Text, codes, Result, ok,
}
use coder_er.Sandbox.Logs.{Source, append, append_chunks, take_utf8_prefix, byte_length, char_bytes}
use coder_er.Sandbox.Orchestrator.{
  Environment, Input, Outcome, Comparison, Run, AbortReason, other, reproduced,
  infrastructure_failed, SandboxExecutionStatus, cleanup_failed, execute, attempt, caught, finish,
  call_hook, install, install_all, reproduce, reproduce_once, collect, emit, emit_all, log_appended,
  check_cancelled, execute_command, check_install, check_reproduction, decide_result, Thrown,
}
use coder_er.Sandbox.Orchestrator.Reproduced.{IsReproduced, execute-IsReproduced}
use coder_er.Sandbox.Orchestrator.Cleanup.{IsCleaned, execute-IsCleaned, execute-cancelled}

abbrev outcome : Outcome
outcome = record {
  succeeded = true;
  exit_code = some 1;
  timed_out = false;
  oom_killed = false;
  output = codes "boom";
  events = [];
}

-- Nothing fails; the arguments are whether a cancellation is requested and whether a cleanup succeeds.
abbrev calm_world : Bool → Bool → Environment (Unit {0})
calm_world asked absent = record {
  hook = λ h w. (ok tt, w);
  cancellation_requested = λ w. (ok asked, w);
  is_aborted = λ w. false;
  abort_reason = λ w. other;
  prepare = λ w. (ok tt, w);
  execute = λ c w. (ok outcome, w);
  collect_artifacts = λ w. (ok 2, w);
  cleanup = λ prepared w. (ok absent, w);
}

abbrev hash : Source → ℕ → Text → Option ℕ → ℕ
hash source n text previous = 0

abbrev compare_to : Text → Comparison
compare_to output = record { matched = true; similarity = 10000; observed_digest = output }

abbrev input : Input
input = record {
  install_commands = codes "npm ci" ∷ [];
  reproduction_commands = codes "npm test" ∷ [];
  repeat_count = 2;
  require_non_zero_exit = true;
  maximum_log_bytes = 1000;
}

abbrev ran : Bool → Bool → Result Thrown (Unit {0}) × (Bool × Run (Unit {0}) ℕ)
ran asked absent = execute (calm_world asked absent) hash compare_to input tt

reproduces : (ran false true).1.1.result ≡ reproduced
unfolding execute attempt caught finish call_hook install install_all reproduce reproduce_once
    collect emit_all check_cancelled execute_command check_install check_reproduction decide_result
reproduces = refl

uncleaned : (ran false false).1.1.status ≡ cleanup_failed
unfolding execute attempt caught finish call_hook install install_all reproduce reproduce_once
    collect emit_all check_cancelled execute_command check_install check_reproduction decide_result
uncleaned = refl

-- The hook reports a cancellation, and the signal is not aborted.
late_cancellation : (ran true true).1.1.status ≡ infrastructure_failed
unfolding execute attempt caught finish call_hook install install_all emit log_appended append
    append_chunks take_utf8_prefix byte_length char_bytes check_cancelled execute_command
late_cancellation = refl

execute-IsReproduced_example :
    IsReproduced (calm_world false true) hash compare_to input (ran false true).1.1
execute-IsReproduced_example =
    execute-IsReproduced (calm_world false true) hash compare_to input tt refl reproduces

execute-IsCleaned_example :
    IsCleaned
      (calm_world false false)
      hash
      compare_to
      input
      (ran false false).1.0
      (ran false false).1.1
execute-IsCleaned_example = execute-IsCleaned (calm_world false false) hash compare_to input tt refl

not_cancelled : (w : Unit {0}) → (calm_world true true).abort_reason w ≢ AbortReason.cancelled
not_cancelled w e = cc

execute-cancelled_example : (ran true true).1.1.status ≢ SandboxExecutionStatus.cancelled
execute-cancelled_example =
    execute-cancelled (calm_world true true) hash compare_to input tt not_cancelled refl
