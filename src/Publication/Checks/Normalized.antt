-- ===== src/Publication/Checks/Normalized.antt =====
-- Which conclusions of GitHub count as green.
use coder_er.Base.{
  Bool, ◌||◌, if◌then◌else◌, ◌≡◌, true, Option, none, some, Text, lower, arith, list_equality,
  nat_equality, refl,
}
use coder_er.Publication.Types.{NormalizedCheckStatus, check_status_equality}
use coder_er.Publication.Checks.{
  is_text, lower_option, status_accepted, conclusion_status, normalize_github_check,
}

abbrev pub is_green : Text → Bool
is_green c = is_text c "success" || (is_text c "neutral" || is_text c "skipped")

-- The branches of the `switch`, and the tests before it.
branches_green :
    (success failure cancelled timed_out neutral stale : Bool)
    → status_accepted (
        if success
        then NormalizedCheckStatus.passed
        else if failure
        then NormalizedCheckStatus.failed
        else if cancelled
        then NormalizedCheckStatus.cancelled
        else if timed_out
        then NormalizedCheckStatus.timed_out
        else if neutral
        then NormalizedCheckStatus.neutral
        else if stale
        then NormalizedCheckStatus.stale
        else NormalizedCheckStatus.running)
      ≡ true
    → (success || neutral) ≡ true
branches_green success failure cancelled timed_out neutral stale h = ground (arith, h)

statuses_green :
    (queued running : Bool) (rest : NormalizedCheckStatus)
    → status_accepted (
        if queued
        then NormalizedCheckStatus.queued
        else if running
        then NormalizedCheckStatus.running
        else rest)
      ≡ true
    → status_accepted rest ≡ true
statuses_green queued running rest h = ground (arith, h)

conclusion_green :
    (conclusion : Option Text)
    → status_accepted (conclusion_status (lower_option conclusion)) ≡ true
    → (c : Text) × (conclusion ≡ some c) × (is_green (lower c) ≡ true)
unfolding conclusion_status
conclusion_green none h = cc
conclusion_green (some c) h = (
  c,
  refl,
  branches_green (is_text (lower c) "success")
      (is_text (lower c) "failure"
        || is_text (lower c) "action_required"
        || is_text (lower c) "startup_failure")
      (is_text (lower c) "cancelled") (is_text (lower c) "timed_out")
      (is_text (lower c) "neutral" || is_text (lower c) "skipped") (is_text (lower c) "stale") h,
)

-- Whatever status GitHub reports, a check is accepted only if it has a conclusion, and this, its
-- case aside, is success, neutral or skipped.
pub normalize_github_check-green :
    (status : Text) (conclusion : Option Text)
    → status_accepted (normalize_github_check status conclusion) ≡ true
    → (c : Text) × (conclusion ≡ some c) × (is_green (lower c) ≡ true)
unfolding normalize_github_check
normalize_github_check-green status conclusion h = conclusion_green conclusion (
    statuses_green
      (is_text (lower status) "queued"
        || is_text (lower status) "requested"
        || is_text (lower status) "waiting"
        || is_text (lower status) "pending")
      (is_text (lower status) "in_progress" || is_text (lower status) "running")
      (conclusion_status (lower_option conclusion)) h)
