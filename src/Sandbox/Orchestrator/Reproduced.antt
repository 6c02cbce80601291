-- ===== src/Sandbox/Orchestrator/Reproduced.antt =====
-- What it takes for an execution to end as reproduced.
use coder_er.Base.{
  ℕ, ◌+◌, ◌≡◌, ◌≢◌, refl, sym, ap, subst, ◌∙◌, Bool, true, false, ◌||◌, ◌&&◌, Option, none, some,
  List, [], ◌∷◌, length, Text, Result, ok, err, arith, if◌then◌else◌,
}
use coder_er.Sandbox.Logs.{Source, Appended, append, maximum_chunk_bytes}
use coder_er.Sandbox.Orchestrator.{
  Environment, Run, Thrown, Comparison, Input, Hook, AbortReason, settled, call_hook, log_appended,
  emit, install, reproduce, collect, attempt, caught, finish, execute, failed_with, reason_result,
  decide_result, decided, all_matched, none_matched, consistent, first_run, message, system_source,
  status_changed, artifacts_collected, heartbeat, preparing, reproducing, collecting, completed,
  abort_error, policy_violation, other_error, SandboxResult, reproduced, infrastructure_failed,
  is_settled, timeout, other,
}
use coder_er.Sandbox.Orchestrator.Rules.{
  some_killed, Post, Leads, after-Post, settled-Post, IsHarmless, IsCalm, harmless, call_hook-Keeps,
  install-Keeps, reproduce-Leads,
}

module _ {W Hash : Type 0} (env : Environment W) (hash : Source → ℕ → Text → Option Hash → Hash)
    (compare_signature : Text → Comparison) (input : Input) where
  -- The result is the decision on the runs, of which there are as many as asked for.
  abbrev pub IsJudged : Run W Hash → Type 0
  IsJudged s =
      (s.status ≡ completed)
      × (s.result ≡ decide_result (s.limited || s.log.truncated) s.comparisons)
      × (length s.comparisons ≡ input.repeat_count)
      × (some_killed s.commands ≡ true → s.limited ≡ true)

  abbrev IsDecided : Run W Hash → Type 0
  IsDecided s =
      (s.status ≡ infrastructure_failed)
      × (s.result ≡ decide_result (s.limited || s.log.truncated) s.comparisons)
      × (length s.comparisons ≡ input.repeat_count)
      × (some_killed s.commands ≡ true → s.limited ≡ true)

  IsHarmless-decided : (s : Run W Hash) → IsDecided s → IsHarmless s
  IsHarmless-decided s d = (λ h. ap is_settled d.0, λ e. cc (d.0))

  call_hook-IsDecided :
      (h : Hook)
      → Leads IsDecided IsDecided IsHarmless (call_hook env hash compare_signature input h)
  unfolding call_hook
  call_hook-IsDecided h s d =
      settled-Post IsHarmless IsDecided (env.hook h s.world) (record s { trace = h ∷ s.trace })
        (λ w. d) (λ w. IsHarmless-decided s d)

  collect-Leads : Leads IsDecided IsJudged IsHarmless (collect env hash compare_signature input)
  unfolding collect
  collect-Leads s d =
      after-Post IsHarmless IsDecided IsJudged
        (call_hook env hash compare_signature input (status_changed collecting) s) _
        (call_hook-IsDecided (status_changed collecting) s d)
        λ _ s1 d1.
          after-Post IsHarmless IsDecided IsJudged (settled (env.collect_artifacts s1.world) s1) _
            (settled-Post IsHarmless IsDecided (env.collect_artifacts s1.world) s1 (λ w. d1)
              (λ w. IsHarmless-decided s1 d1))
            λ artifacts s2 d2.
              after-Post IsHarmless IsDecided IsJudged
                (call_hook env hash compare_signature input artifacts_collected
                  (record s2 { artifacts = some artifacts }))
                _
                (call_hook-IsDecided artifacts_collected (record s2 { artifacts = some artifacts })
                  d2)
                λ _ s3 d3. (refl, d3.1, d3.2, d3.3)

  decided_lem :
      (s : Run W Hash)
      → IsCalm input.repeat_count s
      → IsDecided (decided env hash compare_signature input s)
  decided_lem s calm = (calm.0, refl, calm.1, calm.2)

  pub attempt-Leads :
      Leads (IsCalm 0) IsJudged IsHarmless (attempt env hash compare_signature input)
  unfolding attempt
  attempt-Leads s calm =
      after-Post IsHarmless (IsCalm 0) IsJudged
        (call_hook env hash compare_signature input (status_changed preparing) s) _
        (call_hook-Keeps env hash compare_signature input 0 (status_changed preparing) s calm)
        λ _ s1 c1.
          after-Post IsHarmless (IsCalm 0) IsJudged (settled (env.prepare s1.world) s1) _
            (settled-Post IsHarmless (IsCalm 0) (env.prepare s1.world) s1 (λ w. c1)
              (λ w. harmless 0 s1 c1))
            λ _ s2 c2.
              after-Post IsHarmless (IsCalm 0) IsJudged
                (call_hook env hash compare_signature input heartbeat
                  (record s2 { prepared = true }))
                _
                (call_hook-Keeps env hash compare_signature input 0 heartbeat
                  (record s2 { prepared = true }) c2)
                λ _ s3 c3.
                  after-Post IsHarmless (IsCalm 0) IsJudged
                    (install env hash compare_signature input input.install_commands s3) _
                    (install-Keeps env hash compare_signature input 0 input.install_commands s3 c3)
                    λ _ s4 c4.
                      after-Post IsHarmless (IsCalm 0) IsJudged
                        (call_hook env hash compare_signature input (status_changed reproducing) s4)
                        _
                        (call_hook-Keeps env hash compare_signature input 0
                          (status_changed reproducing) s4 c4)
                        λ _ s5 c5.
                          after-Post IsHarmless (IsCalm (0 + input.repeat_count)) IsJudged
                            (reproduce env hash compare_signature input input.repeat_count s5) _
                            (reproduce-Leads env hash compare_signature input input.repeat_count 0
                              s5 c5)
                            λ _ s6 c6.
                              collect-Leads (decided env hash compare_signature input s6)
                                (decided_lem s6 (c6.0, omega (arith, c6.1), c6.2))

  reason_result-ne : (r : AbortReason) → reason_result r ≢ reproduced
  reason_result-ne timeout e = cc
  reason_result-ne AbortReason.cancelled e = cc
  reason_result-ne other e = cc

  kept-ne :
      (kept : Bool) (s : Run W Hash)
      → (s.result ≡ reproduced → kept ≡ false)
      → (if kept
          then s
          else record s { status = infrastructure_failed; result = infrastructure_failed }).result
        ≢ reproduced
  kept-ne true s h same = cc (h same)
  kept-ne false s h same = cc

  failed_with-result :
      (e : Thrown) (s : Run W Hash)
      → IsHarmless s
      → (failed_with env hash compare_signature input e s).result ≢ reproduced
  failed_with-result (abort_error text) s harm same =
      reason_result-ne (env.abort_reason s.world) same
  failed_with-result (policy_violation text) s harm same = cc
  failed_with-result (other_error text) s harm same = kept-ne (is_settled s.status) s harm.0 same

  pub emit-same :
      (event : Source × Text) (s : Run W Hash)
      → ((emit env hash compare_signature input event s).1.result ≡ s.result)
        × ((emit env hash compare_signature input event s).1.status ≡ s.status)
  unfolding emit call_hook
  emit-same event s =
      log_appended-same
        (append hash input.maximum_log_bytes (maximum_chunk_bytes none) event.0 event.1 s.log)
    where
      log_appended-same :
          (o : Option (Appended Hash))
          → ((log_appended env hash compare_signature input o s).1.result ≡ s.result)
            × ((log_appended env hash compare_signature input o s).1.status ≡ s.status)
      log_appended-same none = (refl, refl)
      log_appended-same (some ([], (a, rest))) = (refl, refl)
      log_appended-same (some (c ∷ chunks, (a, rest))) = (refl, refl)

  caught-IsJudged :
      (x : Result Thrown (Unit {0}) × Run W Hash)
      → Post IsJudged IsHarmless x
      → (caught env hash compare_signature input x).1.result ≡ reproduced
      → IsJudged (caught env hash compare_signature input x).1
  unfolding caught
  caught-IsJudged (ok done, s) judged same = judged
  caught-IsJudged (err e, s) harm same = absurd (
      failed_with-result e s harm (
        sym
          (emit-same (system_source, message e)
            (failed_with env hash compare_signature input e s)).0
        ∙ same))

  finish-same :
      (s : Run W Hash)
      → let last = (finish env hash compare_signature input s).1 in
        (last.result ≡ s.result)
        × (last.comparisons ≡ s.comparisons)
        × (last.limited ≡ s.limited)
        × (last.commands ≡ s.commands)
        × (last.log ≡ s.log)
  unfolding finish call_hook
  finish-same s = (refl, refl, refl, refl, refl)

  -- Every run matched with one and the same digest, as often as asked for, no recorded command ran
  -- out of memory, and the log is complete.
  abbrev pub IsReproduced : Run W Hash → Type 0
  IsReproduced s =
      (all_matched s.comparisons ≡ true)
      × (consistent s.comparisons ≡ true)
      × (length s.comparisons ≡ input.repeat_count)
      × (some_killed s.commands ≡ false)
      × (s.limited ≡ false)
      × (s.log.truncated ≡ false)

  decide_result-reproduced :
      (limited truncated : Bool) (cs : List Comparison)
      → decide_result (limited || truncated) cs ≡ reproduced
      → (all_matched cs ≡ true) × (consistent cs ≡ true) × (limited ≡ false) × (truncated ≡ false)
  unfolding decide_result
  decide_result-reproduced limited truncated cs h =
      judged_by (all_matched cs) (consistent cs) limited truncated (none_matched cs) h
    where
      judged_by :
          (matched same limited truncated rest : Bool)
          → (if limited || truncated
              then SandboxResult.inconclusive
              else if matched && same
              then reproduced
              else if rest && same
              then SandboxResult.not_reproduced
              else SandboxResult.inconclusive)
            ≡ reproduced
          → (matched ≡ true) × (same ≡ true) × (limited ≡ false) × (truncated ≡ false)
      judged_by matched same limited truncated rest h = ground (arith, h)

  judged-IsReproduced : (s : Run W Hash) → IsJudged s → s.result ≡ reproduced → IsReproduced s
  judged-IsReproduced s (_, judged, counted, noted) same =
      let (matched, equal, free, whole) =
        decide_result-reproduced s.limited s.log.truncated s.comparisons (sym judged ∙ same) in
      (matched, equal, counted, ground (arith, free, noted), free, whole)

  -- An execution ends as REPRODUCED only if as many runs as asked for were compared, all of them
  -- matched with one digest, the outcome of no command that the run recorded, of the installation or
  -- of the reproduction, was that it ran out of memory, and the log is complete, whatever the
  -- provider, the hooks and the abort signal do.
  pub execute-IsReproduced :
      (world : W) {r : Result Thrown (Unit {0})} {absent : Bool} {s : Run W Hash}
      → execute env hash compare_signature input world ≡ (r, (absent, s))
      → s.result ≡ reproduced
      → IsReproduced s
  unfolding execute
  execute-IsReproduced world {s = s} e same =
      let before =
        (caught env hash compare_signature input
          (attempt env hash compare_signature input (first_run world))).1 in
      let last : (finish env hash compare_signature input before).1 ≡ s = ap (λ x. x.1.1) e in
      let judged : IsReproduced before =
        judged-IsReproduced before
          (caught-IsJudged (attempt env hash compare_signature input (first_run world))
            (attempt-Leads (first_run world) (refl, refl, λ h. cc))
            (ap (λ x. x.result) last ∙ same))
          (ap (λ x. x.result) last ∙ same) in
      subst IsReproduced last judged
