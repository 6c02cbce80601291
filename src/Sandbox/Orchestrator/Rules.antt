-- ===== src/Sandbox/Orchestrator/Rules.antt =====
-- Rules for the steps of a sandbox execution: what holds after a return, and after a throw.
use coder_er.Base.{
  ℕ, zero, suc, ◌+◌, ◌≡◌, ◌≢◌, ap, subst, Bool, true, false, not, ◌||◌, Option, none, some, List,
  [], ◌∷◌, ◌++◌, any, length, length-append, Text, Result, ok, err, arith, if◌then◌else◌,
}
use coder_er.Sandbox.Logs.{Source, Appended, append, maximum_chunk_bytes}
use coder_er.Sandbox.Orchestrator.{
  Environment, Run, Action, Thrown, Outcome, Comparison, Input, Command, Hook, after, settled,
  call_hook, log_appended, emit, emit_all, check_cancelled, execute_command, check_install,
  install_all, check_reproduction, reproduce_once, reproduce, install, compared, nonzero,
  status_changed, command_started, command_completed, log_chunks, heartbeat, installing,
  SandboxExecutionStatus, reproduced, infrastructure_failed, is_settled, cancellation, throw, pure,
  modify,
}

-- Whether a recorded command ran out of memory.
abbrev pub some_killed : List (ℕ × Command × Outcome) → Bool
some_killed commands = any (λ c. c.2.oom_killed) commands

some_killed-append :
    (cs : List (ℕ × Command × Outcome)) (c : ℕ × Command × Outcome)
    → some_killed (cs ++ c ∷ []) ≡ (some_killed cs || c.2.oom_killed)
some_killed-append [] c = ground arith
some_killed-append (d ∷ cs) c = ground (arith, some_killed-append cs c)

noted :
    (before limited killed now : Bool)
    → now ≡ (before || killed)
    → (before ≡ true → limited ≡ true)
    → now ≡ true
    → (limited || killed) ≡ true
noted before limited killed now e h k = ground (arith, e, h, k)

module _ {W Hash : Type 0} where
  abbrev pub Post :
      {A : Type 0}
      → (Run W Hash → Type 0)
      → (Run W Hash → Type 0)
      → Result Thrown A × Run W Hash
      → Type 0
  Post J R (ok a, s) = J s
  Post J R (err e, s) = R s

  -- From a state with `I` the step returns into one with `J`, or throws into one with `R`.
  abbrev pub Leads : {A : Type 0} → (I J R : Run W Hash → Type 0) → Action W Hash A → Type 0
  Leads I J R m = (s : Run W Hash) → I s → Post J R (m s)

  -- The same for a state that is told together with the value that is returned.
  abbrev pub PostOn :
      {A : Type 0}
      → (A → Run W Hash → Type 0)
      → (Run W Hash → Type 0)
      → Result Thrown A × Run W Hash
      → Type 0
  PostOn J R (ok a, s) = J a s
  PostOn J R (err e, s) = R s

  module _ (R : Run W Hash → Type 0) {A : Type 0} where
    after-PostOn :
        {B : Type 0} (J : A → Run W Hash → Type 0) (K : Run W Hash → Type 0)
        (x : Result Thrown A × Run W Hash) (f : A → Action W Hash B)
        → PostOn J R x
        → ((a : A) → Leads (J a) K R (f a))
        → Post K R (after x f)
    after-PostOn J K (ok a, s) f here next = next a s here
    after-PostOn J K (err e, s) f here next = here

    into-PostOn :
        {B : Type 0} (J : Run W Hash → Type 0) (K : B → Run W Hash → Type 0)
        (x : Result Thrown A × Run W Hash) (f : A → Action W Hash B)
        → Post J R x
        → ((a : A) (s : Run W Hash) → J s → PostOn K R (f a s))
        → PostOn K R (after x f)
    into-PostOn J K (ok a, s) f here next = next a s here
    into-PostOn J K (err e, s) f here next = here

    pub after-Post :
        {B : Type 0} (J K : Run W Hash → Type 0) (x : Result Thrown A × Run W Hash)
        (f : A → Action W Hash B)
        → Post J R x
        → ((a : A) → Leads J K R (f a))
        → Post K R (after x f)
    after-Post J K (ok a, s) f here next = next a s here
    after-Post J K (err e, s) f here next = here

    pub settled-Post :
        (J : Run W Hash → Type 0) (r : Result Thrown A × W) (s : Run W Hash)
        → ((w : W) → J (record s { world = w }))
        → ((w : W) → R (record s { world = w }))
        → Post J R (settled r s)
    settled-Post J (ok a, w) s good bad = good w
    settled-Post J (err e, w) s good bad = bad w

    pub if-Post :
        (J : Run W Hash → Type 0) (test : Bool) (x y : Result Thrown A × Run W Hash)
        → Post J R x
        → Post J R y
        → Post J R (if test then x else y)
    if-Post J true x y hx hy = hx
    if-Post J false x y hx hy = hy

  -- After a throw: where the handler will keep the result it is not REPRODUCED, and the status is not
  -- yet CANCELLED.
  abbrev pub IsHarmless : Run W Hash → Type 0
  IsHarmless s =
      (s.result ≡ reproduced → is_settled s.status ≡ false)
      × (s.status ≢ SandboxExecutionStatus.cancelled)

  -- Before the decision: the status is the first one, `n` runs were compared, and a command that ran
  -- out of memory was noted.
  abbrev pub IsCalm : ℕ → Run W Hash → Type 0
  IsCalm n s =
      (s.status ≡ infrastructure_failed)
      × (length s.comparisons ≡ n)
      × (some_killed s.commands ≡ true → s.limited ≡ true)

  -- The last command is recorded, and its outcome is still to be noted.
  abbrev IsPending : ℕ → Outcome → Run W Hash → Type 0
  IsPending n o s =
      (s.status ≡ infrastructure_failed)
      × (length s.comparisons ≡ n)
      × (some_killed s.commands ≡ true → (s.limited || o.oom_killed) ≡ true)

  abbrev pub Keeps : {A : Type 0} → ℕ → Action W Hash A → Type 0
  Keeps n m = Leads (IsCalm n) (IsCalm n) IsHarmless m

  pub harmless : (n : ℕ) (s : Run W Hash) → IsCalm n s → IsHarmless s
  harmless n s calm = (λ h. ap is_settled calm.0, λ e. cc (calm.0))

  bind :
      {A B : Type 0} (n : ℕ) (m : Action W Hash A) (f : A → Action W Hash B)
      → Keeps n m
      → ((a : A) → Keeps n (f a))
      → Keeps n (λ s. after (m s) f)
  bind n m f first next s calm =
      after-Post IsHarmless (IsCalm n) (IsCalm n) (m s) f (first s calm) next

  bind_on :
      {A : Type 0} (n : ℕ) (m : Action W Hash A) (f : A → Action W Hash Outcome)
      → Keeps n m
      → ((a : A) (s : Run W Hash) → IsCalm n s → PostOn (IsPending n) IsHarmless (f a s))
      → (s : Run W Hash) → IsCalm n s
      → PostOn (IsPending n) IsHarmless (after (m s) f)
  bind_on n m f first next s calm =
      into-PostOn IsHarmless (IsCalm n) (IsPending n) (m s) f (first s calm) next

  asked_or :
      (n : ℕ) (asked : Bool)
      → Keeps n (if asked then throw {W = W} {Hash = Hash} {A = Unit {0}} cancellation else pure tt)
  asked_or n true s calm = harmless n s calm
  asked_or n false s calm = calm

module _ {W Hash : Type 0} (env : Environment W) (hash : Source → ℕ → Text → Option Hash → Hash)
    (compare_signature : Text → Comparison) (input : Input) where
  pub call_hook-Keeps :
      (n : ℕ) (h : Hook)
      → Keeps {W = W} {Hash = Hash} n (call_hook env hash compare_signature input h)
  unfolding call_hook
  call_hook-Keeps n h s calm =
      settled-Post IsHarmless (IsCalm n) (env.hook h s.world) (record s { trace = h ∷ s.trace })
        (λ w. calm) (λ w. harmless n s calm)

  log_appended-Keeps :
      (n : ℕ) (o : Option (Appended Hash))
      → Keeps n (log_appended env hash compare_signature input o)
  unfolding log_appended
  log_appended-Keeps n none s calm = calm
  log_appended-Keeps n (some ([], (a, rest))) s calm = calm
  log_appended-Keeps n (some (c ∷ chunks, (a, rest))) s calm =
      call_hook-Keeps n log_chunks (record s { log = a }) calm

  emit_all-Keeps :
      (n : ℕ) (events : List (Source × Text))
      → Keeps n (emit_all env hash compare_signature input events)
  unfolding emit_all emit
  emit_all-Keeps n [] s calm = calm
  emit_all-Keeps n (event ∷ events) s calm =
      bind n (emit env hash compare_signature input event)
        (λ _. emit_all env hash compare_signature input events)
        (λ s' calm'.
          log_appended-Keeps n
            (append hash input.maximum_log_bytes (maximum_chunk_bytes none) event.0 event.1 s'.log)
            s' calm')
        (λ a. emit_all-Keeps n events) s calm

  check_cancelled-Keeps : (n : ℕ) → Keeps n (check_cancelled env hash compare_signature input)
  unfolding check_cancelled
  check_cancelled-Keeps n s calm =
      if-Post IsHarmless (IsCalm n) (env.is_aborted s.world) _ _ (harmless n s calm) (
        after-Post IsHarmless (IsCalm n) (IsCalm n) (settled (env.cancellation_requested s.world) s)
          _
          (settled-Post IsHarmless (IsCalm n) (env.cancellation_requested s.world) s (λ w. calm)
            (λ w. harmless n s calm))
          λ asked. asked_or n asked)

  call_hook-IsPending :
      (n : ℕ) (o : Outcome) (h : Hook) (s : Run W Hash)
      → IsPending n o s
      → Post (IsPending n o) IsHarmless (call_hook env hash compare_signature input h s)
  unfolding call_hook
  call_hook-IsPending n o h s p =
      settled-Post IsHarmless (IsPending n o) (env.hook h s.world)
        (record s { trace = h ∷ s.trace }) (λ w. p) (λ w. (λ e. ap is_settled p.0, λ e. cc (p.0)))

  -- The hooks that follow a recorded command.
  recorded-IsPending :
      (n k : ℕ) (c : Command) (o : Outcome) (s : Run W Hash)
      → IsPending n o s
      → PostOn (IsPending n) IsHarmless (
          after
            (call_hook env hash compare_signature input (command_completed k c) s)
            λ _ s1. after (call_hook env hash compare_signature input heartbeat s1) λ _. pure o)
  recorded-IsPending n k c o s p =
      into-PostOn IsHarmless (IsPending n o) (IsPending n)
        (call_hook env hash compare_signature input (command_completed k c) s) _
        (call_hook-IsPending n o (command_completed k c) s p)
        λ _ s1 p1.
          into-PostOn IsHarmless (IsPending n o) (IsPending n)
            (call_hook env hash compare_signature input heartbeat s1) _
            (call_hook-IsPending n o heartbeat s1 p1) λ _ s2 p2. p2

  execute_command-IsPending :
      (n : ℕ) (c : Command) (s : Run W Hash)
      → IsCalm n s
      → PostOn (IsPending n) IsHarmless (execute_command env hash compare_signature input c s)
  unfolding execute_command
  execute_command-IsPending n c =
      bind_on n (check_cancelled env hash compare_signature input) _ (check_cancelled-Keeps n) λ _.
        bind_on n (modify (λ s. record s { sequence = s.sequence + 1 })) _ (λ s calm. calm)
          λ _.
            bind_on n
              (λ s. call_hook env hash compare_signature input (command_started s.sequence c) s) _
              (λ s. call_hook-Keeps n (command_started s.sequence c) s)
              λ _.
                bind_on n (λ s. settled (env.execute c s.world) s) _
                  (λ s calm.
                    settled-Post IsHarmless (IsCalm n) (env.execute c s.world) s (λ w. calm)
                      (λ w. harmless n s calm))
                  λ outcome.
                    bind_on n (emit_all env hash compare_signature input outcome.events) _
                      (emit_all-Keeps n outcome.events)
                      λ _ s calm.
                        recorded-IsPending n s.sequence c outcome
                          (record s { commands = s.commands ++ (s.sequence, c, outcome) ∷ [] })
                          (
                            calm.0,
                            calm.1,
                            noted (some_killed s.commands) s.limited outcome.oom_killed _
                                (some_killed-append s.commands (s.sequence, c, outcome)) calm.2,
                          )

  check_install-Leads :
      (n : ℕ) (o : Outcome)
      → Leads
          (IsPending n o)
          (IsCalm n)
          IsHarmless
          (check_install env hash compare_signature input o)
  unfolding check_install
  check_install-Leads n o s calm =
      if-Post IsHarmless (IsCalm n) o.timed_out _ _ (λ e. cc, λ e. cc)
        (if-Post IsHarmless (IsCalm n) (not o.succeeded) _ _ (λ e. cc, λ e. cc) calm)

  install_all-Keeps :
      (n : ℕ) (cs : List Command) → Keeps n (install_all env hash compare_signature input cs)
  unfolding install_all
  install_all-Keeps n [] s calm = calm
  install_all-Keeps n (c ∷ cs) s calm =
      after-PostOn IsHarmless (IsPending n) (IsCalm n)
        (execute_command env hash compare_signature input c s)
        (λ o s'.
          after (check_install env hash compare_signature input o s')
            λ _. install_all env hash compare_signature input cs)
        (execute_command-IsPending n c s calm)
        λ o s' p.
          after-Post IsHarmless (IsCalm n) (IsCalm n)
            (check_install env hash compare_signature input o s') _ (check_install-Leads n o s' p)
            λ _. install_all-Keeps n cs

  pub install-Keeps :
      (n : ℕ) (cs : List Command) → Keeps n (install env hash compare_signature input cs)
  unfolding install
  install-Keeps n [] s calm = calm
  install-Keeps n (c ∷ cs) s calm =
      bind n (call_hook env hash compare_signature input (status_changed installing))
        (λ _. install_all env hash compare_signature input (c ∷ cs))
        (call_hook-Keeps n (status_changed installing)) (λ _. install_all-Keeps n (c ∷ cs)) s calm

  check_reproduction-Leads :
      (n : ℕ) (o : Outcome)
      → Leads
          (IsPending n o)
          (IsCalm n)
          IsHarmless
          (check_reproduction env hash compare_signature input o)
  unfolding check_reproduction
  check_reproduction-Leads n o s calm =
      if-Post IsHarmless (IsCalm n) o.timed_out _ _ (λ e. cc, λ e. cc) calm

  reproduce_once-Keeps :
      (n : ℕ) (cs : List Command) (observed : Bool) (output : Text)
      → Keeps n (reproduce_once env hash compare_signature input cs observed output)
  unfolding reproduce_once
  reproduce_once-Keeps n [] observed output s calm = calm
  reproduce_once-Keeps n (c ∷ cs) observed output s calm =
      after-PostOn IsHarmless (IsPending n) (IsCalm n)
        (execute_command env hash compare_signature input c s) _
        (execute_command-IsPending n c s calm)
        λ o s' p.
          after-Post IsHarmless (IsCalm n) (IsCalm n)
            (check_reproduction env hash compare_signature input o s') _
            (check_reproduction-Leads n o s' p)
            λ _. reproduce_once-Keeps n cs (observed || nonzero o.exit_code) (output ++ o.output)

  -- Each round adds one comparison.
  pub reproduce-Leads :
      (k n : ℕ)
      → Leads (IsCalm n) (IsCalm (n + k)) IsHarmless (reproduce env hash compare_signature input k)
  unfolding reproduce
  reproduce-Leads zero n s calm = (calm.0, omega (arith, calm.1), calm.2)
  reproduce-Leads (suc k) n s calm =
      after-Post IsHarmless (IsCalm n) (IsCalm (n + suc k))
        (reproduce_once env hash compare_signature input input.reproduction_commands false [] s) _
        (reproduce_once-Keeps n input.reproduction_commands false [] s calm)
        λ run s' calm'.
          subst
            (λ m. Post (IsCalm m) IsHarmless (
              reproduce env hash compare_signature input k (record s' {
                comparisons = s'.comparisons ++ compared env hash compare_signature input run ∷ [];
              })))
            (omega arith)
            (reproduce-Leads k (suc n)
              (record s' {
                comparisons = s'.comparisons ++ compared env hash compare_signature input run ∷ [];
              })
              (
                calm'.0,
                omega (
                  arith,
                  calm'.1,
                  length-append s'.comparisons (compared env hash compare_signature input run ∷ []),
                ),
                calm'.2,
              ))
