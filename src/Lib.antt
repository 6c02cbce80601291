-- ===== src/Lib.antt =====
-- CoderER takes a software incident from its report to a merged repair: it investigates the
-- repository, plans and generates a patch, publishes the approved patch as a draft pull request,
-- watches checks and reviews, and verifies the repair after a human merge. This library models the
-- parts that decide what may happen next.
--
-- Parts and files. Paths are from the repository's root.
--   Publication/Lifecycle, Recovery/Lifecycle, Investigation/Lifecycle and Incident/Lifecycle are the
--   four tables of status changes (packages/publication/src/lifecycle.ts,
--   packages/recovery/src/lifecycle.ts, packages/ai/src/policy.ts, packages/incidents/src/index.ts)
--   with the checks that throw; their Status modules are the enums of packages/contracts/src/index.ts
--   and packages/publication/src/types.ts. `run` of Base/Machine asks for the statuses of a path in
--   turn.
--   Publication/Types and Publication/Checks are the policy, the rows and `evaluateMergeReadiness`
--   (packages/publication/src/types.ts, checks.ts). A blocker's message is a constructor.
--   Publication/StoredReadiness is the readiness that `evaluateAndPersistMergeReadiness` decides from
--   the stored rows (packages/database/src/merge-closure-store.ts).
--   Publication/MergeClosure is `decidePostMergeVerification` (packages/publication/src/merge-closure.ts)
--   and `applyPostMergeVerification` (packages/database/src/merge-closure-store.ts): the rows that the
--   queries return are arguments, and the transaction is a function on the store that may throw.
--   Publication/Bundle, Publication/Patch and Publication/Failures are `verifyPublicationBundle`,
--   `applyFileHunks` and `classifyPublicationFailure` (packages/publication/src/execution.ts);
--   Publication/Patch/Hunks is the loop of `parseUnifiedDiffFiles` that reads the hunks of a file,
--   Publication/Patch/Paths is `normalizePatchPath`, which the paths of a file pass through,
--   and Publication/Patch/Sections the section of one file: its header, the lines before its hunks, and
--   the hunks. Publication/Patch/Files is the loop over the files, on the lines of the diff.
--   Publication/Store is the row of one publication run and what the store's operations write to it
--   (packages/database/src/publication-store.ts): a worker claims the run under a lease, and each later
--   write asserts the lease and checks the change of status by Publication/Lifecycle. What the
--   pipeline's errors are classified as is what `failPublication` writes.
--   Leases is the execution lease of a run: the conditions that the stores put on its two columns, and
--   the protocol that they are meant to follow; Leases/Histories is the interface by which a store is
--   its client, and what follows for any interleaving of operations.
--   Approvals is who may decide, the approval rows and how approvers are counted.
--   Recovery/Store is the row of one recovery run and the operations of its worker, and
--   Recovery/Store/Requests what is asked of it without the lease: cancellation, resumption, revision,
--   the decision on the publication, and cleanup (packages/database/src/recovery-store.ts).
--   Recovery/Store/Commands makes them one type of command.
--   Investigation/Plan, Investigation/Store and Investigation/Store/Plans are treatment plans, the row
--   of one investigation and the decision on its plan
--   (packages/database/src/investigation-store.ts).
--   Sandbox/Logs is the bounded log of a sandbox execution (packages/sandbox/src/logs.ts).
--   Incident/Json and Incident/Chain are the canonical digest and the hash chain of an incident's
--   events (packages/incidents/src/index.ts).
--   Publication/Replay is the guard against repeated webhook deliveries
--   (packages/publication/src/webhook.ts).
--   Judge/Limiter is the limiter of failed logins (apps/web/lib/judge-login-limiter.ts).
--   Security/Permissions and Security/Context are the permissions of the roles and the signed identity
--   of a request (packages/security/src/index.ts), and Security/Requests is the middleware that uses
--   them (apps/api/src/security/request-context.middleware.ts).
--   Sandbox/Orchestrator is one sandbox execution, with its handlers, over an environment of provider,
--   hooks and abort signal (packages/sandbox/src/orchestrator.ts); it writes Sandbox/Logs.
--   Recovery/PatchPolicy is `evaluatePatchPolicy` (packages/recovery/src/policy.ts).
--   Agents/Citations is the check of what a diagnosis and a treatment plan cite
--   (packages/ai/src/citations.ts); Agents/Tools is the tool lists, the default policy and the gateway
--   through which agents call tools (packages/ai/src/policy.ts, packages/ai/src/tools.ts).
--   Base holds the shared helpers, Examples the tests.
--
-- Representation. Numbers are natural numbers; a subtraction that could be negative is written as a
-- comparison. A text that is taken apart is the list of its character codes, any other a string. A
-- `Map` is an association list in insertion order. A thrown error is `err`. SHA-256, `JSON.stringify`
-- and the order of `localeCompare` are parameters. Every loop but three is a structural recursion and
-- total. The loop of Sandbox/Logs runs on fuel, one more than the characters of the text, which is
-- enough since each turn takes a character; the loop of Publication/Patch/Files runs on the number of
-- the lines, and each turn takes a line; the digits of a line number in Agents/Citations run on one more
-- than the number, and each turn divides it by ten.
--
-- Not modelled: HTTP, the GitHub client, the queries of PostgreSQL and the event rows that the stores
-- append, the language models, the sandbox provider, the user interface; the guards of unified diffs
-- against binary data, the webhook processing, the creation of runs, the context that an investigation commits, the
-- command policy of the sandbox, and the sandbox and incident stores.
pub mod Base
pub mod Leases
pub mod Approvals
pub mod Publication
pub mod Recovery
pub mod Investigation
pub mod Incident
pub mod Judge
pub mod Sandbox
pub mod Security
pub mod Agents
pub mod Examples
