-- ===== src/Lib.antt =====
-- A verification library for Toqar, product analytics for agentic products (packages/*).
--
-- Applications embed the SDK, which posts events to the collector; the collector validates
-- and enriches them and publishes them to a stream; the pipeline's consumer turns the stream
-- into rows of the analytics store. Tenants, their event registry, tracking plans, tokens
-- and source context live in the registry service's store; the command line tool compares a
-- registry file with it and applies the difference. Agents run guarded experiments, and
-- usage is billed by tiers.
--
-- Files and the code that they model:
--   Common, Json: shared names, JSON values, maps with text keys, numbers that are not
--     counts.
--   Registry/Schema, Registry/SeamMap: the schemas of packages/registry/src/tracking-plan.ts
--     and seam-map.ts, as parsers into records and as the JSON that is stored.
--   Registry/Shapes, Registry/Events: what zod does with an object schema, and the schemas of
--     envelope.ts and events.ts as such shapes (toqarEventSchema).
--   Registry/Table, Registry/Store: packages/registry-service/src/store.ts. A table is the
--     list of its rows, each with its tenant, and the SQL statements are functions on it
--     (Registry/Table). A method runs in a transaction: a function of the database that
--     returns a result and the new database, or an error, on which nothing is kept (`Tx`,
--     `committed`). Entries: putEntry, getEntry, listEntries, fingerprint, applyPlan.
--     Tokens: createTenant, issueToken, listTokens, revokeToken, resolveToken. SeamMaps:
--     tenantDek, putSeamMap, getSeamMap, cryptoShredTenant, over the envelope of crypto.ts
--     (Registry/Crypto). Settings: grantAutonomy, getAutonomy, getIngestSettings and its three
--     setters. Runs, Findings, Experiments, Accounts: the remaining methods, on
--     instrumentation runs, findings and deliveries, experiments and verdicts, and on
--     onboarding, billing, the benchmark opt-in, the rollout policy and the audit log.
--     Registry/Taxonomy is taxonomy.ts, Registry/Findings is packages/registry/src/finding.ts,
--     and Registry/Inputs, Requests and Trials hold the schemas of the smaller requests.
--   Registry/Store/Calls, Registry/Store/Isolation: the calls of all tenants in any order,
--     over every method that runs inside `scoped`. Isolation says what it is for a method to be
--     scoped to its tenant, and its children show it of each.
--   Cli/File, Cli/Diff, Cli/Sync: packages/cli/src/file.ts, diff.ts and sync.ts.
--     Cli/Diff/Convergence composes the difference with what a plan does to the registry;
--     Cli/Sync composes the file, the difference and the backend's answers, and Cli/Sync/Pulled
--     a pull, the file that it writes and a later run that reads it.
--   Sdk/Client: packages/sdk/src/client.ts: the queue, delivery with retries, flush.
--   Collector/Sink: packages/collector/src/sink.ts. A publish is two steps around its await,
--     so calls that overlap are sequences of these steps (Collector/Sink/Overlap); NoLoss and
--     Delivery are of calls that follow one another.
--   Collector/Redact: packages/collector/src/redact.ts. Collector/App: the authentication
--     hook and the route /v1/events of packages/collector/src/app.ts, over the sink, the
--     redaction and the event schemas, with the rejection counters; Collector/App/Traces: the
--     route /v1/traces, where the events and the number of unmapped spans that
--     mapResourceSpans (otel.ts) makes of a body are an argument.
--   Pipeline/Transform, Pipeline/Consumer: packages/pipeline/src/transform.ts and the batch
--     handler of redpanda.ts.
--   Experiments/Rollout: packages/experiment-agent/src/rollout.ts. Each answer or failure of
--     a collaborator is chosen by a world that sees the history.
--   Experiments/Sequential, Experiments/Trial, Experiments/Agent:
--     packages/experiments/src/sequential.ts and packages/experiment-agent/src/agent.ts, over a
--     world as in the rollout (Trial).
--   Analysis/Clusters, Analysis/Runs: packages/analysis-agent/src/clusters.ts, whose drafts the
--     schema of findings reads (Clusters/Draft), and packages/analysis/src/runs.ts
--     (`reconstructRun`), whose trajectories the scorers read.
--   Evals/Scorers, Evals/Suite: packages/evals/src/scorers.ts and suite.ts.
--   Billing: the tiers, the plans, the meters and the invoice for completed tasks of
--     packages/billing/src/billing.ts.
--
-- Parameters: the order of strings by localeCompare, the order in which the database
-- returns entries, digests, zod's date and UUID checks, AES-256-GCM with the text that
-- carries a sealed value, JSON.stringify and JSON.parse where their text is stored, random
-- identifiers and keys (arguments of the calls that draw them), whether a broker, an
-- insert, an offset commit or a POST succeeds, which findings the database takes as jsonb,
-- the identities that it draws for audit rows, how a regular expression cuts a text into
-- matches, SHA-256, what `String` and `Number` make of a value that is not a text, the
-- rendering of a number, and numbers that are not counts (the rollout's shares, scores,
-- effects, their logarithm and root), of which only the order's laws are used.
--
-- Bounds and fuel: the SDK's flush takes a number of rounds, and as many as there are queued
-- events are enough where nothing is emitted meanwhile; the rollout's loop is bounded by its
-- number of checks, as in the code. All other functions recur on their data.
--
-- Left out: times and the order by time, the wording of messages, HTTP routing and
-- rendering, the web applications, the SQL of metric definitions, and code that only calls
-- other services. A list row without a time stands in the order in which it was written.
-- The database's constraints that the code relies on (one hash for one token, one row for
-- one event) are hypotheses or follow from the writes. Other refusals of the database,
-- such as of a NUL in a text column, are left out.
pub mod Common
pub mod Json
pub mod Collector
pub mod Experiments
pub mod Registry
pub mod Cli
pub mod Sdk
pub mod Pipeline
pub mod Billing
pub mod Analysis
pub mod Evals
