-- ===== src/Lib.antt =====
-- A verification library for modelforge.ai: an inference gateway that authenticates callers, limits
-- and routes their requests, reserves and counts tokens, and bills them.
--
-- The parts, and the files of the repository that they model:
--   Quota     apps/gateway/src/lib/quotaLedger.ts (reserveQuota, commitQuota, releaseQuota) and usage.ts
--             (the transaction of persistUsageEvent). Tables has the rows and the database's operations,
--             Operations and Usage the code, Post what a transaction leaves, Balance, Runs, Keys,
--             Amounts and Cycle the theorems.
--   Routing   packages/platform/src/policy.ts (Policy) and apps/gateway/src/lib/policyRouter.ts (Router);
--             theorems in Eligible, Best, Outcomes and Entitled.
--   Limiter   apps/gateway/src/middleware/quota.ts without Redis (Memory) and with it (Redis); theorems in
--             Counts, Slots, Window and Expiry.
--   Access    apps/gateway/src/middleware/auth.ts (Auth) and quotaCheck.ts (QuotaCheck).
--   Requests  apps/gateway/src/lib/execution.ts (Execution); theorems in Final and Lifecycle.
--   Billing   packages/platform/src/ledger.ts, apps/gateway/src/lib/pricing.ts, packages/billing/src/
--             invoice.ts (Cost), packages/billing/src/index.ts, adapters.ts and bd-payments.ts (Invoice),
--             packages/platform/src/metering.ts (Meter), getActivePricingVersion of pricing.ts (Pricing);
--             theorems on invoices in Totals.
--   Slo       packages/platform/src/slo.ts (Status), percentile and rollupSloWindows of
--             apps/gateway/src/lib/modernJobs.ts (Percentile, Rollup); theorems on credits in Credits and
--             Once.
--   Signing   packages/platform/src/canonical.ts (Canonical), signing.ts (Provider) and isReplay of
--             federation.ts (Replay); Reorder has what the canonical text owes to the order of keys.
--   Engine    apps/gateway/src/engine/llamaServer.ts: its instances, ports and evictions (Instances), the
--             loading and the loss of a model (Loading), the event stream (Stream); theorems in Removal,
--             LeastRecent, Stopping, Eviction, Keeping, Sound, Reach, Overlap, Available and Boundaries.
--   Chat      the messages and the counts of a chat request, packages/engine/src/schema.ts and apps/
--             gateway/src/lib/retrieval.ts (Messages), its errors, packages/engine/src/errors.ts with
--             engine/index.ts, grpc/client.ts and routes/v1.ts (Errors), the chunks of its answer (Answer),
--             and its end, finalizeAndMeter and the catch of routes/v1.ts with lib/queues.ts (Settlement);
--             theorems in Coalesce, Limits, Replies, Metered, Charged and Twice.
--   Retrieval apps/gateway/src/lib/retrieval.ts (Knowledge, Search), rankChunks, diversifyChunks and
--             chunkText of packages/platform/src/rag.ts (Knowledge, Chunking); theorems in Kept, Isolation
--             and Pieces.
--   Voice     apps/gateway/src/lib/voice/diarize.ts and types.ts: turns (Turns), the speakers of segments
--             (Speakers), words and slices (Words, Slices), normalizeTranscript (Segments, Normalize), the
--             workers of transcribePerTurn (Workers), transcribeWithDiarization (Diarize, Transcribe) and
--             toPublicTranscript (Public); theorems in Sorted, Coalesced, Nearest, Covering, Timestamps,
--             Slots, Schedules, Ending, Collapsed, Labels and Outcome. The installs of modelJobs.ts are in
--             Install, with theorems in Installing.
--   Trace     apps/gateway/src/lib/coreTrace.ts: the sessions (Sessions), the recorder (Recorder), claims and
--             sequences of calls (Claims); theorems in Armed, Once and Log.
--   Receipts  apps/gateway/src/lib/receipts.ts (Issue); theorems in Chain, Issued and Ledger.
--   Base      what they share: integers, tests, searches, results. The modules Examples, Chat/Cases and
--             Voice/Jobs run the code on concrete data.
--
-- A request passes Access (who it is, and whether quota is left), the Limiter, Routing (which model), the
-- reservation of Quota, Requests (start and finalization), Retrieval where it asks for knowledge, the
-- Engine, and at its end Chat, which composes the commit or the release of Quota, the finalization of
-- Requests, the usage job and the cache of Access; Billing and Slo read the rows that this leaves.
--
-- How the code is read. Asynchronous functions are functions of the state that they read and write. The
-- database is a record of tables, each a list of rows, and a table's unique columns are what `find` asks
-- for. A transaction that throws leaves the database as it was; `serializable` makes three attempts, as
-- the source does, and between them a `World` lets other clients write and the database abort: nothing is
-- assumed of either where a theorem does not say so. Maps are association lists. Errors are values of
-- `Result`. A bigint is an integer; a number that the source keeps integral is a natural number or an
-- integer, times are milliseconds, and fractions are kept whole by a common unit: cents of usage in
-- millionths (Billing), percentages in parts of a percent (Slo). Hashes, trimming, locale comparison, the
-- redaction of messages, scores of passages and ISO dates are parameters. A text whose code units matter
-- (Base/Units, in Chat, Engine, Retrieval and Voice) is their list, and white space is a test of them. Loops
-- are over lists, over the number of attempts or of ports left, or, in chunkText, on fuel: the number of code
-- units, of which every chunk takes one at least. What the gateway awaits inside a load is a function of
-- the engine that stands for whatever others do meanwhile; the workers of transcribePerTurn go on by
-- events in any order. Times of turns and segments, in seconds in the code, are whole milliseconds, and
-- the ratios that it computes in floating point are exact.
--
-- Not modelled: commands of Redis that fail, a transaction of a usage event that fails, expiry of
-- cache entries, the search for a policy binding (its result is a parameter), the lock of two loads of
-- one model, the reports of the engine, the remote and the gRPC engines, the fields for costs of a
-- usage job, audit events, the scores of passages, prompts, the evaluations and ingestions of
-- modernJobs.ts, the search of huggingFace.ts, the regular expressions of pii.ts, the other HTTP
-- routes, the other files of voice (the speech services, their caches and settings), the workers'
-- loops, the web application and the Rust engine.
pub mod Base
pub mod Quota
pub mod Routing
pub mod Limiter
pub mod Billing
pub mod Slo
pub mod Access
pub mod Requests
pub mod Signing
pub mod Engine
pub mod Chat
pub mod Retrieval
pub mod Voice
pub mod Trace
pub mod Receipts
