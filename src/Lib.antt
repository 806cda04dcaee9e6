-- ===== src/Lib.antt =====
-- Fathomline: the parts of the Fathom storage catalogue that decide who may act, what is done to
-- files, and what is left on the record.
--
-- Auth (src/fathom/auth) is the capability matrix, the scope of a principal, and the sessions and
-- the grants of the users. Every destructive request passes it before anything else happens.
-- Audit (src/fathom/core/audit.py) is the hash-chained log. A builder links each record to the one
-- before; `verify_chain` checks a log. Audit/Store (src/fathom/core/audit_store.py) keeps it in a table
-- that several writers append to, with signed checkpoints.
-- Remediation is the write path (src/fathom/core/remediation and src/fathom/agent/actor). The core
-- builds a plan (Plan), the orchestrator logs the intent, signs a job and sends it (Orchestrator,
-- Job, Signing), which waits in a queue until the agent polls (JobQueue); the actor's listener
-- verifies the job on every axis and spends its nonce (Listener, Signing, Nonce), checks
-- the plan for drift (Planner, Dispatch), and acts on each item through a descriptor of
-- its directory (Executor, Recheck, Mutation), with the record of the intent first on its log.
-- The records come back and are spliced into the chain of the core.
-- Coordinator (src/fathom/core/scan_coordinator.py) hands out the leases that keep heavy scans apart;
-- Coordinator/Requests has requests that are under way at the same time.
-- Paths (src/fathom/security/paths.py, winpaths.py) is the check of every path that enters a plan or a
-- configuration; Paths/Scope has the scopes of an agent's configuration.
-- Catalogue (src/fathom/core) has the totals of directories (Rollup), the delta of an agent with its
-- feed of changes (Incremental), and the risk class of a path that a plan touches (RiskClass).
-- Preview (src/fathom/preview) has the signed grant by which an agent serves one file, and the cache of
-- renderings.
-- Suitability (src/fathom/core/suitability.py) rates what a host can run.
-- Dedup (src/fathom/core/dedup.py) finds the groups of equal files that plans are built from, and
-- Dedup/Provider those with one hash that a cloud provider attests, for display.
--
-- How the code corresponds to the files:
--   auth/principal.py                   Auth/Principal
--   auth/scope.py                       Auth/Scope
--   auth/sessions.py, auth/mfa.py       Auth/Sessions
--   auth/store.py                       Auth/Store
--   core/audit.py                       Audit
--   core/audit_store.py                 Audit/Store
--   core/rollup.py                      Catalogue/Rollup
--   core/incremental.py, core/ingest.py Catalogue/Incremental
--   core/riskclass.py                   Catalogue/RiskClass
--   core/suitability.py                 Suitability
--   core/scan_coordinator.py            Coordinator, with its statements one by one in
--                                       Coordinator/Requests
--   core/dedup.py                       Dedup
--   core/provider_dedup.py              Dedup/Provider
--   preview/cache.py                    Preview/Cache
--   preview/grant.py                    Preview/Grant
--   security/paths.py                   Paths, with `safe_path_join` in Paths/Joining
--   security/winpaths.py                Paths/Windows
--   agent/config.py                     Paths/Scope
--   core/remediation/plan.py            Remediation/Plan
--   core/remediation/job.py             Remediation/Job
--   core/remediation/signing.py         Remediation/Signing
--   core/remediation/nonce_store.py     Remediation/Nonce
--   core/remediation/job_queue.py       Remediation/JobQueue
--   core/remediation/orchestrator.py    Remediation/Orchestrator
--   agent/actor/listener.py             Remediation/Listener, with ScanDispatcher
--   agent/actor/dispatch.py             Remediation/Dispatch
--   agent/actor/planner.py              Remediation/Planner
--   agent/actor/executor.py             Remediation/Executor, with `_recheck` in Recheck and
--                                       `_mutate` and `_move` in Mutation
-- Functions keep their names, without a leading underscore. What a method does in several steps
-- that may fail is one function per step; `execute` of the orchestrator is `dispatch_job` here and
-- its `dry_run` is `dispatch_dry_run`.
--
-- State is passed explicitly: an Effect takes the world to an outcome and the world after it, also
-- when it raises. The world of the executor is the file system and its chain; the world of the
-- orchestrator is its chain, the count of the nonces drawn and the jobs sent; the ledger of nonces
-- is a list. A table is the list of its rows, and an UPDATE or INSERT is a function on it. The loop
-- that appends to the audit table makes at most the eight attempts of the source. Texts are lists of
-- byte codes. JSON is a data type whose objects have their keys in
-- the order in which `sort_keys` writes them. `str` of a number is by fuel, one more than the
-- number, which has no more digits than that.
--
-- Parameters: the system calls (Remediation/Os), with what POSIX documents of them in Os/Posix and
-- a file system in memory that obeys it in Os/Memory; the JSON writer and BLAKE3 (Codec); the
-- signature primitives and base64 (Crypto); what the file system says of a path
-- (Places) and the functions of ntpath (NtPath); what the database and the other writers of the audit
-- log do (Database); the key of checkpoints (Seal); the case and blanks of Unicode (Letters); the
-- cipher of the cache (Fernet); the hash of tokens, the text of a size, the runner of a
-- scan; clocks, the source of nonces, sinks and channels.
-- Hypotheses on them (an injective writer, POSIX, a signature that verifies under its own key)
-- are arguments of the theorems that use them, and Audit/Sample and the modules of tests have
-- instances.
--
-- Not modelled: queries, browsing and charts over the catalogue, settings, the concierge, the web
-- front end and the HTTP routers, adapters, the reading agent, passwords, most
-- of which are SQL, I/O or framework glue; logging;
-- the closing of descriptors; the generated columns of the table of leases, and that a transaction
-- hides its changes until it commits (Coordinator/Requests).
pub mod Prelude
pub mod Auth
pub mod Audit
pub mod Remediation
pub mod Coordinator
pub mod Dedup
pub mod Paths
pub mod Catalogue
pub mod Preview
pub mod Suitability
