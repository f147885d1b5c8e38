-- ===== src/Lib.antt =====
-- Verification of the secure core of the Mama AI backend (Python).
--
-- Every client hands its commands to `MamaEngine.execute`. The engine makes a request, has it
-- assessed by the risk policy, registers it in the task registry, asks the approval registry for
-- permission where the policy wants that, gives the command to the executor, and records the result
-- and publishes events. Tasks can also wait in a durable queue, from which a worker claims them and
-- gives them to the engine; the reconciler repairs the queue at startup.
--
-- Parts and files:
-- - backend/app/core/task.py: Task (`TaskStatus`, `RiskLevel`, `TaskRequest`, `TaskResult`).
-- - backend/app/core/task_registry.py: Task/Record (`TaskRecord`, its transitions), Task/Lifecycle
--   (their diagram), Task/Listing (`list`), Task/Row (`to_dict`, `from_dict`), TaskRegistry (the
--   class, one definition per method), TaskRegistry/Restore (`restore`, `enable_persistence`);
--   TaskRegistry/Rollback, Effect, Invariant, History, Recovery, Lookup and Progress hold the
--   proofs.
-- - backend/app/core/approval_registry.py: Approval (records and grants), Approval/Registry (the
--   class, one definition per method), Approval/Listing (`list`), Approval/Restore (`restore`,
--   `enable_persistence`); Approval/Life, Effect, Grant, Use, Moves, History and Restored
--   hold the proofs.
-- - backend/app/core/risk_policy.py: Risk, Risk/Rules (the rules in their order), Risk/Policy
--   (`assess`), Risk/Strongest (proofs).
-- - backend/app/core/engine.py: Engine (its state and environment), Engine/Steps, Engine/Approve,
--   Engine/Execute (one definition per method and per `try`); Engine/Calm, Executor, Consent,
--   Guard, Once and Runs hold the proofs.
-- - backend/app/database/queue_db.py: Queue (rows and the checks of arguments), Queue/Table (SQL
--   statements and transactions), Queue/Store (one definition per method), Queue/Insert
--   (`enqueue`), Queue/Claim (`claim_next`), Queue/Reconcile (`record_reconciliation`, `list`);
--   Queue/Life, Valid, Effect, Moves, Enqueue, Order, Expire, Claims, Due, Backoff, History, Refine,
--   Lease, Exclusive, Budget, Finite and Free hold the proofs.
-- - backend/app/database/attempt_audit_db.py: Queue/Audit (the log and its queries) and `append` in
--   Queue/Table.
-- - backend/app/core/task_worker.py: Worker (the values of a run) and Worker/Run (`process_next`), on
--   the queue and the engine; Worker/Safe, Next and Release hold the proofs.
-- - backend/app/core/queue_reconciler.py: Reconciler (its state and report), Reconciler/Record
--   (`_reconcile_queue_record`), Reconciler/Pass (`reconcile`); Reconciler/Free and Jobs hold the
--   proofs.
-- - backend/app/middleware/rate_limiter.py: RateLimit (`check_request` and the buckets),
--   RateLimit/Auth (the cooldown after failed authentications); RateLimit/Window, Store, Served
--   and Bound hold the proofs.
-- - Examples: concrete runs.
-- - Prelude, Text (`str.strip`, `str.split`), Result and Exec (exceptions, with or without state),
--   Int, Dict and Newest (the sort of the listings) are shared.
--
-- Correspondence: a method is an action that takes the state of its object and returns the result
-- or the exception beside the new state, so that what was written before a raise is seen. The
-- registries hold their lock while a method reads and writes records, so a method is one step;
-- `restore` takes the lock for its last write only, and is modelled without other threads in
-- between, as is `execute`, which takes no lock of its own. The returned copies are values. The
-- exceptions keep their Python class and the pieces of their message.
--
-- The queue is its two tables; a method is one transaction, which sets both tables back when it
-- raises. Its calls are serialised by `BEGIN IMMEDIATE`, so a history of the queue is a list of
-- calls, each with its own time and audit IDs, by any number of workers. Where SQL leaves the order
-- of rows with equal times open, the model takes the row that was inserted first. The reconciler
-- runs before the worker starts, so its pass is modelled without other calls in between.
--
-- A method of the rate limit store is one step too, under its lock. It reads the clock before it
-- takes the lock; the theorems are about calls whose times are in order.
--
-- Parameters: the attached store (`save_task`, `save_approval`, `list_tasks`, `list_approvals`: any
-- function that may raise and change its own state), the digest of tokens, `re.search`, the
-- executor with the asynchronous wait behind it, and `str`. Readings of the clock, `uuid4` and
-- `secrets.token_urlsafe` are arguments. Times are natural numbers: microseconds for approvals and
-- the queue, and for tasks the texts of `utc_now()`, of which the code only uses the order. A time
-- of the rate limiter is a float, known by its place in the order of the floats; the arithmetic of
-- such times, `math.ceil` included, is a parameter, of which the theorems use only that rounding
-- keeps the order.
--
-- All recursion is structural, on lists of records, rows and rules; there is no fuel.
--
-- Not modelled: the tests of Python types that the model's types rule out, the log lines, the
-- `to_dict` views for clients, the handlers of the event bus (`publish` catches what they raise),
-- and the change that `execute` makes to the caller's own request object. The HTTP interface, the
-- other databases, the schema and its migration, the thread of the worker, the rate limiting
-- middleware above its store, the gesture control and the assistant packages are outside this
-- library.
pub mod Prelude
pub mod Text
pub mod Result
pub mod Exec
pub mod Int
pub mod Dict
pub mod Newest
pub mod Task
pub mod TaskRegistry
pub mod Approval
pub mod Risk
pub mod Engine
pub mod Queue
pub mod RateLimit
pub mod Worker
pub mod Reconciler
pub mod Examples
