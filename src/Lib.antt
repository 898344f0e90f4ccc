-- ===== src/Lib.antt =====
-- Verification of the message workflow, the manual mode, the price execution, the virtual goods,
-- the deduplication of replies, the bargain counter and the quote cache of realxianyu, an
-- assistant for a second-hand market: buyers write to sessions, a worker answers them, a person
-- can take a session over, a bargained price is changed by a job, and the platform reports on
-- orders of virtual goods by callbacks.
--
-- Parts and files (paths from the root of the repository):
--   * src/modules/messages/workflow.py: the folder Workflow. States is WorkflowState and
--     SessionStateMachine; Rows the tables; Store the methods of WorkflowStore on sessions; Jobs
--     those on the job queue; Sla those on SLA events and alerts; Outcomes and Worker are
--     WorkflowWorker.run_once with _handle_quote_nudge, and Forever is its run_forever. Steps is the
--     relation of all interleavings of the store's methods, by which invariants are proved for any
--     number of workers.
--   * src/modules/messages/manual_mode.py: ManualMode, with proofs in ManualMode/Recovery. The worker
--     reads and writes this store, and set_manual_takeover copies its flag to it.
--   * src/modules/orders/price_execution.py: the folder PriceExecution. Decision is
--     decide_target_price; Service is the call of the operations service and _normalize_result;
--     Jobs the tables with create_job, get_job and replay_job; Execute is execute_job. Flows, Calls,
--     Once and Execute/Effects hold proofs.
--   * src/modules/virtual_goods: the folder VirtualGoods. Status is models.py. Rows are the tables of
--     store.py, and Orders, Callbacks with Callbacks/Lease, Exceptions and Mappings its methods on
--     them. Process is VirtualGoodsCallbackService.process of callbacks.py, with Process/Verify (_verify) and
--     Process/Target (_resolve_target_status and the guard against regression); Ingress is
--     ingress.py, which calls it; Scheduler is scheduler.py over any service,
--     with proofs in Scheduler/Counters and Scheduler/Replay. Process/Cases has the
--     rules by which the theorems on process are proved, in Process/Released, OrderSteps, Applied, Again and
--     Honest, and Callbacks/Refine the locks that the callback table implements.
--   * src/integrations/xianguanjia/signing.py: VirtualGoods/Signing.
--   * src/modules/messages/bargain_tracker.py: BargainTracker, with proofs in BargainTracker/Counts; it
--     counts how often a chat has bargained.
--   * src/modules/messages/dedup.py: MessageDedup, with proofs in MessageDedup/Windows and
--     MessageDedup/Answered; it keeps a message from being answered twice.
--   * src/modules/quote/cache.py: QuoteCache, with proofs in QuoteCache/Expiry; quotes are served
--     fresh, then stale, then not at all.
--   * Base holds what the others share: tests, lists, texts, and Table, the list operations that
--     the SQL statements are translated to.
--
-- How the code is modelled:
--   * A store is a record of its tables and a table is the list of its rows in the order of their
--     ids. A method is a function to the new store and its result, one SQL statement after the
--     other: UPDATE is update_where, its rowcount is count_where, DELETE is delete_where, SELECT is
--     select_where or, for one row, find_where. Names of functions are those of the source without
--     a leading underscore. Each method of WorkflowStore is one transaction; errors of SQLite are
--     not modelled.
--   * Each reading of the clock is an argument (now, later), in whole seconds; a pass of the worker
--     has a record of them, and one reading for what it does with a job. The ISO texts of the
--     source have one width and are ordered as the seconds are, except in MessageDedup, which
--     compares two formats and where the texts are modelled (Stamp). The manual mode's float times are
--     numbers of one unit.
--   * Prices are whole cents and rates ten-thousandths; float rounding is a parameter (Floats).
--   * json, sha1, md5, strip, lower and upper are parameters, and so are the message service (Env),
--     the operations service (OperationsService), the service of the scheduler and the notifier. A
--     job's payload is the session that it encodes, and a JSON object is the list of its keys with
--     the texts of their values, "" for a value that Python counts as false.
--   * Exceptions are values: a method that may raise returns a Result next to its store. A violated
--     UNIQUE constraint raises; no other error of SQLite does.
--   * Every function is total and there is no fuel: the loops run over the rows that a SELECT
--     returned or over the sessions that are given.
--   * `process` is a sequence of statements in one call. What other processes do between them is
--     covered for the lease alone, by any sequence of claims, releases and marks.
--
-- Not modelled: the configuration that the constructors read, schema migration, get_transitions,
-- list_order_events, the sending and the texts of notifications, the reports and the replay of
-- src/modules/virtual_goods/service.py, and the other parts of the repository (listing, dashboard,
-- fulfilment and clients of platforms); of quotes only the cache is.
pub mod Base
pub mod ManualMode
pub mod MessageDedup
pub mod Workflow
pub mod PriceExecution
pub mod BargainTracker
pub mod QuoteCache
pub mod VirtualGoods
