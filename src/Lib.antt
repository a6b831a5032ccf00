-- ===== src/Lib.antt =====
-- Verification library of the event queue (package @cap-js-community/event-queue).
--
-- The event queue keeps asynchronous events as rows of a table, and processes them in chunks: a
-- run takes the lock of an event type, selects the rows that are due and marks them as InProgress,
-- hands them to the handler of the application, and writes the statuses that the handler returns.
-- Rows that failed too often are handled apart as exceeded. How many runs an instance does at the
-- same time is bounded by a worker queue with priorities.
--
-- The modules and the code they are about (paths from the repository's root):
--
-- Constants: src/constants.js. Statuses are numbers, as in the code.
-- Database: the event table of db/Event.cds. The data base itself is not code of the repository:
--   EventTable is an interface with the operations the code uses and their laws, and list_table
--   is a table that fulfils it. Rows carry the fields that the modelled code reads or writes.
-- WorkerQueue: src/shared/WorkerQueue.js. The queues of the four priorities and the running
--   promises are a record Queue; addToQueue, #checkForNext, #adjustPriority and the settling of a
--   promise (_executeFunction) are add_to_queue, check_for_next, adjust_priority and settle.
--   Promises are named by numbers. The recursion of #checkForNext has as fuel the number of
--   waiting entries, and each call starts one of them or is the last.
--   Weights, Capacity, Order, Conservation, Reachable and Aging hold the proofs.
-- Lock: src/shared/distributedLock.js. Redis and the lock table are the interfaces of
--   Lock.Stores, which Lock.Memory fulfils; generate_key is _generateKey; acquire_lock_redis,
--   renew_lock_redis, release_lock_redis, acquire_lock_db, renew_lock_db and release_lock_db are
--   the functions of these names. Lock.Instance holds the exported operations (acquireLock,
--   renewLock, setValueWithExpire, releaseLock, checkLockExists, getValue, shutdownHandler) with
--   existingLocks; two instances on the same stores are two records that share them. Times are
--   milliseconds and arguments of the operations.
-- Processor: src/EventQueueProcessorBase.js. Status is the map of statuses (setEventStatus,
--   handleErrorDuringProcessing, #determineAndAddEventStatusToMap) and the checks before it is
--   written; Persist is persistEventStatus, which groups equal entries and updates their rows;
--   Select is getQueueEntriesAndSetToInProgress with #clusterEvents; Retry is a round of selection,
--   handler and handleExceededEvents for one event; EventLock is acquireDistributedLock,
--   #renewDistributedLock and handleReleaseLock; KeepAlive is one run of the timer of
--   continuesKeepAlive, whose transaction commits or is rolled back.
-- LazyCache: src/shared/lazyCache.js. get_set_cb is getSetCb of the expiring cache, a record of what
--   it returns, whether it called back, and the cache after it; fulfilled and rejected are the
--   handlers that setCb adds to a promise.
-- EventScheduler: src/shared/eventScheduler.js. schedule_event and clear_for_tenant are the methods
--   of these names, fire is the handler of a timer; the timers of Node.js are the list armed.
-- Housekeeping: src/housekeeping/EventQueueDeleteEvents.js. process_periodic_event is its
--   processPeriodicEvent, on the table interface of Database.
-- Config: src/config.js. Event is one configuration with its defaults and its validation; EventMap
--   builds the map (set fileContent: file_content), Access reads it, Applications and Names are
--   shouldBeProcessedInThisApplication and normalizeSubType. cron-parser and regular expressions are
--   parameters.
-- Publish: src/publishEvent.js. publish_event is publishEvent on a transaction (Tx), before_commit
--   the handler it registers.
-- Processing: src/processEventQueue.js. Gate is _checkEventIsBlocked and reevaluateShouldContinue,
--   Preparation the loop over the selected events, Transactions processEventMap with isolated
--   transactions, Run processEventQueue with its effects in their order, Periodic
--   processPeriodicEvent with scheduleNextPeriodEvent and handleDuplicatedPeriodicEventEntry. The
--   environment gives a run its rounds one by one, so a run that still has none is still running.
-- PeriodicEvents: src/periodicEvents.js. check_and_insert_periodic_events is
--   checkAndInsertPeriodicEvents on the table interface of Database; Groups, Sorting and Covered
--   hold the proofs. The next date of a cron expression is a parameter.
-- Statistics: src/dbHandler.js and src/shared/eventQueueStats.js. after_create and after_update are
--   the handlers of the table, succeeded those of the end of the transaction; the hashes of Redis
--   are the interface Hashes.
-- Common: src/shared/common.js. limiter has the promises that settle during a wait as an argument
--   of each round; process_chunked_sync has one round more than inputs as fuel, and each round but
--   the last takes an input.
-- Outbox: src/outbox/EventQueueGenericOutboxHandler.js. determine_result_status and process_event
--   give the status tuples for what a handler returned, which Processor.Status collects;
--   publish_followup_events gives the names of the follow-up events of a saga. Clusters has
--   clusterQueueEntries with the answers of the handlers as a function; Answered, Occurrences and Counted hold
--   the proofs.
-- Broadcast: src/redis/redisPub.js. broadcast_event is broadcastEvent; each of its events comes
--   with what it meets, the keys of the locks that exist at its ten tries and whether its
--   publication or its run fails.
-- OpenEvents: src/runner/openEvents.js. get_open_queue_entries is getOpenQueueEntries on the table
--   interface of Database with its GROUP BY (Grouping); the services of CAP are the record App.
-- Runner: src/runner/runner.js. The functions have the names of the source; a run comes with its
--   tenants and with what their contexts, locks and searches answer. Schedule has the start of the
--   runs (_scheduleFunction, _calculateOffsetForFirstRun), Interval src/shared/SetIntervalDriftSafe.js.
-- RedisSub: src/redis/redisSub.js and src/runner/runnerHelper.js. message_handler_process_events is
--   the handler of a message, exec the function that the worker queue runs for it, deliver what all
--   instances do with one message; the key of its lock is made by each instance.
--
-- Prelude has the tests on numbers, the list lemmas and the association lists (JavaScript objects
-- used as maps) that the parts share.
--
-- Not modelled: the transactions of CAP and the clients of Redis, which are third-party code;
-- telemetry, logging and the wiring of services (src/initialize.js, src/shared/env.js), which only
-- call such code; and, of the code that decides something, the contexts and the hooks of the
-- generic outbox handler, the callbacks of its cluster helpers and the wrapping of services
-- (src/outbox), the runs of a single tenant on the table (_singleTenantDb of
-- src/runner/runner.js), the reset of the counters at startup, the contexts of authentication in
-- src/shared/common.js, the mixing of CAP services into the configuration, and the transaction
-- modes that keep or drop a whole chunk.

pub mod Prelude
pub mod Constants
pub mod Database
pub mod WorkerQueue
pub mod Lock
pub mod Processor
pub mod LazyCache
pub mod EventScheduler
pub mod Housekeeping
pub mod Config
pub mod Publish
pub mod Processing
pub mod PeriodicEvents
pub mod Statistics
pub mod Common
pub mod Outbox
pub mod Broadcast
pub mod OpenEvents
pub mod Runner
pub mod RedisSub
