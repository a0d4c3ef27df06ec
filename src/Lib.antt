-- ===== src/Lib.antt =====
-- tarsk, a task queue whose supervisor is written in Rust and whose tasks are written in Python.
-- A supervisor keeps a number of slots. Each slot serves one child process, claims jobs from a
-- broker, hands them to the child over a socket and settles what the child answers: an ack after
-- a success, a retry or a dead letter after a failure. A child is replaced when it reaches a limit
-- of memory, of tasks or of lifetime.
--
-- The parts, in crates/tarsk-core/src, and the modules that model them:
--   Base: the names that every module shares: lists and text over native numbers, maps as
--     association lists (Dict), decimal text, signed integers, and the interface of f64 (Float).
--   Broker (broker.rs): NewJob, Delivery and Receipt. Broker.Local is LocalCoordination (take_token,
--     acquire_slot, release_slot, claim_tick), with its rate buckets (Bucket), its concurrency slots
--     (Slots) and its cron ticks (Ticks). Broker.Memory is MemoryBroker (push, claim, settle, requeue,
--     results, revocations); System is its step relation with what its clients hold. Running is the
--     state and error passing of an async fn with `?`. Broker.Amqp is AmqpBroker: its headers
--     (encode, amqp_record_from), the calls of lapin that it makes (Client), Driver (connect, push,
--     claim, retry), Dead (peek, jobs, dead_letter, dead_list, dead_drain) and Results (store_result,
--     get_result, depth). Log is a server that writes every call down; Safe, Ordering, Priority and
--     Draining prove theorems over it; Counting states what a server that answers does, and Tally is
--     one. Broker.Redis is RedisBroker: Claim is push, promote_due and claim with its buffer, Settling
--     ack, requeue, dead_letter and reclaim_expired, Listing the dead letters, depth, results,
--     deduplication, ticks and revocations, Jobs the listing.
--   Cron (cron.rs): parse, civil and matches.
--   Ceiling (lib.rs): per_task_growth, projected_rss, slot_budget, pressure and should_warm.
--   Wire (lib.rs): Frames is read_frame and write_frame; Chain is prepend_result; Wire itself has
--     decode and Directive::read.
--   Metrics (metrics.rs): Metrics::observe and the setters; Exposition is render and escape, Labels a
--     reader of labels in the Prometheus text format.
--   Supervisor (lib.rs): Shared, and the interface BrokerApi of what is asked of a broker. Backoff is
--     backoff_for; Settle is settle, fail_job, advance_chain, keep_result and adopt; Gates and Dispatch
--     are the macro fill! with next_job; Checking is Cfg and check!, Serve the arms of serve_inner
--     and Loop its loop with settle_task; Draining is drain and reap; Slot is spawn_child and the
--     arms of slot, and its Lives the loop of slot; Register is accept_loop; Ticking is the scheduler
--     of supervise_until, Background its revoker and sweeper, Finishing its start and its report;
--     InMemory fills BrokerApi with Broker.Memory, and its Ending is how a job ends there. Ledger
--     counts deliveries: the ones settled, in flight, and waiting to be settled.
--   Console (console.rs): guard, Guard::allows, Request::same_origin and the decision of handle;
--     constant_time_eq, base64 and escape; Reading is read_request, Forms form_value and percent_decode.
--
-- How the code is modelled. A function that changes state takes it and returns the new one. A lock is
-- held for the whole of a step, as in the code. An await is where other tasks may act: a turn of
-- fill! is given what they do to Shared then (Moment), whatever that is. The wake-ups of Notify are
-- no state. What is not in this repository is a parameter: MessagePack (rmpv), f64
-- (Float), the broker behind BrokerApi, the clocks, the readings of /proc. A Duration is in
-- nanoseconds. A machine integer wraps where the code adds to it.
--
-- Fuel. set_bits, the loop of cron.rs, has 65 turns; every other loop is a recursion over a list.
-- fill! has the list of turns that it is given and answers none while it still works.
--
-- The servers of RabbitMQ and Redis are parameters too (AmqpClient, RedisClient); a wait of a claim is
-- the number of passes before its deadline.
--
-- Not modelled: the Postgres driver, whose bodies are SQL; the Lua scripts of the Redis driver
-- (promote, slots and tokens); the choice of a broker by its url; processes, signals and timers,
-- which are arguments (Launch, Ending, Life); the tasks of supervise_until running beside each other,
-- which is one argument there (runs); the pages of the console and its sockets; the transport and
-- the Python binding; the texts of cron errors.
pub mod Base
pub mod Broker
pub mod Cron
pub mod Console
pub mod Ceiling
pub mod Wire
pub mod Metrics
pub mod Supervisor
