-- ===== src/Lib.antt =====
-- Verification of runtime-rs, a Rust workspace of service runtime crates. This library models the
-- core of four of them, and proves what their callers rely on.
--
-- The cache crate. A backend is a set of capabilities (Cache.Driver: the traits of
-- cache/src/core/{driver,bulk,leases,fenced}.rs as records of operations over a shared state).
-- Cache.Memory models the process-local backend, cache/src/core/memory_driver.rs: `get`, `set`,
-- `add`, `replace`, `delete`, `exists`, `touch`, `get_many`, `exists_many`, `ttl` and `delete_if`
-- have the names of the source. Its state is the map, a clock and the number of its readings: the
-- clock is any sequence of times, one for each `Instant::now()`, in nanoseconds, so nothing is
-- assumed of it; `horizon` is the first time that the platform's `Instant` cannot hold, where an
-- addition panics. Each call runs whole, as it does under the lock of the map. Cache.Keyspace
-- (cache/src/core/keyspace.rs, scanner.rs) spells the keys of a database for the strategies.
-- Cache.Policy (core/options.rs and part of strategies/aside.rs) resolves leases. Cache.Document
-- (core/document.rs) is the contract that Cache.Retry (retry.rs, middleware.rs) wraps, and that
-- Cache.Strategy (strategies/document.rs) implements over a driver and, where the backend has
-- them, sets (Cache.Sets, core/sets.rs); Cache.Batch (strategies/batch.rs) has its reads over
-- many entries. Cache.Volatile (strategies/volatile.rs) is the strategy that goes straight to a
-- driver. Cache.Indexed (strategies/indexed.rs) adds secondary sets to the Document strategy: an
-- id is filed in the set of each field and value, and a record of its pairs undoes it.
-- Cache.Aside (strategies/aside.rs) reads through a loader: it stores what is loaded in an
-- envelope (Cache.Aside.Envelope) with a deadline, remembers absences, and takes a lock for the
-- load. JSON, the system time, the lock's token and the loader are parameters. `get_or_load`
-- asks for a background refresh of a stale value by `refresh_in_background`, which tells whether a
-- task is started and marks the id; the task runs `refresh` on its own, later.
-- Cache.Flight (strategies/flight.rs) and Cache.Refresher (strategies/refresher.rs), which share
-- and bound Aside's loads, are state machines: every section that runs with no other in between
-- (the locked block of a caller, each stage of a task) is one step, steps of all callers and
-- tasks come in any order, and a panic of the supplied work is a step as well.
-- Cache.Memory.Contract states what the traits promise of a backend, as a store of entries that
-- end by themselves.
--
-- The grpc crate. Grpc.Call (grpc/src/intercept.rs) has calls, replies and the chain of unary
-- interceptors; protobuf reflection (prost-reflect) is a parameter. Grpc.Frame (the same file)
-- has `frame`, `unframe` and `split_path`. Grpc.Idempotency (grpc/src/idempotency/mod.rs,
-- memory.rs) is the interceptor for request ids, over any store and over the memory store; the
-- digest is a parameter. Grpc.Cors (grpc/src/cors.rs) is the layer for cross-origin requests:
-- Policy checks a policy, HeaderMap has what it uses of the http crate's, and Grpc.Cors the layer
-- over any service; header values, URIs and letter cases are parameters.
--
-- The database crate. Database.Arrow models how its Arrow backend finds a page of a table
-- (database/src/arrow/): Key (key.rs) is the order of rows, Block (block.rs, bounds.rs) what the
-- index has of a run of batches and a sidecar of a segment, Index (index.rs, resume.rs) how the
-- blocks of a segment grow and how `read` finds their batches in the file, Search (search.rs) the search of one page, and Seek (seek.rs) the page itself. A
-- row is named by its key, and a predicate is a test of the row that a key names; Heap stands for
-- the standard library's BinaryHeap. In the search of a page the batches that a
-- block covers stand beside it.
--
-- Database.Arrow.Filter (filter.rs, pages.rs) has the evaluation of predicates over JSON values,
-- and the older pages by an offset, which keep the least rows while batches stream in.
-- Database.Ingest (database/src/ingest/) is the batched writer: calls of `write`, `flush` and
-- `close` put commands into a bounded queue, one worker takes them out, launches batches and drains
-- them. Each section that runs with no other in between is one step, and batches in flight end in
-- any order, well or not, or by a panic. Histories (`admitted`, `written`, `lost`) stand beside the
-- state. The backend and the validation of a record are parameters.
--
-- The agents crate. Agents.Combine (agents/src/mcp/combine.rs) is one MCP server that carries
-- several services: the check that no name is declared twice and the routing tables; its Server has
-- `new`, `session` and the requests of a session. The services are rmcp's handlers over a world, and
-- how an inventory is read is a parameter. Agents.Placement (agents/src/placement.rs) sorts services
-- into groups by the address that they need.
--
-- Strings are lists of code points, byte strings lists of numbers. Numbers are unbounded; where
-- the source has a width or saturates, the model says so (`frame_length`, `double`,
-- `checked_add`, `saturating_add`, `has_more`). The offsets of Database.Arrow.Filter wrap at 2^64, as
-- in a build that does not check for overflow. `Retry.loop` runs on fuel; `retry` gives it one more than there are attempts,
-- and each round uses up an attempt. `Batch.chunks_within` makes no more chunks than there are
-- keys, `Decimal.decimal` no more digits than the number and one, `Search.offer_chunks` no more
-- chunks than there are keys. An asynchronous operation is a function of the state to an outcome
-- and a state; what it has written stays when it fails.
--
-- Not modelled: log lines and spans, serialisation, the remote drivers, TLS, sockets and the HTTP
-- services around the interceptors; the network and telemetry crates; of the agents crate A2A and
-- the start of a runtime; of the database crate the files of its Arrow backend, its filters' syntax
-- and the InfluxDB backend.
pub mod Agents
pub mod Base
pub mod Cache
pub mod Database
pub mod Grpc
