-- ===== src/Lib.antt =====
-- Verification of SDKWork Discovery: the service registry, the configuration store and the event
-- log behind crates/sdkwork-discovery-rpc.
--
-- The program. Instances of services register for a lease, renew it, report a status and leave;
-- clients discover them. Configuration is drafted, published and rolled back, and read as the
-- effective value of each key. Each write takes a revision of the store and leaves an event, which
-- watchers read from a revision on. The control plane checks permission, tenant and policy and
-- hands each call to a store behind three traits; the RPC layer puts a gate of rate limit,
-- degradation and circuit breaker before it.
--
-- The parts and their files.
--   Prelude: lists over the native numbers, maps, texts and their order, a stable sort.
--   Contract: crates/sdkwork-discovery-contract/src. Error, Health, Registry, Config, Event and
--     Context hold the data of error.rs, health_check.rs, registry.rs and context.rs under the
--     names of the source; Discover the label filters, sort orders and the weighted shuffle of
--     registry.rs; Pagination the pages of pagination.rs. Walk, Unordered and Shuffle hold proofs.
--   Memory: crates/sdkwork-discovery-storage-memory/src. Store is the record of store.rs and its
--     counters; Register, Lifecycle, Expire and Reads the operations of registry.rs; Config those
--     of config.rs, with what a query reads in Config.Read; Watch those of watch.rs. A method that
--     takes `&mut self` is a function from the store to an answer and a store, which also comes
--     back beside an error. Call makes each operation that writes a step of a transition system.
--     Snapshot is snapshot.rs. Ids, Leases, Registration, Renewal, Freed, Removal, Evicting, Expiry,
--     Log, Collect, Effective, Replay and Rollback hold proofs; a valid store is one that satisfies
--     Leases.Writes.IsValid.
--   Core: crates/sdkwork-discovery-core/src. Policy has the checks of policy.rs, permissions.rs and
--     tenant_scope.rs; Store the operations that
--     crates/sdkwork-discovery-storage-contract/src asks of a store, as a record, and the in-memory
--     store as one; Plane the control plane of control_plane.rs over any such record. Isolation
--     and Crossing hold proofs.
--   Rpc: crates/sdkwork-discovery-rpc/src. Breaker is circuit_breaker.rs; Resilience is
--     resilience.rs, degradation.rs and stale_read_cache.rs; Health is health.rs, Watch watch.rs,
--     Probes health_probes.rs, Token service_token.rs, Context context.rs and Status error.rs. Keys
--     and Actor are actor.rs: Actor has the state, the commands and what all writes and all reads
--     have in common, Actor.Dispatch the handling of each command over any store, Actor.Run the
--     timers and the loop, Actor.Trace which calls of the store each message
--     stands for. Correlation is the rest of context.rs. Codec is codec.rs: Codec.Proto has
--     the messages of src/proto, Codec.Fields the checks of fields, Codec.Requests the commands and
--     Codec.Responses the answers. Service has the unary methods of services.rs; Stream the task of
--     a watch stream, Stream.Watch the two kinds of stream and Stream.Open the requests for them.
--     Stream.Cases, Order, Gauge, Sent, Complete and Permits, Codec.RoundTrip, Validated and
--     Admitted, Tenancy, Opening, Probing, Gate, Verified, Callers, Codes, Published and the other
--     children of Actor hold proofs.
--   Tests: concrete inputs.
--
-- Conventions. A `u64` counter wraps around at 2 ^ 64, as in a release build, and `checked_add` and
-- `checked_mul` are tests against 2 ^ 64 - 1; theorems on histories of calls bound the numbers that
-- the calls take; the `u32` counters of the probes wrap around too. Other machine numbers are only
-- compared or added far below their bounds. A
-- `HashMap` is an association list with one entry for each key, whose order stands for the
-- iteration order. The clock is the argument that the source passes, or for `Instant::now` one
-- that is added. The loop of the weighted shuffle runs on fuel, one round for each instance, which
-- is all there is to take; everything else is structural recursion.
--
-- Parameters. The hash of a configuration value, Rust's `DefaultHasher`, the parsers of JSON and
-- TOML, base64, the check of a signature, the encoders and decoders of JSON, the answer of a network
-- probe, the `Debug` text of an option, and the answer of the token bucket (floating point) are
-- arguments. Channels are left out: the actor handles a list of messages, its answers are results,
-- and what it publishes is a list of events. The channel of a watch stream to its client is a test
-- that says whether the client takes the next item; what wakes a stream is a list, and what others
-- do to the runtime between two of its requests is a function.
--
-- Not modelled. The stores on PostgreSQL and Redis, the RPC server and manifest, metrics, and the
-- loading of the configuration: they are text of other languages, or network and file access.
pub mod Prelude
pub mod Contract
pub mod Memory
pub mod Core
pub mod Rpc
mod Tests
