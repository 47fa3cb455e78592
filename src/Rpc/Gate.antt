-- ===== src/Rpc/Gate.antt =====
-- crates/sdkwork-discovery-rpc/src/{resilience,degradation,stale_read_cache}.rs: what the gate lets
-- through, and what the cache of reads serves.
use sdkwork_discovery.Prelude.{
  ℕ, ◌-◌, ◌≡◌, ◌≢◌, refl, String, Bool, true, not, ◌&&◌, arith, inl, inr, eq_iff,
}
use sdkwork_discovery.Prelude.Map.{insert, get-insert, get-insert_self}
use sdkwork_discovery.Prelude.Tests.{leb, if◌then◌else◌, text_eq, Bool-cases}
use sdkwork_discovery.Contract.Error.{DiscoveryError, ok, err, unavailable}
use sdkwork_discovery.Rpc.Resilience.{
  read, write, normal, read_only, RuntimeResilience, gate, record_result, is_storage_failure,
  StaleReadCache, resolve,
}

pub gate-write :
    (acquired : Bool) (now : ℕ) (r : RuntimeResilience)
    → r.degradation ≡ read_only
    → (m : String) × (gate acquired now write r ≡ (err (unavailable m), r))
unfolding gate
gate-write acquired now r h = elim (Bool-cases (r.rate_limit_enabled && not acquired)) [
  | inl e ↦ ("rpc rate limit exceeded", rw (e, gate) refl)
  | inr e ↦ ("discovery runtime is in read-only degradation mode", rw (e, gate) (rw h refl))
]

pub gate-read :
    (now : ℕ) (r : RuntimeResilience)
    → r.degradation ≡ read_only
    → gate true now read r ≡ (ok tt, r)
unfolding gate
gate-read now r h = ground (arith, h)

-- A storage failure degrades the runtime, if it is configured so: after it the gate refuses every
-- write, at any time and whatever the rate limit says, and leaves the runtime as it is; and lets
-- reads through that the rate limit lets through, without asking the breaker. A success ends it.
pub degraded-gate :
    {T : Type 0} (e : DiscoveryError) (v : T) (failed now later : ℕ) (acquired : Bool)
    (r : RuntimeResilience)
    → is_storage_failure e ≡ true
    → r.degradation_config.read_only_on_storage_failure ≡ true
    → ((m : String) × (gate acquired now write (record_result {T = T} failed (err e) r)
          ≡ (err (unavailable m), record_result {T = T} failed (err e) r)))
      × (gate true now read (record_result {T = T} failed (err e) r)
          ≡ (ok tt, record_result {T = T} failed (err e) r))
      × ((record_result later (ok v) (record_result {T = T} failed (err e) r)).degradation ≡ normal)
unfolding gate record_result
degraded-gate {T} e v failed now later acquired r fails on =
    let after = record_result {T = T} failed (err e) r in
    let degraded : after.degradation ≡ read_only = ground (arith, fails, on) in
    (gate-write acquired now after degraded, gate-read now after degraded, refl)

-- After a good read and a later one with another key, a read with the first key that fails on the
-- storage, where stale values may be served, is answered with the value of the good read, if it
-- is no older than the limit, and with its own error otherwise.
pub resolve-stale :
    {T : Type 0} (key other : String) (cached now max_age : ℕ) (v w : T) (serve : Bool)
    (e : DiscoveryError) (c : StaleReadCache T) (at : ℕ)
    → key ≢ other
    → is_storage_failure e ≡ true
    → (resolve key now max_age true
        (err e)
        (resolve other at max_age serve (ok w) (resolve key cached max_age serve (ok v) c).1).1).0
      ≡ (if leb (now - cached) max_age then ok v else err e)
unfolding resolve
resolve-stale key other cached now max_age v w serve e c at apart fails = ground (
  arith,
  fails,
  get-insert other key (at, w) (insert key (cached, v) c),
  get-insert_self key (cached, v) c,
  eq_iff other key,
  apart,
)
