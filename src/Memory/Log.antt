-- ===== src/Memory/Log.antt =====
-- The event log of crates/sdkwork-discovery-storage-memory: its order, and what keeps it.
pub mod Calls
pub mod Steps
pub mod Resume
use sdkwork_discovery.Prelude.{
  ℕ, zero, suc, ◌+◌, ◌%◌, ◌^◌, ◌≤◌, ◌<◌, ◌≡◌, refl, sym, ap, ◌∙◌, Bool, true, false, List, [], ◌∷◌,
  ◌++◌, arith, inl, inr,
}
use sdkwork_discovery.Prelude.Lists.{All, All-append, All-map, retain}
use sdkwork_discovery.Prelude.Tests.{Bool-cases, if◌then◌else◌}
use sdkwork_discovery.Contract.Event.{DiscoveryEvent}
use sdkwork_discovery.Memory.Store.{MemoryDiscoveryStore, u64_mod}

-- Each event has a smaller revision than every later one.
abbrev pub Ascending : List DiscoveryEvent → Type 0
Ascending [] = Unit
Ascending (e ∷ es) = All (λ f. e.revision < f.revision) es × Ascending es

-- The log ascends up to the revision of the store.
pub record IsOrdered (s : MemoryDiscoveryStore) : Type 0 where
  pub ascending : Ascending s.events
  pub bounded : All (λ e. e.revision ≤ s.revision) s.events

Ascending-push :
    (n : ℕ) (es : List DiscoveryEvent) (e : DiscoveryEvent)
    → Ascending es
    → All (λ f. f.revision ≤ n) es
    → n < e.revision
    → Ascending (es ++ e ∷ [])
Ascending-push n [] e h b lt = (tt, tt)
Ascending-push n (f ∷ es) e h b lt =
    (All-append _ es (e ∷ []) h.0 (omega (arith, b.0, lt), tt), Ascending-push n es e h.1 b.1 lt)

-- From `s` to `t` at most `n` revisions are taken, and the log stays ordered.
abbrev pub Logged : ℕ → MemoryDiscoveryStore → MemoryDiscoveryStore → Type 0
Logged n s t = s.revision + n < 2 ^ 64 → IsOrdered s → IsOrdered t × (t.revision ≤ s.revision + n)

pub stays :
    {s t : MemoryDiscoveryStore} (n : ℕ)
    → t.events ≡ s.events
    → t.revision ≡ s.revision
    → Logged n s t
stays {s} {t} n e r room o =
    (record { ascending = rw e o.ascending; bounded = rw (e, r) o.bounded }, omega arith)

pub ticks :
    {s t : MemoryDiscoveryStore}
    → t.events ≡ s.events
    → t.revision ≡ (s.revision + 1) % u64_mod
    → Logged 1 s t
ticks {s} {t} e r room o =
    let n : t.revision ≡ s.revision + 1 = omega arith in
    (
      record {
        ascending = rw e o.ascending;
        bounded = rw (e, n) (All-map (λ f le. omega (arith, le)) s.events o.bounded);
      },
      omega arith,
    )

pub pushes :
    {s t : MemoryDiscoveryStore} (e : DiscoveryEvent)
    → t.events ≡ s.events ++ e ∷ []
    → t.revision ≡ (s.revision + 1) % u64_mod
    → e.revision ≡ (s.revision + 1) % u64_mod
    → Logged 1 s t
pushes {s} {t} e log r er room o =
    let n : t.revision ≡ s.revision + 1 = omega arith in
    (
      record {
        ascending =
            rw log (Ascending-push s.revision s.events e o.ascending o.bounded (omega arith));
        bounded =
            rw (log, n)
              (All-append _ s.events (e ∷ [])
                (All-map (λ f le. omega (arith, le)) s.events o.bounded) (omega arith, tt));
      },
      omega arith,
    )

pub chain :
    (m n : ℕ) {s t u : MemoryDiscoveryStore} → Logged m s t → Logged n t u → Logged (m + n) s u
chain m n f g room o =
    let (ot, le) = f (omega arith) o in let (ou, le2) = g (omega arith) ot in (ou, omega arith)

pub at_most : (m n : ℕ) {s t : MemoryDiscoveryStore} → m ≤ n → Logged m s t → Logged n s t
at_most m n le f room o = let (ot, below) = f (omega arith) o in (ot, omega arith)
