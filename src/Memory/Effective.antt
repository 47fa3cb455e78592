-- ===== src/Memory/Effective.antt =====
-- Which release `retrieve_effective_config` of
-- crates/sdkwork-discovery-storage-memory/src/config.rs takes for each key.
use sdkwork_discovery.Prelude.{
  ◌≡◌, refl, String, Bool, true, false, ◌&&◌, ◌||◌, inl, inr, Option, none, some, List, [], ◌∷◌,
  ◌++◌, not, arith, eq_iff, not,
}
use sdkwork_discovery.Prelude.Lists.{retain, All, All-map, All-append}
use sdkwork_discovery.Prelude.Map.{get, get-insert, get-insert_self}
use sdkwork_discovery.Prelude.Tests.{◌==◌, text_eq, ltb, leb, nat_beq, if◌then◌else◌, Bool-cases}
use sdkwork_discovery.Contract.Error.{ok, Result-cases}
use sdkwork_discovery.Contract.Config.{
  specificity, ConfigRelease, RetrieveEffectiveConfigQuery, EffectiveConfigValue, EffectiveConfig,
}
use sdkwork_discovery.Memory.Store.{MemoryDiscoveryStore}
use sdkwork_discovery.Memory.Config.Read.{
  is_in_scope, effective_value, replaces, fold_release, fold_releases, retrieve_effective_config,
  validate_effective_query,
}
use mathlib.Core.Path.{subst}
use mathlib.Core.Logic.Or
use mathlib.Core.List.{mem-append, append_assoc, append-nil, Mem, mem-cons_self}

-- A value is no less specific than a release, and no older if it is as specific.
abbrev pub dominates : EffectiveConfigValue → ConfigRelease → Bool
dominates v r =
    ltb (specificity r.scope) v.source_specificity
    || (nat_beq (specificity r.scope) v.source_specificity && leb r.revision v.source_revision)

-- What is known of the value of a key after the releases `rs`: without one, no release has the
-- key; otherwise it is the value of one of the releases with the key, and dominates all of these.
abbrev pub IsBest : String → List ConfigRelease → Option EffectiveConfigValue → Type 0
IsBest key rs none = All (λ r. (r.key == key) ≡ false) rs
IsBest key rs (some v) =
    ((r : ConfigRelease) × Mem r rs × (r.key ≡ key) × (v ≡ effective_value r))
    × All (λ r. (not (r.key == key) || dominates v r) ≡ true) rs

skip :
    (key : String) (r : ConfigRelease) (rs : List ConfigRelease) (o : Option EffectiveConfigValue)
    → (r.key == key) ≡ false
    → IsBest key rs o
    → IsBest key (rs ++ r ∷ []) o
skip key r rs none other h = All-append _ rs (r ∷ []) h (other, tt)
skip key r rs (some v) other ((w, m, named, same), h) =
    ((w, mem-append.1 (Or.inl m), named, same), All-append _ rs (r ∷ []) h (ground arith, tt))

dominates_self : (r : ConfigRelease) → dominates (effective_value r) r ≡ true
dominates_self r = ground arith

skip_worse :
    (key : String) (r : ConfigRelease) (rs : List ConfigRelease) (v : EffectiveConfigValue)
    → replaces r (some v) ≡ false
    → IsBest key rs (some v)
    → IsBest key (rs ++ r ∷ []) (some v)
unfolding replaces
skip_worse key r rs v e ((w, m, named, same), h) =
    ((w, mem-append.1 (Or.inl m), named, same), All-append _ rs (r ∷ []) h (ground arith, tt))

choose :
    (key : String) (r : ConfigRelease) (rs : List ConfigRelease) (o : Option EffectiveConfigValue)
    → r.key ≡ key
    → IsBest key rs o
    → IsBest key (rs ++ r ∷ []) (if replaces r o then some (effective_value r) else o)
unfolding replaces
choose key r rs none named h = (
  (r, (mem-append {s = rs}).1 (Or.inr mem-cons_self), named, refl),
  All-append _ rs (r ∷ []) (All-map (λ x other. ground arith) rs h)
      (ground (arith, dominates_self r), tt),
)
choose key r rs (some v) named (w, h) = elim (Bool-cases (replaces r (some v))) [
  | inl e ↦ rw e (
    (r, (mem-append {s = rs}).1 (Or.inr mem-cons_self), named, refl),
    All-append _ rs (r ∷ []) (All-map (λ x below. ground arith) rs h)
        (ground (arith, dominates_self r), tt),
  )
  | inr e ↦ rw e (skip_worse key r rs v e (w, h))
]

-- The loop, with the releases it has passed in front.
fold_release-IsBest :
    (key : String) (r : ConfigRelease) (rs : List ConfigRelease) (c : EffectiveConfig)
    → IsBest key rs (get key c.values)
    → IsBest key (rs ++ r ∷ []) (get key (fold_release r c).values)
unfolding fold_release
fold_release-IsBest key r rs c h = elim (Bool-cases (r.key == key)) [
  | inl e ↦
      let named : r.key ≡ key = (eq_iff r.key key).0 e in
      let chosen : get key (fold_release r c).values
          ≡ (if replaces r (get key c.values) then some (effective_value r) else get key c.values) =
        ground (arith, named, get-insert_self r.key (effective_value r) c.values) in
      rw chosen (choose key r rs (get key c.values) named h)
  | inr e ↦
      let kept : get key (fold_release r c).values ≡ get key c.values =
        ground (arith, get-insert r.key key (effective_value r) c.values) in
      rw kept (skip key r rs (get key c.values) e h)
]

fold_releases-IsBest :
    (key : String) (rs done : List ConfigRelease) (c : EffectiveConfig)
    → IsBest key done (get key c.values)
    → IsBest key (done ++ rs) (get key (fold_releases rs c).values)
unfolding fold_releases
fold_releases-IsBest key [] done c h = rw (append-nil done) h
fold_releases-IsBest key (r ∷ rs) done c h =
    let rest =
      fold_releases-IsBest key rs (done ++ r ∷ []) (fold_release r c)
        (fold_release-IsBest key r done c h) in
    subst (λ l. IsBest key l (get key (fold_releases rs (fold_release r c)).values))
      (append_assoc done (r ∷ []) rs) rest

nothing : (key : String) → IsBest key [] (get key [])
unfolding get
nothing key = tt

-- The value that a query gets for a key is that of a published release of the query's scope with
-- that key, and no such release is more specific, or as specific and of a later revision. A key
-- without a value has no such release.
pub effective-IsBest :
    (s : MemoryDiscoveryStore) (query : RetrieveEffectiveConfigQuery) (c : EffectiveConfig)
    (key : String)
    → retrieve_effective_config s query ≡ ok c
    → IsBest key (retain (is_in_scope query) s.releases) (get key c.values)
unfolding retrieve_effective_config
effective-IsBest s query c key h =
    let rs = retain (is_in_scope query) s.releases in
    let best =
      fold_releases-IsBest key rs [] (record { revision = 0; values = [] }) (nothing key) in
    elim (Result-cases (validate_effective_query query)) [
      | inl (e, f) ↦ absurd (ground (arith, rw (f, retrieve_effective_config) at h))
      | inr (u, f) ↦
          let same : fold_releases rs (record { revision = 0; values = [] }) ≡ c =
            ground (arith, rw (f, retrieve_effective_config) at h) in
          subst (λ x. IsBest key rs (get key x.values)) same best
    ]
