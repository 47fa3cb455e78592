-- ===== src/Contract/Error.antt =====
-- crates/sdkwork-discovery-contract/src/error.rs: errors, results, and their chaining.
use sdkwork_discovery.Prelude.{
  refl, String, Bool, true, false, Option, none, some, ◌≡◌, ◌⊎◌, inr, inl,
}
use sdkwork_discovery.Prelude.Text.{str_append}

pub data DiscoveryError : Type 0 where
  unauthenticated invalid_config invalid_argument not_found : String → DiscoveryError
  already_published permission_denied policy_violation conflict : String → DiscoveryError
  unavailable resource_exhausted : String → DiscoveryError

unfoldable pub kind_string : DiscoveryError → String
kind_string (unauthenticated m) = "unauthenticated"
kind_string (invalid_config m) = "invalid_config"
kind_string (invalid_argument m) = "invalid_argument"
kind_string (not_found m) = "not_found"
kind_string (already_published m) = "already_published"
kind_string (permission_denied m) = "permission_denied"
kind_string (policy_violation m) = "policy_violation"
kind_string (conflict m) = "conflict"
kind_string (unavailable m) = "unavailable"
kind_string (resource_exhausted m) = "resource_exhausted"

-- `Display`
unfoldable pub to_string : DiscoveryError → String
to_string (unauthenticated m) = str_append "unauthenticated: " m
to_string (invalid_config m) = str_append "invalid config: " m
to_string (invalid_argument m) = str_append "invalid argument: " m
to_string (not_found m) = str_append "not found: " m
to_string (already_published m) = str_append "already published: " m
to_string (permission_denied m) = str_append "permission denied: " m
to_string (policy_violation m) = str_append "policy violation: " m
to_string (conflict m) = str_append "conflict: " m
to_string (unavailable m) = str_append "unavailable: " m
to_string (resource_exhausted m) = str_append "resource exhausted: " m

pub data DiscoveryResult {ℓ} (A : Type ℓ) : Type ℓ where
  ok : A → DiscoveryResult A
  err : DiscoveryError → DiscoveryResult A

-- The `?` operator.
infixl 5 ◌>>=◌ ◌>>◌
abbrev pub ◌>>=◌ {ℓ κ} :
    {A : Type ℓ} {B : Type κ} → DiscoveryResult A → (A → DiscoveryResult B) → DiscoveryResult B
ok a >>= f = f a
err e >>= f = err e

abbrev pub ◌>>◌ {ℓ} :
    {B : Type ℓ} → DiscoveryResult (Unit {0}) → DiscoveryResult B → DiscoveryResult B
ok a >> k = k
err e >> k = err e

-- `if !test { return Err(e) }`
abbrev pub ensure : Bool → DiscoveryError → DiscoveryResult (Unit {0})
ensure true e = ok tt
ensure false e = err e

-- `ok_or_else`
abbrev pub ok_or {ℓ} : {A : Type ℓ} → Option A → DiscoveryError → DiscoveryResult A
ok_or none e = err e
ok_or (some a) e = ok a

-- An operation on a state of type `S`: the state comes back beside an error too.
abbrev pub Op {ℓ κ} : Type ℓ → Type κ → Type (ℓ ⊔ κ)
Op S A = S → DiscoveryResult A × S

pub Result-cases {ℓ} :
    {A : Type ℓ} (r : DiscoveryResult A)
    → ((e : DiscoveryError) × (r ≡ err e)) ⊎ ((a : A) × (r ≡ ok a))
Result-cases (ok a) = inr (a, refl)
Result-cases (err e) = inl (e, refl)

-- What a chain that succeeds says of its links.
pub bind-ok {ℓ κ} :
    {A : Type ℓ} {B : Type κ} (m : DiscoveryResult A) (f : A → DiscoveryResult B) (b : B)
    → (m >>= f) ≡ ok b
    → (a : A) × (m ≡ ok a) × (f a ≡ ok b)
bind-ok (ok a) f b h = (a, refl, h)
bind-ok (err e) f b h = cc

pub then-ok {ℓ} :
    {B : Type ℓ} (m : DiscoveryResult (Unit {0})) (k : DiscoveryResult B) (b : B)
    → (m >> k) ≡ ok b
    → (m ≡ ok tt) × (k ≡ ok b)
then-ok (ok u) k b h = (refl, h)
then-ok (err e) k b h = cc

pub ensure-ok : (test : Bool) (e : DiscoveryError) → ensure test e ≡ ok tt → test ≡ true
ensure-ok true e h = refl
ensure-ok false e h = cc

pub ok_injective {ℓ} : {A : Type ℓ} {a b : A} → ok a ≡ ok b → a ≡ b
ok_injective h = cc
