-- ===== src/Console/Lease/Laws.antt =====
-- src/console_control.rs: when a published console may be left, and what a lease refers to.
use nextcore_efi.Common.{
  Bool, Bool-cases, List, Option, Result, [], ap, arith, err, false, inl, inr, none, ok, refl, some,
  subst, suc, sym, true, ℕ, ◌++◌, ◌+◌, ◌>>=◌, ◌∙◌, ◌∷◌, ◌≡◌,
}
use nextcore_efi.Status.{Status, is_success}
use nextcore_efi.Console.Provider.{locate, text_state, graphics_exists}
use nextcore_efi.Console.Lease.{
  Services, Effect, installs, uninstalls, makes_storage, frees_storage, runs_child, spins, Lease,
  drop_owned, release, is_same, lookup_failure, dropped_with, publish, with_provider, with_existing,
  with_services, acquire, release_interface, after_release, with_lease, lend,
}

-- What the program holds: the storage of a provider, and its published interface.
pub record Held : Type 0 where
  pub stored : Bool
  pub published : Bool

abbrev pub idle : Held
idle = record { stored = false; published = false }

abbrev pub after : Held → List Effect → Held
after h [] = h
after h (makes_storage ∷ log) = after (record h { stored = true }) log
after h (installs i ∷ log) = after (record h { published = true }) log
after h (uninstalls i ∷ log) = after (record h { published = false }) log
after h (frees_storage ∷ log) = after (record h { stored = false }) log
after h (runs_child ∷ log) = after h log
after h (spins ∷ log) = after h log

-- The storage is made once, and freed only if it is there and the interface is not published; the
-- interface is published only with its storage there, and removed only if it is published.
abbrev pub IsSafe : Held → List Effect → Type 0
IsSafe h [] = Unit {0}
IsSafe h (makes_storage ∷ log) = (h.stored ≡ false) × IsSafe (record h { stored = true }) log
IsSafe h (installs i ∷ log) =
    (h.stored ≡ true) × (h.published ≡ false) × IsSafe (record h { published = true }) log
IsSafe h (uninstalls i ∷ log) = (h.published ≡ true) × IsSafe (record h { published = false }) log
IsSafe h (frees_storage ∷ log) =
    (h.stored ≡ true) × (h.published ≡ false) × IsSafe (record h { stored = false }) log
IsSafe h (runs_child ∷ log) = IsSafe h log
IsSafe h (spins ∷ log) = IsSafe h log

-- How often the child runs.
abbrev pub runs_in : List Effect → ℕ
runs_in [] = 0
runs_in (runs_child ∷ log) = suc (runs_in log)
runs_in (_ ∷ log) = runs_in log

abbrev pub both : Bool → Held
both b = record { stored = b; published = b }

-- A log that keeps to the rules, leaves this behind, and has run the child as often.
abbrev pub Leaves : Held → ℕ → List Effect → Type 0
Leaves h n log = IsSafe idle log × (after idle log ≡ h) × (runs_in log ≡ n)

-- Whether storage and interface stay behind an `acquire`: with an owned lease, and for ever.
abbrev pub published_by : Option (Result Status Lease) → Bool
published_by none = true
published_by (some (err e)) = false
published_by (some (ok lease)) = lease.is_owned

-- Whether they stay behind a whole `lend`: only if that never returns.
abbrev pub published_for : Option Bool → Bool
published_for none = true
published_for (some started) = false

dropped-IsSafe :
    (interface : ℕ) (e s : Status)
    → let (result, log) = dropped_with interface e (drop_owned interface s) in
      Leaves (both (published_by result)) 0 log
dropped-IsSafe interface e s = elim (Bool-cases (is_success s)) [
  | inl gone ↦ rw gone ((refl, (refl, refl, (refl, (refl, refl, tt)))), refl, refl)
  | inr kept ↦ rw kept ((refl, (refl, refl, tt)), refl, refl)
]

publish-IsSafe :
    (services : Services)
    → let (result, log) = publish services in Leaves (both (published_by result)) 0 log
publish-IsSafe services = elim (Bool-cases (is_success services.install)) [
  | inr failed ↦ rw failed ((refl, (refl, refl, tt)), refl, refl)
  | inl made ↦ elim (Bool-cases (is_same (locate services.installed) services.address)) [
    | inl seen ↦ rw (made, seen) ((refl, (refl, refl, tt)), refl, refl)
    | inr other ↦
        rw (made, other)
          (dropped-IsSafe services.address (lookup_failure (locate services.installed))
            services.uninstall)
  ]
]

provider-IsSafe :
    (services : Services) (r : Result Status Bool)
    → let (result, log) = with_provider services r in Leaves (both (published_by result)) 0 log
provider-IsSafe services (err e) = ((refl, (refl, refl, tt)), refl, refl)
provider-IsSafe services (ok exists) = publish-IsSafe services

existing-IsSafe :
    (services : Services) (r : Result Status (Option ℕ))
    → let (result, log) = with_existing services r in Leaves (both (published_by result)) 0 log
existing-IsSafe services (err e) = (tt, refl, refl)
existing-IsSafe services (ok (some interface)) = (tt, refl, refl)
existing-IsSafe services (ok none) =
    provider-IsSafe services
      (text_state services.provider.output >>= λ _. graphics_exists services.provider)

services-IsSafe :
    (services : Services) (b : Bool)
    → let (result, log) = with_services services b in Leaves (both (published_by result)) 0 log
services-IsSafe services false = (tt, refl, refl)
services-IsSafe services true = existing-IsSafe services (locate services.existing)

-- `acquire` keeps the storage and the published interface exactly if the lease owns them or the program
-- spins for ever.
pub acquire-IsSafe :
    (services : Services)
    → let (result, log) = acquire services in Leaves (both (published_by result)) 0 log
unfolding acquire
acquire-IsSafe services = services-IsSafe services services.live

after-append : (h : Held) (a b : List Effect) → after h (a ++ b) ≡ after (after h a) b
after-append h [] b = refl
after-append h (makes_storage ∷ a) b = after-append (record h { stored = true }) a b
after-append h (installs i ∷ a) b = after-append (record h { published = true }) a b
after-append h (uninstalls i ∷ a) b = after-append (record h { published = false }) a b
after-append h (frees_storage ∷ a) b = after-append (record h { stored = false }) a b
after-append h (runs_child ∷ a) b = after-append h a b
after-append h (spins ∷ a) b = after-append h a b

IsSafe-append :
    (h : Held) (a b : List Effect) → IsSafe h a → IsSafe (after h a) b → IsSafe h (a ++ b)
IsSafe-append h [] b s k = k
IsSafe-append h (makes_storage ∷ a) b s k =
    (s.0, IsSafe-append (record h { stored = true }) a b s.1 k)
IsSafe-append h (installs i ∷ a) b s k =
    (s.0, s.1, IsSafe-append (record h { published = true }) a b s.2 k)
IsSafe-append h (uninstalls i ∷ a) b s k =
    (s.0, IsSafe-append (record h { published = false }) a b s.1 k)
IsSafe-append h (frees_storage ∷ a) b s k =
    (s.0, s.1, IsSafe-append (record h { stored = false }) a b s.2 k)
IsSafe-append h (runs_child ∷ a) b s k = IsSafe-append h a b s k
IsSafe-append h (spins ∷ a) b s k = IsSafe-append h a b s k

runs_in-append : (a b : List Effect) → runs_in (a ++ b) ≡ runs_in a + runs_in b
runs_in-append [] b = omega arith
runs_in-append (makes_storage ∷ a) b = runs_in-append a b
runs_in-append (installs i ∷ a) b = runs_in-append a b
runs_in-append (uninstalls i ∷ a) b = runs_in-append a b
runs_in-append (frees_storage ∷ a) b = runs_in-append a b
runs_in-append (runs_child ∷ a) b = omega (arith, runs_in-append a b)
runs_in-append (spins ∷ a) b = runs_in-append a b

Leaves-append :
    (h k : Held) (n : ℕ) (a b : List Effect)
    → Leaves h 0 a
    → IsSafe h b
    → after h b ≡ k
    → runs_in b ≡ n
    → Leaves k n (a ++ b)
Leaves-append h k n a b (safe, held, none_run) s e r = (
  IsSafe-append idle a b safe (subst (λ x. IsSafe x b) (sym held) s),
  after-append idle a b ∙ ap (λ x. after x b) held ∙ e,
  omega (arith, runs_in-append a b, none_run, r),
)

-- The child, and a release that starts from what the lease owns.
release-IsSafe :
    (interface : ℕ) (s : Status) (owned : Bool) (log : List Effect)
    → Leaves (both owned) 0 log
    → let (result, all) = after_release log (release_interface interface s owned) in
      Leaves (both (published_for result)) 1 all
release-IsSafe interface s false log l =
    Leaves-append idle idle 1 log (runs_child ∷ []) l tt refl refl
release-IsSafe interface s true log l = elim (Bool-cases (is_success s)) [
  | inl gone ↦ rw gone (
      Leaves-append (both true) idle 1 log (runs_child ∷ uninstalls interface ∷ frees_storage ∷ [])
        l (refl, (refl, refl, tt)) refl refl)
  | inr kept ↦
      rw kept (Leaves-append (both true) (both true) 1 log (runs_child ∷ spins ∷ []) l tt refl refl)
]

-- How often the child runs: once with a lease, and not at all without.
abbrev pub leased : Option (Result Status Lease) → ℕ
leased (some (ok lease)) = 1
leased r = 0

lease-IsSafe :
    (s : Status) (r : Option (Result Status Lease)) (log : List Effect)
    → Leaves (both (published_by r)) 0 log
    → let (result, all) = with_lease s (r, log) in
      Leaves (both (published_for result)) (leased r) all
unfolding release
lease-IsSafe s none log l = l
lease-IsSafe s (some (err e)) log l = l
lease-IsSafe s (some (ok lease)) log l = release-IsSafe lease.interface s lease.is_owned log l

-- The child runs once if the console is leased, and not at all otherwise. The storage of a provider is
-- freed only while it is there and its interface is not published. Control returns only with the
-- interface of this program removed and its storage freed; the only other outcome is to spin for ever
-- with both kept.
pub lend-IsSafe :
    (services : Services)
    → let (result, log) = lend services in
      IsSafe idle log
      × (after idle log ≡ both (published_for result))
      × (runs_in log ≡ leased (acquire services).0)
unfolding lend
lend-IsSafe services =
    lease-IsSafe services.uninstall (acquire services).0 (acquire services).1
      (acquire-IsSafe services)
