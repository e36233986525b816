-- ===== src/Console/Lease.antt =====
-- `Lease` of src/console_control.rs: the console is found or published, and removed again.
pub mod Laws
use nextcore_efi.Common.{
  Bool, List, Option, Result, [], err, false, if◌then◌else◌, none, not, ok, some, true, ℕ, ◌++◌,
  ◌==◌, ◌>>=◌, ◌∷◌,
}
use nextcore_efi.Status.{Status, is_success, not_ready, device_error}
use nextcore_efi.Console.Provider.{Lookup, locate, Provider, text_state, graphics_exists}

-- What the firmware answers: whether there are Boot Services, the lookup of an existing console, the
-- protocols of a new provider, the address of its interface, the installation, the lookup of what was
-- installed, and the removal.
pub record Services : Type 0 where
  pub live : Bool
  pub existing : Lookup
  pub provider : Provider
  pub address : ℕ
  pub install : Status
  pub installed : Lookup
  pub uninstall : Status

-- The provider's storage is made or freed, the protocol is installed or removed, the child runs, or the
-- program spins for ever.
pub data Effect : Type 0 where
  installs : ℕ → Effect
  uninstalls : ℕ → Effect
  makes_storage frees_storage runs_child spins : Effect

-- `Lease`: the interface, and whether it is of its own provider.
pub record Lease : Type 0 where
  pub interface : ℕ
  pub is_owned : Bool

-- `Drop`: `none` does not return.
abbrev pub drop_owned : ℕ → Status → Option (Unit {0}) × List Effect
drop_owned interface status =
    if is_success status
    then (some tt, uninstalls interface ∷ frees_storage ∷ [])
    else (none, spins ∷ [])

abbrev pub release_interface : ℕ → Status → Bool → Option (Unit {0}) × List Effect
release_interface interface status false = (some tt, [])
release_interface interface status true = drop_owned interface status

-- `release`, which drops the lease.
unfoldable pub release : Lease → Status → Option (Unit {0}) × List Effect
release lease status = release_interface lease.interface status lease.is_owned

abbrev pub is_same : Result Status (Option ℕ) → ℕ → Bool
is_same (ok (some found)) interface = found == interface
is_same r interface = false

-- The failure of the lookup behind the installation.
abbrev pub lookup_failure : Result Status (Option ℕ) → Status
lookup_failure (err e) = e
lookup_failure (ok found) = device_error

-- The end of `acquire` after an early drop of the lease.
abbrev pub dropped_with :
    ℕ → Status → Option (Unit {0}) × List Effect → Option (Result Status Lease) × List Effect
dropped_with interface e (none, log) = (none, makes_storage ∷ installs interface ∷ log)
dropped_with interface e (some _, log) = (some (err e), makes_storage ∷ installs interface ∷ log)

-- `acquire` behind the tests of the provider.
abbrev pub publish : Services → Option (Result Status Lease) × List Effect
publish services =
    if not (is_success services.install)
    then (some (err services.install), makes_storage ∷ frees_storage ∷ [])
    else if is_same (locate services.installed) services.address
    then (
      some (ok (record { interface = services.address; is_owned = true })),
      makes_storage ∷ installs services.address ∷ [],
    )
    else dropped_with services.address (lookup_failure (locate services.installed))
        (drop_owned services.address services.uninstall)

abbrev pub with_provider :
    Services → Result Status Bool → Option (Result Status Lease) × List Effect
with_provider services (err e) = (some (err e), makes_storage ∷ frees_storage ∷ [])
with_provider services (ok exists) = publish services

abbrev pub with_existing :
    Services → Result Status (Option ℕ) → Option (Result Status Lease) × List Effect
with_existing services (err e) = (some (err e), [])
with_existing services (ok (some interface)) =
    (some (ok (record { interface = interface; is_owned = false })), [])
with_existing services (ok none) =
    with_provider services
      (text_state services.provider.output >>= λ _. graphics_exists services.provider)

abbrev pub with_services : Services → Bool → Option (Result Status Lease) × List Effect
with_services services false = (some (err not_ready), [])
with_services services true = with_existing services (locate services.existing)

-- `Lease::acquire`
unfoldable pub acquire : Services → Option (Result Status Lease) × List Effect
acquire services = with_services services services.live

-- `chainload` of src/main.rs from the lease to its release, with the StartImage between them. The Bool is
-- whether the child was started; `none` does not return.
abbrev pub after_release : List Effect → Option (Unit {0}) × List Effect → Option Bool × List Effect
after_release log (none, rest) = (none, log ++ (runs_child ∷ rest))
after_release log (some _, rest) = (some true, log ++ (runs_child ∷ rest))

abbrev pub with_lease :
    Status → Option (Result Status Lease) × List Effect → Option Bool × List Effect
with_lease uninstall (none, log) = (none, log)
with_lease uninstall (some (err e), log) = (some false, log)
with_lease uninstall (some (ok lease), log) = after_release log (release lease uninstall)

unfoldable pub lend : Services → Option Bool × List Effect
lend services = with_lease services.uninstall (acquire services)
