-- ===== src/Console/Runs.antt =====
-- Runs of src/console_control.rs: a text mode of 80 columns, a lease that is removed, and nested events.
use nextcore_efi.Common.{
  All, [], arith, false, length, none, refl, some, true, ◌<◌, ◌^◌, ◌∷◌, ◌≡◌, ◌≤◌,
}
use nextcore_efi.Status.{success, not_found}
use nextcore_efi.Console.Provider.{
  Lookup, Output, Provider, pos, Pointers, text_state, graphics_exists, classify_lookup, get_mode,
  set_mode,
}
use nextcore_efi.Console.Provider.Laws.{Answers, get_mode-Answers}
use nextcore_efi.Console.Lease.{
  Services, installs, uninstalls, makes_storage, frees_storage, runs_child, spins, acquire, release,
  lend,
}
use nextcore_efi.Console.Lease.Laws.{
  IsSafe, idle, after, both, runs_in, leased, published_for, lend-IsSafe,
}
use nextcore_efi.Console.Telemetry.{
  max_events, Events, event, none_more, then_event, log_event, log_events, line_of, write_pieces,
}
use nextcore_efi.Console.Telemetry.Laws.{IsLine, sizes, log_events_bounds}

abbrev absent : Lookup
absent = record { status = not_found; found = 0 }

abbrev at_nine : Lookup
at_nine = record { status = success; found = 9 }

abbrev terminal : Output
terminal = record {
  mode = pos 1;
  max_mode = pos 3;
  query_mode = λ index. (success, 80, 25);
  set_mode = λ index. success;
}

abbrev provider : Provider
provider = record { output = some terminal; gop = absent; uga = at_nine }

abbrev pointers : Pointers
pointers = record { mode = true; graphics_exist = true; locked = false }

mode_run :
    get_mode (some provider) pointers
    ≡ (success, record { mode = some 0; graphics_exist = some true; locked = none })
unfolding get_mode text_state graphics_exists classify_lookup
mode_run = refl

get_mode-Answers_example : Answers (some provider) pointers (get_mode (some provider) pointers)
get_mode-Answers_example = get_mode-Answers (some provider) pointers

set_run : set_mode (some provider) 0 ≡ (success, some 1)
unfolding set_mode text_state
set_run = refl

abbrev services : Services
services = record {
  live = true;
  existing = absent;
  provider = provider;
  address = 9;
  install = success;
  installed = at_nine;
  uninstall = success;
}

abbrev refusing : Services
refusing = record services { uninstall = not_found }

lend_run :
    lend services
    ≡ (some true, makes_storage ∷ installs 9 ∷ runs_child ∷ uninstalls 9 ∷ frees_storage ∷ [])
unfolding lend acquire release text_state graphics_exists classify_lookup
lend_run = refl

refusing_run : lend refusing ≡ (none, makes_storage ∷ installs 9 ∷ runs_child ∷ spins ∷ [])
unfolding lend acquire release text_state graphics_exists classify_lookup
refusing_run = refl

lend-IsSafe_example :
    IsSafe idle (lend refusing).1
    × (after idle (lend refusing).1 ≡ both (published_for (lend refusing).0))
    × (runs_in (lend refusing).1 ≡ leased (acquire refusing).0)
lend-IsSafe_example = lend-IsSafe refusing

-- Two events, and one during the write of the first.
abbrev three_events : Events
three_events =
    then_event
      (event ((65 ∷ []) ∷ (66 ∷ []) ∷ []) (then_event (event ((67 ∷ []) ∷ []) none_more) none_more))
      (then_event (event ((68 ∷ []) ∷ []) none_more) none_more)

three_lines :
    (log_events (record { events = 0; logging = false }) three_events).1
    ≡ (65 ∷ 66 ∷ 13 ∷ 10 ∷ []) ∷ (68 ∷ 13 ∷ 10 ∷ []) ∷ []
unfolding log_events log_event line_of write_pieces
three_lines = refl

three_sizes : sizes three_events < 2 ^ 64
unfolding sizes
three_sizes = omega arith

log_events_bounds_example :
    let (s, lines) = log_events (record { events = 0; logging = false }) three_events in
    (length lines ≤ max_events) × All IsLine lines × (s.logging ≡ false)
log_events_bounds_example = log_events_bounds three_events three_sizes
