-- ===== src/Console/Telemetry.antt =====
-- `Provider::event` of src/console_control.rs, with the events that firmware may cause while it writes to
-- the serial port.
pub mod Laws
use nextcore_efi.Common.{
  Bool, List, Option, [], false, if◌then◌else◌, leb, length, none, some, true, ℕ, ◌%◌, ◌++◌, ◌+◌,
  ◌^◌, ◌∷◌,
}

abbrev pub line_bytes : ℕ
line_bytes = 256

abbrev pub max_events : ℕ
max_events = 64

-- An event: the pieces that its formatting writes, and the events that come while its line is written.
mutual
  pub data Event : Type 0 where
    event : List (List ℕ) → Events → Event

  pub data Events : Type 0 where
    none_more : Events
    then_event : Event → Events → Events

-- The two atomics of the provider.
pub record State : Type 0 where
  pub events : ℕ
  pub logging : Bool

-- `Buffer::write_str`: what the buffer of 256 bytes holds behind it.
abbrev pub write_str : List ℕ → List ℕ → Option (List ℕ)
write_str held value =
    if leb (length held + length value) line_bytes then some (held ++ value) else none

unfoldable pub write_pieces : List (List ℕ) → List ℕ → Option (List ℕ)
write_pieces [] held = some held
write_pieces (p ∷ ps) held = elim (write_str held p) [
  | none ↦ none
  | some more ↦ write_pieces ps more
]

-- The line of an event, if it fits.
unfoldable pub line_of : List (List ℕ) → Option (List ℕ)
line_of pieces = elim (write_pieces pieces []) [
  | none ↦ none
  | some held ↦ write_str held (13 ∷ 10 ∷ [])
]

-- `events.fetch_add(1)`, which wraps.
abbrev pub counted : State → State
counted s = record s { events = (s.events + 1) % 2 ^ 64 }

abbrev pub with_logging : Bool → State → State
with_logging b s = record s { logging = b }

-- The write of a line, by what the nested events do meanwhile.
abbrev pub wrote : List ℕ → State × List (List ℕ) → State × List (List ℕ)
wrote line (s, lines) = (with_logging false s, line ∷ lines)

-- An event that is counted and not nested; `nested` is what comes while its line is written.
abbrev pub log_line : State → Option (List ℕ) → State × List (List ℕ) → State × List (List ℕ)
log_line s none nested = (with_logging false s, [])
log_line s (some line) nested = wrote line nested

-- An event by the two tests, in their order: 64 events came before, and one is being written.
abbrev pub log_step :
    Bool → Bool → State → Option (List ℕ) → State × List (List ℕ) → State × List (List ℕ)
log_step true busy s line nested = (s, [])
log_step false true s line nested = (s, [])
log_step false false s line nested = log_line s line nested

abbrev pub in_order : State × List (List ℕ) → List (List ℕ) → State × List (List ℕ)
in_order (s, others) first = (s, first ++ others)

-- `event` with a serial port: the state behind it and the lines written, first started first.
unfoldable mutual
  pub log_event : State → Event → State × List (List ℕ)
  log_event s (event pieces nested) =
      let during = log_events (with_logging true (counted s)) nested in
      log_step (leb max_events s.events) s.logging (counted s) (line_of pieces) during

  pub log_events : State → Events → State × List (List ℕ)
  log_events s none_more = (s, [])
  log_events s (then_event e es) =
      let done = log_event s e in let others = log_events done.0 es in in_order others done.1
