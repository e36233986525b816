-- ===== src/Console/Telemetry/Laws.antt =====
-- src/console_control.rs: how many lines the telemetry writes, and which.
use nextcore_efi.Common.{
  All, All-append, Bool, Bool-cases, List, Option, Option-cases, [], ap, arith, false, inl, inr,
  leb, leb→le, leb→lt, length, length-append, min, none, refl, some, subst, sym, true, ℕ, ◌++◌, ◌+◌,
  ◌<◌, ◌^◌, ◌∷◌, ◌≡◌, ◌≤◌,
}
use nextcore_efi.Console.Telemetry.{
  line_bytes, max_events, Event, Events, event, none_more, then_event, State, write_str,
  write_pieces, line_of, counted, with_logging, log_step, log_event, log_events,
}

-- The number of events, the nested ones included.
unfoldable mutual
  pub size : Event → ℕ
  size (event pieces nested) = 1 + sizes nested

  pub sizes : Events → ℕ
  sizes none_more = 0
  sizes (then_event e es) = size e + sizes es

-- A run that was nested in the write of a line: it wrote none, and at most counted its events.
abbrev IsQuiet : State → ℕ → State × List (List ℕ) → Type 0
IsQuiet s n run =
    (run.1 ≡ [])
    × (run.0.logging ≡ true)
    × (s.events ≤ run.0.events)
    × (run.0.events ≤ s.events + n)

IsQuiet-step :
    (full busy : Bool) (s : State) (n : ℕ) (line : Option (List ℕ)) (nested : State × List (List ℕ))
    → busy ≡ true
    → s.logging ≡ true
    → s.events + (1 + n) < 2 ^ 64
    → IsQuiet s (1 + n) (log_step full busy (counted s) line nested)
IsQuiet-step true busy s n line nested h k small = (refl, k, omega arith, omega arith)
IsQuiet-step false true s n line nested h k small = (refl, k, omega arith, omega arith)
IsQuiet-step false false s n line nested h k small = cc

mutual
  unfolding log_event log_events size sizes

  event-IsQuiet :
      (s : State) (e : Event)
      → s.logging ≡ true
      → s.events + size e < 2 ^ 64
      → IsQuiet s (size e) (log_event s e)
  event-IsQuiet s (event pieces nested) h k =
      IsQuiet-step (leb max_events s.events) s.logging s (sizes nested) (line_of pieces)
        (log_events (with_logging true (counted s)) nested) h h k

  events-IsQuiet :
      (s : State) (es : Events)
      → s.logging ≡ true
      → s.events + sizes es < 2 ^ 64
      → IsQuiet s (sizes es) (log_events s es)
  events-IsQuiet s none_more h k = (refl, h, omega arith, omega arith)
  events-IsQuiet s (then_event e es) h k =
      let (none_first, busy, low, high) = event-IsQuiet s e h (omega arith) in
      let s1 = (log_event s e).0 in
      let (none_others, busy', low', high') = events-IsQuiet s1 es busy (omega (arith, high, k)) in
      (
        rw (none_first, none_others) refl,
        busy',
        omega (arith, low, low'),
        omega (arith, high, high'),
      )

-- A line ends with a line break and fits the buffer.
abbrev pub IsLine : List ℕ → Type 0
IsLine line = (length line ≤ line_bytes) × ((held : List ℕ) × (line ≡ held ++ (13 ∷ 10 ∷ [])))

write_str-some :
    (held value line : List ℕ)
    → write_str held value ≡ some line
    → (line ≡ held ++ value) × (length held + length value ≤ line_bytes)
write_str-some held value line h = elim (Bool-cases (leb (length held + length value) line_bytes)) [
  | inl fits ↦
      let same : held ++ value ≡ line = ground arith in
      (sym same, leb→le (length held + length value) line_bytes fits)
  | inr over ↦ absurd (ground arith)
]

line_of-IsLine : (pieces : List (List ℕ)) (line : List ℕ) → line_of pieces ≡ some line → IsLine line
unfolding line_of
line_of-IsLine pieces line h = elim (Option-cases (write_pieces pieces [])) [
  | inl none_left ↦ absurd (ground arith)
  | inr (held, made) ↦
      let k : write_str held (13 ∷ 10 ∷ []) ≡ some line = ground arith in
      let (joined, fits) = write_str-some held (13 ∷ 10 ∷ []) line k in
      (omega (arith, fits, ap length joined, length-append held (13 ∷ 10 ∷ [])), (held, joined))
]

-- Lines that are written outside of any other: no more than the counter leaves of the 64.
abbrev Bounded : State → ℕ → State × List (List ℕ) → Type 0
Bounded s n run =
    (run.0.logging ≡ false)
    × (s.events ≤ run.0.events)
    × (run.0.events ≤ s.events + n)
    × (length run.1 + min max_events s.events ≤ min max_events run.0.events)
    × All IsLine run.1

step-Bounded :
    (full busy : Bool) (s : State) (n : ℕ) (o : Option (List ℕ)) (nested : State × List (List ℕ))
    → leb max_events s.events ≡ full
    → busy ≡ false
    → s.logging ≡ false
    → s.events + (1 + n) < 2 ^ 64
    → ((line : List ℕ) → o ≡ some line → IsLine line)
    → IsQuiet (with_logging true (counted s)) n nested
    → Bounded s (1 + n) (log_step full busy (counted s) o nested)
step-Bounded true busy s n o nested f b h small lines quiet =
    let many = leb→le max_events s.events f in
    (h, omega (arith, small), omega (arith, small), omega (arith, small, many), tt)
step-Bounded false true s n o nested f b h small lines quiet = cc
step-Bounded false false s n none nested f b h small lines quiet =
    (refl, omega (arith, small), omega (arith, small), omega (arith, small), tt)
step-Bounded false false s n (some line) nested f b h small lines (nothing, busy, low, high) =
    let few = leb→lt max_events s.events f in
    let one : length (line ∷ nested.1) ≡ 1 = ap (λ l. length (line ∷ l)) nothing in
    (
      refl,
      omega (arith, small, low),
      omega (arith, small, high),
      omega (arith, small, low, few, one),
      (lines line refl, subst (All IsLine) (sym nothing) tt),
    )

-- Events that come one after another, each with those that come during its write.
sequence-Bounded :
    (s : State) (es : Events)
    → s.logging ≡ false
    → s.events + sizes es < 2 ^ 64
    → Bounded s (sizes es) (log_events s es)
unfolding log_events log_event sizes size
sequence-Bounded s none_more h k = (h, omega arith, omega arith, omega arith, tt)
sequence-Bounded s (then_event (event pieces nested) es) h k =
    let inner = with_logging true (counted s) in
    let during = log_events inner nested in
    let s1 = (log_event s (event pieces nested)).0 in
    let quiet = events-IsQuiet inner nested refl (omega (arith, k)) in
    let (free, low, high, count, good) =
      step-Bounded (leb max_events s.events) s.logging s (sizes nested) (line_of pieces) during refl
        h h (omega (arith, k)) (line_of-IsLine pieces) quiet in
    let (free', low', high', count', good') =
      sequence-Bounded s1 es free (omega (arith, high, k)) in
    let first = (log_event s (event pieces nested)).1 in
    let others = (log_events s1 es).1 in
    (
      free',
      omega (arith, low, low'),
      omega (arith, high, high'),
      omega (arith, count, count', length-append first others),
      All-append IsLine first others good good',
    )

-- Whatever events come, also during the writes of others, at most 64 lines are written to the serial
-- port of a new provider, if the events are fewer than the counter can count; each line fits the buffer
-- of 256 bytes and ends with a line break; and the provider is left ready to write.
pub log_events_bounds :
    (es : Events)
    → sizes es < 2 ^ 64
    → let (s, lines) = log_events (record { events = 0; logging = false }) es in
      (length lines ≤ max_events) × All IsLine lines × (s.logging ≡ false)
log_events_bounds es h =
    let (free, low, high, count, good) =
      sequence-Bounded (record { events = 0; logging = false }) es refl (omega (arith, h)) in
    (omega (arith, count), good, free)
