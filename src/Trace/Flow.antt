-- ===== src/Trace/Flow.antt =====
-- src/mapped_trace.rs: the jumps between the instructions that the guest fetches.
pub mod Edges
pub mod Follow
mod Runs
use nextcore_efi.Common.{
  Bool, List, Option, checked_add, false, if◌then◌else◌, ltb, none, not, replicate, saturating_add,
  set, some, true, ℕ, ◌%◌, ◌&&◌, ◌+◌, ◌==◌,
}

pub record FlowEdge : Type 0 where
  pub sequence : ℕ
  pub from : ℕ
  pub to : ℕ

abbrev pub no_edge : FlowEdge
no_edge = record { sequence = 0; from = 0; to = 0 }

pub record FetchWatch : Type 0 where
  pub from : ℕ
  pub visits : ℕ
  pub fallthrough : ℕ
  pub first_taken : Option FlowEdge
  pub follow : List FlowEdge
  pub follow_count : ℕ

-- What `FetchWatch::configured` makes of the address that the build names.
abbrev pub fetch_watch : ℕ → FetchWatch
fetch_watch from = record {
  from = from;
  visits = 0;
  fallthrough = 0;
  first_taken = none;
  follow = replicate 16 no_edge;
  follow_count = 0;
}

-- `previous.checked_add(4) == Some(pc)`
abbrev pub is_next : ℕ → ℕ → Bool
is_next previous pc = elim (checked_add previous 4) [ none ↦ false | some next ↦ next == pc ]

abbrev pub is_some {ℓ} : {A : Type ℓ} → Option A → Bool
is_some none = false
is_some (some a) = true

-- The first `if` of `FetchWatch::record`.
abbrev pub visit : FetchWatch → (previous pc sequence : ℕ) → FetchWatch
visit w previous pc sequence =
    if not (previous == w.from)
    then w
    else let visited : FetchWatch = record w { visits = saturating_add w.visits 1 } in
      if is_next w.from pc
      then record visited { fallthrough = saturating_add w.fallthrough 1 }
      else if is_some w.first_taken
      then visited
      else record visited {
        first_taken = some (record { sequence = sequence; from = previous; to = pc });
      }

-- The second `if` of `FetchWatch::record`.
abbrev pub follow_edge : FetchWatch → (previous pc sequence : ℕ) → FetchWatch
follow_edge w previous pc sequence =
    if is_some w.first_taken && not (is_next previous pc) && ltb w.follow_count 16
    then record w {
      follow =
          set w.follow w.follow_count (record { sequence = sequence; from = previous; to = pc });
      follow_count = w.follow_count + 1;
    }
    else w

-- `FetchWatch::record`
unfoldable pub record_fetch : FetchWatch → (previous pc sequence : ℕ) → FetchWatch
record_fetch w previous pc sequence =
    follow_edge (visit w previous pc sequence) previous pc sequence

pub record FetchFlow : Type 0 where
  pub successful_fetches : ℕ
  pub previous_pc : Option ℕ
  pub edge_count : ℕ
  pub first : List FlowEdge
  pub last : List FlowEdge
  pub watch : Option FetchWatch

abbrev pub fetch_flow : Option FetchWatch → FetchFlow
fetch_flow watch = record {
  successful_fetches = 0;
  previous_pc = none;
  edge_count = 0;
  first = replicate 32 no_edge;
  last = replicate 16 no_edge;
  watch = watch;
}

abbrev pub watch_fetch : Option FetchWatch → (previous pc sequence : ℕ) → Option FetchWatch
watch_fetch none previous pc sequence = none
watch_fetch (some w) previous pc sequence = some (record_fetch w previous pc sequence)

-- The edge to `pc`, when it is no step to the next instruction.
abbrev pub record_edge : FetchFlow → (previous pc : ℕ) → FetchFlow
record_edge f previous pc =
    if is_next previous pc
    then f
    else let edge : FlowEdge = record {
      sequence = f.successful_fetches;
      from = previous;
      to = pc;
    } in
      record f {
        first = if ltb f.edge_count 32 then set f.first f.edge_count edge else f.first;
        last = set f.last (f.edge_count % 16) edge;
        edge_count = saturating_add f.edge_count 1;
      }

-- The body of `FetchFlow::record` behind its first line.
abbrev pub flow_from : FetchFlow → Option ℕ → ℕ → FetchFlow
flow_from f none pc = f
flow_from f (some previous) pc =
    record_edge (record f { watch = watch_fetch f.watch previous pc f.successful_fetches }) previous
      pc

-- `FetchFlow::record`
unfoldable pub record_flow : FetchFlow → ℕ → FetchFlow
record_flow f pc =
    let counted : FetchFlow = record f {
      successful_fetches = saturating_add f.successful_fetches 1;
    } in
    record (flow_from counted counted.previous_pc pc) { previous_pc = some pc }
