-- ===== src/Trace/Flow/Runs.antt =====
-- A loop of two instructions.
use nextcore_efi.Common.{List, [], arith, none, refl, ℕ, ◌∷◌, ◌≡◌}
use nextcore_efi.Trace.Flow.{record_fetch, record_flow}
use nextcore_efi.Trace.Flow.Edges.{flow_run, edges, newest_pc, IsFlow, flow_run-IsFlow}
use nextcore_efi.Trace.Flow.Follow.{fetch_run}

abbrev twice : List ℕ
twice = 8 ∷ 4 ∷ 0 ∷ 4 ∷ 0 ∷ []

edges_run : edges twice ≡ record { sequence = 3; from = 4; to = 0 } ∷ []
edges_run = refl

flow_edges_run : (flow_run none twice).edge_count ≡ 1
unfolding flow_run record_flow
flow_edges_run = refl

flow_run-IsFlow_example :
    IsFlow (flow_run none twice) 5 (edges twice)
    × ((flow_run none twice).previous_pc ≡ newest_pc twice)
flow_run-IsFlow_example = flow_run-IsFlow none twice (omega arith)

follow_run : (fetch_run 4 ((4, 0, 3) ∷ [])).follow_count ≡ 1
unfolding fetch_run record_fetch
follow_run = refl
