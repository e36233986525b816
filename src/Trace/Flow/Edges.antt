-- ===== src/Trace/Flow/Edges.antt =====
-- The first and the last jumps of a history of fetches.
use nextcore_efi.Common.{
  Bool, Bool-cases, sym, ◌&&◌, ◌==◌, List, Option, [], arith, get_or, get_or-set_ne,
  get_or-set_self, if◌then◌else◌, inl, inr, length, length-set, ltb, none, refl, saturating_add,
  set, some, suc, true, zero, ℕ, ◌%◌, ◌+◌, ◌-◌, ◌<◌, ◌^◌, ◌∙◌, ◌∷◌, ◌≡◌, ◌≢◌, ◌≤◌,
}
use nextcore_efi.Common.Rings.{HoldsLast, set-HoldsLast}
use nextcore_efi.Trace.Flow.{
  FlowEdge, no_edge, FetchWatch, FetchFlow, fetch_flow, is_next, record_edge, watch_fetch,
  record_flow,
}

-- The flow after a history of fetched addresses, whose newest stands first.
unfoldable pub flow_run : Option FetchWatch → List ℕ → FetchFlow
flow_run watch [] = fetch_flow watch
flow_run watch (pc ∷ pcs) = record_flow (flow_run watch pcs) pc

-- An address 4 bytes behind another, in 64 bits.
abbrev pub follows : ℕ → ℕ → Bool
follows previous pc = ltb (previous + 4) (2 ^ 64) && pc == previous + 4

is_next_lem : (previous pc : ℕ) → is_next previous pc ≡ follows previous pc
is_next_lem previous pc = ground arith

-- The jumps of a history, the newest first, each with the number of the fetch that it leads to.
abbrev pub edges : List ℕ → List FlowEdge
edges [] = []
edges (x ∷ []) = []
edges (x ∷ y ∷ zs) =
    if follows y x
    then edges (y ∷ zs)
    else record { sequence = suc (suc (length zs)); from = y; to = x } ∷ edges (y ∷ zs)

abbrev pub newest_pc : List ℕ → Option ℕ
newest_pc [] = none
newest_pc (x ∷ xs) = some x

-- A flow holds the first 32 and the last 16 jumps `es` of `seen` fetches.
pub record IsFlow (f : FetchFlow) (seen : ℕ) (es : List FlowEdge) : Type 0 where
  pub fetches : f.successful_fetches ≡ seen
  pub edge_count : f.edge_count ≡ length es
  pub first_size : length f.first ≡ 32
  pub last_size : length f.last ≡ 16
  pub first :
      (i j : ℕ) → i < 32 → i + suc j ≡ length es → get_or f.first i no_edge ≡ get_or es j no_edge
  pub last : HoldsLast no_edge 16 f.last es

edges-le : (pcs : List ℕ) → length (edges pcs) ≤ length pcs
edges-le [] = omega arith
edges-le (x ∷ []) = omega arith
edges-le (x ∷ y ∷ zs) = ground (arith, edges-le (y ∷ zs))

mod_apart : (i j : ℕ) → suc j < 16 → i % 16 ≢ (i + suc j) % 16
mod_apart i j h e = omega (arith, h, e)

mod_below : (n : ℕ) → n % 16 < 16
mod_below n = omega arith

-- The slots of the first jumps after one more jump.
set-first :
    (slots es : List FlowEdge) (e : FlowEdge)
    → length slots ≡ 32
    → ((i j : ℕ) → i < 32 → i + suc j ≡ length es → get_or slots i no_edge ≡ get_or es j no_edge)
    → (i j : ℕ) → i < 32
    → i + suc j ≡ length (e ∷ es)
    → get_or (if ltb (length es) 32 then set slots (length es) e else slots) i no_edge
      ≡ get_or (e ∷ es) j no_edge
set-first slots es e size h i zero ib at =
    let here : i ≡ length es = omega (arith, at) in
    let few : ltb (length es) 32 ≡ true = ground arith in
    rw (here, few) (get_or-set_self slots (length es) e no_edge (omega (arith, size, ib, here)))
set-first slots es e size h i (suc j) ib at = elim (Bool-cases (ltb (length es) 32)) [
  | inl few ↦ rw few (
      get_or-set_ne slots (length es) i e no_edge (λ same. omega (arith, same, at))
      ∙ h i j ib (omega (arith, at)))
  | inr many ↦ rw many (h i j ib (omega (arith, at)))
]

set_if-length :
    (slots : List FlowEdge) (n : ℕ) (e : FlowEdge)
    → length (if ltb n 32 then set slots n e else slots) ≡ length slots
set_if-length slots n e = elim (Bool-cases (ltb n 32)) [
  | inl few ↦ rw few (length-set slots n e)
  | inr many ↦ rw many refl
]

record_edge-IsFlow :
    (f : FetchFlow) (seen previous pc : ℕ) (es : List FlowEdge)
    → IsFlow f seen es
    → length es < 2 ^ 64 - 1
    → IsFlow (record_edge f previous pc) seen (
        if follows previous pc
        then es
        else record { sequence = seen; from = previous; to = pc } ∷ es)
record_edge-IsFlow f seen previous pc es h b = elim (Bool-cases (is_next previous pc)) [
  | inl step ↦ rw (step, sym (is_next_lem previous pc) ∙ step) h
  | inr jump ↦
      let edge : FlowEdge = record { sequence = seen; from = previous; to = pc } in
      rw (jump, sym (is_next_lem previous pc) ∙ jump, h.edge_count, h.fetches)
        record {
          fetches = refl;
          edge_count = omega (arith, b);
          first_size = set_if-length f.first (length es) edge ∙ h.first_size;
          last_size = length-set f.last (length es % 16) edge ∙ h.last_size;
          first = set-first f.first es edge h.first_size h.first;
          last = set-HoldsLast no_edge 16 f.last es edge mod_apart mod_below h.last_size h.last;
        }
]

-- A flow is one whatever the watch and the last address are.
regard :
    (f : FetchFlow) (n seen : ℕ) (es : List FlowEdge) (w : Option FetchWatch) (p : Option ℕ)
    → IsFlow f n es
    → seen ≡ suc n
    → seen < 2 ^ 64
    → IsFlow
        (record f {
          successful_fetches = saturating_add f.successful_fetches 1;
          watch = w;
          previous_pc = p;
        })
        seen
        es
regard f n seen es w p h e b = record {
  fetches = omega (arith, h.fetches, e, b);
  edge_count = h.edge_count;
  first_size = h.first_size;
  last_size = h.last_size;
  first = h.first;
  last = h.last;
}

-- Nor does the last address matter to the flow after an edge.
repoint :
    (f : FetchFlow) (seen : ℕ) (es : List FlowEdge) (p : Option ℕ)
    → IsFlow f seen es
    → IsFlow (record f { previous_pc = p }) seen es
repoint f seen es p h = record {
  fetches = h.fetches;
  edge_count = h.edge_count;
  first_size = h.first_size;
  last_size = h.last_size;
  first = h.first;
  last = h.last;
}

record_flow-IsFlow :
    (f : FetchFlow) (seen previous pc : ℕ) (es : List FlowEdge)
    → f.previous_pc ≡ some previous
    → IsFlow f seen es
    → seen < 2 ^ 64 - 1
    → length es < 2 ^ 64 - 1
    → IsFlow (record_flow f pc) (suc seen) (
        if follows previous pc
        then es
        else record { sequence = suc seen; from = previous; to = pc } ∷ es)
unfolding record_flow
record_flow-IsFlow f seen previous pc es p h b c =
    let n = saturating_add f.successful_fetches 1 in
    let w = watch_fetch f.watch previous pc n in
    let g : FetchFlow = record f {
      successful_fetches = n;
      watch = w;
      previous_pc = some previous;
    } in
    rw p (
      repoint (record_edge g previous pc) (suc seen)
        (if follows previous pc
          then es
          else record { sequence = suc seen; from = previous; to = pc } ∷ es)
        (some pc)
        (record_edge-IsFlow g (suc seen) previous pc es
          (regard f seen (suc seen) es w (some previous) h refl (omega (arith, b))) c))

-- After a history of fewer than 2 ^ 64 fetches, the flow holds the number of fetches and of jumps, the
-- first 32 jumps in their order and the last 16 in a ring, each with the number of its fetch; a jump
-- is a fetch that is not 4 bytes behind the one before it.
pub flow_run-IsFlow :
    (watch : Option FetchWatch) (pcs : List ℕ)
    → length pcs < 2 ^ 64
    → IsFlow (flow_run watch pcs) (length pcs) (edges pcs)
      × ((flow_run watch pcs).previous_pc ≡ newest_pc pcs)
unfolding flow_run record_flow
flow_run-IsFlow watch [] b = (
  record {
    fetches = refl;
    edge_count = refl;
    first_size = refl;
    last_size = refl;
    first = λ i j ib at. absurd (omega (arith, at));
    last = λ i j ib at. absurd (omega (arith, at));
  },
  refl,
)
flow_run-IsFlow watch (x ∷ []) b = (
  record {
    fetches = omega arith;
    edge_count = refl;
    first_size = refl;
    last_size = refl;
    first = λ i j ib at. absurd (omega (arith, at));
    last = λ i j ib at. absurd (omega (arith, at));
  },
  refl,
)
flow_run-IsFlow watch (x ∷ y ∷ zs) b =
    let (h, p) = flow_run-IsFlow watch (y ∷ zs) (omega arith) in
    (
      record_flow-IsFlow (flow_run watch (y ∷ zs)) (length (y ∷ zs)) y x (edges (y ∷ zs)) p h
          (omega (arith, b)) (omega (arith, b, edges-le (y ∷ zs))),
      refl,
    )
