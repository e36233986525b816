-- ===== src/Trace/Flow/Follow.antt =====
-- What the watch on one branch instruction knows of the fetches.
use nextcore_efi.Common.{
  ==_iff, Bool-cases, List, Option, [], ap, arith, false, get_or, get_or-set_ne, get_or-set_self,
  inl, inr, length, length-set, ltb, none, not, refl, saturating_add, some, subst, sym, ℕ, ◌&&◌,
  ◌<◌, ◌==◌, ◌^◌, ◌∙◌, ◌∷◌, ◌≡◌, ◌≤◌,
}
use nextcore_efi.Trace.Flow.{
  is_some, FlowEdge, no_edge, FetchWatch, fetch_watch, is_next, follow_edge, record_fetch,
}

-- The watch after a history of fetches `(previous, pc, sequence)`, whose newest stands first.
unfoldable pub fetch_run : ℕ → List (ℕ × ℕ × ℕ) → FetchWatch
fetch_run from [] = fetch_watch from
fetch_run from ((previous, pc, sequence) ∷ es) =
    record_fetch (fetch_run from es) previous pc sequence

-- The jumps followed begin with the first that the watched instruction takes.
pub record IsFollowing (w : FetchWatch) : Type 0 where
  pub size : length w.follow ≡ 16
  pub room : w.follow_count ≤ 16
  pub small : w.visits < 2 ^ 64
  pub falls : w.fallthrough ≤ w.visits
  pub idle : w.first_taken ≡ none → w.follow_count ≡ 0
  pub starts :
      (e : FlowEdge)
      → w.first_taken ≡ some e
      → (0 < w.follow_count)
        × (get_or w.follow 0 no_edge ≡ e)
        × (e.from ≡ w.from)
        × (is_next e.from e.to ≡ false)

abbrev watch_of : (from visits fallthrough : ℕ) → Option FlowEdge → List FlowEdge → ℕ → FetchWatch
watch_of from visits fallthrough taken follow count = record {
  from = from;
  visits = visits;
  fallthrough = fallthrough;
  first_taken = taken;
  follow = follow;
  follow_count = count;
}

-- The first jump from the watched instruction is the first that is followed.
take-IsFollowing :
    (from v f pc sequence : ℕ) (follow : List FlowEdge) (count : ℕ)
    → IsFollowing (watch_of from v f none follow count)
    → is_next from pc ≡ false
    → IsFollowing (
        follow_edge
          (watch_of from
            (saturating_add v 1)
            f
            (some (record { sequence = sequence; from = from; to = pc }))
            follow
            count)
          from
          pc
          sequence)
take-IsFollowing from v f pc sequence follow count h jump =
    let edge : FlowEdge = record { sequence = sequence; from = from; to = pc } in
    rw (h.idle refl, jump)
      record {
        size = length-set follow 0 edge ∙ h.size;
        room = omega arith;
        small = omega arith;
        falls = omega (arith, h.falls, h.small);
        idle = λ e. absurd (cc);
        starts = λ e same.
            let eq : edge ≡ e = cc in
            (
              omega arith,
              get_or-set_self follow 0 edge no_edge (omega (arith, h.size)) ∙ eq,
              ap (λ a. a.from) (sym eq),
              rw (sym eq) jump,
            );
      }

-- A later jump is followed while there is room, behind the others.
push-IsFollowing :
    (w : FetchWatch) (e : FlowEdge) (previous pc sequence : ℕ)
    → w.first_taken ≡ some e
    → IsFollowing w
    → IsFollowing (follow_edge w previous pc sequence)
push-IsFollowing w e previous pc sequence taken h =
    let (some_room, begins, at, jump) = h.starts e taken in
    let edge : FlowEdge = record { sequence = sequence; from = previous; to = pc } in
    elim (Bool-cases
      (is_some w.first_taken && not (is_next previous pc) && ltb w.follow_count 16)) [
        | inr skip ↦ rw skip h
        | inl push ↦ rw push record {
          size = length-set w.follow w.follow_count edge ∙ h.size;
          room = ground arith;
          small = h.small;
          falls = h.falls;
          idle = λ e. absurd (cc);
          starts = λ e' same.
              let (_, begins', at', jump') = h.starts e' same in
              (
                omega arith,
                get_or-set_ne w.follow w.follow_count 0 edge no_edge
                      (λ z. omega (arith, z, some_room))
                    ∙ begins',
                at',
                jump',
              );
        }
      ]

-- Counting a visit or a step leaves the rest of the watch.
count-IsFollowing :
    (w : FetchWatch) (v f : ℕ)
    → IsFollowing w
    → v < 2 ^ 64
    → f ≤ v
    → IsFollowing (record w { visits = v; fallthrough = f })
count-IsFollowing w v f h small le = record {
  size = h.size;
  room = h.room;
  small = small;
  falls = le;
  idle = h.idle;
  starts = h.starts;
}

taken-IsFollowing :
    (from v f : ℕ) (e : FlowEdge) (follow : List FlowEdge) (count previous pc sequence : ℕ)
    → IsFollowing (watch_of from v f (some e) follow count)
    → IsFollowing (record_fetch (watch_of from v f (some e) follow count) previous pc sequence)
unfolding record_fetch
taken-IsFollowing from v f e follow count previous pc sequence h =
    let w = watch_of from v f (some e) follow count in
    elim (Bool-cases (previous == from)) [
      | inr away ↦ rw away (push-IsFollowing w e previous pc sequence refl h)
      | inl here ↦ elim (Bool-cases (is_next from pc)) [
        | inl step ↦
            rw (here, step)
              (push-IsFollowing
                (watch_of from (saturating_add v 1) (saturating_add f 1) (some e) follow count) e
                previous pc sequence refl
                (count-IsFollowing w (saturating_add v 1) (saturating_add f 1) h (omega arith)
                  (omega (arith, h.falls))))
        | inr jump ↦
            rw (here, jump)
              (push-IsFollowing (watch_of from (saturating_add v 1) f (some e) follow count) e
                previous pc sequence refl
                (count-IsFollowing w (saturating_add v 1) f h (omega arith)
                  (omega (arith, h.falls, h.small))))
      ]
    ]

untaken-IsFollowing :
    (from v f : ℕ) (follow : List FlowEdge) (count previous pc sequence : ℕ)
    → IsFollowing (watch_of from v f none follow count)
    → IsFollowing (record_fetch (watch_of from v f none follow count) previous pc sequence)
unfolding record_fetch
untaken-IsFollowing from v f follow count previous pc sequence h =
    elim (Bool-cases (previous == from)) [
      | inr away ↦ rw away h
      | inl here ↦ elim (Bool-cases (is_next from pc)) [
        | inl step ↦
            rw (here, step)
              (count-IsFollowing (watch_of from v f none follow count) (saturating_add v 1)
                (saturating_add f 1) h (omega arith) (omega (arith, h.falls)))
        | inr jump ↦
            let same : previous ≡ from = (==_iff previous from).0 here in
            rw (here, jump) (rw same (take-IsFollowing from v f pc sequence follow count h jump))
      ]
    ]

record_fetch-IsFollowing :
    (w : FetchWatch) (taken : Option FlowEdge) (previous pc sequence : ℕ)
    → w.first_taken ≡ taken
    → IsFollowing w
    → IsFollowing (record_fetch w previous pc sequence)
record_fetch-IsFollowing w none previous pc sequence e h =
    subst
      (λ t.
        IsFollowing (watch_of w.from w.visits w.fallthrough t w.follow w.follow_count)
        → IsFollowing (
            record_fetch (watch_of w.from w.visits w.fallthrough t w.follow w.follow_count) previous
              pc sequence))
      (sym e)
      (untaken-IsFollowing w.from w.visits w.fallthrough w.follow w.follow_count previous pc
        sequence)
      h
record_fetch-IsFollowing w (some edge) previous pc sequence e h =
    subst
      (λ t.
        IsFollowing (watch_of w.from w.visits w.fallthrough t w.follow w.follow_count)
        → IsFollowing (
            record_fetch (watch_of w.from w.visits w.fallthrough t w.follow w.follow_count) previous
              pc sequence))
      (sym e)
      (taken-IsFollowing w.from w.visits w.fallthrough edge w.follow w.follow_count previous pc
        sequence)
      h

-- After any history of fetches, the watch has followed at most 16 jumps and none before the watched
-- instruction first jumped; once it did, the first followed is that jump, which starts at the
-- instruction and does not lead 4 bytes on. It did not step on more often than it was visited.
pub fetch_run-IsFollowing : (from : ℕ) (es : List (ℕ × ℕ × ℕ)) → IsFollowing (fetch_run from es)
unfolding fetch_run
fetch_run-IsFollowing from [] = record {
  size = refl;
  room = omega arith;
  small = omega arith;
  falls = omega arith;
  idle = λ e. refl;
  starts = λ e same. absurd (cc);
}
fetch_run-IsFollowing from ((previous, pc, sequence) ∷ es) =
    let w = fetch_run from es in
    record_fetch-IsFollowing w w.first_taken previous pc sequence refl
      (fetch_run-IsFollowing from es)
