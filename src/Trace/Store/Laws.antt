-- ===== src/Trace/Store/Laws.antt =====
-- What the watch on stores knows of the whole history of requests.
use nextcore_efi.Common.{
  Bool, Bool-cases, List, [], ap, arith, false, if◌then◌else◌, inl, inr, length, ltb, refl,
  saturating_add, subst, suc, true, ℕ, ◌&&◌, ◌+◌, ◌-◌, ◌<◌, ◌==◌, ◌^◌, ◌∷◌, ◌≡◌, ◌≤◌,
}
use nextcore_efi.Trace.Abi.{Abi, Request, Reply}
use nextcore_efi.Trace.Steps.{rises, falls, rests, moves, moves-le, oldest, newest}
use nextcore_efi.Trace.Store.{StoreWatch, store_watch, store_move, store_performed, record_store}

-- The watch after a history of requests, whose newest stands first.
unfoldable pub store_run : Abi → ℕ → List (Request × Reply) → StoreWatch
store_run abi pc [] = store_watch pc
store_run abi pc (e ∷ es) = record_store abi (store_run abi pc es) e.0 e.1

abbrev pub is_asked : Abi → ℕ → Request × Reply → Bool
is_asked abi pc e = (e.0).operation == abi.store && (e.0).pc == pc

-- The requests of a history that the watch counts: all of them, and those that the service performed.
abbrev pub asked : Abi → ℕ → List (Request × Reply) → ℕ
asked abi pc [] = 0
asked abi pc (e ∷ es) = asked abi pc es + (if is_asked abi pc e then 1 else 0)

abbrev pub hits : Abi → ℕ → List (Request × Reply) → List Request
hits abi pc [] = []
hits abi pc (e ∷ es) =
    if is_asked abi pc e && (e.1).result == abi.good then e.0 ∷ hits abi pc es else hits abi pc es

abbrev pub addresses : List Request → List ℕ
addresses [] = []
addresses (r ∷ rs) = r.address ∷ addresses rs

abbrev pub nothing : Request
nothing = record { operation = 0; pc = 0; address = 0; width = 0; count = 0; value0 = 0 }

-- What a watch reports, computed from the performed stores `rs`.
pub record IsSummary (w : StoreWatch) (pc seen : ℕ) (rs : List Request) : Type 0 where
  pub watches : w.pc ≡ pc
  pub requests : w.requests ≡ seen
  pub successful : w.successful ≡ length rs
  pub forward : w.forward ≡ rises (addresses rs)
  pub backward : w.backward ≡ falls (addresses rs)
  pub repeated : w.repeated ≡ rests (addresses rs)
  pub first_address : w.first_address ≡ (oldest nothing rs).address
  pub first_value : w.first_value ≡ (oldest nothing rs).value0
  pub first_width : w.first_width ≡ (oldest nothing rs).width
  pub first_count : w.first_count ≡ (oldest nothing rs).count
  pub last_address : w.last_address ≡ (newest nothing rs).address
  pub last_value : w.last_value ≡ (newest nothing rs).value0

hits-le : (abi : Abi) (pc : ℕ) (es : List (Request × Reply)) → length (hits abi pc es) ≤ length es
hits-le abi pc [] = omega arith
hits-le abi pc (e ∷ es) = ground (arith, hits-le abi pc es)

asked-le : (abi : Abi) (pc : ℕ) (es : List (Request × Reply)) → asked abi pc es ≤ length es
asked-le abi pc [] = omega arith
asked-le abi pc (e ∷ es) = ground (arith, asked-le abi pc es)

length-addresses : (rs : List Request) → length (addresses rs) ≡ length rs
length-addresses [] = refl
length-addresses (r ∷ rs) = ap suc (length-addresses rs)

first_performed :
    (pc seen : ℕ) (w : StoreWatch) (q : Request)
    → IsSummary w pc seen []
    → IsSummary (store_performed w q) pc seen (q ∷ [])
first_performed pc seen w q s =
    rw (store_performed, store_move, s.successful)
      record {
        watches = s.watches;
        requests = s.requests;
        successful = refl;
        forward = s.forward;
        backward = s.backward;
        repeated = s.repeated;
        first_address = refl;
        first_value = refl;
        first_width = refl;
        first_count = refl;
        last_address = refl;
        last_value = refl;
      }

moves-addresses : (p : ℕ → ℕ → Bool) (rs : List Request) → moves p (addresses rs) ≤ length rs
moves-addresses p rs = omega (arith, moves-le p (addresses rs), length-addresses rs)

later_performed :
    (pc seen : ℕ) (w : StoreWatch) (rs : List Request) (x q : Request)
    → IsSummary w pc seen (x ∷ rs)
    → length rs < 2 ^ 64 - 2
    → IsSummary (store_performed w q) pc seen (q ∷ x ∷ rs)
later_performed pc seen w rs x q s b =
    rw (store_performed, store_move, s.successful, s.last_address)
      record {
        watches = ground arith;
        requests = ground arith;
        successful = ground arith;
        forward = ground (arith, moves-addresses ltb (x ∷ rs));
        backward = ground (arith, moves-addresses (λ a b. ltb b a) (x ∷ rs));
        repeated = ground (arith, moves-addresses ◌==◌ (x ∷ rs));
        first_address = ground arith;
        first_value = ground arith;
        first_width = ground arith;
        first_count = ground arith;
        last_address = refl;
        last_value = refl;
      }

performed-IsSummary :
    (pc seen : ℕ) (w : StoreWatch) (rs : List Request) (q : Request)
    → IsSummary w pc seen rs
    → length rs < 2 ^ 64 - 1
    → IsSummary (store_performed w q) pc seen (q ∷ rs)
performed-IsSummary pc seen w [] q s b = first_performed pc seen w q s
performed-IsSummary pc seen w (x ∷ rs) q s b = later_performed pc seen w rs x q s (omega arith)

counted-IsSummary :
    (pc seen : ℕ) (w : StoreWatch) (rs : List Request)
    → IsSummary w pc seen rs
    → seen < 2 ^ 64 - 1
    → IsSummary (record w { requests = saturating_add w.requests 1 }) pc (seen + 1) rs
counted-IsSummary pc seen w rs s b = record {
  watches = s.watches;
  requests = omega (arith, s.requests);
  successful = s.successful;
  forward = s.forward;
  backward = s.backward;
  repeated = s.repeated;
  first_address = s.first_address;
  first_value = s.first_value;
  first_width = s.first_width;
  first_count = s.first_count;
  last_address = s.last_address;
  last_value = s.last_value;
}

record_store-IsSummary :
    (abi : Abi) (pc seen : ℕ) (w : StoreWatch) (rs : List Request) (q : Request) (r : Reply)
    → IsSummary w pc seen rs
    → seen < 2 ^ 64 - 1
    → length rs < 2 ^ 64 - 1
    → IsSummary
        (record_store abi w q r)
        pc
        (seen + (if is_asked abi pc (q, r) then 1 else 0))
        (if is_asked abi pc (q, r) && r.result == abi.good then q ∷ rs else rs)
unfolding record_store
record_store-IsSummary abi pc seen w rs q r s b c =
    let same : IsSummary w pc (seen + 0) rs = subst (λ n. IsSummary w pc n rs) (omega arith) s in
    let counted = counted-IsSummary pc seen w rs s b in
    elim (Bool-cases (q.operation == abi.store)) [
      | inr other ↦ rw (other) same
      | inl op ↦ elim (Bool-cases (q.pc == pc)) [
        | inr away ↦
            let off : (q.pc == w.pc) ≡ false = rw (s.watches) away in rw (op, off, away) same
        | inl here ↦
            let on : (q.pc == w.pc) ≡ true = rw (s.watches) here in
            elim (Bool-cases (r.result == abi.good)) [
              | inr bad ↦ rw (op, on, here, bad) counted
              | inl good ↦
                  rw (op, on, here, good)
                    (performed-IsSummary pc (seen + 1)
                      (record w { requests = saturating_add w.requests 1 }) rs q counted c)
            ]
      ]
    ]

-- After a history of fewer than 2 ^ 64 requests, the watch holds what the history says: the number of
-- stores asked for and performed at its address, how often the address rose, fell and stayed between
-- two performed stores, and the first and the last of them.
pub store_run-IsSummary :
    (abi : Abi) (pc : ℕ) (es : List (Request × Reply))
    → length es < 2 ^ 64
    → IsSummary (store_run abi pc es) pc (asked abi pc es) (hits abi pc es)
unfolding store_run
store_run-IsSummary abi pc [] b = record {
  watches = refl;
  requests = refl;
  successful = refl;
  forward = refl;
  backward = refl;
  repeated = refl;
  first_address = refl;
  first_value = refl;
  first_width = refl;
  first_count = refl;
  last_address = refl;
  last_value = refl;
}
store_run-IsSummary abi pc (e ∷ es) b =
    record_store-IsSummary abi pc (asked abi pc es) (store_run abi pc es) (hits abi pc es) e.0 e.1
      (store_run-IsSummary abi pc es (omega arith)) (omega (arith, asked-le abi pc es))
      (omega (arith, hits-le abi pc es))
