-- ===== src/Observation/Runs.antt =====
-- Two requests to a service that answers with the address it is asked for.
use nextcore_efi.Common.{[], arith, refl, take, ℕ, ◌+◌, ◌∷◌, ◌≡◌}
use nextcore_efi.Trace.Abi.{Request, Reply}
use nextcore_efi.Observation.{entry_of, execute, entries}
use nextcore_efi.Observation.Laws.{alone, watched, log, backwards, entries-watched}

-- A service that counts what it is asked.
abbrev counting : ℕ → Request → Reply × ℕ
counting n q = (record { result = q.address; value0 = 0; value1 = 0 }, n + 1)

abbrev ask : ℕ → Request
ask a = record { operation = 1; pc = 4; address = a; width = 4; count = 1; value0 = 0 }

entries_run :
    entries (watched counting 5 (ask 9 ∷ ask 8 ∷ []))
    ≡ entry_of 1 (ask 8) (counting 5 (ask 8)).0 ∷ entry_of 2 (ask 9) (counting 6 (ask 9)).0 ∷ []
unfolding entries watched execute
entries_run = refl

entries-watched_example :
    let past = ask 9 ∷ ask 8 ∷ [] in
    (entries (watched counting 5 past) ≡ backwards (take 64 (log counting 5 past)))
    × ((watched counting 5 past).service ≡ alone counting 5 past)
    × ((watched counting 5 past).total ≡ 2)
entries-watched_example = entries-watched counting 5 (ask 9 ∷ ask 8 ∷ []) (omega arith)
