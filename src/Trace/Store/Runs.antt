-- ===== src/Trace/Store/Runs.antt =====
-- Stores watched at one address.
use nextcore_efi.Common.{List, [], arith, refl, ℕ, ◌∷◌, ◌≡◌}
use nextcore_efi.Trace.Abi.{Abi, Request, Reply}
use nextcore_efi.Trace.Store.{record_store}
use nextcore_efi.Trace.Store.Laws.{IsSummary, store_run, asked, hits, store_run-IsSummary}

abbrev abi : Abi
abi = record { fetch = 1; load = 2; store = 3; good = 0 }

abbrev storing : ℕ → ℕ → Request × Reply
storing address result = (
  record { operation = 3; pc = 16; address = address; width = 8; count = 1; value0 = 7 },
  record { result = result; value0 = 0; value1 = 0 },
)

abbrev past : List (Request × Reply)
past = storing 24 0 ∷ storing 40 1 ∷ storing 32 0 ∷ storing 24 0 ∷ []

forward_run : (store_run abi 16 past).forward ≡ 1
unfolding store_run record_store
forward_run = refl

store_run-IsSummary_example :
    IsSummary (store_run abi 16 past) 16 (asked abi 16 past) (hits abi 16 past)
store_run-IsSummary_example = store_run-IsSummary abi 16 past (omega arith)
