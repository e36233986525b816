-- ===== src/Kernel/Collect/Laws.antt =====
-- `run` of src/kc.rs: how it ends and what it frees.
use nextcore_efi.Common.{
  Bool, List, Option, Result, [], err, false, length, none, ok, refl, some, true, ℕ, ◌++◌, ◌≡◌, ◌≢◌,
}
use nextcore_efi.Status.{Status}
use nextcore_efi.Files.{Volume, read_file}
use nextcore_efi.Files.Laws.{read_file_ends}
use nextcore_efi.Memory.Calls.{Block, Call, allocated, freed}
use nextcore_efi.Memory.Descriptor.{page_size}
use nextcore_efi.Memory.Collection.{Plan, Loaded, load, release, probe_readback_failure}
use nextcore_efi.Memory.Collection.Laws.{load_balanced}
use nextcore_efi.Kernel.Collect.{
  Request, options, Instrument, with_loaded, with_source, with_options, run,
}

-- A run that ended and has freed all pages that it was given.
pub record IsBalanced (r : Option (Result Status Bool) × List Call) : Type 0 where
  pub ends : r.0 ≢ none
  pub balanced : (q : Block) → allocated q r.1 ≡ freed q r.1

nothing-IsBalanced : (r : Result Status Bool) → IsBalanced (some r, [])
unfolding allocated freed
nothing-IsBalanced r = record { ends = λ h. cc; balanced = λ q. refl }

module _ {V : Type 0} (i : Instrument V) where
  result-IsBalanced :
      (probe : Bool) (plan : Plan V) (r : Result Status (Loaded V)) (log : List Call)
      → ((q : Block) (s : Status) → r ≡ err s → allocated q log ≡ freed q log)
      → ((q : Block) (l : Loaded V)
          → r ≡ ok l
          → (let calls = log ++ (release page_size i.descriptor_size i.later l).1 in
              allocated q calls ≡ freed q calls)
            × (let calls =
                  log ++ (probe_readback_failure page_size i.descriptor_size i.later plan l).1 in
                allocated q calls ≡ freed q calls))
      → IsBalanced (with_loaded i probe (some plan) (r, log))
  result-IsBalanced probe plan (err e) log failed served = record {
    ends = λ h. cc;
    balanced = λ q. failed q e refl;
  }
  result-IsBalanced true plan (ok l) log failed served = record {
    ends = λ h. cc;
    balanced = λ q. (served q l refl).1;
  }
  result-IsBalanced false plan (ok l) log failed served = record {
    ends = λ h. cc;
    balanced = λ q. (served q l refl).0;
  }

  loaded-IsBalanced :
      (probe : Bool) (o : Option (Plan V)) (address size : ℕ)
      → IsBalanced
          (with_loaded i probe o (load page_size i.descriptor_size i.firmware o address size))
  unfolding load
  loaded-IsBalanced probe none address size = nothing-IsBalanced (err Status.load_error)
  loaded-IsBalanced probe (some plan) address size =
      let run = load page_size i.descriptor_size i.firmware (some plan) address size in
      let kept = load_balanced i.descriptor_size i.firmware plan address size in
      result-IsBalanced probe plan run.0 run.1 (λ q s h. (kept q i.later).0 s h)
        (λ q l h. let (_, released, probed) = (kept q i.later).1 l h in (released, probed))

  source-IsBalanced :
      (probe : Bool) (r : Option (Result Status (List ℕ)))
      → r ≢ none
      → IsBalanced (with_source i probe r)
  source-IsBalanced probe none h = absurd (h refl)
  source-IsBalanced probe (some (err e)) h = nothing-IsBalanced (err e)
  source-IsBalanced probe (some (ok bytes)) h =
      loaded-IsBalanced probe (i.plan bytes) i.source_address (length bytes)

  options-IsBalanced :
      (volume : List ℕ → Volume) (r : Result Status (Bool × List ℕ))
      → IsBalanced (with_options i volume r)
  options-IsBalanced volume (err e) = nothing-IsBalanced (err e)
  options-IsBalanced volume (ok (probe, path)) =
      source-IsBalanced probe (read_file (volume path) i.max_input)
        (read_file_ends (volume path) i.max_input)

  -- Whatever the options, the file and the firmware answer, `run` ends, and on every way to its end,
  -- refused, failed, staged or probed, it has freed each block of pages, with its number of pages, as
  -- often as it was given it.
  pub run-IsBalanced :
      (converts : List ℕ → Bool) (request : Request) (volume : List ℕ → Volume)
      → IsBalanced (run i converts request volume)
  unfolding run
  run-IsBalanced converts request volume = options-IsBalanced volume (options converts request)
