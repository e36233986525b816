-- ===== src/Memory/Collection/Laws.antt =====
-- src/loaded_kernel_collection.rs: what a loaded collection relies on, and the calls on every path.
use mathlib.Core.Path.{ap₂}
use nextcore_efi.Common.{
  All, List, Result, Result-cases, [], ap, arith, err, inl, inr, none, ok, some, subst, sym, ℕ, ◌%◌,
  ◌++◌, ◌+◌, ◌/◌, ◌<◌, ◌∙◌, ◌∷◌, ◌≡◌, ◌≢◌, ◌≤◌, ◌⊎◌,
}
use nextcore_efi.Status.{Status}
use nextcore_efi.Memory.Descriptor.{Descriptor, page_size, loader_data}
use nextcore_efi.Memory.Collection.Map.{IsReply, refresh_iff}
use nextcore_efi.Memory.Coverage.{coverage}
use nextcore_efi.Memory.Coverage.Exact.{IsExact, coverage_ok}
use nextcore_efi.Memory.Coverage.Tally.{IsFair}
use nextcore_efi.Memory.Calls.{Block, Call, allocates, frees, zeroes, allocated, freed}
use nextcore_efi.Memory.Collection.{
  Pages, Firmware, Plan, Loaded, four_gib, refresh, release_inner, new_pages, admit, load_into,
  load, release, probe_readback_failure,
}

-- Live pages, as `Pages::new` leaves them.
pub record IsLive (bytes base : ℕ) (p : Pages) : Type 0 where
  pub pointer : p.pointer ≡ some base
  pub size : p.bytes ≡ bytes
  pub count : p.count ≡ bytes / page_size
  pub positive : 0 < bytes
  pub whole : bytes % page_size ≡ 0
  pub nonzero : 0 < base
  pub aligned : base % page_size ≡ 0
  pub low : base + bytes ≤ four_gib

new_pages-IsLive :
    (descriptor_size : ℕ) (firmware : Firmware) (bytes : ℕ) (p : Pages)
    → (new_pages page_size descriptor_size firmware bytes).0 ≡ ok p
    → (base : ℕ) × IsLive bytes base p
      × ((new_pages page_size descriptor_size firmware bytes).1
          ≡ allocates base (bytes / page_size) ∷ [])
unfolding new_pages
new_pages-IsLive descriptor_size firmware bytes p e =
    elim (Result-cases (firmware.allocate (bytes / page_size))) [
      | inr (s, a) ↦ absurd (ground arith)
      | inl (base, a) ↦ (base, ground arith, ground arith)
    ]

-- A failing `Pages::new` has freed what it allocated.
new_pages_balanced :
    (descriptor_size : ℕ) (firmware : Firmware) (bytes : ℕ) (q : Block) (s : Status)
    → (new_pages page_size descriptor_size firmware bytes).0 ≡ err s
    → let log = (new_pages page_size descriptor_size firmware bytes).1 in
      allocated q log ≡ freed q log
unfolding new_pages release_inner allocated freed
new_pages_balanced descriptor_size firmware bytes q s e = ground arith

freed-append : (q : Block) (a b : List Call) → freed q (a ++ b) ≡ freed q a + freed q b
unfolding freed
freed-append q [] b = omega arith
freed-append q (allocates p n ∷ a) b = freed-append q a b
freed-append q (zeroes p n ∷ a) b = freed-append q a b
freed-append q (frees p n ∷ a) b = omega (arith, freed-append q a b)

allocated-append :
    (q : Block) (a b : List Call) → allocated q (a ++ b) ≡ allocated q a + allocated q b
unfolding allocated
allocated-append q [] b = omega arith
allocated-append q (frees p n ∷ a) b = allocated-append q a b
allocated-append q (zeroes p n ∷ a) b = allocated-append q a b
allocated-append q (allocates p n ∷ a) b = omega (arith, allocated-append q a b)

-- Releasing live pages frees them once, and leaves nothing to free.
release_inner_live :
    (descriptor_size : ℕ) (firmware : Firmware) (p : Pages) (base : ℕ)
    → p.pointer ≡ some base
    → ((release_inner page_size descriptor_size firmware p).2 ≡ frees base p.count ∷ [])
      × ((release_inner page_size descriptor_size firmware p).1.pointer ≡ none)
unfolding release_inner
release_inner_live descriptor_size firmware p base e =
    (rw (e, release_inner), rw (e, release_inner))

balanced_of_calls :
    (q : Block) (base : ℕ) {n : ℕ} (calls : List Call)
    → calls ≡ allocates base n ∷ frees base n ∷ []
    → allocated q calls ≡ freed q calls
unfolding allocated freed
balanced_of_calls q base calls e = ap (allocated q) e ∙ ground arith ∙ ap (freed q) (sym e)

balanced_of_zeroed :
    (q : Block) (base : ℕ) {n z k : ℕ} (calls : List Call)
    → calls ≡ allocates base n ∷ zeroes z k ∷ frees base n ∷ []
    → allocated q calls ≡ freed q calls
unfolding allocated freed
balanced_of_zeroed q base calls e = ap (allocated q) e ∙ ground arith ∙ ap (freed q) (sym e)

balanced_of_log :
    (q : Block) (base n z k : ℕ) (log end : List Call)
    → log ≡ allocates base n ∷ zeroes z k ∷ []
    → end ≡ frees base n ∷ []
    → allocated q (log ++ end) ≡ freed q (log ++ end)
balanced_of_log q base n z k log end e f = balanced_of_zeroed q base (log ++ end) (ap₂ ◌++◌ e f)

module _ {V : Type 0} (descriptor_size : ℕ) (firmware : Firmware) (plan : Plan V)
    (source_base source_len : ℕ) where
  abbrev outcome : Result Status (Loaded V) × List Call
  outcome = load page_size descriptor_size firmware (some plan) source_base source_len

  -- What holds of a loaded collection.
  pub record IsLoaded (l : Loaded V) : Type 0 where
    pub base : ℕ
    pub live : IsLive plan.arena_size base l.pages
    pub disjoint : (source_base + source_len ≤ base) ⊎ (base + plan.arena_size ≤ source_base)
    pub map : List Descriptor
    pub reported : IsReply descriptor_size firmware.map_held map
    pub fair : All (IsFair base (base + plan.arena_size) loader_data) map
    pub exact : IsExact map base plan.arena_size
    pub staged : plan.stage_into plan.arena_size ≡ some (l.verification, l.memory)
    pub log :
        outcome.1 ≡ allocates base (plan.arena_size / page_size) ∷ zeroes base plan.arena_size ∷ []

  admit_ok :
      (base bytes n : ℕ)
      → admit page_size descriptor_size firmware base bytes source_base source_len ≡ ok n
      → (map : List Descriptor) × ((source_base + source_len ≤ base) ⊎ (base + bytes ≤ source_base))
        × (refresh descriptor_size firmware.map_held ≡ ok map)
        × (coverage page_size map base bytes loader_data ≡ ok n)
  unfolding admit
  admit_ok base bytes n e = elim (Result-cases (refresh descriptor_size firmware.map_held)) [
    | inr (s, r) ↦ absurd (ground arith)
    | inl (map, r) ↦ (map, ground arith, r, ground arith)
  ]

  load_of_new :
      (pages : Pages) (base : ℕ)
      → (new_pages page_size descriptor_size firmware plan.arena_size).0 ≡ ok pages
      → pages.pointer ≡ some base
      → outcome
        ≡ load_into page_size descriptor_size firmware plan source_base source_len base pages
            (new_pages page_size descriptor_size firmware plan.arena_size).1
  unfolding load
  load_of_new pages base made p = ground arith

  load_of_failed :
      (s : Status) (l : Loaded V)
      → (new_pages page_size descriptor_size firmware plan.arena_size).0 ≡ err s
      → outcome.0 ≢ ok l
  unfolding load
  load_of_failed s l made e = ground arith

  load_of_failed_log :
      (s : Status)
      → (new_pages page_size descriptor_size firmware plan.arena_size).0 ≡ err s
      → outcome.1 ≡ (new_pages page_size descriptor_size firmware plan.arena_size).1
  unfolding load
  load_of_failed_log s made = rw (made, load)

  load_into_ok :
      (base : ℕ) (pages : Pages) (log : List Call) (l : Loaded V)
      → (load_into page_size descriptor_size firmware plan source_base source_len base pages log).0
        ≡ ok l
      → (n : ℕ) × (admit page_size descriptor_size firmware base pages.bytes source_base source_len
          ≡ ok n)
        × (plan.stage_into pages.bytes ≡ some (l.verification, l.memory))
        × (l.pages ≡ pages)
        × ((load_into page_size descriptor_size firmware plan source_base source_len base pages
              log).1
            ≡ log ++ (zeroes base pages.bytes ∷ []))
  unfolding load_into
  load_into_ok base pages log l e =
      elim (Result-cases
        (admit page_size descriptor_size firmware base pages.bytes source_base source_len)) [
          | inr (s, a) ↦ absurd (ground arith)
          | inl (n, a) ↦ (n, a, ground arith, ground arith, ground arith)
        ]

  -- A failure behind the allocation drops the pages, before or after they were zeroed.
  load_into_err :
      (base : ℕ) (pages : Pages) (log : List Call) (s : Status)
      → (load_into page_size descriptor_size firmware plan source_base source_len base pages log).0
        ≡ err s
      → let dropped = (release_inner page_size descriptor_size firmware pages).2 in
        let calls =
          (load_into page_size descriptor_size firmware plan source_base source_len base pages
            log).1 in
        (calls ≡ log ++ dropped) ⊎ (calls ≡ log ++ (zeroes base pages.bytes ∷ dropped))
  unfolding load_into
  load_into_err base pages log s e = ground arith

  -- A successful `load` holds whole pages of its own below 4 GiB, apart from the source; the memory map
  -- that the firmware reported gives every byte of them to exactly one descriptor, of type loader data;
  -- the bytes are those that the plan staged; and the pages were allocated and zeroed before.
  pub load-IsLoaded : (l : Loaded V) → outcome.0 ≡ ok l → IsLoaded l
  load-IsLoaded l e =
      elim (Result-cases (new_pages page_size descriptor_size firmware plan.arena_size).0) [
        | inr (s, made) ↦ absurd (load_of_failed s l made e)
        | inl (pages, made) ↦
            let (base, live, log) =
              new_pages-IsLive descriptor_size firmware plan.arena_size pages made in
            let run = load_of_new pages base made live.pointer in
            let (n, admitted, staged, same, calls) =
              load_into_ok base pages
                (new_pages page_size descriptor_size firmware plan.arena_size).1 l
                (ap (λ r. r.0) (sym run) ∙ e) in
            let (map, disjoint, reported, covered) = admit_ok base pages.bytes n admitted in
            let (_, fair, exact, _) = coverage_ok map base pages.bytes loader_data n covered in
            record {
              base = base;
              live = subst (IsLive plan.arena_size base) (sym same) live;
              disjoint =
                  subst (λ b. (source_base + source_len ≤ base) ⊎ (base + b ≤ source_base))
                    live.size disjoint;
              map = map;
              reported = (refresh_iff descriptor_size firmware.map_held map).0 reported;
              fair = subst (λ b. All (IsFair base (base + b) loader_data) map) live.size fair;
              exact = subst (IsExact map base) live.size exact;
              staged = ap plan.stage_into (sym live.size) ∙ staged;
              log = ap (λ r. r.1) run ∙ calls ∙ rw (log, live.size);
            }
      ]

  load_err_balanced :
      (q : Block) (s : Status) → outcome.0 ≡ err s → allocated q outcome.1 ≡ freed q outcome.1
  load_err_balanced q s e =
      elim (Result-cases (new_pages page_size descriptor_size firmware plan.arena_size).0) [
        | inr (s', made) ↦
            let same = load_of_failed_log s' made in
            let s_eq = new_pages_balanced descriptor_size firmware plan.arena_size q s' made in
            ap (allocated q) same ∙ s_eq ∙ ap (freed q) (sym same)
        | inl (pages, made) ↦
            let (base, live, log) =
              new_pages-IsLive descriptor_size firmware plan.arena_size pages made in
            let run = load_of_new pages base made live.pointer in
            let dropped =
              (release_inner_live descriptor_size firmware pages base live.pointer).0
              ∙ ap (λ n. frees base n ∷ []) live.count in
            let logged = ap (λ r. r.1) run in
            elim (load_into_err base pages _ s (ap (λ r. r.0) (sym run) ∙ e)) [
              | inl at_once ↦
                  balanced_of_calls q base outcome.1
                    (logged ∙ at_once ∙ ap₂ (λ a b. a ++ b) log dropped)
              | inr zeroed ↦
                  balanced_of_zeroed q base outcome.1
                    (logged ∙ zeroed ∙ ap₂ (λ a b. a ++ (zeroes base pages.bytes ∷ b)) log dropped)
            ]
      ]

  release_log :
      (later : Firmware) (l : Loaded V) (base : ℕ)
      → l.pages.pointer ≡ some base
      → (release page_size descriptor_size later l).1 ≡ frees base l.pages.count ∷ []
  unfolding release release_inner
  release_log later l base e = rw (e, release_inner)

  probe_log :
      (later : Firmware) (l : Loaded V) (base : ℕ)
      → l.pages.pointer ≡ some base
      → (probe_readback_failure page_size descriptor_size later plan l).1
        ≡ frees base l.pages.count ∷ []
  unfolding probe_readback_failure
  probe_log later l base e = (release_inner_live descriptor_size later l.pages base e).0

  -- Whatever the firmware answers, a failing `load` has freed each block of pages, with its number of
  -- pages, as often as it allocated it. After a success no such block is freed yet, and behind both the
  -- release and the failure probe, with the drop that follows, each block is freed as often as it was
  -- allocated.
  pub load_balanced :
      (q : Block) (later : Firmware)
      → ((s : Status) → outcome.0 ≡ err s → allocated q outcome.1 ≡ freed q outcome.1)
        × ((l : Loaded V)
            → outcome.0 ≡ ok l
            → (freed q outcome.1 ≡ 0)
              × (let calls = outcome.1 ++ (release page_size descriptor_size later l).1 in
                  allocated q calls ≡ freed q calls)
              × (let calls =
                    outcome.1
                    ++ (probe_readback_failure page_size descriptor_size later plan l).1 in
                  allocated q calls ≡ freed q calls))
  unfolding freed
  load_balanced q later = (
    λ s e. load_err_balanced q s e,
    λ l e.
        let v = load-IsLoaded l e in
        (
          ap (freed q) v.log,
          balanced_of_log q v.base _ _ _ outcome.1 _ v.log (
              release_log later l v.base v.live.pointer
              ∙ ap (λ n. frees v.base n ∷ []) v.live.count),
          balanced_of_log q v.base _ _ _ outcome.1 _ v.log (
              probe_log later l v.base v.live.pointer ∙ ap (λ n. frees v.base n ∷ []) v.live.count),
        ),
  )
