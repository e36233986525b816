-- ===== src/Kernel/Prepare/Laws.antt =====
-- `prepare` of src/kernel.rs: how it ends, what it frees, and where it writes.
use nextcore_efi.Common.{
  >>=-eq-ok, All, All-append, Bool-cases, List, Option, Result, Result-cases, [], ap, arith,
  checked_sub, err, inl, inr, ltb, none, not, ok, ok_or, refl, refuse, some, subst, sym, ℕ, ◌*◌,
  ◌++◌, ◌+◌, ◌^◌, ◌||◌, ◌∙◌, ◌∷◌, ◌≡◌, ◌≢◌, ◌≤◌,
}
use nextcore_efi.Status.{Status}
use nextcore_efi.Files.{read_file}
use nextcore_efi.Files.Laws.{read_file_ends}
use nextcore_efi.Memory.Calls.{Block, Call, allocates, frees, zeroes, allocated, freed}
use nextcore_efi.Kernel.Load.{Plan, Parser, Source, Machine, Loaded, Stop, fails, admit, load_at}
use nextcore_efi.Kernel.Load.Laws.{admit-IsAdmitted, load_at_ok}
use nextcore_efi.Kernel.Load.Outcome.{load_at_err}
use nextcore_efi.Kernel.Prepare.Range.{StaysBelow, room-StaysBelow}
use nextcore_efi.Kernel.Prepare.{
  Image, Formats, Disk, low_profile_end, arena_pages, kernel_va_base, placed_end, physical_base_of,
  dropped, with_image, with_source, with_target, with_config, prepare,
}

-- How `prepare` ends, and what it leaves.
pub record IsPrepared (run : Option (Result Stop (Unit {0})) × List Call) : Type 0 where
  pub ends : run.0 ≢ none
  pub never_ok : run.0 ≢ some (ok tt)
  pub balanced :
      (q : Block) (s : Status) → run.0 ≡ some (err (fails s)) → allocated q run.1 ≡ freed q run.1
  pub low : All (StaysBelow 0x100000 low_profile_end) run.1

refused-IsPrepared : (s : Status) → IsPrepared (some (err (fails s)), [])
unfolding allocated freed
refused-IsPrepared s = record {
  ends = λ h. cc;
  never_ok = λ h. cc;
  balanced = λ q t h. refl;
  low = tt;
}

placed_end_exact :
    (base size end : ℕ)
    → ok_or (placed_end base size) Status.unsupported ≡ ok end
    → end ≡ base + size + arena_pages * 4096
placed_end_exact base size end h = elim (Bool-cases (ltb (base + size) (2 ^ 64))) [
  | inr over ↦ absurd (ground arith)
  | inl fits ↦ ground arith
]

loaded_balanced :
    (q : Block) (p n total : ℕ)
    → allocated q (allocates p n ∷ zeroes p total ∷ frees p n ∷ [])
      ≡ freed q (allocates p n ∷ zeroes p total ∷ frees p n ∷ [])
unfolding allocated freed
loaded_balanced q p n total = omega arith

-- The end of `prepare`, from what is known of the placement.
outcome-IsPrepared :
    (r : Result Stop Loaded) (log : List Call)
    → ((q : Block) (s : Status) → r ≡ err (fails s) → allocated q log ≡ freed q log)
    → ((l : Loaded)
        → r ≡ ok l
        → (total : ℕ) × (log ≡ allocates l.allocation l.pages ∷ zeroes l.allocation total ∷ []))
    → All (StaysBelow 0x100000 low_profile_end) log
    → IsPrepared (dropped (r, log))
outcome-IsPrepared (err stop) log balanced acquired low = record {
  ends = λ h. cc;
  never_ok = λ h. cc;
  balanced = λ q s h.
      balanced q s
        (ap (λ o. elim o [ none ↦ err stop | some (ok u) ↦ err stop | some (err e) ↦ err e ]) h);
  low = low;
}
outcome-IsPrepared (ok l) log balanced acquired low =
    let (total, calls) = acquired l refl in
    record {
      ends = λ h. cc;
      never_ok = λ h. cc;
      balanced = λ q s h.
          subst
            (λ c.
              allocated q (c ++ (frees l.allocation l.pages ∷ []))
              ≡ freed q (c ++ (frees l.allocation l.pages ∷ [])))
            (sym calls) (loaded_balanced q l.allocation l.pages total);
      low =
          All-append (StaysBelow 0x100000 low_profile_end) log (frees l.allocation l.pages ∷ []) low
            (tt, tt);
    }

-- A base that the profile accepts, with the end of the image and its arena.
profile_bounds :
    (image : Image) (base : ℕ)
    → physical_base_of image ≡ ok base
    → (0x100000 ≤ base) × (base + image.plan.image_size + arena_pages * 4096 ≤ low_profile_end)
unfolding physical_base_of
profile_bounds image base h =
    let (u0, h0, k0) = >>=-eq-ok (refuse (not image.is_unix_thread) Status.unsupported) _ h in
    let (b, h1, k1) =
      >>=-eq-ok (ok_or (checked_sub image.preferred_base kernel_va_base) Status.unsupported) _ k0 in
    let (end, h2, k2) =
      >>=-eq-ok (ok_or (placed_end b image.plan.image_size) Status.unsupported) _ k1 in
    let (u3, h3, k3) =
      >>=-eq-ok (refuse (ltb b 0x100000 || ltb low_profile_end end) Status.unsupported) _ k2 in
    let same : b ≡ base = ground arith in
    let exact = placed_end_exact b image.plan.image_size end h2 in ground arith

module _ (parser : Parser) (machine : Machine) (pages : parser.page_size ≡ 4096) where
  loaded_calls :
      (source : Source) (plan : Plan) (base : ℕ) (l : Loaded)
      → (load_at parser machine plan source base arena_pages).0 ≡ ok l
      → (total : ℕ) × ((load_at parser machine plan source base arena_pages).1
          ≡ allocates l.allocation l.pages ∷ zeroes l.allocation total ∷ [])
  loaded_calls source plan base l h =
      let (arena, total, written, admitted, given, copied, passed, same, calls) =
        load_at_ok parser machine plan source base arena_pages l h in
      (
        total,
        calls
            ∙ ap (λ k. allocates k.allocation k.pages ∷ zeroes k.allocation total ∷ []) (sym same),
      )

  dropped-IsPrepared :
      (source : Source) (plan : Plan) (base : ℕ)
      → 0x100000 ≤ base
      → base + plan.image_size + arena_pages * 4096 ≤ low_profile_end
      → IsPrepared (dropped (load_at parser machine plan source base arena_pages))
  unfolding load_at
  dropped-IsPrepared source plan base low high =
      outcome-IsPrepared (load_at parser machine plan source base arena_pages).0
        (load_at parser machine plan source base arena_pages).1
        (λ q s h. load_at_err parser machine plan source base q arena_pages s h)
        (λ l h. loaded_calls source plan base l h)
        (room-StaysBelow 0x100000 low_profile_end parser machine plan source base
          (admit parser plan source base arena_pages) low
          (λ arena total h.
            let admitted =
              admit-IsAdmitted parser machine plan source base arena_pages arena total h in
            let size : arena ≡ arena_pages * 4096 =
              admitted.arena_size ∙ ap (λ n. arena_pages * n) pages in
            omega (arith, admitted.total_size, size, high)))

  image-IsPrepared :
      (source : Source) (o : Option Image) → IsPrepared (with_image parser machine source o)
  image-IsPrepared source none = refused-IsPrepared Status.load_error
  image-IsPrepared source (some image) = elim (Result-cases (physical_base_of image)) [
    | inr (e, refused) ↦ rw refused (refused-IsPrepared e)
    | inl (base, placed) ↦
        let (low, high) = profile_bounds image base placed in
        rw placed (dropped-IsPrepared source image.plan base low high)
  ]

  source-IsPrepared :
      (formats : Formats) (address : ℕ) (r : Option (Result Status (List ℕ)))
      → r ≢ none
      → IsPrepared (with_source parser machine formats address r)
  source-IsPrepared formats address none h = absurd (h refl)
  source-IsPrepared formats address (some (err e)) h = refused-IsPrepared e
  source-IsPrepared formats address (some (ok bytes)) h =
      image-IsPrepared (record { address = address; bytes = bytes }) (formats.image bytes)

  target-IsPrepared :
      (formats : Formats) (disk : Disk) (o : Option (Option (List ℕ)))
      → IsPrepared (with_target parser machine formats disk o)
  target-IsPrepared formats disk none = refused-IsPrepared Status.invalid_parameter
  target-IsPrepared formats disk (some none) = refused-IsPrepared Status.invalid_parameter
  target-IsPrepared formats disk (some (some path)) =
      source-IsPrepared formats disk.source_address
        (read_file (disk.kernel path) (64 * 1024 * 1024))
        (read_file_ends (disk.kernel path) (64 * 1024 * 1024))

  config-IsPrepared :
      (formats : Formats) (disk : Disk) (r : Option (Result Status (List ℕ)))
      → r ≢ none
      → IsPrepared (with_config parser machine formats disk r)
  config-IsPrepared formats disk none h = absurd (h refl)
  config-IsPrepared formats disk (some (err e)) h = refused-IsPrepared e
  config-IsPrepared formats disk (some (ok bytes)) h =
      target-IsPrepared formats disk (formats.target bytes)

  -- With pages of 4096 bytes, `prepare` ends, never with success; if it ends with a status, it has freed
  -- each block of pages, with its number of pages, as often as it was given it; and whatever the configuration and the
  -- kernel say, it zeroes memory only from 1 MiB to 64 MiB.
  pub prepare-IsPrepared :
      (formats : Formats) (disk : Disk) → IsPrepared (prepare parser machine formats disk)
  unfolding prepare
  prepare-IsPrepared formats disk =
      config-IsPrepared formats disk (read_file disk.config (1024 * 1024))
        (read_file_ends disk.config (1024 * 1024))
