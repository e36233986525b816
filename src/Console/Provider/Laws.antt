-- ===== src/Console/Provider/Laws.antt =====
-- The callbacks of src/console_control.rs: when they succeed and what they write.
use nextcore_efi.Common.{
  ==_iff, subst, ◌⊎◌, Bool, Bool-cases, Option, Result, Result-cases, ap, arith, err, false, inl,
  inr, none, ok, refl, some, true, ℕ, ◌==◌, ◌∙◌, ◌≡◌, ◌≢◌,
}
use nextcore_efi.Status.{Status, success, not_found, invalid_parameter}
use nextcore_efi.Console.Provider.{
  text, Lookup, classify_lookup, locate, Output, Provider, text_state, graphics_exists, Modes,
  unwritten, write_to, Pointers, get_mode, set_text, set_mode,
}
use nextcore_efi.Console.Provider.Ready.{
  IsReady, text_state-IsReady, graphics_exists_err, text_state_err, IsReady→text_state,
}

-- What the two lookups say of graphics: the second counts only where the first finds nothing.
pub data Known (p : Provider) : Bool → Type 0 where
  by_gop : p.gop.status ≡ success → p.gop.found ≢ 0 → Known p true
  by_uga : p.gop.status ≡ not_found → p.uga.status ≡ success → p.uga.found ≢ 0 → Known p true
  nowhere : p.gop.status ≡ not_found → p.uga.status ≡ not_found → Known p false

-- A provider with a ready text output, of whose graphics the lookups say something.
pub record CanAnswer (o : Option Provider) : Type 0 where
  pub provider : Provider
  pub state : ℕ × ℕ × ℕ
  pub exists : Bool
  pub present : o ≡ some provider
  pub ready : IsReady provider.output state
  pub known : Known provider exists

located :
    (l : Lookup) (found : Option ℕ)
    → locate l ≡ ok found
    → ((l.status ≡ success) × (l.found ≢ 0) × (found ≡ some l.found))
      ⊎ ((l.status ≡ not_found) × (found ≡ none))
unfolding classify_lookup
located l found h = classified l.status l.found found h
  where
    classified :
        (s : Status) (at : ℕ) (o : Option ℕ)
        → classify_lookup s at ≡ ok o
        → ((s ≡ success) × (at ≢ 0) × (o ≡ some at)) ⊎ ((s ≡ not_found) × (o ≡ none))
    classified success at o k = elim (Bool-cases (at == 0)) [
      | inl null ↦ absurd (ground arith)
      | inr there ↦ inl (refl, ground arith, ground arith)
    ]
    classified not_found at o k = inr (refl, cc)
    classified other at o k = absurd (cc)

graphics_exists-Known :
    (p : Provider) (exists : Bool) → graphics_exists p ≡ ok exists → Known p exists
unfolding graphics_exists
graphics_exists-Known p exists h = elim (Result-cases (locate p.gop)) [
  | inr (e, k) ↦ absurd (ground arith)
  | inl (found, k) ↦ elim (located p.gop found k) [
    | inl (well, there, same) ↦
        let e : true ≡ exists = ground arith in subst (Known p) e (by_gop well there)
    | inr (absent, same) ↦ elim (Result-cases (locate p.uga)) [
      | inr (e, k') ↦ absurd (ground arith)
      | inl (found', k') ↦ elim (located p.uga found' k') [
        | inl (well, there, same') ↦
            let e : true ≡ exists = ground arith in subst (Known p) e (by_uga absent well there)
        | inr (absent', same') ↦
            let e : false ≡ exists = ground arith in subst (Known p) e (nowhere absent absent')
      ]
    ]
  ]
]

classified_at : (found : ℕ) → found ≢ 0 → classify_lookup success found ≡ ok (some found)
unfolding classify_lookup
classified_at found h = ground arith

classified_absent : (found : ℕ) → classify_lookup not_found found ≡ ok none
unfolding classify_lookup
classified_absent found = refl

found_at : (l : Lookup) → l.status ≡ success → l.found ≢ 0 → locate l ≡ ok (some l.found)
found_at l h k = ap (λ s. classify_lookup s l.found) h ∙ classified_at l.found k

found_absent : (l : Lookup) → l.status ≡ not_found → locate l ≡ ok none
found_absent l h = ap (λ s. classify_lookup s l.found) h ∙ classified_absent l.found

Known→graphics_exists :
    (p : Provider) (exists : Bool) → Known p exists → graphics_exists p ≡ ok exists
unfolding graphics_exists
Known→graphics_exists p _ (by_gop well there) = rw (found_at p.gop well there) refl
Known→graphics_exists p _ (by_uga absent well there) =
    rw (found_absent p.gop absent, found_at p.uga well there) refl
Known→graphics_exists p _ (nowhere absent absent') =
    rw (found_absent p.gop absent, found_absent p.uga absent') refl

-- An error of a lookup or of the output, where an answer is at hand, is none.
text_fails : (p : Provider) (e : Status) → text_state p.output ≡ err e → CanAnswer (some p) → ⊥
text_fails p e h a =
    let same : p ≡ a.provider = cc (a.present) in
    let ready = IsReady→text_state a.provider.output a.state a.ready in
    let failed : text_state a.provider.output ≡ err e =
      subst (λ q. text_state q.output ≡ err e) same h in
    cc

graphics_fails : (p : Provider) (e : Status) → graphics_exists p ≡ err e → CanAnswer (some p) → ⊥
graphics_fails p e h a =
    let same : p ≡ a.provider = cc (a.present) in
    let known = Known→graphics_exists a.provider a.exists a.known in
    let failed : graphics_exists a.provider ≡ err e =
      subst (λ q. graphics_exists q ≡ err e) same h in
    cc

-- What `get_mode` answers: an error that wrote nothing, if the output is not ready or the lookups fail,
-- or a ready text output whose graphics are known, with text mode, these graphics and no lock written
-- through the pointers that are there.
pub data Answers (o : Option Provider) (pointers : Pointers) : Status × Modes → Type 0 where
  fails_with : (e : Status) → e ≢ success → (CanAnswer o → ⊥) → Answers o pointers (e, unwritten)
  answers :
      (p : Provider) (state : ℕ × ℕ × ℕ) (exists : Bool)
      → o ≡ some p
      → IsReady p.output state
      → Known p exists
      → Answers o pointers (
        success,
        record {
          mode = write_to pointers.mode text;
          graphics_exist = write_to pointers.graphics_exist exists;
          locked = write_to pointers.locked false;
        },
      )

-- `get_mode` succeeds exactly for a provider with a ready text output, where the lookup of GOP finds it,
-- or finds nothing and that of UGA finds it or nothing too; it then writes text mode, whether there are
-- graphics and no lock through the pointers that are there. Otherwise it answers an error and writes
-- nothing.
pub get_mode-Answers :
    (o : Option Provider) (pointers : Pointers) → Answers o pointers (get_mode o pointers)
unfolding get_mode
get_mode-Answers none pointers = fails_with invalid_parameter (λ h. cc) (λ a. cc (a.present))
get_mode-Answers (some p) pointers = elim (Result-cases (text_state p.output)) [
  | inr (e, bad) ↦ rw bad (fails_with e (text_state_err p.output e bad) (text_fails p e bad))
  | inl (state, ready) ↦ elim (Result-cases (graphics_exists p)) [
    | inr (e, bad) ↦
        rw (ready, bad) (fails_with e (graphics_exists_err p e bad) (graphics_fails p e bad))
    | inl (exists, known) ↦
        rw (ready, known)
          (answers p state exists refl (text_state-IsReady p.output state ready)
            (graphics_exists-Known p exists known))
  ]
]

set_text-some :
    (o : Option Output) (r : Result Status (ℕ × ℕ × ℕ)) (status : Status) (index : ℕ)
    → set_text o r ≡ (status, some index)
    → (state : ℕ × ℕ × ℕ) × (r ≡ ok state) × (state.0 ≡ index)
set_text-some o (err e) status index h = cc
set_text-some none (ok (i, columns, rows)) status index h = cc
set_text-some (some output) (ok (i, columns, rows)) status index h =
    ((i, columns, rows), refl, ground arith)

-- `set_mode` calls SetMode of the output only for the text mode, and then with the index of the mode
-- that the output is in and that QueryMode describes.
pub set_mode-IsReady :
    (o : Option Provider) (mode index : ℕ) (status : Status)
    → set_mode o mode ≡ (status, some index)
    → (mode ≡ text)
      × ((p : Provider) × (state : ℕ × ℕ × ℕ) × (o ≡ some p)
          × IsReady p.output state
          × (state.0 ≡ index))
unfolding set_mode
set_mode-IsReady none mode index status h = cc
set_mode-IsReady (some p) mode index status h = elim (Bool-cases (mode == text)) [
  | inr other ↦ absurd (ground arith)
  | inl is_text ↦
      let call : set_text p.output (text_state p.output) ≡ (status, some index) = ground arith in
      let (state, ready, same) = set_text-some p.output (text_state p.output) status index call in
      (
        (==_iff mode text).0 is_text,
        (p, state, refl, text_state-IsReady p.output state ready, same),
      )
]
