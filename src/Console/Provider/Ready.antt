-- ===== src/Console/Provider/Ready.antt =====
-- The text output and the lookups of src/console_control.rs: when they answer, and how they fail.
use nextcore_efi.Common.{
  ltb, lt→ltb, Bool-cases, Option, Option-cases, Result-cases, ap, arith, err, false, inl, inr, max,
  none, ok, refl, some, sym, true, ℕ, ◌<◌, ◌==◌, ◌∙◌, ◌≡◌, ◌≢◌,
}
use nextcore_efi.Status.{Status, success, not_found, is_success, is_success→eq}
use nextcore_efi.Console.Provider.{
  Lookup, classify_lookup, locate, ℤ, pos, negsuc, Output, Provider, mode_index, queried,
  text_state, second_lookup, graphics_exists,
}

-- A text output in a mode that QueryMode describes.
pub record IsReady (o : Option Output) (state : ℕ × ℕ × ℕ) : Type 0 where
  pub output : Output
  pub limit : ℕ
  pub present : o ≡ some output
  pub mode : output.mode ≡ pos state.0
  pub max_mode : output.max_mode ≡ pos limit
  pub in_range : state.0 < limit
  pub answered : output.query_mode state.0 ≡ (success, state.1, state.2)
  pub columns : 0 < state.1
  pub rows : 0 < state.2

queried_ok :
    (index : ℕ) (q : Status × ℕ × ℕ) (state : ℕ × ℕ × ℕ)
    → queried index q ≡ ok state
    → (q ≡ (success, state.1, state.2)) × (state.0 ≡ index) × (0 < state.1) × (0 < state.2)
queried_ok index (status, columns, rows) state h = elim (Bool-cases (is_success status)) [
  | inr failed ↦ absurd (ground arith)
  | inl well ↦
      let same = is_success→eq status well in
      (ground arith, ground arith, ground arith, ground arith)
]

mode_index-some :
    (mode max : ℤ) (index : ℕ)
    → mode_index mode max ≡ some index
    → (mode ≡ pos index) × ((limit : ℕ) × (max ≡ pos limit) × (index < limit))
mode_index-some (negsuc n) max index h = cc
mode_index-some (pos n) (negsuc m) index h = cc
mode_index-some (pos n) (pos m) index h = (ground arith, (m, refl, ground arith))

pub text_state-IsReady :
    (o : Option Output) (state : ℕ × ℕ × ℕ) → text_state o ≡ ok state → IsReady o state
unfolding text_state
text_state-IsReady none state h = cc
text_state-IsReady (some output) state h =
    elim (Option-cases (mode_index output.mode output.max_mode)) [
      | inl bad ↦ absurd (ground arith)
      | inr (index, found) ↦
          let k : queried index (output.query_mode index) ≡ ok state = ground arith in
          let (q, same, columns, rows) = queried_ok index (output.query_mode index) state k in
          let (mode, (limit, max, low)) = mode_index-some output.mode output.max_mode index found in
          record {
            output = output;
            limit = limit;
            present = refl;
            mode = mode ∙ ap pos (sym same);
            max_mode = max;
            in_range = omega (arith, low, same);
            answered = ap output.query_mode same ∙ q;
            columns = columns;
            rows = rows;
          }
    ]

-- A failure carries an error status.
classify_lookup_err :
    (s : Status) (found : ℕ) (e : Status) → classify_lookup s found ≡ err e → e ≢ success
unfolding classify_lookup
classify_lookup_err success found e h = elim (Bool-cases (found == 0)) [
  | inl null ↦ ground arith
  | inr there ↦ absurd (ground arith)
]
classify_lookup_err not_found found e h = cc
classify_lookup_err other found e h = cc

second_lookup_err :
    (uga : Lookup) (o : Option ℕ) (e : Status) → second_lookup uga o ≡ err e → e ≢ success
second_lookup_err uga (some i) e h = cc
second_lookup_err uga none e h = elim (Result-cases (locate uga)) [
  | inl (found, k) ↦ absurd (ground arith)
  | inr (s, k) ↦ classify_lookup_err uga.status uga.found e (k ∙ ground arith)
]

pub graphics_exists_err : (p : Provider) (e : Status) → graphics_exists p ≡ err e → e ≢ success
unfolding graphics_exists
graphics_exists_err p e h = elim (Result-cases (locate p.gop)) [
  | inl (found, k) ↦ second_lookup_err p.uga found e (ground arith)
  | inr (s, k) ↦ classify_lookup_err p.gop.status p.gop.found e (k ∙ ground arith)
]

queried_err : (index : ℕ) (q : Status × ℕ × ℕ) (e : Status) → queried index q ≡ err e → e ≢ success
queried_err index (status, columns, rows) e h = elim (Bool-cases (is_success status)) [
  | inl well ↦ ground arith
  | inr failed ↦
      let same : status ≡ e = ground arith in
      λ k. let well : is_success status ≡ true = ap is_success (same ∙ k) in cc
]

pub text_state_err : (o : Option Output) (e : Status) → text_state o ≡ err e → e ≢ success
unfolding text_state
text_state_err none e h = cc
text_state_err (some output) e h = elim (Option-cases (mode_index output.mode output.max_mode)) [
  | inl bad ↦ ground arith
  | inr (index, found) ↦ queried_err index (output.query_mode index) e (ground arith)
]

pub IsReady→text_state :
    (o : Option Output) (state : ℕ × ℕ × ℕ) → IsReady o state → text_state o ≡ ok state
unfolding text_state
IsReady→text_state o state r =
    let columns : (state.1 == 0) ≡ false = ground (arith, r.columns) in
    let rows : (state.2 == 0) ≡ false = ground (arith, r.rows) in
    let low : ltb state.0 r.limit ≡ true = lt→ltb state.0 r.limit r.in_range in
    rw (r.present, r.mode, r.max_mode, low, r.answered, columns, rows) refl
