-- ===== src/Exit/Laws.antt =====
-- src/exit_data.rs: the description against the units of the data, and the reports.
use nextcore_efi.Common.Bytes.{le16, le16_units}
use nextcore_efi.Common.{
  ==_iff, All, All-append, ◌++◌, ◌^◌, ◌≢◌, false, Bool-cases, List, [], any, ap, arith, checked_add,
  if◌then◌else◌, inl, inr, length, length-take, ltb→lt, lt→ltb, min, refl, some, take, true, ℕ, ◌*◌,
  ◌+◌, ◌<◌, ◌==◌, ◌↔◌, ◌∙◌, ◌∷◌, ◌≡◌, ◌≤◌,
}
use nextcore_efi.Escape.{escape}
use nextcore_efi.Escape.Injective.{IsPrintable, escape-IsPrintable}
use nextcore_efi.Exit.{
  Description, describe, escaped_description, Child, Report, no_data, address_overflow, description,
  exit_text, freed_with, is_in_range, text_reports, trailing_of, data_reports, start_image,
}

-- The units in front of the first NUL.
abbrev pub until_nul : List ℕ → List ℕ
until_nul [] = []
until_nul (u ∷ us) = if u == 0 then [] else u ∷ until_nul us

abbrev pub described : List ℕ → Description
described us = record {
  text = escape (until_nul us);
  units = length (until_nul us);
  terminated = any (λ u. u == 0) us;
}

describe-described : (u : ℕ) (us : List ℕ) → describe u (described us) ≡ described (u ∷ us)
unfolding escape
describe-described u us = elim (Bool-cases (u == 0)) [
  | inl nul ↦ rw nul refl
  | inr other ↦ rw other refl
]

-- The description of any bytes is the escaped form and the number of their little-endian units up to
-- the first NUL, and whether there is one; a last odd byte does not count.
pub escaped_description-described :
    (bs : List ℕ) → escaped_description bs ≡ described (le16_units bs)
unfolding escaped_description le16_units escape
escaped_description-described [] = refl
escaped_description-described (b ∷ []) = refl
escaped_description-described (lo ∷ hi ∷ bs) =
    ap (describe (le16 lo hi)) (escaped_description-described bs)
    ∙ describe-described (le16 lo hi) (le16_units bs)

-- The 16-bit units of the prefix of the exit data that is read, 2048 bytes at most.
abbrev pub units_of : Child → List ℕ
units_of c = le16_units (take (min c.size 2048) c.memory)

-- What a report of `start_image` says is so.
abbrev pub IsHonest : Child → Report → Type 0
IsHonest c (description bytes copied units terminated truncated trailing) =
    (bytes ≡ c.size)
    × (copied ≡ min c.size 2048)
    × (units ≡ length (until_nul (units_of c)))
    × (terminated ≡ any (λ u. u == 0) (units_of c))
    × (terminated ≡ true → (units + 1) * 2 + trailing ≡ c.size)
    × (terminated ≡ false → trailing ≡ 0)
    × ((truncated ≡ true) ↔ (copied < c.size))
IsHonest c (exit_text text) = (text ≡ escape (until_nul (units_of c))) × All IsPrintable text
IsHonest c (no_data bytes) = (bytes ≡ c.size) × (c.data_at ≡ 0)
IsHonest c (address_overflow bytes) = (bytes ≡ c.size) × (2 ^ 64 ≤ c.data_at + min c.size 2048)
IsHonest c (freed_with status) = status ≡ c.free_status

-- A report that belongs to exit data that can be read.
abbrev pub is_text : Report → ℕ
is_text (description bytes copied units terminated truncated trailing) = 1
is_text (exit_text text) = 1
is_text r = 0

abbrev pub texts : List Report → ℕ
texts [] = 0
texts (r ∷ rs) = is_text r + texts rs

until_nul-le : (us : List ℕ) → length (until_nul us) ≤ length us
until_nul-le [] = omega arith
until_nul-le (u ∷ us) = ground (arith, until_nul-le us)

until_nul-lt : (us : List ℕ) → any (λ u. u == 0) us ≡ true → length (until_nul us) < length us
until_nul-lt [] h = absurd (cc)
until_nul-lt (u ∷ us) h = ground (arith, until_nul-lt us)

le16_units-le : (bs : List ℕ) → length (le16_units bs) * 2 ≤ length bs
unfolding le16_units
le16_units-le [] = omega arith
le16_units-le (b ∷ []) = omega arith
le16_units-le (lo ∷ hi ∷ bs) = omega (arith, le16_units-le bs)

trailing-total :
    (us : List ℕ) (size copied : ℕ)
    → length us * 2 ≤ copied
    → copied ≤ size
    → any (λ u. u == 0) us ≡ true
    → (length (until_nul us) + 1) * 2 + trailing_of (described us) size ≡ size
trailing-total us size copied fits le nul =
    let short = until_nul-lt us nul in rw nul (omega (arith, short, fits, le))

text_reports-IsHonest :
    (c : Child)
    → length (units_of c) * 2 ≤ min c.size 2048
    → All (IsHonest c) (text_reports c (min c.size 2048) (described (units_of c)))
text_reports-IsHonest c fits = (
  (
    refl,
    refl,
    refl,
    refl,
    trailing-total (units_of c) c.size (min c.size 2048) fits (omega arith),
    λ none_such. rw none_such refl,
    (ltb→lt (min c.size 2048) c.size, lt→ltb (min c.size 2048) c.size),
  ),
  ((refl, escape-IsPrintable (until_nul (units_of c))), tt),
)

data_reports-IsHonest :
    (c : Child)
    → All (IsHonest c) (data_reports c (min c.size 2048))
      × (c.data_at + min c.size 2048 < 2 ^ 64 → texts (data_reports c (min c.size 2048)) ≡ 2)
data_reports-IsHonest c =
    let len = min c.size 2048 in
    elim (Bool-cases (is_in_range (checked_add c.data_at len))) [
      | inr over ↦
          let far : 2 ^ 64 ≤ c.data_at + len = ground arith in
          rw over (((refl, far), tt), λ near. absurd (omega (arith, far, near)))
      | inl fine ↦
          let bs = take len c.memory in
          let fits : length (le16_units bs) * 2 ≤ len =
            omega (arith, le16_units-le bs, length-take len c.memory) in
          rw (fine, escaped_description-described bs) (text_reports-IsHonest c fits, λ near. refl)
    ]

texts-append : (xs ys : List Report) → texts (xs ++ ys) ≡ texts xs + texts ys
texts-append [] ys = omega arith
texts-append (x ∷ xs) ys = omega (arith, texts-append xs ys)

-- `start_image` answers the child's own status, whatever the diagnostics; it frees the returned buffer
-- exactly once when there is one and nothing otherwise. What it reports is so: the size of the data, the
-- prefix of at most 2048 bytes that is copied, the number of units in front of the first NUL, whether
-- there is one, the bytes behind it, and those units as printable ASCII. Both lines on the units are
-- reported whenever there is data whose prefix does not wrap the address space.
pub start_image-IsHonest :
    (c : Child)
    → ((start_image (some c)).status ≡ c.status)
      × ((start_image (some c)).freed ≡ (if c.data_at == 0 then [] else c.data_at ∷ []))
      × All (IsHonest c) (start_image (some c)).reports
      × (c.data_at ≢ 0
          → c.data_at + min c.size 2048 < 2 ^ 64
          → texts (start_image (some c)).reports ≡ 2)
unfolding start_image
start_image-IsHonest c = elim (Bool-cases (c.data_at == 0)) [
  | inl null ↦
      let zero_at = (==_iff c.data_at 0).0 null in
      rw null (refl, refl, ((refl, zero_at), tt), λ there. absurd (there zero_at))
  | inr there ↦
      let reports = data_reports c (min c.size 2048) in
      let (honest, both) = data_reports-IsHonest c in
      rw there (
        refl,
        refl,
        All-append (IsHonest c) reports (freed_with c.free_status ∷ []) honest (refl, tt),
        λ h near. texts-append reports (freed_with c.free_status ∷ []) ∙ omega (arith, both near),
      )
]
