-- ===== src/Kernel/Options/Names.antt =====
-- The names that the path test of src/kc.rs accepts, and its tests of a component.
use nextcore_efi.Common.{
  ==_iff, All, Bool-cases, List, [], ap, arith, false, inl, inr, refl, true, ℕ, ◌==◌, ◌∷◌, ◌≡◌, ◌≢◌,
  ◌⊎◌, ◌&&◌, ◌≤◌,
}
use nextcore_efi.Kernel.Options.{is_name_byte, is_dots}

-- An ASCII digit or letter, a dot, an underscore or a dash.
abbrev pub IsNameByte : ℕ → Type 0
IsNameByte b =
    ((0x30 ≤ b) × (b ≤ 0x39))
    ⊎ ((0x41 ≤ b) × (b ≤ 0x5a))
    ⊎ ((0x61 ≤ b) × (b ≤ 0x7a))
    ⊎ (b ≡ 0x2e)
    ⊎ (b ≡ 0x5f)
    ⊎ (b ≡ 0x2d)

-- A name of a directory or a file, which is not empty and neither of `.` and `..`.
pub record IsName (c : List ℕ) : Type 0 where
  pub bytes : All IsNameByte c
  pub named : c ≢ []
  pub not_here : c ≢ 0x2e ∷ []
  pub not_up : c ≢ 0x2e ∷ 0x2e ∷ []

-- A component that passes the tests of the code.
abbrev pub Passes : List ℕ → Type 0
Passes c = All (λ b. is_name_byte b ≡ true) c × (is_dots c ≡ false)

name_byte : (b : ℕ) → is_name_byte b ≡ true → IsNameByte b
name_byte b h = ground arith

name_byte_passes : (b : ℕ) → IsNameByte b → is_name_byte b ≡ true
name_byte_passes b h = ground arith

name_bytes : (c : List ℕ) → All (λ b. is_name_byte b ≡ true) c → All IsNameByte c
name_bytes [] h = tt
name_bytes (b ∷ c) h = (name_byte b h.0, name_bytes c h.1)

name_bytes_pass : (c : List ℕ) → All IsNameByte c → All (λ b. is_name_byte b ≡ true) c
name_bytes_pass [] h = tt
name_bytes_pass (b ∷ c) h = (name_byte_passes b h.0, name_bytes_pass c h.1)

IsName-of : (c : List ℕ) → Passes c → IsName c
IsName-of c (bytes, dots) = record {
  bytes = name_bytes c bytes;
  named = λ e. let bad = ap is_dots e in cc;
  not_here = λ e. let bad = ap is_dots e in cc;
  not_up = λ e. let bad = ap is_dots e in cc;
}

dotless : (c : List ℕ) → c ≢ [] → c ≢ 0x2e ∷ [] → c ≢ 0x2e ∷ 0x2e ∷ [] → is_dots c ≡ false
dotless [] named not_here not_up = absurd (named refl)
dotless (a ∷ []) named not_here not_up = elim (Bool-cases (a == 0x2e)) [
  | inl dot ↦ absurd (not_here (ap (λ x. x ∷ []) ((==_iff a 0x2e).0 dot)))
  | inr other ↦ other
]
dotless (a ∷ b ∷ []) named not_here not_up = elim (Bool-cases (a == 0x2e && b == 0x2e)) [
  | inl dots ↦
      let first : a ≡ 0x2e = ground arith in
      let second : b ≡ 0x2e = ground arith in absurd (not_up (rw (first, second) refl))
  | inr other ↦ other
]
dotless (a ∷ b ∷ d ∷ c) named not_here not_up = refl

IsName-Passes : (c : List ℕ) → IsName c → Passes c
IsName-Passes c n = (name_bytes_pass c n.bytes, dotless c n.named n.not_here n.not_up)

pub are_IsName : (cs : List (List ℕ)) → All Passes cs → All IsName cs
are_IsName [] h = tt
are_IsName (c ∷ cs) h = (IsName-of c h.0, are_IsName cs h.1)

pub are_passing : (cs : List (List ℕ)) → All IsName cs → All Passes cs
are_passing [] h = tt
are_passing (c ∷ cs) h = (IsName-Passes c h.0, are_passing cs h.1)
