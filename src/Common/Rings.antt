-- ===== src/Common/Rings.antt =====
-- A ring buffer as the list of its slots, written at the number of entries so far modulo its size, and
-- what it holds of the history of the entries, whose newest stands first.
use nextcore_efi.Common.Lists.{length, get_or, set, get_or-set_self, get_or-set_ne}
use Prim.Native.Nat.{ℕ, suc, zero, ◌+◌, ◌%◌, ◌<◌}
use mathlib.Core.Path.{◌≡◌, sym, ap, subst, ◌∙◌}
use mathlib.Core.Logic.{◌≢◌}
use mathlib.Core.List.{List, ◌∷◌}
use native.Mathlib.Omega.{arith}

module _ {ℓ} {A : Type ℓ} (default : A) where
  -- An entry that is `j` entries older than the newest, after `i` older ones, is in its slot, for the
  -- newest entries up to the size of the ring.
  abbrev pub HoldsLast : ℕ → List A → List A → Type ℓ
  HoldsLast size ring past =
      (i j : ℕ)
      → j < size
      → i + suc j ≡ length past
      → get_or ring (i % size) default ≡ get_or past j default

  pub set-HoldsLast :
      (size : ℕ) (ring past : List A) (e : A)
      → ((i j : ℕ) → suc j < size → i % size ≢ (i + suc j) % size)
      → ((n : ℕ) → n % size < size)
      → length ring ≡ size
      → HoldsLast size ring past
      → HoldsLast size (set ring (length past % size) e) (e ∷ past)
  set-HoldsLast size ring past e apart below full h i zero js at =
      let here : i ≡ length past = omega (arith, at) in
      rw here (
        get_or-set_self ring (length past % size) e default
          (subst (λ n. length past % size < n) (sym full) (below (length past))))
  set-HoldsLast size ring past e apart below full h i (suc j) js at =
      let older : i + suc j ≡ length past = omega (arith, at) in
      get_or-set_ne ring (length past % size) (i % size) e default
        (λ same. apart i j js (sym same ∙ ap (λ n. n % size) (sym older)))
      ∙ h i j (omega arith) older
