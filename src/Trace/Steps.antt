-- ===== src/Trace/Steps.antt =====
-- How a sequence of addresses moves, counted over its history, whose newest address stands first.
use nextcore_efi.Common.{Bool, List, [], arith, if◌then◌else◌, length, ltb, ℕ, ◌+◌, ◌==◌, ◌∷◌, ◌≤◌}

-- The number of neighbours, an older and a newer address, for which `p older newer` holds.
abbrev pub moves : (ℕ → ℕ → Bool) → List ℕ → ℕ
moves p [] = 0
moves p (x ∷ []) = 0
moves p (x ∷ y ∷ zs) = (if p y x then 1 else 0) + moves p (y ∷ zs)

abbrev pub rises : List ℕ → ℕ
rises = moves ltb

abbrev pub falls : List ℕ → ℕ
falls = moves (λ older newer. ltb newer older)

abbrev pub rests : List ℕ → ℕ
rests = moves (λ older newer. older == newer)

-- The oldest entry of a history.
abbrev pub oldest {ℓ} : {A : Type ℓ} → A → List A → A
oldest d [] = d
oldest d (x ∷ []) = x
oldest d (x ∷ y ∷ zs) = oldest d (y ∷ zs)

-- The newest entry of a history.
abbrev pub newest {ℓ} : {A : Type ℓ} → A → List A → A
newest d [] = d
newest d (x ∷ xs) = x

pub moves-le : (p : ℕ → ℕ → Bool) (xs : List ℕ) → moves p xs ≤ length xs
moves-le p [] = omega arith
moves-le p (x ∷ []) = omega arith
moves-le p (x ∷ y ∷ zs) = ground (arith, moves-le p (y ∷ zs))
