-- ===== src/Memory/Coverage/Counting.antt =====
-- How often a memory map covers an address, and how this adds up over a range.
use native.Mathlib.Decide.{dec_lt}
use nextcore_efi.Common.{
  Bool, List, [], arith, if◌then◌else◌, max, min, refl, suc, zero, ℕ, ◌+◌, ◌-◌, ◌<◌, ◌∷◌, ◌≡◌, ◌≤◌,
}
use nextcore_efi.Memory.Descriptor.{Descriptor, limit_of, covers}

abbrev pub one_if : Bool → ℕ
one_if b = if b then 1 else 0

-- The number of descriptors that cover an address.
unfoldable pub count_at : List Descriptor → ℕ → ℕ
count_at [] a = 0
count_at (d ∷ ds) a = one_if (covers a d) + count_at ds a

-- f base + f (base + 1) + ... over `n` addresses.
unfoldable pub sum_range : (ℕ → ℕ) → ℕ → ℕ → ℕ
sum_range f base zero = 0
sum_range f base (suc n) = sum_range f base n + f (base + n)

-- The bytes of the range that each descriptor covers, added up.
unfoldable pub shared_bytes : ℕ → ℕ → List Descriptor → ℕ
shared_bytes base end [] = 0
shared_bytes base end (d ∷ ds) =
    (min end (limit_of d) - max base d.phys_start) + shared_bytes base end ds

sum_range-covers :
    (d : Descriptor) (base n : ℕ)
    → sum_range (λ a. one_if (covers a d)) base n
      ≡ min (base + n) (limit_of d) - max base d.phys_start
unfolding sum_range
sum_range-covers d base zero = omega arith
sum_range-covers d base (suc n) = ground (arith, sum_range-covers d base n)

sum_range-zero : (base n : ℕ) → sum_range (λ a. 0) base n ≡ 0
unfolding sum_range
sum_range-zero base zero = refl
sum_range-zero base (suc n) = omega (arith, sum_range-zero base n)

sum_range-add :
    (f g : ℕ → ℕ) (base n : ℕ)
    → sum_range (λ a. f a + g a) base n ≡ sum_range f base n + sum_range g base n
unfolding sum_range
sum_range-add f g base zero = refl
sum_range-add f g base (suc n) = omega (arith, sum_range-add f g base n)

-- Counting by descriptor and counting by address give the same number.
pub sum_range-count_at :
    (ds : List Descriptor) (base n : ℕ)
    → sum_range (count_at ds) base n ≡ shared_bytes base (base + n) ds
unfolding count_at shared_bytes
sum_range-count_at [] base n = sum_range-zero base n
sum_range-count_at (d ∷ ds) base n = omega (
  arith,
  sum_range-add (λ a. one_if (covers a d)) (count_at ds) base n,
  sum_range-covers d base n,
  sum_range-count_at ds base n,
)

sum_range-ge :
    (f : ℕ → ℕ) (base n : ℕ) → ((i : ℕ) → i < n → 1 ≤ f (base + i)) → n ≤ sum_range f base n
unfolding sum_range
sum_range-ge f base zero h = omega arith
sum_range-ge f base (suc n) h =
    omega (arith, sum_range-ge f base n (λ i hi. h i (omega arith)), h n (omega arith))

-- Where every term is at least one and the sum is the number of terms, every term is one.
pub all_one_of_sum :
    (f : ℕ → ℕ) (base n : ℕ)
    → ((i : ℕ) → i < n → 1 ≤ f (base + i))
    → sum_range f base n ≡ n
    → (i : ℕ) → i < n
    → f (base + i) ≡ 1
unfolding sum_range
all_one_of_sum f base zero h e i hi = absurd (omega arith)
all_one_of_sum f base (suc n) h e i hi =
    let below = sum_range-ge f base n (λ j hj. h j (omega arith)) in
    let last = h n (omega arith) in
    elim (dec_lt i n) [
      | yes lt ↦ all_one_of_sum f base n (λ j hj. h j (omega arith)) (omega arith) i lt
      | no ge ↦ let same : i ≡ n = omega arith in rw same (omega arith)
    ]

pub sum_range_of_ones :
    (f : ℕ → ℕ) (base n : ℕ) → ((i : ℕ) → i < n → f (base + i) ≡ 1) → sum_range f base n ≡ n
unfolding sum_range
sum_range_of_ones f base zero h = refl
sum_range_of_ones f base (suc n) h =
    omega (arith, sum_range_of_ones f base n (λ i hi. h i (omega arith)), h n (omega arith))
