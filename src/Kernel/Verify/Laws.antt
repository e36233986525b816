-- ===== src/Kernel/Verify/Laws.antt =====
-- `verify_memory` of src/loaded_kernel.rs against equality of the bytes.
use nextcore_efi.Common.Bytes.{le_value}
use nextcore_efi.Common.{
  All, All-drop, All-take, Bool-cases, IsByte, List, Option, [], ap, arith, drop, drop-add, false,
  inl, inr, length, length-drop, length-replicate, length-take, none, refl, replicate, some, subst,
  suc, sym, take, take-append-drop, true, zero, ℕ, ◌*◌, ◌++◌, ◌-◌, ◌/◌, ◌↔◌, ◌∙◌, ◌∷◌, ◌≡◌, ◌≢◌,
}
use nextcore_efi.Kernel.Verify.{
  wanted, is_other_length, bytes_match, words_match, lead, parts_match, verify_memory,
}

bytes_match→eq : (xs ys : List ℕ) → length xs ≡ length ys → bytes_match xs ys ≡ true → xs ≡ ys
unfolding bytes_match
bytes_match→eq [] [] e h = refl
bytes_match→eq [] (y ∷ ys) e h = absurd (omega (arith, e))
bytes_match→eq (x ∷ xs) [] e h = absurd (omega (arith, e))
bytes_match→eq (x ∷ xs) (y ∷ ys) e h = ground (arith, bytes_match→eq xs ys)

bytes_match_self : (xs : List ℕ) → bytes_match xs xs ≡ true
unfolding bytes_match
bytes_match_self [] = refl
bytes_match_self (x ∷ xs) = ground (arith, bytes_match_self xs)

words_match_self : (n : ℕ) (xs : List ℕ) → words_match n xs xs ≡ true
unfolding words_match
words_match_self zero xs = refl
words_match_self (suc n) xs = ground (arith, words_match_self n (drop 8 xs))

-- Little-endian numbers of as many bytes are equal only if the bytes are.
le_value-injective :
    (xs ys : List ℕ)
    → length xs ≡ length ys
    → All IsByte xs
    → All IsByte ys
    → le_value xs ≡ le_value ys
    → xs ≡ ys
unfolding le_value
le_value-injective [] [] e hx hy h = refl
le_value-injective [] (y ∷ ys) e hx hy h = absurd (omega (arith, e))
le_value-injective (x ∷ xs) [] e hx hy h = absurd (omega (arith, e))
le_value-injective (x ∷ xs) (y ∷ ys) e hx hy h =
    let same : x ≡ y = omega (arith, h) in
    let tail : xs ≡ ys = le_value-injective xs ys (omega (arith, e)) hx.1 hy.1 (omega (arith, h)) in
    cc

-- Lists with equal beginnings and equal ends.
join-eq : (n : ℕ) (xs ys : List ℕ) → take n xs ≡ take n ys → drop n xs ≡ drop n ys → xs ≡ ys
join-eq n xs ys t d =
    sym (take-append-drop n xs)
    ∙ ap (λ a. a ++ drop n xs) t
    ∙ ap (λ b. take n ys ++ b) d
    ∙ take-append-drop n ys

same_take :
    (n : ℕ) (xs ys : List ℕ) → length xs ≡ length ys → length (take n xs) ≡ length (take n ys)
same_take n xs ys e = omega (arith, length-take n xs, length-take n ys, e)

same_drop :
    (n : ℕ) (xs ys : List ℕ) → length xs ≡ length ys → length (drop n xs) ≡ length (drop n ys)
same_drop n xs ys e = omega (arith, length-drop n xs, length-drop n ys, e)

words_match→eq :
    (n : ℕ) (xs ys : List ℕ)
    → length xs ≡ length ys
    → All IsByte xs
    → All IsByte ys
    → words_match n xs ys ≡ true
    → drop (n * 8) xs ≡ drop (n * 8) ys
    → xs ≡ ys
unfolding words_match
words_match→eq zero xs ys e hx hy h d = d
words_match→eq (suc n) xs ys e hx hy h d =
    let first : le_value (take 8 xs) ≡ le_value (take 8 ys) = ground (arith, h) in
    let others : words_match n (drop 8 xs) (drop 8 ys) ≡ true = ground (arith, h) in
    let later : (zs : List ℕ) → drop (suc n * 8) zs ≡ drop (n * 8) (drop 8 zs) =
      λ zs. drop-add 8 (n * 8) (suc n * 8) zs (omega arith) in
    join-eq 8 xs ys
      (le_value-injective (take 8 xs) (take 8 ys) (same_take 8 xs ys e) (All-take IsByte 8 xs hx)
        (All-take IsByte 8 ys hy) first)
      (words_match→eq n (drop 8 xs) (drop 8 ys) (same_drop 8 xs ys e) (All-drop IsByte 8 xs hx)
        (All-drop IsByte 8 ys hy) others (sym (later xs) ∙ d ∙ later ys))

parts_match→eq :
    (n w : ℕ) (xs ys : List ℕ)
    → length xs ≡ length ys
    → All IsByte xs
    → All IsByte ys
    → parts_match n w xs ys ≡ true
    → xs ≡ ys
parts_match→eq n w xs ys e hx hy h =
    let first : bytes_match (take n xs) (take n ys) ≡ true = ground (arith, h) in
    let middle : words_match w (drop n xs) (drop n ys) ≡ true = ground (arith, h) in
    let end : bytes_match (drop (w * 8) (drop n xs)) (drop (w * 8) (drop n ys)) ≡ true =
      ground (arith, h) in
    let behind = same_drop n xs ys e in
    join-eq n xs ys (bytes_match→eq (take n xs) (take n ys) (same_take n xs ys e) first) (
      words_match→eq w (drop n xs) (drop n ys) behind (All-drop IsByte n xs hx)
        (All-drop IsByte n ys hy) middle
        (bytes_match→eq (drop (w * 8) (drop n xs)) (drop (w * 8) (drop n ys))
          (same_drop (w * 8) (drop n xs) (drop n ys) behind) end))

parts_match_self : (n w : ℕ) (xs : List ℕ) → parts_match n w xs xs ≡ true
parts_match_self n w xs = ground (
  arith,
  bytes_match_self (take n xs),
  words_match_self w (drop n xs),
  bytes_match_self (drop (w * 8) (drop n xs)),
)

length-wanted :
    (n : ℕ) (expected : Option (List ℕ))
    → is_other_length n expected ≡ false
    → length (wanted n expected) ≡ n
length-wanted n none h = length-replicate n 0
length-wanted n (some bytes) h = ground arith

IsByte-zeros : (n : ℕ) → All IsByte (replicate n 0)
IsByte-zeros zero = tt
IsByte-zeros (suc n) = (omega arith, IsByte-zeros n)

IsByte-wanted :
    (n : ℕ) (expected : Option (List ℕ))
    → ((bs : List ℕ) → expected ≡ some bs → All IsByte bs)
    → All IsByte (wanted n expected)
IsByte-wanted n none h = IsByte-zeros n
IsByte-wanted n (some bs) h = h bs refl

is_other_length→ne :
    (actual : List ℕ) (expected : Option (List ℕ))
    → is_other_length (length actual) expected ≡ true
    → actual ≢ wanted (length actual) expected
is_other_length→ne actual none h e = cc
is_other_length→ne actual (some bytes) h e =
    let len : length actual ≡ length bytes = ap length e in ground (arith, h, len)

-- `verify_memory` answers true exactly for the expected bytes, or for zeros if none are given,
-- wherever the memory stands and so wherever its words begin.
pub verify_memory_iff :
    (address : ℕ) (actual : List ℕ) (expected : Option (List ℕ))
    → All IsByte actual
    → ((bs : List ℕ) → expected ≡ some bs → All IsByte bs)
    → (verify_memory address actual expected ≡ true) ↔ (actual ≡ wanted (length actual) expected)
unfolding verify_memory
verify_memory_iff address actual expected ha he =
    elim (Bool-cases (is_other_length (length actual) expected)) [
      | inl other ↦ rw other ((λ h. cc), λ e. absurd (is_other_length→ne actual expected other e))
      | inr fits ↦
          let n = lead address (length actual) in
          let words = (length actual - n) / 8 in
          rw fits (
            parts_match→eq n words actual (wanted (length actual) expected)
                (sym (length-wanted (length actual) expected fits)) ha
                (IsByte-wanted (length actual) expected he),
            λ e.
                subst (λ ys. parts_match n words actual ys ≡ true) e
                  (parts_match_self n words actual),
          )
    ]
