-- ===== src/Observation/Laws.antt =====
-- src/memory_observation.rs: the ring against the history of requests.
use native.Mathlib.Decide.{dec_lt}
use nextcore_efi.Common.{
  List, [], ap, arith, false, get_or, length, length-set, min, refl, saturating_add, set, suc, sym,
  take, zero, ℕ, ◌%◌, ◌++◌, ◌+◌, ◌-◌, ◌<◌, ◌==◌, ◌^◌, ◌∙◌, ◌∷◌, ◌≡◌, ◌≢◌, ◌≤◌,
}
use nextcore_efi.Common.Rings.{HoldsLast, set-HoldsLast}
use nextcore_efi.Trace.Abi.{Request, Reply}
use nextcore_efi.Observation.{
  Entry, blank, entry_of, slots_from, ObservedMemory, observe, execute, entries,
}

module _ {S : Type 0} (serve : S → Request → Reply × S) where
  -- The service alone, after a history of requests whose newest stands first.
  unfoldable pub alone : S → List Request → S
  alone s [] = s
  alone s (q ∷ qs) = (serve (alone s qs) q).1

  -- The observing owner after the same history.
  unfoldable pub watched : S → List Request → ObservedMemory S
  watched s [] = observe serve s
  watched s (q ∷ qs) = (execute serve (watched s qs) q).1

  -- The entries of a history, whose newest stands first.
  abbrev pub log : S → List Request → List Entry
  log s [] = []
  log s (q ∷ qs) = entry_of (suc (length qs)) q (serve (alone s qs) q).0 ∷ log s qs

  pub record IsWatching (m : ObservedMemory S) (s : S) (qs : List Request) : Type 0 where
    pub service : m.service ≡ alone s qs
    pub size : length m.ring ≡ 64
    pub next : m.next ≡ length qs % 64
    pub len : m.len ≡ min (length qs) 64
    pub total : m.total ≡ length qs
    pub ring : HoldsLast blank 64 m.ring (log s qs)

length-log :
    {S : Type 0} (serve : S → Request → Reply × S) (s : S) (qs : List Request)
    → length (log serve s qs) ≡ length qs
length-log serve s [] = refl
length-log serve s (q ∷ qs) = ap suc (length-log serve s qs)

pub mod_apart : (i j : ℕ) → suc j < 64 → i % 64 ≢ (i + suc j) % 64
mod_apart i j h e = omega (arith, h, e)

pub mod_below : (n : ℕ) → n % 64 < 64
mod_below n = omega arith

watched-ring :
    {S : Type 0} (serve : S → Request → Reply × S) (s : S) (q : Request) (qs : List Request)
    (m : ObservedMemory S)
    → IsWatching serve m s qs
    → length qs < 2 ^ 64 - 1
    → HoldsLast blank 64
        (set m.ring m.next (entry_of (saturating_add m.total 1) q (serve m.service q).0))
        (log serve s (q ∷ qs))
watched-ring serve s q qs m h b =
    let counted : saturating_add m.total 1 ≡ suc (length qs) = omega (arith, h.total, b) in
    let at : m.next ≡ length (log serve s qs) % 64 = rw (length-log serve s qs) h.next in
    rw (counted, at, h.service)
      (set-HoldsLast blank 64 m.ring (log serve s qs)
        (entry_of (suc (length qs)) q (serve (alone serve s qs) q).0) mod_apart mod_below h.size
        h.ring)

watched-IsWatching :
    {S : Type 0} (serve : S → Request → Reply × S) (s : S) (qs : List Request)
    → length qs < 2 ^ 64
    → IsWatching serve (watched serve s qs) s qs
unfolding watched alone execute
watched-IsWatching serve s [] b = record {
  service = refl;
  size = refl;
  next = refl;
  len = refl;
  total = refl;
  ring = λ i j js at. absurd (omega (arith, at));
}
watched-IsWatching serve s (q ∷ qs) b =
    let m = watched serve s qs in
    let h : IsWatching serve m s qs = watched-IsWatching serve s qs (omega arith) in
    record {
      service = ap (λ a. (serve a q).1) h.service;
      size =
          length-set m.ring m.next (entry_of (saturating_add m.total 1) q (serve m.service q).0)
          ∙ h.size;
      next = omega (arith, h.next);
      len = omega (arith, h.len);
      total = omega (arith, h.total, b);
      ring = watched-ring serve s q qs m h (omega arith);
    }

abbrev pub backwards {ℓ} : {A : Type ℓ} → List A → List A
backwards [] = []
backwards (x ∷ xs) = backwards xs ++ (x ∷ [])

backwards-take :
    {A : Type 0} (d : A) (n : ℕ) (xs : List A)
    → n < length xs
    → backwards (take (suc n) xs) ≡ get_or xs n d ∷ backwards (take n xs)
backwards-take d n [] h = absurd (omega arith)
backwards-take d zero (x ∷ xs) h = refl
backwards-take d (suc n) (x ∷ xs) h =
    ap (λ ys. ys ++ (x ∷ [])) (backwards-take d n xs (omega arith))

-- The slots from `first + offset` on are the `n` newest entries, oldest first, when slot
-- `first + offset + k` belongs to the entry with `i + k` older ones.
slots_from-HoldsLast :
    (ring past : List Entry) (first offset n i : ℕ)
    → HoldsLast blank 64 ring past
    → i + n ≡ length past
    → n ≤ 64
    → (first + offset) % 64 ≡ i % 64
    → slots_from ring first offset n ≡ backwards (take n past)
slots_from-HoldsLast ring past first offset zero i h at le same = refl
slots_from-HoldsLast ring past first offset (suc n) i h at le same =
    let head : get_or ring ((first + offset) % 64) blank ≡ get_or past n blank =
      ap (λ k. get_or ring k blank) same ∙ h i n (omega arith) at in
    let tail =
      slots_from-HoldsLast ring past first (offset + 1) n (suc i) h (omega (arith, at))
        (omega arith) (omega (arith, same)) in
    rw (head, tail) (sym (backwards-take blank n past (omega (arith, at))))

take-all : {A : Type 0} (n : ℕ) (xs : List A) → length xs ≤ n → take n xs ≡ xs
take-all zero [] h = refl
take-all zero (x ∷ xs) h = absurd (omega arith)
take-all (suc n) [] h = refl
take-all (suc n) (x ∷ xs) h = ap (λ ys. x ∷ ys) (take-all n xs (omega arith))

entries_of_state :
    {S : Type 0} (m : ObservedMemory S) (past : List Entry)
    → m.len ≡ min (length past) 64
    → m.next ≡ length past % 64
    → HoldsLast blank 64 m.ring past
    → entries m ≡ backwards (take 64 past)
unfolding entries
entries_of_state m past len next h = elim (dec_lt (length past) 64) [
  | yes few ↦
      let n : m.len ≡ length past = omega (arith, len) in
      let other : (length past == 64) ≡ false = ground arith in
      rw (n, other)
        (slots_from-HoldsLast m.ring past 0 0 (length past) 0 h (omega arith) (omega arith) refl
          ∙ ap backwards
              (take-all (length past) past (omega arith) ∙ sym (take-all 64 past (omega arith))))
  | no many ↦
      let n : m.len ≡ 64 = omega (arith, len) in
      rw n (
        slots_from-HoldsLast m.ring past m.next 0 64 (length past - 64) h (omega arith)
          (omega arith) (omega (arith, next)))
]

-- The entries after a history of fewer than 2 ^ 64 requests are those of its last 64 requests, or of
-- all when there are fewer, oldest first, each with its number, its fields and the result of the
-- service's reply; the service is in the state that the same requests leave it in without an observer.
pub entries-watched :
    {S : Type 0} (serve : S → Request → Reply × S) (s : S) (qs : List Request)
    → length qs < 2 ^ 64
    → (entries (watched serve s qs) ≡ backwards (take 64 (log serve s qs)))
      × ((watched serve s qs).service ≡ alone serve s qs)
      × ((watched serve s qs).total ≡ length qs)
unfolding entries
entries-watched serve s qs b =
    let h : IsWatching serve (watched serve s qs) s qs = watched-IsWatching serve s qs b in
    (
      entries_of_state (watched serve s qs) (log serve s qs) (rw (length-log serve s qs) h.len)
          (rw (length-log serve s qs) h.next) h.ring,
      h.service,
      h.total,
    )
