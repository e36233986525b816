-- ===== src/Kernel/Options/Laws.antt =====
-- The path test of `options` of src/kc.rs against the names that a path is made of.
use mathlib.Core.List.{append-nil}
use nextcore_efi.Common.{
  ==_iff, All, Bool, Bool-cases, List, [], all, any, ap, arith, drop, false, inl, inr, length,
  length-append, ltb, ltb→le, not, refl, subst, true, ℕ, ◌++◌, ◌<◌, ◌==◌, ◌||◌, ◌↔◌, ◌∙◌, ◌∷◌, ◌≡◌,
  ◌≤◌,
}
use nextcore_efi.Kernel.Options.{
  backslash, is_name_byte, is_path_byte, onto_first, split, is_dots, is_refused,
}
use nextcore_efi.Kernel.Options.Names.{IsName, Passes, are_IsName, are_passing}

-- The absolute path of names.
abbrev pub join : List (List ℕ) → List ℕ
join [] = []
join (c ∷ cs) = backslash ∷ (c ++ join cs)

join-onto_first :
    (b : ℕ) (cs : List (List ℕ)) (bs : List ℕ)
    → backslash ∷ bs ≡ join cs
    → backslash ∷ (b ∷ bs) ≡ join (onto_first b cs)
join-onto_first b [] bs h = absurd (omega (arith, ap length h))
join-onto_first b (c ∷ cs) bs h =
    let same : bs ≡ c ++ join cs = ap (drop 1) h in ap (λ r. backslash ∷ (b ∷ r)) same

join-split : (bs : List ℕ) → backslash ∷ bs ≡ join (split bs)
unfolding split
join-split [] = refl
join-split (b ∷ bs) = elim (Bool-cases (b == backslash)) [
  | inl slash ↦
      let same = (==_iff b backslash).0 slash in
      rw slash (ap (λ x. backslash ∷ (x ∷ bs)) same ∙ ap (λ r. backslash ∷ r) (join-split bs))
  | inr other ↦ rw other (join-onto_first b (split bs) bs (join-split bs))
]

abbrev AreNameBytes : List (List ℕ) → Type 0
AreNameBytes cs = All (λ c. All (λ b. is_name_byte b ≡ true) c) cs

onto_first-AreNameBytes :
    (b : ℕ) (cs : List (List ℕ))
    → is_name_byte b ≡ true
    → AreNameBytes cs
    → AreNameBytes (onto_first b cs)
onto_first-AreNameBytes b [] h k = ((h, tt), tt)
onto_first-AreNameBytes b (c ∷ cs) h k = ((h, k.0), k.1)

name_of_path_byte : (x y : Bool) → x || y ≡ true → x ≡ false → y ≡ true
name_of_path_byte true y h k = cc
name_of_path_byte false y h k = h

split-AreNameBytes : (bs : List ℕ) → all is_path_byte bs ≡ true → AreNameBytes (split bs)
unfolding split
split-AreNameBytes [] h = (tt, tt)
split-AreNameBytes (b ∷ bs) h =
    let first : is_path_byte b ≡ true = ground (arith, h) in
    let rest : all is_path_byte bs ≡ true = ground (arith, h) in
    elim (Bool-cases (b == backslash)) [
      | inl slash ↦ rw slash (tt, split-AreNameBytes bs rest)
      | inr other ↦ rw other (
          onto_first-AreNameBytes b (split bs)
            (name_of_path_byte (b == backslash) (is_name_byte b) first other)
            (split-AreNameBytes bs rest))
    ]

are_names : (cs : List (List ℕ)) → AreNameBytes cs → any is_dots cs ≡ false → All Passes cs
are_names [] h k = tt
are_names (c ∷ cs) h k =
    let (first, rest) = or_false (is_dots c) (any is_dots cs) k in
    ((h.0, first), are_names cs h.1 rest)
  where
    or_false : (x y : Bool) → x || y ≡ false → (x ≡ false) × (y ≡ false)
    or_false true y e = cc
    or_false false y e = (refl, e)

-- A name byte is no backslash.
name_byte_ne : (b : ℕ) → is_name_byte b ≡ true → (b == backslash) ≡ false
name_byte_ne b h = ground arith

split_name : (c : List ℕ) → All (λ b. is_name_byte b ≡ true) c → split c ≡ c ∷ []
unfolding split
split_name [] h = refl
split_name (b ∷ c) h = rw (name_byte_ne b h.0, split_name c h.1) refl

split_join :
    (c : List ℕ) (rest : List ℕ)
    → All (λ b. is_name_byte b ≡ true) c
    → split (c ++ (backslash ∷ rest)) ≡ c ∷ split rest
unfolding split
split_join [] rest h = refl
split_join (b ∷ c) rest h = rw (name_byte_ne b h.0, split_join c rest h.1) refl

split-join : (c : List ℕ) (cs : List (List ℕ)) → All Passes (c ∷ cs) → split (c ++ join cs) ≡ c ∷ cs
split-join c [] h = ap split (append-nil c) ∙ split_name c h.0.0
split-join c (d ∷ cs) h = split_join c (d ++ join cs) h.0.0 ∙ ap (λ r. c ∷ r) (split-join d cs h.1)

no_dots : (cs : List (List ℕ)) → All Passes cs → any is_dots cs ≡ false
no_dots [] h = refl
no_dots (c ∷ cs) h = rw (h.0.1, no_dots cs h.1) refl

path_bytes-append :
    (xs ys : List ℕ)
    → All (λ b. is_name_byte b ≡ true) xs
    → all is_path_byte ys ≡ true
    → all is_path_byte (xs ++ ys) ≡ true
path_bytes-append [] ys h k = k
path_bytes-append (x ∷ xs) ys h k = rw (name_byte_ne x h.0, h.0, path_bytes-append xs ys h.1 k) refl

path_bytes-join : (cs : List (List ℕ)) → All Passes cs → all is_path_byte (join cs) ≡ true
path_bytes-join [] h = refl
path_bytes-join (c ∷ cs) h = path_bytes-append c (join cs) h.0.0 (path_bytes-join cs h.1)

refusals :
    (a b c d e : Bool)
    → (a || not b || c || not d || e) ≡ false
    → (a ≡ false) × (b ≡ true) × (c ≡ false) × (d ≡ true) × (e ≡ false)
refusals true b c d e h = cc
refusals false false c d e h = cc
refusals false true true d e h = cc
refusals false true false false e h = cc
refusals false true false true e h = (refl, refl, refl, refl, h)

names_of :
    (bs : List ℕ) (ys : List (List ℕ))
    → backslash ∷ bs ≡ join ys
    → All Passes ys
    → (c : List ℕ) × (cs : List (List ℕ)) × (backslash ∷ bs ≡ join (c ∷ cs)) × All Passes (c ∷ cs)
names_of bs [] e h = absurd (omega (arith, ap length e))
names_of bs (c ∷ cs) e h = (c, cs, e, h)

some_bytes : (c : List ℕ) → is_dots c ≡ false → 0 < length c
some_bytes [] h = cc
some_bytes (b ∷ c) h = omega arith

joined_accepted :
    (c : List ℕ) (cs : List (List ℕ))
    → length (join (c ∷ cs)) ≤ 1024
    → All Passes (c ∷ cs)
    → is_refused (join (c ∷ cs)) ≡ false
unfolding is_refused
joined_accepted c cs h names =
    let path = join (c ∷ cs) in
    let short : ltb 1024 (length path) ≡ false = ground arith in
    let long : ltb (length path) 2 ≡ false =
      ground (arith, length-append c (join cs), some_bytes c names.0.1) in
    let bytes : all is_path_byte path ≡ true = path_bytes-join (c ∷ cs) names in
    let dots : any is_dots (split (c ++ join cs)) ≡ false =
      ap (any is_dots) (split-join c cs names) ∙ no_dots (c ∷ cs) names in
    rw (short, long, bytes, dots) refl

accepted_names :
    (path : List ℕ)
    → is_refused path ≡ false
    → (length path ≤ 1024)
      × ((c : List ℕ) × (cs : List (List ℕ)) × (path ≡ join (c ∷ cs)) × All Passes (c ∷ cs))
unfolding is_refused
accepted_names [] h = cc
accepted_names (b ∷ bs) h =
    let (short, absolute, long, bytes, dots) =
      refusals (ltb 1024 (length (b ∷ bs))) (b == backslash) (ltb (length (b ∷ bs)) 2)
        (all is_path_byte (b ∷ bs)) (any is_dots (split bs)) h in
    let rest : all is_path_byte bs ≡ true = ground (arith, bytes) in
    let (c, cs, e, names) =
      names_of bs (split bs) (join-split bs)
        (are_names (split bs) (split-AreNameBytes bs rest) dots) in
    (
      ltb→le 1024 (length (b ∷ bs)) short,
      (c, cs, ap (λ x. x ∷ bs) ((==_iff b backslash).0 absolute) ∙ e, names),
    )

-- A path is accepted exactly if it has at most 1024 bytes and is the absolute path of one name or more,
-- none of which is empty, `.` or `..`, of letters, digits, dots, underscores and dashes.
pub is_refused_iff :
    (path : List ℕ)
    → (is_refused path ≡ false) ↔ (
        (length path ≤ 1024)
        × ((c : List ℕ) × (cs : List (List ℕ)) × (path ≡ join (c ∷ cs)) × All IsName (c ∷ cs)))
unfolding is_refused
is_refused_iff path = (
  λ h.
      let (short, (c, cs, e, names)) = accepted_names path h in
      (short, (c, cs, e, are_IsName (c ∷ cs) names)),
  λ (short, (c, cs, e, names)).
      ap is_refused e
      ∙ joined_accepted c cs (subst (λ p. length p ≤ 1024) e short) (are_passing (c ∷ cs) names),
)
