-- ===== src/Apfs/Budget.antt =====
-- `Budget` of src/apfs_observation.rs: what an observation may still read.
mod Runs
use nextcore_efi.Common.{
  Bool, Option, Result, arith, checked_add, checked_sub, if◌then◌else◌, leb, ltb, min, none, ok,
  ok_or, refuse, some, ℕ, ◌*◌, ◌+◌, ◌>>=◌, ◌>>◌, ◌||◌, ◌≡◌, ◌≤◌,
}
use nextcore_efi.Apfs.Invalid.{Invalid}

abbrev pub max_record : ℕ
max_record = 4096

abbrev pub max_entries : ℕ
max_entries = 128

abbrev pub max_total_entries : ℕ
max_total_entries = 512

abbrev pub max_metadata : ℕ
max_metadata = 1024 * 1024

pub record Budget : Type 0 where
  pub bytes : ℕ
  pub entries : ℕ

-- `Budget::default`
abbrev pub empty : Budget
empty = record { bytes = 0; entries = 0 }

unfoldable pub capacity : Budget → Result Invalid ℕ
capacity b = do
  remaining ← ok_or (checked_sub max_metadata b.bytes) Invalid.limit
  refuse (ltb remaining 82) Invalid.limit
  ok (min remaining max_record)

-- `Option::filter`
abbrev keep_if : (ℕ → Bool) → Option ℕ → Option ℕ
keep_if p none = none
keep_if p (some v) = if p v then some v else none

-- `&mut self` is the budget that a success returns; a failure leaves the old one.
unfoldable pub response : Budget → ℕ → ℕ → Result Invalid Budget
response b n cap = do
  refuse (ltb cap n || ltb max_record cap) Invalid.size
  total ← ok_or (keep_if (λ v. leb v max_metadata) (checked_add b.bytes n)) Invalid.limit
  ok (record b { bytes = total })

unfoldable pub count_record : Budget → ℕ → Result Invalid Budget
count_record b volume_entries = do
  refuse (leb max_entries volume_entries || leb max_total_entries b.entries) Invalid.limit
  ok (record b { entries = b.entries + 1 })

pub record IsBounded (b : Budget) : Type 0 where
  pub bytes_le : b.bytes ≤ max_metadata
  pub entries_le : b.entries ≤ max_total_entries

-- The calls that change a budget, with the budget that they leave.
pub data Step : Budget → Budget → Type 0 where
  responds : (b c : Budget) (n cap : ℕ) → response b n cap ≡ ok c → Step b c
  records : (b c : Budget) (n : ℕ) → count_record b n ≡ ok c → Step b c

pub data Reach (b : Budget) : Budget → Type 0 where
  here : Reach b b
  next : {c d : Budget} → Reach b c → Step c d → Reach b d

response-IsBounded :
    (b c : Budget) (n cap : ℕ)
    → IsBounded b
    → response b n cap ≡ ok c
    → IsBounded c × (c.entries ≡ b.entries) × (c.bytes ≡ b.bytes + n)
unfolding response
response-IsBounded b c n cap v e = ground arith

count_record-IsBounded :
    (b c : Budget) (n : ℕ)
    → IsBounded b
    → count_record b n ≡ ok c
    → IsBounded c × (c.entries ≡ b.entries + 1) × (c.bytes ≡ b.bytes)
unfolding count_record
count_record-IsBounded b c n v e = ground arith

Step-IsBounded : {b c : Budget} → Step b c → IsBounded b → IsBounded c
Step-IsBounded (responds b c n cap e) v = (response-IsBounded b c n cap v e).0
Step-IsBounded (records b c n e) v = (count_record-IsBounded b c n v e).0

Reach-IsBounded : {b c : Budget} → Reach b c → IsBounded b → IsBounded c
Reach-IsBounded here v = v
Reach-IsBounded (next r s) v = Step-IsBounded s (Reach-IsBounded r v)

-- After any responses and records from the empty budget, at most 1 MiB of metadata has been read and
-- at most 512 entries counted.
pub empty-Reach-IsBounded : {b : Budget} → Reach empty b → IsBounded b
empty-Reach-IsBounded r = Reach-IsBounded r (omega arith)

-- A buffer of the granted capacity is between the 82 bytes of the shortest record and 4096, and every
-- response that fits it is accepted and counted in full.
pub response-capacity :
    (b : Budget) (cap n : ℕ)
    → capacity b ≡ ok cap
    → n ≤ cap
    → (82 ≤ cap) × (cap ≤ max_record) × (response b n cap ≡ ok (record b { bytes = b.bytes + n }))
unfolding capacity response
response-capacity b cap n e h = ground arith
