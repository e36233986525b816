-- ===== src/Apfs/DevicePath.antt =====
-- `path_body`, `descendant` and `image_path` of src/apfs_observation.rs. A path is a list of bytes;
-- a Rust string is the list of its code points.
pub mod Nodes
pub mod Complete
pub mod Sound
pub mod Descendant
pub mod ImagePath
mod Runs
use nextcore_efi.Common.{
  Bool, List, Result, [], any, drop, err, false, if◌then◌else◌, leb, length, ltb, not, ok, refuse,
  suc, take, true, zero, ℕ, ◌%◌, ◌&&◌, ◌*◌, ◌++◌, ◌+◌, ◌-◌, ◌/◌, ◌==◌, ◌>>=◌, ◌>>◌, ◌||◌, ◌∷◌,
}
use nextcore_efi.Common.Bytes.{le16, le16_bytes, units_bytes}
use nextcore_efi.Apfs.Invalid.{Invalid}

abbrev pub max_path : ℕ
max_path = 2048

abbrev pub max_nodes : ℕ
max_nodes = 64

-- One round of the loop of `path_body` at a node header: `avail` is `path.len() - offset`, and
-- `next` is what the rounds behind this node answer.
unfoldable pub body_node :
    (kind sub len avail : ℕ) → List ℕ → ℕ → Result Invalid (List ℕ) → Result Invalid (List ℕ)
body_node kind sub len avail path offset next =
    if ltb len 4 || ltb avail len
    then err Invalid.path
    else if kind == 0x7f
    then (if sub == 0xff && len == 4 && offset + 4 == length path && ltb 0 offset
        then ok (take offset path)
        else err Invalid.path)
    else next

-- The loop of `path_body`: `left` is `MAX_NODES - nodes`, and the last argument is
-- `path[offset..]`. With no node left the loop fails, whether a header follows or not.
unfoldable pub body_loop : ℕ → List ℕ → ℕ → List ℕ → Result Invalid (List ℕ)
body_loop zero path offset rest = err Invalid.path
body_loop (suc left) path offset (kind ∷ sub ∷ lo ∷ hi ∷ tail) =
    let len = le16 lo hi in
    let here = kind ∷ sub ∷ lo ∷ hi ∷ tail in
    let next = body_loop left path (offset + len) (drop len here) in
    body_node kind sub len (length here) path offset next
body_loop (suc left) path offset rest = err Invalid.path

-- `path_body`
unfoldable pub path_body : List ℕ → Result Invalid (List ℕ)
path_body path =
    if ltb max_path (length path) then err Invalid.path else body_loop max_nodes path 0 path

-- `<[u8]>::starts_with`
unfoldable pub starts_with : List ℕ → List ℕ → Bool
starts_with xs [] = true
starts_with [] (y ∷ ys) = false
starts_with (x ∷ xs) (y ∷ ys) = x == y && starts_with xs ys

-- `descendant`
unfoldable pub descendant : List ℕ → List ℕ → Result Invalid Bool
descendant parent child = do
  p ← path_body parent
  c ← path_body child
  ok (ltb (length p) (length c) && starts_with c p)

-- `str::encode_utf16`: two surrogate units for a code point above 0xffff.
unfoldable pub encode_utf16 : List ℕ → List ℕ
encode_utf16 [] = []
encode_utf16 (c ∷ cs) =
    let rest = encode_utf16 cs in
    if ltb c 0x10000
    then c ∷ rest
    else (0xd800 + (c - 0x10000) / 1024) ∷ (0xdc00 + (c - 0x10000) % 1024) ∷ rest

-- `char::is_control`: the general category Cc.
abbrev pub is_control : ℕ → Bool
is_control c = ltb c 0x20 || (leb 0x7f c && ltb c 0xa0)

-- `path.split('\\')`: the parts between backslashes, one more than there are backslashes.
unfoldable pub split_first : List ℕ → List ℕ × List (List ℕ)
split_first [] = ([], [])
split_first (c ∷ cs) =
    let (part, more) = split_first cs in if c == 0x5c then ([], part ∷ more) else (c ∷ part, more)

-- A part of a path that `image_path` refuses: empty, `.` or `..`.
abbrev pub bad_part : List ℕ → Bool
bad_part [] = true
bad_part (c ∷ []) = c == 0x2e
bad_part (c ∷ d ∷ []) = c == 0x2e && d == 0x2e
bad_part (c ∷ d ∷ e ∷ r) = false

-- `path.starts_with('\\')`
abbrev pub starts_with_backslash : List ℕ → Bool
starts_with_backslash [] = false
starts_with_backslash (c ∷ cs) = c == 0x5c

unfoldable pub bad_image_path : List ℕ → Bool
bad_image_path path =
    not (starts_with_backslash path)
    || ltb 1024 (length (encode_utf16 path))
    || any (λ c. is_control c || ltb 0xffff c || c == 0x2f) path
    || any bad_part (split_first path).1

-- `image_path`. `reserve n` says whether the allocator grants `n` bytes.
unfoldable pub image_path : (ℕ → Bool) → List ℕ → List ℕ → Result Invalid (List ℕ)
image_path reserve volume path = do
  body ← path_body volume
  refuse (bad_image_path path) Invalid.path
  let units = encode_utf16 path ++ (0 ∷ [])
  let len = length units * 2 + 4
  let total = length body + len + 4
  refuse (ltb 0xffff len || ltb 8192 total) Invalid.size
  refuse (not (reserve total)) Invalid.limit
  ok (body ++ ((4 ∷ 4 ∷ le16_bytes len) ++ (units_bytes units ++ (0x7f ∷ 0xff ∷ 4 ∷ 0 ∷ []))))
