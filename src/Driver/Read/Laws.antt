-- ===== src/Driver/Read/Laws.antt =====
-- `read_driver` of src/apfs_driver.rs: what it compares, and where it reads.
use mathlib.Core.Path.{fun_ext}
use nextcore_efi.Common.{
  >>=-eq-ok, Bool, Bool-cases, List, Option, Result, [], ap, arith, checked_mul, err, false, inl,
  inr, ltb, ltb→le, map_err, none, not, ok, ok_or, refl, refuse, some, sym, true, ℕ, ◌*◌, ◌+◌,
  ◌>>=◌, ◌^◌, ◌∙◌, ◌∷◌, ◌≡◌, ◌≤◌,
}
use nextcore_efi.Common.Bytes.{same_bytes}
use nextcore_efi.Status.{Status}
use nextcore_efi.Driver.Media.{Media, Geometry, media_geometry, read_exact_at, extract_status}
use nextcore_efi.Driver.Read.{
  Disk, Driver, Jumpstart, Container, same_geometry, is_whole, same_driver, extract_from,
  read_twice, read_driver,
}

-- Two disks that answer every read within `bytes` alike.
abbrev pub Agree : ℕ → Disk → Disk → Type 0
Agree bytes a b = (offset n : ℕ) → offset + n ≤ bytes → a offset n ≡ b offset n

-- A reader of a partition is not changed by what lies behind its end.
read_exact_at-Agree :
    (bytes : ℕ) (a b : Disk) → Agree bytes a b → read_exact_at a bytes ≡ read_exact_at b bytes
unfolding read_exact_at
read_exact_at-Agree bytes a b h = fun_ext λ offset. fun_ext λ n.
    elim (Bool-cases (ltb (offset + n) (2 ^ 64))) [
      | inr over ↦ rw over refl
      | inl fits ↦ elim (Bool-cases (ltb bytes (offset + n))) [
        | inl behind ↦ rw (fits, behind) refl
        | inr within ↦ rw (fits, within, h offset n (ltb→le bytes (offset + n) within)) refl
      ]
    ]

same_bytes-eq : (xs ys : List ℕ) → same_bytes xs ys ≡ true → xs ≡ ys
same_bytes-eq [] [] h = refl
same_bytes-eq [] (y ∷ ys) h = cc
same_bytes-eq (x ∷ xs) [] h = cc
same_bytes-eq (x ∷ xs) (y ∷ ys) h = ground (arith, same_bytes-eq xs ys)

bind_cong :
    {A B : Type 0} (m : Result Status A) (f g : A → Result Status B)
    → ((a : A) → m ≡ ok a → f a ≡ g a)
    → (m >>= f) ≡ (m >>= g)
bind_cong (ok a) f g h = h a refl
bind_cong (err e) f g h = refl

refuse_ok : {E : Type 0} (b : Bool) (e : E) (u : Unit {0}) → refuse (not b) e ≡ ok u → b ≡ true
refuse_ok true e u h = refl
refuse_ok false e u h = cc

ok_or_ok : {A : Type 0} (o : Option A) (e : Status) (a : A) → ok_or o e ≡ ok a → o ≡ some a
ok_or_ok none e a h = cc
ok_or_ok (some b) e a h = cc

same_geometry-eq : (a b : Geometry) → same_geometry a b ≡ true → a ≡ b
same_geometry-eq a b h = ground arith

whole_product : (a b n : ℕ) → is_whole (checked_mul a b) n ≡ true → a * b ≡ n
whole_product a b n h = ground arith

module _ {E : Type 0} (jumpstart : Jumpstart E) (container : Container) where
  -- Two passes over the same media that found the same driver.
  pub record IsStable (driver : Driver E) : Type 0 where
    pub blocks : ℕ
    pub media : Media
    pub geometry : Geometry
    pub entry : container.info ≡ ok (some (some blocks))
    pub block : container.block ≡ ok media
    pub measured : media_geometry media ≡ ok geometry
    pub whole : blocks * geometry.block_size ≡ geometry.bytes
    pub first : extract_from jumpstart container.first geometry ≡ ok driver
    pub second : extract_from jumpstart container.second geometry ≡ ok driver
    pub unchanged : media_geometry container.later ≡ ok geometry

  same_driver-eq :
      ((a b : E) → jumpstart.same_extents a b ≡ true → a ≡ b)
      → (a b : Driver E) → same_driver jumpstart a b ≡ true
      → a ≡ b
  same_driver-eq sound a b h = ground (
    arith,
    same_bytes-eq a.bytes b.bytes,
    same_bytes-eq a.container_uuid b.container_uuid,
    sound a.extents b.extents,
  )

  read_twice_ok :
      ((a b : E) → jumpstart.same_extents a b ≡ true → a ≡ b)
      → (blocks : ℕ) (g : Geometry) (driver : Driver E)
      → read_twice jumpstart container blocks g ≡ ok driver
      → (blocks * g.block_size ≡ g.bytes)
        × (extract_from jumpstart container.first g ≡ ok driver)
        × (extract_from jumpstart container.second g ≡ ok driver)
        × (media_geometry container.later ≡ ok g)
  read_twice_ok sound blocks g driver h =
      let whole = is_whole (checked_mul blocks g.block_size) g.bytes in
      let (u0, h0, k0) = >>=-eq-ok (refuse (not whole) Status.bad_buffer_size) _ h in
      let (u1, h1, k1) = >>=-eq-ok container.disk _ k0 in
      let (d, h2, k2) = >>=-eq-ok (extract_from jumpstart container.first g) _ k1 in
      let (d', h3, k3) = >>=-eq-ok (extract_from jumpstart container.second g) _ k2 in
      let (u4, h4, k4) =
        >>=-eq-ok (refuse (not (same_driver jumpstart d d')) Status.media_changed) _ k3 in
      let (later, h5, k5) = >>=-eq-ok (media_geometry container.later) _ k4 in
      let (u6, h6, k6) =
        >>=-eq-ok (refuse (not (same_geometry later g)) Status.media_changed) _ k5 in
      let is_driver : d ≡ driver = cc in
      let repeated : d ≡ d' =
        same_driver-eq sound d d'
          (refuse_ok (same_driver jumpstart d d') Status.media_changed u4 h4) in
      let settled =
        same_geometry-eq later g (refuse_ok (same_geometry later g) Status.media_changed u6 h6) in
      (
        whole_product blocks g.block_size g.bytes (refuse_ok whole Status.bad_buffer_size u0 h0),
        h2 ∙ ap ok is_driver,
        h3 ∙ ap ok (sym repeated ∙ is_driver),
        h5 ∙ ap ok settled,
      )

  -- If extents that compare as equal are equal, a driver that is read was extracted alike by two passes
  -- over the partition, whose media has the blocks that the GPT entry gives and still had its geometry at
  -- the end.
  pub read_driver-IsStable :
      ((a b : E) → jumpstart.same_extents a b ≡ true → a ≡ b)
      → (driver : Driver E) → read_driver jumpstart container ≡ ok driver
      → IsStable driver
  unfolding read_driver
  read_driver-IsStable sound driver h =
      let (info, h0, k0) = >>=-eq-ok container.info _ h in
      let (entry, h1, k1) = >>=-eq-ok (ok_or info Status.unsupported) _ k0 in
      let (blocks, h2, k2) = >>=-eq-ok (ok_or entry Status.bad_buffer_size) _ k1 in
      let (media, h3, k3) = >>=-eq-ok container.block _ k2 in
      let (g, h4, k4) = >>=-eq-ok (media_geometry media) _ k3 in
      let (whole, first, second, later) = read_twice_ok sound blocks g driver k4 in
      record {
        blocks = blocks;
        media = media;
        geometry = g;
        entry =
            h0
            ∙ ap ok (
                ok_or_ok info Status.unsupported entry h1
                ∙ ap some (ok_or_ok entry Status.bad_buffer_size blocks h2));
        block = h3;
        measured = h4;
        whole = whole;
        first = first;
        second = second;
        unchanged = later;
      }

  extract_from-Agree :
      (a b : Disk) (g : Geometry)
      → Agree g.bytes a b
      → extract_from jumpstart a g ≡ extract_from jumpstart b g
  extract_from-Agree a b g h =
      ap (λ r. map_err extract_status (jumpstart.extract r g.bytes))
        (read_exact_at-Agree g.bytes a b h)

  read_twice-Agree :
      (first second : Disk) (blocks : ℕ) (g : Geometry)
      → Agree g.bytes container.first first
      → Agree g.bytes container.second second
      → read_twice jumpstart container blocks g
        ≡ read_twice jumpstart (record container { first = first; second = second }) blocks g
  read_twice-Agree first second blocks g one two =
      rw
        (
          extract_from-Agree container.first first g one,
          extract_from-Agree container.second second g two,
        )
        refl

  -- The driver that is read, or the failure, does not depend on what stands behind the partition: other
  -- disks that answer alike within every geometry of the media give the same result.
  pub read_driver-Agree :
      (first second : Disk)
      → ((media : Media) (g : Geometry)
          → container.block ≡ ok media
          → media_geometry media ≡ ok g
          → Agree g.bytes container.first first × Agree g.bytes container.second second)
      → read_driver jumpstart container
        ≡ read_driver jumpstart (record container { first = first; second = second })
  unfolding read_driver
  read_driver-Agree first second h = bind_cong container.info _ _ λ info _.
      bind_cong (ok_or info Status.unsupported) _ _ λ entry _.
        bind_cong (ok_or entry Status.bad_buffer_size) _ _ λ blocks _.
          bind_cong container.block _ _ λ media is_media.
            bind_cong (media_geometry media) _ _ λ g is_geometry.
              let (one, two) = h media g is_media is_geometry in
              read_twice-Agree first second blocks g one two
