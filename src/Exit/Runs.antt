-- ===== src/Exit/Runs.antt =====
-- A child that exits with the description "A" and one byte behind it.
use nextcore_efi.Common.{All, [], min, refl, ◌+◌, ◌<◌, ◌^◌, ◌≢◌, some, ◌∷◌, ◌≡◌}
use nextcore_efi.Status.{aborted, success}
use nextcore_efi.Exit.{Child, start_image}
use nextcore_efi.Exit.Laws.{IsHonest, texts, start_image-IsHonest}

abbrev child : Child
child = record {
  status = aborted;
  size = 5;
  data_at = 0x7000;
  memory = 0x41 ∷ 0 ∷ 0 ∷ 0 ∷ 9 ∷ [];
  free_status = success;
}

freed_run : (start_image (some child)).freed ≡ 0x7000 ∷ []
unfolding start_image
freed_run = refl

start_image-IsHonest_example :
    ((start_image (some child)).status ≡ aborted)
    × ((start_image (some child)).freed ≡ 0x7000 ∷ [])
    × All (IsHonest child) (start_image (some child)).reports
    × (child.data_at ≢ 0
        → child.data_at + min child.size 2048 < 2 ^ 64
        → texts (start_image (some child)).reports ≡ 2)
start_image-IsHonest_example = start_image-IsHonest child
