-- ===== src/Apfs/Record/Runs.antt =====
-- The round trips at concrete records.
use nextcore_efi.Common.{[], arith, false, inl, ok, refl, replicate, ◌++◌, ◌∷◌, ◌≡◌}
use nextcore_efi.Apfs.Name.Units.{nothing, unit}
use nextcore_efi.Apfs.Record.{entry, volume_info}
use nextcore_efi.Apfs.Record.Laws.{le_bytes}
use nextcore_efi.Apfs.Record.FileInfo
use nextcore_efi.Apfs.Record.FileInfo.{FileInfo, IsFileInfo, file_tail, file_bytes, entry-file_info}
use nextcore_efi.Apfs.Record.SystemInfo
use nextcore_efi.Apfs.Record.SystemInfo.{
  SystemInfo, IsSystemInfo, IsVolume, system_tail, system_bytes, volume_info-system_info,
  volume_info-IsVolume,
}

abbrev a_file : FileInfo
a_file = record {
  file_size = 5;
  physical_size = 4096;
  times = replicate 48 0;
  attributes = 0x20;
  units = 0x41 ∷ 0x2e ∷ [];
}

a_file-IsFileInfo : IsFileInfo false a_file
a_file-IsFileInfo = record {
  file_size_u64 = omega arith;
  physical_size_u64 = omega arith;
  attributes_u64 = omega arith;
  three_times = refl;
  known_bits = refl;
  root_directory = refl;
  root_unnamed = refl;
  named = record {
    nonzero = omega arith;
    units = λ component. omega arith;
    short = omega arith;
    named = λ component. λ e. cc;
    well_formed = unit _ _ (inl (omega arith)) (unit _ _ (inl (omega arith)) nothing);
  };
}

entry-file_info_example :
    entry ((le_bytes 8 (file_bytes a_file) ++ file_tail a_file) ++ (1 ∷ [])) false
    ≡ ok (FileInfo.shown a_file)
entry-file_info_example = entry-file_info false a_file (1 ∷ []) a_file-IsFileInfo (omega arith)

abbrev a_volume : SystemInfo
a_volume = record {
  flag = 1;
  padding = replicate 7 0;
  size = 1000;
  free_space = 10;
  block_size = 512;
  units = 0x45 ∷ [];
}

a_volume-IsSystemInfo : IsSystemInfo a_volume
a_volume-IsSystemInfo = record {
  flag_bool = omega arith;
  seven = refl;
  size_u64 = omega arith;
  size_pos = omega arith;
  free_le = omega arith;
  block_u32 = omega arith;
  block_pos = omega arith;
  named = record {
    nonzero = omega arith;
    units = λ component. omega arith;
    short = omega arith;
    named = λ component. λ e. cc;
    well_formed = unit _ _ (inl (omega arith)) nothing;
  };
}

volume_info-system_info_example :
    volume_info ((le_bytes 8 (system_bytes a_volume) ++ system_tail a_volume) ++ [])
    ≡ ok (SystemInfo.shown a_volume)
volume_info-system_info_example =
    volume_info-system_info a_volume [] a_volume-IsSystemInfo (omega arith)
