-- ===== src/Lib.antt =====
-- Verification of the NextCore EFI loader (src/*.rs of the repository).
--
-- NextCore EFI is a UEFI application that reads a boot configuration, lets the user choose a system,
-- observes APFS volumes, and stages or starts kernels in memory that it takes from the firmware. The
-- modules below follow its source files; the names of operations are the source's.
--
--   Apfs        src/apfs_observation.rs: device paths (DevicePath), names (Name), file and volume
--               records (Record), and the budget of metadata (Budget), over lists of bytes.
--   Escape      the printable form of UTF-16 units, of `name` in src/apfs_observation.rs and
--               `escaped_description` in src/exit_data.rs.
--   Memory      who owns memory. Descriptor and Coverage: the check of a firmware memory map against a
--               range, `MapBuffer::coverage` of src/loaded_kernel_collection.rs and
--               `ArmPages::validate_map` of src/arm_pages.rs. ArmPages: the pages of src/arm_pages.rs.
--               Collection: the pages and the loaded collection of src/loaded_kernel_collection.rs, with
--               the memory maps that `refresh` accepts (Map).
--   Observation src/memory_observation.rs: the ring of requests around the memory service.
--   Trace       src/mapped_trace.rs: the watch on stores (Store), the jumps between fetched
--               instructions and the watch on one branch (Flow).
--   Framebuffer src/boot_framebuffer.rs: the geometry of a frame, its presentation and readback.
--   Exit        src/exit_data.rs: the start of a child image and the description that it exits with.
--   Files       src/firmware_io.rs: the bounded read of a whole file.
--   Hal         src/hal_tables.rs: the guarded copy of ACPI tables (Laws) and the walk over them
--               (Tables, Complete, Roots, Walk), with the tables that it dumps before an error.
--   Boot        src/main.rs, src/picker.rs and src/configuration_recovery.rs. Keys: the loops that wait
--               for a key. Picker: `choose`. Config: `read_config`. Target: `load_target`.
--               Chainload: `chainload`. Flow: `efi_main`.
--   Kernel      src/loaded_kernel.rs. Verify: `verify_memory`. Load: `LoadedKernel::load_at` with its
--               loops over the segments; Load.Layout is the reference layout of a plan. Prepare:
--               `prepare` of src/kernel.rs. Options and Collect: the path test, `options` and `run`
--               of src/kc.rs.
--   Driver      src/apfs_driver.rs. Media: the partition, its geometry and bounded reads. Read: the
--               double extraction, `read_driver`. Start: `load_driver` and `start_driver`.
--   Volumes     src/apfs_filesystems.rs: an opened protocol and `device_path`.
--   Console     src/console_control.rs. Provider: the lookups and callbacks. Lease: `acquire` and the
--               drop. Telemetry: `event`, with the events that come while a line is written.
--   Status      the EFI status codes that the operations answer.
--   Common      Boolean tests, lists, results, machine words, bytes and rings that the others share.
--
-- Interaction. Memory.ArmPages and Memory.Collection both rest on Memory.Coverage, which decides
-- whether the map gives a range to its owner; Memory.Calls lists the calls that change what the
-- firmware has allocated, and counts them by block: the first page and the number of pages. Apfs.DevicePath.ImagePath builds the paths that Apfs.DevicePath reads, and
-- Apfs.Record reads names by Apfs.Name, which shows them by Escape. Observation and Trace watch the
-- requests of the same memory service and share the lemmas on rings. Boot.Flow composes Boot.Config,
-- Boot.Picker, Boot.Chainload and Boot.Keys as `efi_main` calls them; Boot.Config shares the volume of Files. Kernel.Load logs the calls of
-- Memory.Calls; Kernel.Prepare reads by Files and places by Kernel.Load, and Kernel.Collect loads and
-- releases a Memory.Collection. Driver.Read reads through Driver.Media.
-- Volumes checks what it read by Apfs.DevicePath. Console.Lease publishes what Console.Provider
-- answers, around a child as Boot.Chainload starts it.
--
-- Conventions. Integers are natural numbers; `checked_*` and `saturating_*` write the bound of the
-- machine type out, and usize has 64 bits. A fallible function answers `Result Status` or `Result
-- Invalid`. A `&mut self` operation takes and answers its state. A drop is the state's last
-- operation, written where the value goes out of scope. Loops over slices are recursion on the
-- list; the `while` loop of `path_body` is recursion on a fuel of MAX_NODES, since each round that
-- goes on counts a node, and running out answers what the source answers at that bound; the loop
-- of `read_file` has as many rounds as the file has bytes, since each round that goes on reads
-- one; the loops that wait for a key recur on the answers of the firmware, and answer `none` if
-- these end first; the two `for _ in 0..n` loops of the map checks are recursion on n, the bound of the
-- source.
--
-- Parameters. The code that is not in the repository enters through its answers: the firmware
-- (AllocatePages, FreePages, GetMemoryMap, GOP, StartImage) as records of replies, the kernel
-- collection's staging plan of nextcore-core as Memory.Collection.Plan, the memory service as the
-- function `serve`, the numbers of its interface as Trace.Abi.Abi, and STAGING_PAGE_SIZE as the
-- argument `page`, at which the theorems take 4096. So do `parse_macho_image` with its constants
-- (Kernel.Load.Parser), the boot menu's parser and `navigate` (arguments of Boot.Flow and
-- Boot.Picker), and `extract_jumpstart` (Driver.Read.Jumpstart). A slice out of range in `load_at` is
-- the outcome `panics`, behind which no destructor runs.
--
-- Not modelled: reports and serial output (but for what `start_image` reports and the telemetry of
-- the console writes), opening of protocols elsewhere than in Volumes and Console, the drawing of the
-- menu and its volume label, the device path that `load_target` of src/main.rs builds, the watchdog,
-- options read at build time, the assembly, the binaries that only run fixed probes, host-side tools,
-- and the older copies of the sources under research/. The root directories and the volumes of
-- src/apfs_filesystems.rs, src/apfs_target.rs, the probe build of src/kernel.rs and the translation
-- probes are left out.
pub mod Common
pub mod Status
pub mod Escape
pub mod Apfs
pub mod Memory
pub mod Trace
pub mod Observation
pub mod Framebuffer
pub mod Exit
pub mod Hal
pub mod Files
pub mod Boot
pub mod Kernel
pub mod Driver
pub mod Console
pub mod Volumes
