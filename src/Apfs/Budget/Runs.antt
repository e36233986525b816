-- ===== src/Apfs/Budget/Runs.antt =====
-- The theorems on budgets at concrete inputs.
use nextcore_efi.Common.{ok, refl, ◌≡◌}
use nextcore_efi.Apfs.Budget.{
  Budget, empty, capacity, response, count_record, IsBounded, responds, records, here, next,
  empty-Reach-IsBounded,
}

abbrev one_read : Budget
one_read = record { bytes = 100; entries = 0 }

abbrev one_entry : Budget
one_entry = record { bytes = 100; entries = 1 }

reads_one : response empty 100 4096 ≡ ok one_read
unfolding response
reads_one = refl

counts_one : count_record one_read 0 ≡ ok one_entry
unfolding count_record
counts_one = refl

empty-Reach-IsBounded_example : IsBounded one_entry
empty-Reach-IsBounded_example = empty-Reach-IsBounded (
    next (next here (responds empty one_read 100 4096 reads_one))
      (records one_read one_entry 0 counts_one))

capacity_last : capacity (record { bytes = 1048494; entries = 0 }) ≡ ok 82
unfolding capacity
capacity_last = refl
