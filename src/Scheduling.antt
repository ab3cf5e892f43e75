-- ===== src/Scheduling.antt =====
-- The order in which the partition scheduler looks at the processes: PROCESS_DESCRIPTOR_COMP of
-- include/ACM/INTERNAL/APEX.h, by which it sorts the descriptors.
pub mod Steps
pub mod CatchUp
pub mod Releases
pub mod Phase
pub mod Kept
pub mod Stepping
pub mod Dispatch
pub mod Rounds
pub mod Punctual
pub mod Reporting
use arinc653emulator.Prelude.{◌≤ℤ◌, ◌≡◌, ◌↔◌, ◌⊎◌, arith, Bool, true, false, ◌&&◌, if◌then◌else◌}
use arinc653emulator.Time.{convert_time_spec_to_nano, compare_time}
use arinc653emulator.Time.Nanoseconds.{IsNormal, compare_time_lem}
use arinc653emulator.Partition.{Descriptor}
use arinc653emulator.ProcessServices.{is_dormant}

-- PROCESS_DESCRIPTOR_COMP, whose assertions are on null pointers
unfoldable pub process_descriptor_comp : Descriptor → Descriptor → Bool
process_descriptor_comp first second =
    if is_dormant first.process_state && is_dormant second.process_state
    then false
    else if is_dormant second.process_state
    then true
    else if is_dormant first.process_state
    then false
    else compare_time first.critical_time second.critical_time

-- PROCESS_DESCRIPTOR_COMP puts the first process before the second exactly when the first is not
-- dormant, and the second is dormant or its critical time is no earlier: two processes that are not
-- dormant and have the same critical time are each before the other, and each such process is before
-- itself.
pub process_descriptor_comp_lem :
    (a b : Descriptor)
    → IsNormal a.critical_time
    → IsNormal b.critical_time
    → (process_descriptor_comp a b ≡ true) ↔ (
        (is_dormant a.process_state ≡ false)
        × ((is_dormant b.process_state ≡ true)
            ⊎ (convert_time_spec_to_nano a.critical_time
                ≤ℤ convert_time_spec_to_nano b.critical_time)))
unfolding process_descriptor_comp
process_descriptor_comp_lem a b na nb =
    ground (arith, compare_time_lem a.critical_time b.critical_time na nb)
