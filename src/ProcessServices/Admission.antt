-- ===== src/ProcessServices/Admission.antt =====
-- Which attributes CREATE_PROCESS lets through.
use arinc653emulator.Prelude.{pos, ◌≤ℤ◌, eqb_ℤ_iff, ◌≡◌, ◌↔◌, ◌⊎◌, arith, true, false}
use arinc653emulator.Types.{max_time_out, infinite_time_value}
use arinc653emulator.Partition.{Attributes}
use arinc653emulator.ProcessServices.{refuses}

-- A priority from 83 to 96, an entry point, and a time capacity and a period that are both infinite,
-- or the capacity from 1 ns to MAX_TIME_OUT and the period infinite, or from the capacity to
-- MAX_TIME_OUT.
abbrev pub Acceptable : Attributes → Type 0
Acceptable a =
    (pos 83 ≤ℤ a.base_priority)
    × (a.base_priority ≤ℤ pos 96)
    × (a.has_entry_point ≡ true)
    × (((a.time_capacity ≡ infinite_time_value) × (a.period ≡ infinite_time_value))
        ⊎ ((pos 1 ≤ℤ a.time_capacity)
            × (a.time_capacity ≤ℤ pos max_time_out)
            × ((a.period ≡ infinite_time_value)
                ⊎ ((a.time_capacity ≤ℤ a.period) × (a.period ≤ℤ pos max_time_out)))))

-- The tests of CREATE_PROCESS on the attributes let through exactly those with a priority from 83 to
-- 96, an entry point, and either no time capacity and no period, or a time capacity from 1 ns to
-- MAX_TIME_OUT with no period or a period from the capacity to MAX_TIME_OUT.
pub refuses_lem : (a : Attributes) → (refuses a ≡ false) ↔ Acceptable a
unfolding refuses
refuses_lem a =
    ground
      (arith, eqb_ℤ_iff a.time_capacity infinite_time_value, eqb_ℤ_iff a.period infinite_time_value)
