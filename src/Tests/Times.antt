-- ===== src/Tests/Times.antt =====
-- Time stamps.
use arinc653emulator.Prelude.{pos, ◌+ℤ◌, ◌-ℤ◌, ◌≤ℤ◌, ◌≡◌, ◌↔◌, refl, some, true, arith}
use arinc653emulator.Time.{
  TimeSpec, convert_time_spec_to_nano, add_time, add_time_nano, compare_time,
}
use arinc653emulator.Types.{max_time_out, infinite_time_value}
use arinc653emulator.Time.Nanoseconds.{
  IsNormal, add_time_nano_lem, add_time_nano-infinite, compare_time_lem,
}

-- 7.9 s and 3.4 s
abbrev late : TimeSpec
late = record { tv_sec = pos 7; tv_nsec = pos 900000000 }

abbrev early : TimeSpec
early = record { tv_sec = pos 3; tv_nsec = pos 400000000 }

add_time_carries : add_time late early ≡ record { tv_sec = pos 11; tv_nsec = pos 300000000 }
unfolding add_time ◌+ℤ◌ ◌-ℤ◌
add_time_carries = refl

late-IsNormal : IsNormal late
late-IsNormal = (omega arith, omega arith)

early-IsNormal : IsNormal early
early-IsNormal = (omega arith, omega arith)

add_time_nano_example :
    (b : TimeSpec) × (add_time_nano late (pos 2500000000) ≡ some b)
    × IsNormal b
    × (convert_time_spec_to_nano b ≡ convert_time_spec_to_nano late +ℤ pos 2500000000)
add_time_nano_example =
    add_time_nano_lem late (pos 2500000000) late-IsNormal (omega arith, omega arith)

infinite_example : add_time_nano late infinite_time_value ≡ add_time_nano late (pos max_time_out)
infinite_example = add_time_nano-infinite late

compare_time_example :
    (compare_time early late ≡ true)
    ↔ (convert_time_spec_to_nano early ≤ℤ convert_time_spec_to_nano late)
compare_time_example = compare_time_lem early late early-IsNormal late-IsNormal
