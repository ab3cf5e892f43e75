-- ===== src/Tests/Modules.antt =====
-- A module with two partitions, navigation and display, in a hyperperiod of a second, and the lines of a
-- property file.
use arinc653emulator.Prelude.{
  pos, ◌+ℤ◌, str_eq, false, some, List, [], ◌∷◌, map, ◌≡◌, refl, ◌↔◌, arith,
}
use arinc653emulator.Time.{TimeSpec}
use arinc653emulator.ModuleManager.Defs.{
  ModulePartition, SchedulingTuple, Module, accepted, check_schedule, has_key,
  run_without_system_manager,
}
use arinc653emulator.ModuleManager.Checking.{AllApart, AllWithin, check_schedule_lem}
use arinc653emulator.ModuleManager.Hyperperiods.{
  IsSound, RunsAsPlanned, run_without_system_manager_lem,
}
use arinc653emulator.ModuleManager.Text.{Bytes, blanks, is_one_of}
use arinc653emulator.ModuleManager.Settings.{is_comment, value, read_lines}
use arinc653emulator.ModuleManager.Tokens.{AllInside}
use arinc653emulator.ModuleManager.Properties.{
  Item, entry, remark, spaces, IsWord, print_item, read_lines-print_item,
}

abbrev navigation : ModulePartition
navigation = record {
  name = "navigation";
  executable = "nav";
  is_network_partition = false;
  queuing_ports = [];
  sampling_ports = [];
  sampling_channel_source = "position" ∷ [];
  queue_channel_source = [];
  queue_channel_inter_module_dst = [];
  sampling_channel_inter_module_dst = [];
  configuration_queue = "";
}

abbrev display : ModulePartition
display = record navigation { name = "display"; sampling_channel_source = [] }

abbrev first_window : SchedulingTuple
first_window = record { offset = pos 0; duration = pos 400000000; partition_index = 0 }

abbrev second_window : SchedulingTuple
second_window = record { offset = pos 500000000; duration = pos 300000000; partition_index = 1 }

abbrev two_partitions : Module
two_partitions = record {
  partitions = navigation ∷ display ∷ [];
  scheduling_vector = first_window ∷ second_window ∷ [];
  major_frame_size = pos 1000000000;
  max_number_of_frames = some (pos 2);
  queueing_channels = [];
  sampling_channels = "position" ∷ [];
  configuration_queues = [];
}

abbrev midnight : TimeSpec
midnight = record { tv_sec = pos 100; tv_nsec = pos 0 }

accepts : check_schedule (pos 1000000000) (first_window ∷ second_window ∷ []) ≡ accepted
unfolding check_schedule ◌+ℤ◌
accepts = refl

two_partitions-IsSound : IsSound str_eq two_partitions
unfolding has_key
two_partitions-IsSound = record {
  checked = accepts;
  not_negative = ((omega arith, omega arith), ((omega arith, omega arith), tt));
  bounded = omega arith;
  ready = ((navigation, refl, tt, tt, tt, (refl, tt)), ((display, refl, tt, tt, tt, tt), tt));
}

frames_example :
    RunsAsPlanned str_eq two_partitions midnight 3
      (run_without_system_manager str_eq two_partitions 3 midnight)
frames_example =
    run_without_system_manager_lem str_eq two_partitions 3 midnight (omega arith, omega arith)
      two_partitions-IsSound

check_example : (check_schedule (pos 1000000000) (first_window ∷ second_window ∷ []) ≡ accepted) ↔ (
    AllApart (first_window ∷ second_window ∷ [])
    × AllWithin (pos 1000000000) (first_window ∷ second_window ∷ []))
check_example =
    check_schedule_lem (pos 1000000000) first_window (second_window ∷ [])
      ((omega arith, omega arith), ((omega arith, omega arith), tt))

-- CPU
abbrev cpu : Bytes
cpu = 67 ∷ 80 ∷ 85 ∷ []

cpu-IsWord : IsWord cpu
unfolding is_one_of
cpu-IsWord = record {
  first = 67;
  rest = 80 ∷ 85 ∷ [];
  whole = refl;
  no_blank = (refl, (refl, (refl, tt)));
  no_equals = (refl, (refl, (refl, tt)));
}

one-IsWord : IsWord (49 ∷ [])
unfolding is_one_of
one-IsWord = record {
  first = 49;
  rest = [];
  whole = refl;
  no_blank = (refl, tt);
  no_equals = (refl, tt);
}

spaces_inside : AllInside blanks (32 ∷ 13 ∷ [])
unfolding is_one_of
spaces_inside = (refl, (refl, tt))

cpu_plain : is_comment cpu ≡ false
unfolding is_comment
cpu_plain = refl

-- // x, a blank line, CPU=1
abbrev lines : List Item
lines =
    remark (47 ∷ 32 ∷ 120 ∷ [])
    ∷ spaces (32 ∷ 13 ∷ []) spaces_inside
    ∷ entry cpu (49 ∷ []) cpu-IsWord one-IsWord cpu_plain
    ∷ []

lines_example : read_lines (map print_item lines) [] ≡ value ((cpu, 49 ∷ []) ∷ [])
lines_example = read_lines-print_item lines []
