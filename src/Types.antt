-- ===== src/Types.antt =====
-- include/ACM/USER/APEX_TYPES.h: the constants and enumerations of the APEX interface.
use arinc653emulator.Prelude.{ℕ, ◌*◌, ◌^◌, ℤ, pos, negsuc}

-- RETURN_CODE_TYPE
pub data ReturnCode : Type 0 where
  no_error no_action not_available invalid_param invalid_config invalid_mode timed_out : ReturnCode

-- OPERATING_MODE_TYPE
pub data OperatingMode : Type 0 where
  idle cold_start warm_start normal : OperatingMode

-- NANO
abbrev pub nano : ℕ
nano = 1000000000

-- MAX_TIME_OUT, in nanoseconds
abbrev pub max_time_out : ℕ
max_time_out = 315569260 * nano

-- INFINITE_TIME_VALUE
abbrev pub infinite_time_value : ℤ
infinite_time_value = negsuc 0

abbrev pub max_number_of_processes : ℕ
max_number_of_processes = 128

-- MAX_SEMAPHORE_VALUE
abbrev pub max_semaphore_value : ℕ
max_semaphore_value = 32767

abbrev pub system_limit_number_of_buffers : ℕ
system_limit_number_of_buffers = 256

abbrev pub system_limit_number_of_messages : ℤ
system_limit_number_of_messages = pos 512

abbrev pub partition_process_high_priority : ℤ
partition_process_high_priority = pos 96

abbrev pub partition_process_low_priority : ℤ
partition_process_low_priority = pos 83

abbrev pub worker_thread_restart_priority : ℤ
worker_thread_restart_priority = pos 95

abbrev pub minimum_time_capacity : ℤ
minimum_time_capacity = pos 1

-- The modulus of APEX_UNSIGNED, an unsigned long.
abbrev pub unsigned_mod : ℕ
unsigned_mod = 2 ^ 64
