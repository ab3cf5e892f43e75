-- ===== src/ModuleManager/Defs.antt =====
-- The check of the schedule at the end of the constructor MODULE_MANAGER::MODULE_MANAGER, RUN_PARTITION,
-- and the loops RUN_WITHOUT_SYSTEM_MANAGER and RUN_SYSTEM_MODULE_MANAGER. What the module manager does to
-- the partitions, the channels and the clock is a list of actions; a loop around clock_nanosleep, which
-- ends when the time is reached, is one action.
use arinc653emulator.Prelude.{
  ℕ, zero, suc, ltb, ℤ, pos, negsuc, ◌+ℤ◌, ltb_ℤ, Bool, true, false, String, Option, none, some,
  List, [], ◌∷◌, ◌++◌, get_elem?, length, if◌then◌else◌,
}
use arinc653emulator.Time.{TimeSpec, add_time_nano}
use arinc653emulator.SamplingPort.{PortDirection}

pub record QueuingPortDescriptor : Type 0 where
  pub name : String
  pub max_message_size : ℤ
  pub max_nb_message : ℤ
  pub port_direction : PortDirection

pub record SamplingPortDescriptor : Type 0 where
  pub name : String
  pub max_message_size : ℤ
  pub refresh_period : ℤ
  pub port_direction : PortDirection

-- The struct PARTITION, less what only the start of its process uses
pub record ModulePartition : Type 0 where
  pub name : String
  pub executable : String
  pub is_network_partition : Bool
  pub queuing_ports : List QueuingPortDescriptor
  pub sampling_ports : List SamplingPortDescriptor
  pub sampling_channel_source : List String
  pub queue_channel_source : List String
  pub queue_channel_inter_module_dst : List String
  pub sampling_channel_inter_module_dst : List String
  pub configuration_queue : String

pub record SchedulingTuple : Type 0 where
  pub offset : ℤ
  pub duration : ℤ
  pub partition_index : ℕ

unfoldable pub schedule_comp : SchedulingTuple → SchedulingTuple → Bool
schedule_comp first second = ltb_ℤ first.offset second.offset

abbrev pub max_partition_num : ℕ
max_partition_num = 10

-- How the constructor ends: a number that is thrown, or an access out of bounds
pub data Verdict : Type 0 where
  accepted : Verdict
  throws : ℤ → Verdict
  faults : Verdict

-- The end of a window
abbrev pub window_end : SchedulingTuple → ℤ
window_end t = t.offset +ℤ t.duration

-- The check of the schedule. Without any tuple, size() - 1 is the largest unsigned number.
unfoldable pub check_schedule : ℤ → List SchedulingTuple → Verdict
check_schedule frame [] = faults
check_schedule frame (t ∷ []) = if ltb_ℤ frame (window_end t) then throws (negsuc 4) else accepted
check_schedule frame (t ∷ u ∷ rest) =
    let after = check_schedule frame (u ∷ rest) in
    if ltb_ℤ u.offset (window_end t) then throws (negsuc 4) else after

-- What the constructor does with the vectors that are read
unfoldable pub check_vectors :
    (List SchedulingTuple → List SchedulingTuple)
    → List ModulePartition
    → List SchedulingTuple
    → ℤ
    → Verdict
unfolding check_schedule
check_vectors sort partitions vector frame =
    if ltb max_partition_num (length partitions)
    then throws (negsuc 5)
    else check_schedule frame (sort vector)

pub record Module : Type 0 where
  pub partitions : List ModulePartition
  pub scheduling_vector : List SchedulingTuple
  pub major_frame_size : ℤ
  pub max_number_of_frames : Option ℤ  -- set if isMAX_NUMBER_OF_FRAMES_SET
  pub queueing_channels : List String  -- the keys of MAP_OF_QUEUEING_CHANNELS
  pub sampling_channels : List String  -- the keys of MAP_OF_SAMPLING_CHANNELS
  pub configuration_queues : List String  -- the keys of MAP_OF_CONFIGURATION_QUEUE

pub data Act : Type 0 where
  sleep_until : TimeSpec → Act
  sigcont sigstop : ℕ → Act
  move_queue move_sampling : String → Act
  send_token : String → Act
  echo : Bool → Act
  shut_down : Act

unfoldable pub has_key : (String → String → Bool) → String → List String → Bool
has_key eq k [] = false
has_key eq k (j ∷ keys) = if eq j k then true else has_key eq k keys

abbrev pub joined : Option (List Act) → Option (List Act) → Option (List Act)
joined none b = none
joined (some a) none = none
joined (some a) (some b) = some (a ++ b)

-- The condition of the loop, after some hyperperiods
abbrev pub goes_on : Option ℤ → ℕ → Bool
goes_on none n = true
goes_on (some limit) n = ltb_ℤ (pos n) limit

module _ (eq : String → String → Bool) where
  -- MOVE_MESSAGES on each channel of a vector; the entry of a missing key is a null pointer.
  unfoldable pub moves : (String → Act) → List String → List String → Option (List Act)
  unfolding has_key
  moves act keys [] = some []
  moves act keys (c ∷ cs) =
      if has_key eq c keys
      then elim (moves act keys cs) [ none ↦ none | some acts ↦ some (act c ∷ acts) ]
      else none

  -- Before the window: the messages from other modules, or the token of a network partition
  unfoldable pub before_window : Module → ModulePartition → Option (List Act)
  unfolding moves
  before_window m p =
      if p.is_network_partition
      then some (
          if has_key eq p.configuration_queue m.configuration_queues
          then send_token p.configuration_queue ∷ []
          else [])
      else joined (moves move_queue m.queueing_channels p.queue_channel_inter_module_dst)
          (moves move_sampling m.sampling_channels p.sampling_channel_inter_module_dst)

  -- After the window: the messages that the partition has written
  unfoldable pub after_window : Module → ModulePartition → Option (List Act)
  unfolding moves
  after_window m p =
      if p.is_network_partition
      then some []
      else joined (moves move_queue m.queueing_channels p.queue_channel_source)
          (moves move_sampling m.sampling_channels p.sampling_channel_source)

  abbrev pub window : Module → ModulePartition → ℕ → TimeSpec → Option (List Act)
  window m p i until =
      joined (before_window m p)
        (joined (some (sigcont i ∷ sleep_until until ∷ sigstop i ∷ [])) (after_window m p))

  unfoldable pub run_partition : Module → ℕ → TimeSpec → Option (List Act)
  unfolding before_window after_window
  run_partition m i until = elim (get_elem? m.partitions i) [
    | none ↦ none
    | some p ↦ window m p i until
  ]

  -- One pass over the schedule, from the start of the hyperperiod
  unfoldable pub run_windows : Module → TimeSpec → List SchedulingTuple → Option (List Act)
  unfolding run_partition
  run_windows m start [] = some []
  run_windows m start (t ∷ rest) = elim (add_time_nano start t.offset) [
    | none ↦ none
    | some from ↦ elim (add_time_nano start (window_end t)) [
      | none ↦ none
      | some until ↦
          joined (some (sleep_until from ∷ []))
            (joined (run_partition m t.partition_index until) (run_windows m start rest))
    ]
  ]

  -- The loop over the hyperperiods, of which as many are looked at as the first number says; what each
  -- begins with and what follows the last one are lists of actions.
  unfoldable pub run_frames : List Act → List Act → Module → ℕ → ℕ → TimeSpec → Option (List Act)
  unfolding run_windows
  run_frames begin end m zero n start = some []
  run_frames begin end m (suc k) n start = elim (goes_on m.max_number_of_frames n) [
    | false ↦ some end
    | true ↦ elim (add_time_nano start m.major_frame_size) [
      | none ↦ none
      | some next ↦ joined (some begin) (
          joined (run_windows m start m.scheduling_vector)
            (joined (some (sleep_until next ∷ [])) (run_frames begin end m k (suc n) next)))
    ]
  ]

  unfoldable pub run_without_system_manager : Module → ℕ → TimeSpec → Option (List Act)
  unfolding run_frames
  run_without_system_manager m k start = run_frames [] (shut_down ∷ []) m k 0 start

  unfoldable pub run_system_module_manager : Module → ℕ → TimeSpec → Option (List Act)
  unfolding run_frames
  run_system_module_manager m k start =
      run_frames (echo false ∷ []) (echo true ∷ shut_down ∷ []) m k 0 start
