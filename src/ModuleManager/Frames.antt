-- ===== src/ModuleManager/Frames.antt =====
-- The hyperperiods of a schedule that the constructor accepts: the time line of the loops over them.
use arinc653emulator.Prelude.{
  ℤ, pos, negsuc, ◌+ℤ◌, ◌≤ℤ◌, ltb_ℤ, int_laws, Bool, Bool-cases, String, Option, some, List, [],
  ◌∷◌, ◌≡◌, refl, inl, inr, arith, get_elem?,
}
use arinc653emulator.Types.{max_time_out}
use arinc653emulator.Time.{TimeSpec, convert_time_spec_to_nano, add_time_nano}
use arinc653emulator.Time.Nanoseconds.{IsNormal, add_time_nano_lem}
use arinc653emulator.ModuleManager.Defs.{
  SchedulingTuple, ModulePartition, Module, Act, accepted, throws, window_end, sleep_until, sigcont,
  sigstop, move_queue, move_sampling, send_token, joined, has_key, moves, check_schedule,
  before_window, after_window, run_partition, run_windows,
}
use arinc653emulator.ModuleManager.Timeline.{
  Window, Leads-nil, sleep-Leads, window-Leads, Plays, joined-Plays, AllKeys, moves-Plays,
  queue-Leads, sampling-Leads, token-Leads,
}

-- A tuple of the configuration: nothing checks that its numbers are not negative.
abbrev pub IsWindow : SchedulingTuple → Type 0
IsWindow t = (pos 0 ≤ℤ t.offset) × (pos 0 ≤ℤ t.duration)

abbrev pub AllWindows : List SchedulingTuple → Type 0
AllWindows [] = Unit {0}
AllWindows (t ∷ ts) = IsWindow t × AllWindows ts

-- A schedule that is accepted: each window ends before the next one begins, the last one with the frame.
pub accepted_one :
    (frame : ℤ) (t : SchedulingTuple)
    → check_schedule frame (t ∷ []) ≡ accepted
    → window_end t ≤ℤ frame
unfolding check_schedule
accepted_one frame t h = ground (arith, h)

pub accepted_more :
    (frame : ℤ) (t u : SchedulingTuple) (rest : List SchedulingTuple)
    → check_schedule frame (t ∷ u ∷ rest) ≡ accepted
    → (window_end t ≤ℤ u.offset) × (check_schedule frame (u ∷ rest) ≡ accepted)
unfolding check_schedule
accepted_more frame t u rest h = elim (Bool-cases (ltb_ℤ u.offset (window_end t))) [
  | inl early ↦ let e : throws (negsuc 4) ≡ accepted = rw early at h in cc
  | inr later ↦ (ground (arith, later), rw later at h)
]

pub ends_within :
    (frame : ℤ) (t : SchedulingTuple) (rest : List SchedulingTuple)
    → AllWindows (t ∷ rest)
    → check_schedule frame (t ∷ rest) ≡ accepted
    → window_end t ≤ℤ frame
ends_within frame t [] w h = accepted_one frame t h
ends_within frame t (u ∷ rest) w h =
    let (before, ok) = accepted_more frame t u rest h in
    omega (int_laws, ends_within frame u rest w.1 ok)

module _ (eq : String → String → Bool) (m : Module) where
  -- The partition of a tuple is there, and its channels are in the maps.
  abbrev pub IsReady : SchedulingTuple → Type 0
  IsReady t =
      (p : ModulePartition) × (get_elem? m.partitions t.partition_index ≡ some p)
      × AllKeys eq m.queueing_channels p.queue_channel_inter_module_dst
      × AllKeys eq m.sampling_channels p.sampling_channel_inter_module_dst
      × AllKeys eq m.queueing_channels p.queue_channel_source
      × AllKeys eq m.sampling_channels p.sampling_channel_source

  abbrev pub AllReady : List SchedulingTuple → Type 0
  AllReady [] = Unit {0}
  AllReady (t ∷ ts) = IsReady t × AllReady ts

  before-Plays :
      (a : ℤ) (p : ModulePartition)
      → AllKeys eq m.queueing_channels p.queue_channel_inter_module_dst
      → AllKeys eq m.sampling_channels p.sampling_channel_inter_module_dst
      → Plays a (before_window eq m p) a []
  unfolding before_window
  before-Plays a p hq hs = elim (Bool-cases p.is_network_partition) [
    | inr partition ↦ rw partition (
        joined-Plays eq a a a
          (moves eq move_queue m.queueing_channels p.queue_channel_inter_module_dst)
          (moves eq move_sampling m.sampling_channels p.sampling_channel_inter_module_dst) [] []
          (moves-Plays eq a move_queue m.queueing_channels p.queue_channel_inter_module_dst
            (queue-Leads a) hq)
          (moves-Plays eq a move_sampling m.sampling_channels p.sampling_channel_inter_module_dst
            (sampling-Leads a) hs))
    | inl network ↦
        rw network (elim (Bool-cases (has_key eq p.configuration_queue m.configuration_queues)) [
          | inl there ↦
              rw there
                (send_token p.configuration_queue ∷ [], refl, token-Leads a p.configuration_queue)
          | inr missing ↦ rw missing ([], refl, Leads-nil a)
        ])
  ]

  after-Plays :
      (a : ℤ) (p : ModulePartition)
      → AllKeys eq m.queueing_channels p.queue_channel_source
      → AllKeys eq m.sampling_channels p.sampling_channel_source
      → Plays a (after_window eq m p) a []
  unfolding after_window
  after-Plays a p hq hs = elim (Bool-cases p.is_network_partition) [
    | inl network ↦ rw network ([], refl, Leads-nil a)
    | inr partition ↦ rw partition (
        joined-Plays eq a a a (moves eq move_queue m.queueing_channels p.queue_channel_source)
          (moves eq move_sampling m.sampling_channels p.sampling_channel_source) [] []
          (moves-Plays eq a move_queue m.queueing_channels p.queue_channel_source (queue-Leads a)
            hq)
          (moves-Plays eq a move_sampling m.sampling_channels p.sampling_channel_source
            (sampling-Leads a) hs))
  ]

  run_partition-Plays :
      (a : ℤ) (t : SchedulingTuple) (until : TimeSpec)
      → IsReady t
      → a ≤ℤ convert_time_spec_to_nano until
      → Plays a
          (run_partition eq m t.partition_index until)
          (convert_time_spec_to_nano until)
          ((t.partition_index, a, convert_time_spec_to_nano until) ∷ [])
  unfolding run_partition
  run_partition-Plays a t until (p, at, q1, s1, q2, s2) h =
      let b = convert_time_spec_to_nano until in
      let i = t.partition_index in
      rw (run_partition, at)
        (joined-Plays eq a a b (before_window eq m p) _ [] ((i, a, b) ∷ []) (before-Plays a p q1 s1)
          (joined-Plays eq a b b (some (sigcont i ∷ sleep_until until ∷ sigstop i ∷ []))
            (after_window eq m p) ((i, a, b) ∷ []) []
            (sigcont i ∷ sleep_until until ∷ sigstop i ∷ [], refl, window-Leads a i until h)
            (after-Plays b p q2 s2)))

  -- The windows that a schedule plans from the start of a hyperperiod
  abbrev pub planned : ℤ → List SchedulingTuple → List Window
  planned start [] = []
  planned start (t ∷ ts) =
      (t.partition_index, start +ℤ t.offset, start +ℤ window_end t) ∷ planned start ts

  -- A time stamp that addTimeNano gives, with its nanoseconds
  pub added :
      (start : TimeSpec) (n : ℤ)
      → IsNormal start
      → pos 0 ≤ℤ n
      → n ≤ℤ pos max_time_out
      → (t : TimeSpec) × (add_time_nano start n ≡ some t)
        × IsNormal t
        × (convert_time_spec_to_nano t ≡ convert_time_spec_to_nano start +ℤ n)
  added start n h low high = add_time_nano_lem start n h (low, high)

  run_windows_nil : (start : TimeSpec) → run_windows eq m start [] ≡ some []
  unfolding run_windows
  run_windows_nil start = refl

  -- What a pass over the windows from some time on gives
  abbrev pub Passes : ℤ → ℤ → Option (List Act) → ℤ → List Window → Type 0
  Passes now start o frame given = (b : ℤ) × Plays now o b given × (b ≤ℤ start +ℤ frame)

  -- The actions of one tuple and those after it, with the two times of the window
  joined_window :
      (now x y c : ℤ) (t : SchedulingTuple) (from until : TimeSpec) (o : Option (List Act))
      (given : List Window)
      → IsReady t
      → convert_time_spec_to_nano from ≡ x
      → convert_time_spec_to_nano until ≡ y
      → now ≤ℤ x
      → x ≤ℤ y
      → Plays y o c given
      → Plays now
          (joined
            (some (sleep_until from ∷ []))
            (joined (run_partition eq m t.partition_index until) o))
          c
          ((t.partition_index, x, y) ∷ given)
  joined_window now x y c t from until o given ready nf nu due order play =
      let a = convert_time_spec_to_nano from in
      let b = convert_time_spec_to_nano until in
      let i = t.partition_index in
      rw (← nf, ← nu)
        (joined-Plays eq now a c (some (sleep_until from ∷ [])) _ [] ((i, a, b) ∷ given)
          (sleep_until from ∷ [], refl, sleep-Leads now from (rw nf due))
          (joined-Plays eq a b c (run_partition eq m i until) o ((i, a, b) ∷ []) given
            (run_partition-Plays a t until ready (rw (nf, nu) order)) (rw nu play)))

  one_window :
      (start : TimeSpec) (now : ℤ) (t : SchedulingTuple) (rest : List SchedulingTuple)
      → IsNormal start
      → IsWindow t
      → window_end t ≤ℤ pos max_time_out
      → IsReady t
      → now ≤ℤ convert_time_spec_to_nano start +ℤ t.offset
      → (frame : ℤ) (given : List Window)
      → Passes
          (convert_time_spec_to_nano start +ℤ window_end t)
          (convert_time_spec_to_nano start)
          (run_windows eq m start rest)
          frame
          given
      → Passes now (convert_time_spec_to_nano start) (run_windows eq m start (t ∷ rest)) frame (
          (
            t.partition_index,
            convert_time_spec_to_nano start +ℤ t.offset,
            convert_time_spec_to_nano start +ℤ window_end t,
          )
          ∷ given)
  unfolding run_windows
  one_window start now t rest normal w short ready due frame given (c, play, within) =
      let s = convert_time_spec_to_nano start in
      let (from, ef, _, nf) = added start t.offset normal w.0 (omega int_laws) in
      let (until, eu, _, nu) = added start (window_end t) normal (omega int_laws) short in
      (
        c,
        rw (run_windows, ef, eu)
            (joined_window now (s +ℤ t.offset) (s +ℤ window_end t) c t from until
              (run_windows eq m start rest) given ready nf nu due (omega int_laws) play),
        within,
      )

  pub run_windows-Passes :
      (start : TimeSpec) (now : ℤ) (t : SchedulingTuple) (rest : List SchedulingTuple)
      → IsNormal start
      → m.major_frame_size ≤ℤ pos max_time_out
      → check_schedule m.major_frame_size (t ∷ rest) ≡ accepted
      → AllWindows (t ∷ rest)
      → AllReady (t ∷ rest)
      → now ≤ℤ convert_time_spec_to_nano start +ℤ t.offset
      → Passes now
          (convert_time_spec_to_nano start)
          (run_windows eq m start (t ∷ rest))
          m.major_frame_size
          (planned (convert_time_spec_to_nano start) (t ∷ rest))
  run_windows-Passes start now t [] normal short ok w ready due =
      let s = convert_time_spec_to_nano start in
      one_window start now t [] normal w.0 (omega (int_laws, accepted_one m.major_frame_size t ok))
        ready.0 due m.major_frame_size []
        (
          s +ℤ window_end t,
          ([], run_windows_nil start, Leads-nil (s +ℤ window_end t)),
          omega (int_laws, accepted_one m.major_frame_size t ok),
        )
  run_windows-Passes start now t (u ∷ rest) normal short ok w ready due =
      let s = convert_time_spec_to_nano start in
      let (before, ok') = accepted_more m.major_frame_size t u rest ok in
      one_window start now t (u ∷ rest) normal w.0
        (omega (int_laws, ends_within m.major_frame_size t (u ∷ rest) w ok)) ready.0 due
        m.major_frame_size (planned s (u ∷ rest))
        (run_windows-Passes start (s +ℤ window_end t) u rest normal short ok' w.1 ready.1
          (omega int_laws))
