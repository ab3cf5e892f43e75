-- ===== src/Scheduling/Releases.antt =====
-- What a release does to a process.
use arinc653emulator.Prelude.{
  ℕ, String, ◌<◌, ◌+ℤ◌, ◌≡◌, refl, ap, ◌∙◌, arith, true, some, length, get_elem?, set,
  get_elem?-set_self, set-set_self,
}
use arinc653emulator.Time.{TimeSpec, convert_time_spec_to_nano}
use arinc653emulator.Time.Nanoseconds.{
  IsNormal, IsTimeOut, add_time_nano_lem, compute_deadline-eq-add_time_nano,
}
use arinc653emulator.Semaphore.{post}
use arinc653emulator.Partition.{Descriptor, running, check_deadline, Partition}
use arinc653emulator.Partition.Names.{get_elem?-some_lt}
use arinc653emulator.EventServices.{on_event, reset_event_service}
use arinc653emulator.BlackboardServices.{done}
use arinc653emulator.ProcessServices.{is_periodic}
use arinc653emulator.ProcessServices.Threads.{modify, helper_reset_event, start_thread}
use arinc653emulator.Scheduling.Steps.{
  readied, is_releasable, release_times, try_modify, release_step,
}

pub helper_reset_event-processes :
    (name : String) (p : Partition) → (helper_reset_event name p).processes ≡ p.processes
unfolding helper_reset_event reset_event_service on_event
helper_reset_event-processes name p = ground arith

pub modify-processes :
    (f : Descriptor → Descriptor) (id : ℕ) (p : Partition) (d : Descriptor)
    → get_elem? p.processes id ≡ some d
    → (modify f id p).processes ≡ set p.processes id (f d)
modify-processes f id p d g = rw (modify, g) refl

-- The process once its thread runs
abbrev pub started : Descriptor → Descriptor
started d = record (readied d) { process_state = running; sem_state = (post d.sem_state).1 }

start_thread_lem :
    (id : ℕ) (d : Descriptor) (p : Partition)
    → id < length p.processes
    → (start_thread id
        (readied d)
        (record p { processes = set p.processes id (readied d) })).processes
      ≡ set p.processes id (started d)
unfolding start_thread
start_thread_lem id d p h =
    let p0 : Partition = record p { processes = set p.processes id (readied d) } in
    let run : Descriptor = record (readied d) { process_state = running } in
    let here = get_elem?-set_self p.processes id (readied d) h in
    let s1 =
      modify-processes (λ x. record x { process_state = running }) id p0 (readied d) here
      ∙ set-set_self p.processes id (readied d) run in
    let p1 : Partition =
      helper_reset_event d.attributes.process_name
        (modify (λ x. record x { process_state = running }) id p0) in
    let s2 =
      helper_reset_event-processes d.attributes.process_name
        (modify (λ x. record x { process_state = running }) id p0)
      ∙ s1 in
    let there = ap (λ l. get_elem? l id) s2 ∙ get_elem?-set_self p.processes id run h in
    modify-processes (λ x. record x { sem_state = (post x.sem_state).1 }) id p1 run there
    ∙ ap (λ l. set l id (started d)) s2
    ∙ set-set_self p.processes id run (started d)

pub release_step_lem :
    (now : TimeSpec) (id : ℕ) (d e : Descriptor) (p : Partition)
    → get_elem? p.processes id ≡ some d
    → is_releasable d.process_state ≡ true
    → release_times now (started d) ≡ some e
    → (q : Partition) × (release_step now id d p ≡ done q) × (q.processes ≡ set p.processes id e)
unfolding release_step
release_step_lem now id d e p g r t =
    let h = get_elem?-some_lt p.processes d id g in
    let p1 : Partition =
      start_thread id (readied d) (record p { processes = set p.processes id (readied d) }) in
    let s = start_thread_lem id d p h in
    let there = ap (λ l. get_elem? l id) s ∙ get_elem?-set_self p.processes id (started d) h in
    (
      record p1 { processes = set p1.processes id e },
      rw (release_step, r) (rw (try_modify, there, t) refl),
      ap (λ l. set l id e) s ∙ set-set_self p.processes id (started d) e,
    )

-- The times of a periodic process after a release
pub release_times_lem :
    (now : TimeSpec) (d : Descriptor)
    → is_periodic d ≡ true
    → IsNormal d.critical_time
    → IsTimeOut d.attributes.period
    → IsTimeOut d.attributes.time_capacity
    → (next deadline : TimeSpec) × (release_times now d
        ≡ some (record d {
          prev_start_time = now;
          next_scheduled_time = next;
          deadline_time = deadline;
          critical_time = deadline;
          next_instance = check_deadline;
        }))
      × IsNormal next
      × (convert_time_spec_to_nano next
          ≡ convert_time_spec_to_nano d.critical_time +ℤ d.attributes.period)
      × IsNormal deadline
      × (convert_time_spec_to_nano deadline
          ≡ convert_time_spec_to_nano d.critical_time +ℤ d.attributes.time_capacity)
unfolding release_times
release_times_lem now d per n p c =
    let next = add_time_nano_lem d.critical_time d.attributes.period n p in
    let dead = add_time_nano_lem d.critical_time d.attributes.time_capacity n c in
    let eq =
      compute_deadline-eq-add_time_nano d.critical_time d.attributes.time_capacity ∙ dead.1 in
    (next.0, dead.0, rw (release_times, per, next.1, eq) refl, next.2, next.3, dead.2, dead.3)
