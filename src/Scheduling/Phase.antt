-- ===== src/Scheduling/Phase.antt =====
-- A periodic process that is always done before its deadline.
use mathlib.Core.Path.{subst}
use arinc653emulator.Prelude.{
  ℕ, ◌*◌, ℤ, pos, ◌≤◌, ◌+ℤ◌, ◌≡◌, refl, sym, ap, ◌∙◌, arith, true, none, some, List, [], ◌∷◌,
  length, get_elem?, get_elem?-set_self,
}
use arinc653emulator.Types.{max_time_out}
use arinc653emulator.Time.{TimeSpec, convert_time_spec_to_nano}
use arinc653emulator.Time.Nanoseconds.{IsNormal, IsTimeOut}
use arinc653emulator.Partition.{
  Attributes, Descriptor, waiting_on_period, release_process, check_deadline, Partition,
}
use arinc653emulator.Partition.Names.{get_elem?-some_lt}
use arinc653emulator.BlackboardServices.{Run, done, faults}
use arinc653emulator.ProcessServices.{is_periodic}
use arinc653emulator.ProcessServices.Threads.{modify}
use arinc653emulator.Scheduling.CatchUp.{plus_zero, one_more}
use arinc653emulator.Scheduling.Releases.{
  started, release_step_lem, release_times_lem, modify-processes,
}
use arinc653emulator.Scheduling.Steps.{
  Reports, ◌>>=◌, deadline_step, process_step, by_instance, is_releasable,
}

module _ (reports : Reports) (id : ℕ) where
  -- The scheduler's step on the process as it stands at the time `now`
  abbrev pub turn : TimeSpec → Partition → Run Partition
  turn now p = elim (get_elem? p.processes id) [
    | none ↦ faults
    | some d ↦ process_step reports none now now id d p
  ]

  -- A release at `now`; the process ends its work, and waits on its period, before the scheduler looks
  -- at the deadline at `later`.
  abbrev pub cycle : TimeSpec × TimeSpec → Partition → Run Partition
  cycle (now, later) p = turn now p >>= λ q.
      turn later (modify (λ x. record x { process_state = waiting_on_period }) id q)

  abbrev pub cycles : List (TimeSpec × TimeSpec) → Partition → Run Partition
  cycles [] p = done p
  cycles (t ∷ ts) p = cycle t p >>= λ q. cycles ts q

-- A process that waits for its release at `t`, in nanoseconds
pub record InPhase (a : Attributes) (t : ℤ) (d : Descriptor) : Type 0 where
  pub same : d.attributes ≡ a
  pub normal : IsNormal d.critical_time
  pub due : convert_time_spec_to_nano d.critical_time ≡ t
  pub waits : d.process_state ≡ waiting_on_period
  pub released_next : d.next_instance ≡ release_process

after_modify :
    (f : Descriptor → Descriptor) (id : ℕ) (p : Partition) (d : Descriptor)
    → get_elem? p.processes id ≡ some d
    → get_elem? (modify f id p).processes id ≡ some (f d)
after_modify f id p d g =
    ap (λ l. get_elem? l id) (modify-processes f id p d g)
    ∙ get_elem?-set_self p.processes id (f d) (get_elem?-some_lt p.processes d id g)

time_out : (k : ℕ) (t : ℤ) → t ≡ pos k → k ≤ max_time_out → IsTimeOut t
time_out k t e h = ground (arith, e)

turn_lem :
    (reports : Reports) (id : ℕ) (now : TimeSpec) (p : Partition) (d : Descriptor)
    → get_elem? p.processes id ≡ some d
    → turn reports id now p ≡ process_step reports none now now id d p
turn_lem reports id now p d g = rw (turn, g) refl

cycle_lem :
    (reports : Reports) (id k : ℕ) (now later : TimeSpec) (p : Partition) (d : Descriptor)
    (a : Attributes) (t : ℤ)
    → get_elem? p.processes id ≡ some d
    → InPhase a t d
    → a.period ≡ pos k
    → k ≤ max_time_out
    → IsTimeOut a.time_capacity
    → (q : Partition) × (e : Descriptor) × (cycle reports id (now, later) p ≡ done q)
      × (get_elem? q.processes id ≡ some e)
      × InPhase a (t +ℤ pos k) e
unfolding process_step deadline_step
cycle_lem reports id k now later p d a t g h ek km c =
    let per : d.attributes.period ≡ pos k = ap (λ x. x.period) h.same ∙ ek in
    let periodic : is_periodic d ≡ true = ground (arith, per) in
    let times =
      release_times_lem now (started d) periodic h.normal (time_out k d.attributes.period per km)
        (subst (λ x. IsTimeOut x.time_capacity) (sym h.same) c) in
    let e1 : Descriptor = record (started d) {
      prev_start_time = now;
      next_scheduled_time = times.0;
      deadline_time = times.1;
      critical_time = times.1;
      next_instance = check_deadline;
    } in
    let lt = get_elem?-some_lt p.processes d id g in
    let r = release_step_lem now id d e1 p g (ap is_releasable h.waits) times.2 in
    let e2 : Descriptor = record e1 { process_state = waiting_on_period } in
    let e3 : Descriptor = record e2 { critical_time = times.0; next_instance = release_process } in
    let wait : Descriptor → Descriptor = λ x. record x { process_state = waiting_on_period } in
    let rearm : Descriptor → Descriptor =
      λ x. record x { critical_time = x.next_scheduled_time; next_instance = release_process } in
    let g1 = ap (λ l. get_elem? l id) r.2 ∙ get_elem?-set_self p.processes id e1 lt in
    let g2 = after_modify wait id r.0 e1 g1 in
    let g3 = after_modify rearm id (modify wait id r.0) e2 g2 in
    (
      modify rearm id (modify wait id r.0),
      e3,
      ap (λ m. m >>= λ q. turn reports id later (modify wait id q))
            (turn_lem reports id now p d g
              ∙ ap (λ i. by_instance reports i none now now id d p) h.released_next
              ∙ r.1)
          ∙ turn_lem reports id later (modify wait id r.0) e2 g2,
      g3,
      record {
        same = h.same;
        normal = times.3;
        due = times.4 ∙ ap (λ x. x +ℤ d.attributes.period) h.due ∙ ap (λ x. t +ℤ x) per;
        waits = refl;
        released_next = refl;
      },
    )

-- The releases of a periodic process do not drift: if it waits for a release at the time t, then after
-- any number n of releases, each looked at by the scheduler at whatever time, with the process waiting
-- on its period again before the scheduler looks at its deadline, it waits for a release at the time
-- t + n times its period. The period is at most MAX_TIME_OUT, and the time capacity from 0 to
-- MAX_TIME_OUT.
pub cycles_lem :
    (reports : Reports) (id k : ℕ) (times : List (TimeSpec × TimeSpec)) (p : Partition)
    (d : Descriptor) (a : Attributes) (t : ℤ)
    → get_elem? p.processes id ≡ some d
    → InPhase a t d
    → a.period ≡ pos k
    → k ≤ max_time_out
    → IsTimeOut a.time_capacity
    → (q : Partition) × (e : Descriptor) × (cycles reports id times p ≡ done q)
      × (get_elem? q.processes id ≡ some e)
      × InPhase a (t +ℤ pos (length times * k)) e
cycles_lem reports id k [] p d a t g h ek km c =
    (p, d, refl, g, subst (λ x. InPhase a x d) (plus_zero t k) h)
cycles_lem reports id k ((now, later) ∷ times) p d a t g h ek km c =
    let one = cycle_lem reports id k now later p d a t g h ek km c in
    let rest = cycles_lem reports id k times one.0 one.1 a (t +ℤ pos k) one.3 one.4 ek km c in
    (
      rest.0,
      rest.1,
      ap (λ m. m >>= λ q. cycles reports id times q) one.2 ∙ rest.2,
      rest.3,
      subst (λ x. InPhase a x rest.1)
          (one_more t (t +ℤ pos k) (t +ℤ pos k +ℤ pos (length times * k)) (length times) k refl
            refl)
          rest.4,
    )
