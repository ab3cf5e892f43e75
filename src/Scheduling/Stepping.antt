-- ===== src/Scheduling/Stepping.antt =====
-- What the scheduler does to one process keeps the others.
use arinc653emulator.Prelude.{
  ℕ, ◌≡◌, ◌≢◌, ap, ◌∙◌, Option-cases, Option, inl, inr, Bool-cases, get_elem?, set,
  get_elem?-set_ne,
}
use arinc653emulator.Time.{TimeSpec}
use arinc653emulator.Partition.{
  Descriptor, ProcessState, dormant, ready, running, waiting_on_resource, waiting_on_period,
  waiting_partition_not_normal, restarting, waiting_suspended_other, waiting_suspended_self,
  suspended_for_health_reasons, SchedulingInstance, release_process, check_deadline, Deadline, soft,
  hard, Partition,
}
use arinc653emulator.BlackboardServices.{Run, done, aborts, faults}
use arinc653emulator.BlackboardServices.Integrity.{Ends}
use arinc653emulator.ProcessServices.Threads.{modify, start_thread, helper_reset_event}
use arinc653emulator.Scheduling.Releases.{helper_reset_event-processes}
use arinc653emulator.Scheduling.Kept.{Kept, modify-Kept, stop_process-Kept}
use arinc653emulator.Scheduling.Steps.{
  Reports, ◌>>=◌, try_modify, readied, is_releasable, release_times, release_step, postpone,
  hard_miss, soft_miss, missed, checked, deadline_step, by_instance, process_step,
}

pub Ends-bind :
    {A B : Type 0} (P : A → Type 0) (Q : B → Type 0) (m : Run A) (f : A → Run B)
    → Ends P m
    → ((a : A) → P a → Ends Q (f a))
    → Ends Q (m >>= f)
Ends-bind P Q (done a) f h k = k a h
Ends-bind P Q aborts f h k = record {}
Ends-bind P Q faults f h k = record {}

Ends-map : {A : Type 0} (P Q : A → Type 0) (m : Run A) → ((a : A) → P a → Q a) → Ends P m → Ends Q m
Ends-map P Q (done a) f h = f a h
Ends-map P Q aborts f h = record {}
Ends-map P Q faults f h = record {}

module _ (j : ℕ) (d : Descriptor) where
  same-Kept : (p q : Partition) → q.processes ≡ p.processes → Kept j d p → Kept j d q
  same-Kept p q e k = (k.0, ap (λ l. get_elem? l j) e ∙ k.1, k.2)

  set-Kept :
      (id : ℕ) (y : Descriptor) (p : Partition)
      → id ≢ j
      → Kept j d p
      → Kept j d (record p { processes = set p.processes id y })
  set-Kept id y p n k = (k.0, get_elem?-set_ne p.processes y n ∙ k.1, k.2)

  try_modify-Kept :
      (f : Descriptor → Option Descriptor) (id : ℕ) (p : Partition)
      → id ≢ j
      → Kept j d p
      → Ends (Kept j d) (try_modify f id p)
  try_modify-Kept f id p n k = elim (Option-cases (get_elem? p.processes id)) [
    | inl o ↦ rw (try_modify, o) record {}
    | inr x ↦ elim (Option-cases (f x.0)) [
      | inl o ↦ rw (try_modify, x.1, o) record {}
      | inr y ↦ rw (try_modify, x.1, y.1) (set-Kept id y.0 p n k)
    ]
  ]

  start_thread-Kept :
      (id : ℕ) (x : Descriptor) (p : Partition)
      → id ≢ j
      → Kept j d p
      → Kept j d (start_thread id (readied x) p)
  unfolding start_thread
  start_thread-Kept id x p n k =
      let run : Partition = modify (λ y. record y { process_state = running }) id p in
      modify-Kept _ id j d (helper_reset_event x.attributes.process_name run) n (
        same-Kept run (helper_reset_event x.attributes.process_name run)
          (helper_reset_event-processes x.attributes.process_name run) (modify-Kept _ id j d p n k))

  release_step-Kept :
      (now : TimeSpec) (id : ℕ) (x : Descriptor) (p : Partition)
      → id ≢ j
      → Kept j d p
      → Ends (Kept j d) (release_step now id x p)
  unfolding release_step
  release_step-Kept now id x p n k = elim (Bool-cases (is_releasable x.process_state)) [
    | inr f ↦ rw (release_step, f) k
    | inl t ↦
        rw (release_step, t)
          (try_modify-Kept (release_times now) id _ n
            (start_thread-Kept id x _ n (set-Kept id (readied x) p n k)))
  ]

  module _ (reports : Reports) where
    open reports use {notify, raise, notify-processes, raise-processes}

    raise-Kept : (id : ℕ) (p : Partition) → Kept j d p → Ends (Kept j d) (raise id p)
    raise-Kept id p k =
        Ends-map (λ q. q.processes ≡ p.processes) (Kept j d) (raise id p) (λ q e. same-Kept p q e k)
          (raise-processes id p)

    notify-Kept : (id : ℕ) (p : Partition) → Kept j d p → Ends (Kept j d) (notify id p)
    notify-Kept id p k =
        Ends-map (λ q. q.processes ≡ p.processes) (Kept j d) (notify id p)
          (λ q e. same-Kept p q e k) (notify-processes id p)

    missed-Kept :
        (deadline : Deadline) (new : Option ℕ) (now : TimeSpec) (id : ℕ) (x : Descriptor)
        (p : Partition)
        → id ≢ j
        → Kept j d p
        → Ends (Kept j d) (missed reports deadline new now id x p)
    unfolding hard_miss soft_miss
    missed-Kept hard new now id x p n k =
        Ends-bind (Kept j d) (Kept j d) _ _ (stop_process-Kept new id j x d p n k) (λ q h.
          Ends-bind (Kept j d) (Kept j d) _ (λ r. raise id r)
            (notify-Kept id _ (modify-Kept _ id j d q n h)) (λ r g. raise-Kept id r g))
    missed-Kept soft new now id x p n k =
        Ends-bind (Kept j d) (Kept j d) _ _ (try_modify-Kept (postpone now) id p n k)
          (λ q h. raise-Kept id q h)

    checked-Kept :
        (state : ProcessState) (new : Option ℕ) (now : TimeSpec) (id : ℕ) (x : Descriptor)
        (p : Partition)
        → id ≢ j
        → Kept j d p
        → Ends (Kept j d) (checked reports state new now id x p)
    checked-Kept dormant new now id x p n k = modify-Kept _ id j d p n k
    checked-Kept waiting_on_period new now id x p n k = modify-Kept _ id j d p n k
    checked-Kept ready new now id x p n k = missed-Kept x.attributes.deadline new now id x p n k
    checked-Kept running new now id x p n k = missed-Kept x.attributes.deadline new now id x p n k
    checked-Kept waiting_on_resource new now id x p n k =
        missed-Kept x.attributes.deadline new now id x p n k
    checked-Kept waiting_partition_not_normal new now id x p n k =
        missed-Kept x.attributes.deadline new now id x p n k
    checked-Kept restarting new now id x p n k =
        missed-Kept x.attributes.deadline new now id x p n k
    checked-Kept waiting_suspended_other new now id x p n k =
        missed-Kept x.attributes.deadline new now id x p n k
    checked-Kept waiting_suspended_self new now id x p n k =
        missed-Kept x.attributes.deadline new now id x p n k
    checked-Kept suspended_for_health_reasons new now id x p n k =
        missed-Kept x.attributes.deadline new now id x p n k

    by_instance-Kept :
        (i : SchedulingInstance) (new : Option ℕ) (now later : TimeSpec) (id : ℕ) (x : Descriptor)
        (p : Partition)
        → id ≢ j
        → Kept j d p
        → Ends (Kept j d) (by_instance reports i new now later id x p)
    unfolding deadline_step
    by_instance-Kept release_process new now later id x p n k = release_step-Kept now id x p n k
    by_instance-Kept check_deadline new now later id x p n k =
        checked-Kept x.process_state new later id x p n k

    pub process_step-Kept :
        (new : Option ℕ) (now later : TimeSpec) (id : ℕ) (x : Descriptor) (p : Partition)
        → id ≢ j
        → Kept j d p
        → Ends (Kept j d) (process_step reports new now later id x p)
    unfolding process_step
    process_step-Kept new now later id x p n k =
        by_instance-Kept x.next_instance new now later id x p n k
