-- ===== src/ProcessServices/Suspending.antt =====
-- RESUME wakes a process from SUSPEND_SELF.
use arinc653emulator.Prelude.{
  ℕ, ◌<◌, ℤ, pos, ltb_ℤ, ◌≤ℤ◌, ◌&&◌, ◌≡◌, refl, ap, ◌∙◌, arith, true, false, some, List, [], ◌∷◌,
  length, get_elem?, set, get_elem?-set_self, set-set_self,
}
use arinc653emulator.Types.{ReturnCode, no_error, max_time_out}
use arinc653emulator.Time.{TimeSpec}
use arinc653emulator.Time.Nanoseconds.{add_time_nano-known}
use arinc653emulator.Blocking.{Wake, Place, signalled, returns}
use arinc653emulator.Event.{
  Event, up, down, is_down, leave, set_event, reset_event, left, wait_event_until, wait_event_for,
}
use arinc653emulator.Partition.{Descriptor, waiting_suspended_self, Partition, Apex}
use arinc653emulator.EventServices.{obtain}
use arinc653emulator.Partition.Names.{get_elem?-some_lt}
use arinc653emulator.SemaphoreServices.{my_id, get_my_id}
use arinc653emulator.ProcessServices.{finite, is_periodic, resume}
use arinc653emulator.ProcessServices.Threads.{modify}
use arinc653emulator.ProcessServices.Suspension.{
  is_suspended, suspension_event_at, woken, Others, asleep_in, self_suspended, suspend_self,
}

-- The partition with the process at `id` replaced
abbrev pub at : Partition → ℕ → Descriptor → Partition
at p id x = record p { processes = set p.processes id x }

modify-at :
    (f : Descriptor → Descriptor) (p : Partition) (id : ℕ) (x : Descriptor)
    → id < length p.processes
    → modify f id (at p id x) ≡ at p id (f x)
modify-at f p id x h =
    rw (modify, get_elem?-set_self p.processes id x h)
      (ap (λ l. record p { processes = l }) (set-set_self p.processes id x (f x)))

-- A process that sleeps in SUSPEND_SELF
abbrev pub asleep : Descriptor → Descriptor
asleep d = record d { process_state = waiting_suspended_self }

abbrev signalled_at : Descriptor → Descriptor
signalled_at d = record (asleep d) { suspension_event = record d.suspension_event { state = up } }

set_event-up : (e : Event) → e.state ≡ down → set_event e ≡ (no_error, record e { state = up })
unfolding set_event
set_event-up e h = ground (arith, h)

resume-asleep :
    (p : Partition) (id : ℕ) (d : Descriptor)
    → id < length p.processes
    → is_periodic d ≡ false
    → d.suspension_event.state ≡ down
    → resume id (some (at p id (asleep d))) ≡ (no_error, some (at p id (signalled_at d)))
unfolding resume
resume-asleep p id d h n e =
    let here = get_elem?-set_self p.processes id (asleep d) h in
    rw (resume, here, n)
      (ap
          (λ (r : ReturnCode × Event).
            (r.0, some (at (at p id (asleep d)) id (record (asleep d) { suspension_event = r.1 }))))
          (set_event-up d.suspension_event e)
        ∙ ap (λ l. (no_error, some (record p { processes = l })))
            (set-set_self p.processes id (asleep d) (signalled_at d)))

event_seen :
    (p : Partition) (id : ℕ) (x : Descriptor)
    → id < length p.processes
    → (suspension_event_at id).read (at p id x) ≡ x.suspension_event
event_seen p id x h = rw (suspension_event_at, get_elem?-set_self p.processes id x h) refl

-- A time-bound wait that finds the event up at its first wake-up
at_wake :
    {S : Type 0} (p : Place S Event) (ws : List (Wake S)) (s t : S)
    → is_down (p.read s).state ≡ true
    → is_down (p.read t).state ≡ false
    → wait_event_until p (record { reason = signalled; state = t } ∷ ws) s
      ≡ returns (no_error, left p t)
unfolding wait_event_until
at_wake p [] s t a b = rw (wait_event_until, a, b) refl
at_wake p (w ∷ ws) s t a b = rw (wait_event_until, a, b) refl

woken_by :
    (p : Partition) (id : ℕ) (d : Descriptor) (now : TimeSpec) (timeout : ℤ)
    (ws : List (Wake Partition))
    → id < length p.processes
    → d.suspension_event.state ≡ down
    → timeout ≤ℤ pos max_time_out
    → wait_event_for
        (suspension_event_at id)
        now
        timeout
        (record { reason = signalled; state = at p id (signalled_at d) } ∷ ws)
        (at p id (asleep d))
      ≡ returns (no_error, left (suspension_event_at id) (at p id (signalled_at d)))
unfolding wait_event_for wait_event_until
woken_by p id d now timeout ws h e t =
    let b = add_time_nano-known now timeout t in
    rw (wait_event_for, b.1)
      (at_wake (suspension_event_at id) ws (at p id (asleep d)) (at p id (signalled_at d))
        (ap (λ x. is_down x.state) (event_seen p id (asleep d) h) ∙ ap is_down e)
        (ap (λ x. is_down x.state) (event_seen p id (signalled_at d) h)))

-- The process after SUSPEND_SELF: its state is as it was, the event down, and the event's count one less.
abbrev pub resumed_at : Descriptor → Descriptor
resumed_at d = record d {
  suspension_event = (reset_event (leave (record d.suspension_event { state = up }))).1;
}

woken_lem :
    (p : Partition) (id : ℕ) (d : Descriptor)
    → id < length p.processes
    → modify
        (λ x. record x {
          process_state = d.process_state;
          suspension_event = (reset_event x.suspension_event).1;
        })
        id
        (left (suspension_event_at id) (at p id (signalled_at d)))
      ≡ at p id (resumed_at d)
woken_lem p id d h =
    let up_event : Event = record d.suspension_event { state = up } in
    let after : Descriptor → Descriptor = λ x. record x {
      process_state = d.process_state;
      suspension_event = (reset_event x.suspension_event).1;
    } in
    let x : Descriptor = record (signalled_at d) { suspension_event = leave up_event } in
    let gone : left (suspension_event_at id) (at p id (signalled_at d)) ≡ at p id x =
      ap (λ e. (suspension_event_at id).write (at p id (signalled_at d)) (leave e))
        (event_seen p id (signalled_at d) h)
      ∙ modify-at (λ y. record y { suspension_event = leave up_event }) p id (signalled_at d) h in
    ap (modify after id) gone ∙ modify-at after p id x h

-- The other threads call RESUME on the process, once it sleeps, in the partition that they then find.
abbrev pub resuming : ℕ → List (Wake Partition) → Others
resuming id ws q = record { reason = signalled; state = obtain (resume id (some q)).1 } ∷ ws

-- A process that is neither periodic nor suspended calls SUSPEND_SELF with a time-out of at most
-- MAX_TIME_OUT, and in the partition in which it sleeps RESUME is called on it, and nothing else done:
-- RESUME returns NO_ERROR there, and so does SUSPEND_SELF, which leaves the process as it was but for its suspension event:
-- that is reset, and its count is one less, though the wait never added to it.
pub suspend_self-resume :
    (p : Partition) (id self : ℕ) (d : Descriptor) (now : TimeSpec) (timeout : ℤ)
    (ws : List (Wake Partition))
    → get_elem? p.processes id ≡ some d
    → my_id self p.processes ≡ some id
    → is_periodic d ≡ false
    → is_suspended d.process_state ≡ false
    → d.suspension_event.state ≡ down
    → timeout ≤ℤ pos max_time_out
    → (s : Partition) × (resume id (some (at p id (asleep d))) ≡ (no_error, some s))
      × (suspend_self self now timeout (resuming id ws) (some p)
          ≡ returns (no_error, some (at p id (resumed_at d))))
unfolding suspend_self get_my_id obtain
suspend_self-resume p id self d now timeout ws g f n a e t =
    let h = get_elem?-some_lt p.processes d id g in
    let s : Partition = at p id (signalled_at d) in
    let in_time : (finite timeout && ltb_ℤ (pos max_time_out) timeout) ≡ false =
      ground (arith, t) in
    let slept : modify (λ x. record x { process_state = waiting_suspended_self }) id p
        ≡ at p id (asleep d) =
      rw (modify, g) refl in
    let told : Others = resuming id ws in
    let resumed = resume-asleep p id d h n e in
    let run : suspend_self self now timeout told (some p)
        ≡ returns (no_error, some (at p id (resumed_at d))) =
      rw (suspend_self, in_time, f, g)
        (rw (self_suspended, n, a)
          (ap (asleep_in now timeout told id d.process_state) slept
            ∙ ap
                (λ (r : ReturnCode × Apex). woken d.process_state id (
                  wait_event_for (suspension_event_at id) now timeout
                    (record { reason = signalled; state = obtain r.1 } ∷ ws) (at p id (asleep d))))
                resumed
            ∙ ap (woken d.process_state id) (woken_by p id d now timeout ws h e t)
            ∙ ap (λ q. returns (no_error, some q)) (woken_lem p id d h))) in
    (s, resumed, run)
