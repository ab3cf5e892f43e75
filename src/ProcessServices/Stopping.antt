-- ===== src/ProcessServices/Stopping.antt =====
-- STOP leaves a process that is dormant and holds no lock.
use arinc653emulator.Prelude.{
  ℕ, ◌≡◌, refl, ap, ◌∙◌, false, none, some, Option, [], length, get_elem?, get_elem?-set_self,
}
use arinc653emulator.Types.{no_error, worker_thread_restart_priority}
use arinc653emulator.RwLock.{readunlock, writeunlock}
use arinc653emulator.Partition.{Descriptor, dormant, restarting, Partition}
use arinc653emulator.Partition.Names.{get_elem?-some_lt}
use arinc653emulator.BlackboardServices.{done}
use arinc653emulator.SemaphoreServices.{my_id, writeunlock_rw_semaphore}
use arinc653emulator.ProcessServices.{is_dormant}
use arinc653emulator.ProcessServices.Threads.{
  modify, then_unlock, cleanup, after_cleanup, stopped, stop_process, stop_end, stop,
}
use arinc653emulator.ProcessServices.Unlocking.{
  release_all, AllBelow, my_id-set, Holds, Unlocks, reads_unlocked, writes_unlocked,
}

stopped_lem :
    (new : Option ℕ) (y : Descriptor)
    → ((stopped new y).process_state ≡ dormant)
      × ((stopped new y).attributes ≡ y.attributes)
      × ((stopped new y).priority ≡ y.attributes.base_priority)
      × ((stopped new y).readlocks ≡ y.readlocks)
      × ((stopped new y).writelocks ≡ y.writelocks)
stopped_lem none y = (refl, refl, refl, refl, refl)
stopped_lem (some n) y = (refl, refl, refl, refl, refl)

pub modify-get_elem? :
    (f : Descriptor → Descriptor) (id : ℕ) (p : Partition) (d : Descriptor)
    → get_elem? p.processes id ≡ some d
    → (get_elem? (modify f id p).processes id ≡ some (f d))
      × ((modify f id p).rw_locks ≡ p.rw_locks)
modify-get_elem? f id p d g =
    rw (modify, g)
      (get_elem?-set_self p.processes id (f d) (get_elem?-some_lt p.processes d id g), refl)

abbrev cancelled : Descriptor → Descriptor
cancelled d = record d { priority = worker_thread_restart_priority; process_state = restarting }

cancelled-Holds :
    (id : ℕ) (d : Descriptor) (p : Partition)
    → get_elem? p.processes id ≡ some d
    → my_id d.thread p.processes ≡ some id
    → AllBelow (length p.rw_locks) d.readlocks
    → AllBelow (length p.rw_locks) d.writelocks
    → Holds d.thread id d.readlocks d.writelocks (cancelled d) (modify cancelled id p)
cancelled-Holds id d p g f r w =
    rw (modify, g)
      record {
        there =
            get_elem?-set_self p.processes id (cancelled d) (get_elem?-some_lt p.processes d id g);
        found = my_id-set d.thread p.processes id d (cancelled d) g refl ∙ f;
        thread = refl;
        reading = refl;
        writing = refl;
        reads_exist = r;
        writes_exist = w;
      }

cleanup_lem :
    (id : ℕ) (d : Descriptor) (p : Partition)
    → get_elem? p.processes id ≡ some d
    → my_id d.thread p.processes ≡ some id
    → AllBelow (length p.rw_locks) d.readlocks
    → AllBelow (length p.rw_locks) d.writelocks
    → Unlocks d.thread id []
        (cancelled d)
        (release_all writeunlock d.writelocks (release_all readunlock d.readlocks p.rw_locks))
        (cleanup d (modify cancelled id p))
unfolding cleanup
cleanup_lem id d p g f r w =
    let h = cancelled-Holds id d p g f r w in
    let a =
      reads_unlocked d.thread id d.readlocks d.writelocks (cancelled d) (modify cancelled id p) h in
    let b = writes_unlocked d.thread id d.writelocks a.1 a.0 a.5 in
    (
      b.0,
      b.1,
      ap (then_unlock (writeunlock_rw_semaphore d.thread) d.writelocks) a.2 ∙ b.2,
      b.3
          ∙ ap (release_all writeunlock d.writelocks) (
              a.3
              ∙ ap (release_all readunlock d.readlocks) (modify-get_elem? cancelled id p d g).1),
      b.4 ∙ a.4,
      b.5,
    )

-- STOP of a process that is not dormant, whose thread is its own and whose locks exist, where nobody
-- else acts meanwhile: it returns NO_ERROR; the process is dormant, has its base priority and holds no
-- lock, and each lock that it held was unlocked, once for each time that it was held.
pub stop_lem :
    (new : Option ℕ) (id : ℕ) (d : Descriptor) (p : Partition)
    → get_elem? p.processes id ≡ some d
    → is_dormant d.process_state ≡ false
    → my_id d.thread p.processes ≡ some id
    → AllBelow (length p.rw_locks) d.readlocks
    → AllBelow (length p.rw_locks) d.writelocks
    → (q : Partition) × (e : Descriptor) × (stop new id (some p) ≡ done (no_error, some q))
      × (get_elem? q.processes id ≡ some e)
      × (e.process_state ≡ dormant)
      × (e.attributes ≡ d.attributes)
      × (e.priority ≡ d.attributes.base_priority)
      × (e.readlocks ≡ [])
      × (e.writelocks ≡ [])
      × (q.rw_locks
          ≡ release_all writeunlock d.writelocks (release_all readunlock d.readlocks p.rw_locks))
unfolding stop stop_process
stop_lem new id d p g n f r w =
    let c = cleanup_lem id d p g f r w in
    let m = modify-get_elem? (stopped new) id c.0 c.1 c.5.there in
    let s = stopped_lem new c.1 in
    let same : c.1.attributes ≡ d.attributes = ap (λ x. x.attributes) c.4 in
    (
      modify (stopped new) id c.0,
      stopped new c.1,
      rw (stop, g, n) (ap (λ x. stop_end (after_cleanup new id x)) c.2),
      m.0,
      s.0,
      s.1 ∙ same,
      s.2 ∙ ap (λ x. x.base_priority) same,
      s.3 ∙ c.5.reading,
      s.4 ∙ c.5.writing,
      m.1 ∙ c.3,
    )
