-- ===== src/ProcessServices/Unlocking.antt =====
-- The clean-up handler of a thread gives back the locks that the process holds.
use arinc653emulator.Prelude.{
  ℕ, zero, suc, ◌<◌, ==_iff, ◌≡◌, refl, sym, ap, ◌∙◌, arith, none, some, List, [], ◌∷◌, length,
  length-set, get_elem?, set, get_elem?-set_self,
}
use arinc653emulator.Types.{no_error}
use arinc653emulator.RwLock.{RwLock, readunlock, writeunlock}
use arinc653emulator.Partition.{Descriptor, Partition, Apex}
use arinc653emulator.Partition.Names.{get_elem?-some_lt}
use arinc653emulator.BlackboardServices.{Run, done}
use arinc653emulator.SemaphoreServices.{
  my_id, erase_first, of_caller, readunlock_rw_semaphore, writeunlock_rw_semaphore,
}
use arinc653emulator.ProcessServices.Threads.{unlock_each}

-- A process less the locks that it holds
abbrev pub less_locks : Descriptor → Descriptor
less_locks d = record d { readlocks = []; writelocks = [] }

-- The locks after each of those listed was unlocked
abbrev pub release_all : (RwLock → RwLock) → List ℕ → List RwLock → List RwLock
release_all unlock [] locks = locks
release_all unlock (i ∷ is) locks = elim (get_elem? locks i) [
  | none ↦ release_all unlock is locks
  | some l ↦ release_all unlock is (set locks i (unlock l))
]

abbrev pub AllBelow : ℕ → List ℕ → Type 0
AllBelow n [] = Unit
AllBelow n (i ∷ is) = (i < n) × AllBelow n is

get_elem?-below : (l : List RwLock) (i : ℕ) → i < length l → (x : RwLock) × (get_elem? l i ≡ some x)
get_elem?-below [] i h = elim h [ ]
get_elem?-below (x ∷ xs) zero h = (x, refl)
get_elem?-below (x ∷ xs) (suc i) h = get_elem?-below xs i (omega arith)

pub my_id-set :
    (self : ℕ) (ds : List Descriptor) (i : ℕ) (x y : Descriptor)
    → get_elem? ds i ≡ some x
    → y.thread ≡ x.thread
    → my_id self (set ds i y) ≡ my_id self ds
unfolding my_id
my_id-set self [] i x y g e = refl
my_id-set self (z ∷ ds) zero x y g e = ground (arith, g, e)
my_id-set self (z ∷ ds) (suc i) x y g e = rw (my_id-set self ds i x y g e) refl

erase_first-head : (i : ℕ) (is : List ℕ) → erase_first i (i ∷ is) ≡ is
unfolding erase_first
erase_first-head i is = rw ((==_iff i i).1 refl) refl

-- The process at `id` is the thread `self`, and holds the locks listed, all of which exist.
pub record Holds (self id : ℕ) (reads writes : List ℕ) (x : Descriptor) (p : Partition)
    : Type 0 where
  pub there : get_elem? p.processes id ≡ some x
  pub found : my_id self p.processes ≡ some id
  pub thread : x.thread ≡ self
  pub reading : x.readlocks ≡ reads
  pub writing : x.writelocks ≡ writes
  pub reads_exist : AllBelow (length p.rw_locks) reads
  pub writes_exist : AllBelow (length p.rw_locks) writes

below-set : (n m : ℕ) (is : List ℕ) → m ≡ n → AllBelow n is → AllBelow m is
below-set n m is e h = rw e h

readunlock_step :
    (self id i : ℕ) (is writes : List ℕ) (x : Descriptor) (p : Partition)
    → Holds self id (i ∷ is) writes x p
    → (l : RwLock) × (get_elem? p.rw_locks i ≡ some l)
      × (readunlock_rw_semaphore self i (some p) ≡ (
        no_error,
        some (record p {
          rw_locks = set p.rw_locks i (readunlock l);
          processes = set p.processes id (record x { readlocks = is });
        }),
      ))
      × Holds self id is writes
          (record x { readlocks = is })
          (record p {
            rw_locks = set p.rw_locks i (readunlock l);
            processes = set p.processes id (record x { readlocks = is });
          })
unfolding readunlock_rw_semaphore
readunlock_step self id i is writes x p h =
    let l = get_elem?-below p.rw_locks i h.reads_exist.0 in
    let same = length-set p.rw_locks i (readunlock l.0) in
    let erased : erase_first i x.readlocks ≡ is =
      ap (erase_first i) h.reading ∙ erase_first-head i is in
    (
      l.0,
      l.1,
      rw (readunlock_rw_semaphore, l.1)
          (rw (of_caller, h.found, h.there)
            (ap
              (λ z. (
                no_error,
                some (record p {
                  rw_locks = set p.rw_locks i (readunlock l.0);
                  processes = set p.processes id (record x { readlocks = z });
                }),
              ))
              erased)),
      record {
        there =
            get_elem?-set_self p.processes id (record x { readlocks = is })
              (get_elem?-some_lt p.processes x id h.there);
        found =
            my_id-set self p.processes id x (record x { readlocks = is }) h.there refl ∙ h.found;
        thread = h.thread;
        reading = refl;
        writing = h.writing;
        reads_exist = below-set (length p.rw_locks) _ is same h.reads_exist.1;
        writes_exist = below-set (length p.rw_locks) _ writes same h.writes_exist;
      },
    )

writeunlock_step :
    (self id i : ℕ) (is : List ℕ) (x : Descriptor) (p : Partition)
    → Holds self id [] (i ∷ is) x p
    → (l : RwLock) × (get_elem? p.rw_locks i ≡ some l)
      × (writeunlock_rw_semaphore self i (some p) ≡ (
        no_error,
        some (record p {
          rw_locks = set p.rw_locks i (writeunlock l);
          processes = set p.processes id (record x { writelocks = is });
        }),
      ))
      × Holds self id [] is
          (record x { writelocks = is })
          (record p {
            rw_locks = set p.rw_locks i (writeunlock l);
            processes = set p.processes id (record x { writelocks = is });
          })
unfolding writeunlock_rw_semaphore
writeunlock_step self id i is x p h =
    let l = get_elem?-below p.rw_locks i h.writes_exist.0 in
    let same = length-set p.rw_locks i (writeunlock l.0) in
    let erased : erase_first i x.writelocks ≡ is =
      ap (erase_first i) h.writing ∙ erase_first-head i is in
    (
      l.0,
      l.1,
      rw (writeunlock_rw_semaphore, l.1)
          (rw (of_caller, h.found, h.there)
            (ap
              (λ z. (
                no_error,
                some (record p {
                  rw_locks = set p.rw_locks i (writeunlock l.0);
                  processes = set p.processes id (record x { writelocks = z });
                }),
              ))
              erased)),
      record {
        there =
            get_elem?-set_self p.processes id (record x { writelocks = is })
              (get_elem?-some_lt p.processes x id h.there);
        found =
            my_id-set self p.processes id x (record x { writelocks = is }) h.there refl ∙ h.found;
        thread = h.thread;
        reading = h.reading;
        writing = refl;
        reads_exist = record {};
        writes_exist = below-set (length p.rw_locks) _ is same h.writes_exist.1;
      },
    )

-- What the unlocking leaves: the locks, and a process that is as it was but for its lists.
abbrev pub Unlocks : ℕ → ℕ → List ℕ → Descriptor → List RwLock → Run Apex → Type 0
Unlocks self id writes x locks r =
    (q : Partition) × (y : Descriptor) × (r ≡ done (some q))
    × (q.rw_locks ≡ locks)
    × (less_locks y ≡ less_locks x)
    × Holds self id [] writes y q

pub reads_unlocked :
    (self id : ℕ) (is writes : List ℕ) (x : Descriptor) (p : Partition)
    → Holds self id is writes x p
    → Unlocks self id writes x
        (release_all readunlock is p.rw_locks)
        (unlock_each (readunlock_rw_semaphore self) is (some p))
unfolding unlock_each
reads_unlocked self id [] writes x p h = (p, x, refl, refl, refl, h)
reads_unlocked self id (i ∷ is) writes x p h =
    let s = readunlock_step self id i is writes x p h in
    let r =
      reads_unlocked self id is writes (record x { readlocks = is })
        (record p {
          rw_locks = set p.rw_locks i (readunlock s.0);
          processes = set p.processes id (record x { readlocks = is });
        })
        s.3 in
    (r.0, r.1, rw (unlock_each, s.2) r.2, r.3 ∙ sym (rw (release_all, s.1) refl), r.4, r.5)

pub writes_unlocked :
    (self id : ℕ) (is : List ℕ) (x : Descriptor) (p : Partition)
    → Holds self id [] is x p
    → Unlocks self id [] x
        (release_all writeunlock is p.rw_locks)
        (unlock_each (writeunlock_rw_semaphore self) is (some p))
unfolding unlock_each
writes_unlocked self id [] x p h = (p, x, refl, refl, refl, h)
writes_unlocked self id (i ∷ is) x p h =
    let s = writeunlock_step self id i is x p h in
    let r =
      writes_unlocked self id is (record x { writelocks = is })
        (record p {
          rw_locks = set p.rw_locks i (writeunlock s.0);
          processes = set p.processes id (record x { writelocks = is });
        })
        s.3 in
    (r.0, r.1, rw (unlock_each, s.2) r.2, r.3 ∙ sym (rw (release_all, s.1) refl), r.4, r.5)
