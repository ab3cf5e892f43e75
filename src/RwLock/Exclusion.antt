-- ===== src/RwLock/Exclusion.antt =====
-- Readers and writers of a shared lock exclude each other.
use arinc653emulator.Prelude.{
  ℕ, ◌+◌, ◌-◌, ◌≤◌, ◌<◌, pos, ◌+ℤ◌, ◌≤ℤ◌, String, ◌≡◌, ◌⊎◌, refl, inl, arith, eq_of_parts, pos_part,
  ap, ◌∙◌,
}
use arinc653emulator.Semaphore.{Semaphore, new_semaphore, enter, leave, grant, post}
use arinc653emulator.Semaphore.Units.{post_lem, grant_lem}
use arinc653emulator.RwLock.{RwLock, new_rw_lock, readunlock, give_back, release_token, writeunlock}
use arinc653emulator.RwLock.Shared.{
  System, Step, Reach, start, later, begin_wait, give_up_wait, begin_token, give_up_token,
  read_lock, read_unlock, take_token, take_unit, time_out, write_lock, write_unlock,
}

-- Each unit is free, with a reader or with the collecting writer; or a writer holds the lock, and
-- there are none. The token is free or with one writer.
pub record Excludes (max : ℕ) (s : System) : Type 0 where
  pub free : ℕ
  pub counted : s.lock.rw_sem.counter ≡ pos free
  pub shared :
      ((s.writers ≡ 0) × (free + s.readers + s.units ≡ max))
      ⊎ ((s.writers ≡ 1) × (free + s.readers + s.units ≡ 0))
  pub token : ℕ
  pub token_counted : s.lock.writer_semaphore.counter ≡ pos token
  pub one_token : token + s.collecting ≡ 1
  pub limit : s.lock.rw_sem.maximum_value ≡ pos max
  pub token_limit : s.lock.writer_semaphore.maximum_value ≡ pos 1
  pub readers_limit : s.lock.max_readers ≡ pos max

release-token :
    (s : Semaphore) (k : ℕ)
    → s.counter ≡ pos k
    → s.maximum_value ≡ pos 1
    → k ≡ 0
    → ((post s).1.counter ≡ pos 1) × ((post s).1.maximum_value ≡ pos 1)
release-token s k c m z =
    let p = post_lem s k 1 c m (omega arith) in (rw p (ap pos (omega arith)), rw p m)

pos_add : (a b : ℕ) → pos a +ℤ pos b ≡ pos (a + b)
unfolding ◌+ℤ◌
pos_add a b = ground (arith, eq_of_parts (pos a +ℤ pos b) (pos (a + b)))

-- A step that changes neither the counters nor the bounds.
kept :
    {max : ℕ} {s : System} (l : RwLock)
    → l.rw_sem.counter ≡ s.lock.rw_sem.counter
    → l.rw_sem.maximum_value ≡ s.lock.rw_sem.maximum_value
    → l.writer_semaphore.counter ≡ s.lock.writer_semaphore.counter
    → l.writer_semaphore.maximum_value ≡ s.lock.writer_semaphore.maximum_value
    → l.max_readers ≡ s.lock.max_readers
    → Excludes max s
    → Excludes max (record s { lock = l })
kept l a b c d r e = record {
  free = e.free;
  counted = a ∙ e.counted;
  shared = e.shared;
  token = e.token;
  token_counted = c ∙ e.token_counted;
  one_token = e.one_token;
  limit = b ∙ e.limit;
  token_limit = d ∙ e.token_limit;
  readers_limit = r ∙ e.readers_limit;
}

Step-Excludes : {max : ℕ} {s t : System} → 0 < max → Step s t → Excludes max s → Excludes max t
unfolding enter leave grant readunlock give_back release_token writeunlock
Step-Excludes m begin_wait e = kept _ refl refl refl refl refl e
Step-Excludes m give_up_wait e = kept _ refl refl refl refl refl e
Step-Excludes m begin_token e = kept _ refl refl refl refl refl e
Step-Excludes m give_up_token e = kept _ refl refl refl refl refl e
Step-Excludes {s = s} m (read_lock n) e =
    let g = grant_lem s.lock.rw_sem e.free e.counted n in
    record {
      free = e.free - 1;
      counted = g.1;
      shared = ground (arith, g.0);
      token = e.token;
      token_counted = e.token_counted;
      one_token = e.one_token;
      limit = e.limit;
      token_limit = e.token_limit;
      readers_limit = e.readers_limit;
    }
Step-Excludes {max = max} {s = s} m (read_unlock r) e =
    let small : e.free < max = ground arith in
    let p = post_lem s.lock.rw_sem e.free max e.counted e.limit small in
    record {
      free = e.free + 1;
      counted = rw p refl;
      shared = ground arith;
      token = e.token;
      token_counted = e.token_counted;
      one_token = e.one_token;
      limit = rw p e.limit;
      token_limit = e.token_limit;
      readers_limit = e.readers_limit;
    }
Step-Excludes {s = s} m (take_token n) e =
    let g = grant_lem s.lock.writer_semaphore e.token e.token_counted n in
    record {
      free = e.free;
      counted = e.counted;
      shared = e.shared;
      token = e.token - 1;
      token_counted = g.1;
      one_token = omega (arith, g.0, e.one_token);
      limit = e.limit;
      token_limit = e.token_limit;
      readers_limit = e.readers_limit;
    }
Step-Excludes {s = s} m (take_unit c n l) e =
    let g = grant_lem s.lock.rw_sem e.free e.counted n in
    record {
      free = e.free - 1;
      counted = g.1;
      shared = ground (arith, g.0);
      token = e.token;
      token_counted = e.token_counted;
      one_token = e.one_token;
      limit = e.limit;
      token_limit = e.token_limit;
      readers_limit = e.readers_limit;
    }
Step-Excludes {s = s} m (time_out c) e =
    let r =
      release-token s.lock.writer_semaphore e.token e.token_counted e.token_limit
        (omega (arith, e.one_token)) in
    record {
      free = e.free + s.units;
      counted = rw e.counted (pos_add e.free s.units);
      shared = ground arith;
      token = 1;
      token_counted = r.0;
      one_token = omega (arith, e.one_token);
      limit = e.limit;
      token_limit = r.1;
      readers_limit = e.readers_limit;
    }
Step-Excludes {max = max} {s = s} m (write_lock c l) e =
    let r =
      release-token s.lock.writer_semaphore e.token e.token_counted e.token_limit
        (omega (arith, e.one_token)) in
    let all : s.units ≡ max = ap pos_part (l ∙ e.readers_limit) in
    record {
      free = e.free;
      counted = e.counted;
      shared = ground (arith, all);
      token = 1;
      token_counted = r.0;
      one_token = omega (arith, e.one_token);
      limit = e.limit;
      token_limit = r.1;
      readers_limit = e.readers_limit;
    }
Step-Excludes {max = max} {s = s} m (write_unlock w) e = record {
  free = max;
  counted = e.readers_limit;
  shared = ground arith;
  token = e.token;
  token_counted = e.token_counted;
  one_token = e.one_token;
  limit = e.limit;
  token_limit = e.token_limit;
  readers_limit = e.readers_limit;
}

Reach-Excludes :
    {name : String} {max : ℕ} {s : System} → 0 < max → Reach name max s → Excludes max s
unfolding new_rw_lock new_semaphore
Reach-Excludes {max = max} m start = record {
  free = max;
  counted = refl;
  shared = inl (refl, omega arith);
  token = 1;
  token_counted = refl;
  one_token = refl;
  limit = refl;
  token_limit = refl;
  readers_limit = refl;
}
Reach-Excludes m (later r st) = Step-Excludes m st (Reach-Excludes m r)

-- A readers-writer lock for at least one reader, shared by any threads that unlock only what they
-- hold, in any order: at most one writer holds it, and while one does no reader does; at most the
-- given number of readers hold it; at most one writer collects the units, and the counter of the
-- readers' semaphore is not negative.
pub mutual_exclusion :
    {name : String} {max : ℕ} {s : System}
    → 0 < max
    → Reach name max s
    → (s.writers ≤ 1)
      × ((s.writers ≡ 0) ⊎ (s.readers ≡ 0))
      × (s.readers ≤ max)
      × (s.collecting ≤ 1)
      × (pos 0 ≤ℤ s.lock.rw_sem.counter)
mutual_exclusion m r =
    let e = Reach-Excludes m r in
    (
      ground (arith, e.shared),
      ground (arith, e.shared),
      ground (arith, e.shared),
      omega (arith, e.one_token),
      ground (arith, e.counted),
    )
