-- ===== src/Buffer/Fifo.antt =====
-- What every step on a shared buffer keeps.
use mathlib.Core.List.{append_assoc}
use arinc653emulator.Prelude.{
  ap, ◌∙◌, ℕ, suc, ◌+◌, ◌-◌, ◌≤◌, ◌<◌, pos, ◌≡◌, refl, sym, arith, List, [], ◌∷◌, ◌++◌, length,
  take, length-append, some,
}
use arinc653emulator.Semaphore.{Semaphore, enter, leave, grant}
use arinc653emulator.Buffer.{Buffer, send_section, receive_section}
use arinc653emulator.Semaphore.Units.{post_lem, grant_lem}
use arinc653emulator.Buffer.Sections.{Queues, send_section-Queues, receive_section-Queues}
use arinc653emulator.Buffer.Shared.{
  System, Step, begin_send, give_up_send, granted_send, send, begin_receive, give_up_receive,
  granted_receive, receive,
}

-- The buffer holds the queue of what was sent and not yet received; each place in it is either free
-- (a unit of the write semaphore), reserved by a sender, readable (a unit of the read semaphore) or
-- reserved by a receiver.
pub record Fifo (size max : ℕ) (s : System) : Type 0 where
  pub queue : List (List ℕ)
  pub order : s.sent ≡ s.received ++ queue
  pub holds : Queues size max s.buffer queue
  pub readable : s.buffer.read_semaphore.counter ≡ pos (length queue - s.receivers)
  pub reserved : s.receivers ≤ length queue
  pub free_room : s.buffer.write_semaphore.counter ≡ pos (max - length queue - s.senders)
  pub room : length queue + s.senders ≤ max
  pub read_limit : s.buffer.read_semaphore.maximum_value ≡ pos max
  pub write_limit : s.buffer.write_semaphore.maximum_value ≡ pos max

-- The semaphores are no part of what `Queues` says.
Queues-semaphores :
    {size max : ℕ} {b : Buffer} {q : List (List ℕ)} (r w : Semaphore)
    → Queues size max b q
    → Queues size max (record b { read_semaphore = r; write_semaphore = w }) q
Queues-semaphores r w h = record {
  message_size = h.message_size;
  nb_message = h.nb_message;
  head_lt = h.head_lt;
  room = h.room;
  tail_at = h.tail_at;
  blocks = h.blocks;
  window = h.window;
  count = h.count;
}

enter-counter : (s : Semaphore) → (enter s).counter ≡ s.counter
unfolding enter
enter-counter s = refl

send-Fifo :
    {size max : ℕ} {s : System} (message : List ℕ) (len : ℕ) (b : Buffer)
    → 0 < s.senders
    → send_section message (pos len) s.buffer ≡ some b
    → (f : Fifo size max s)
    → Fifo size max
        (record s { buffer = b; senders = s.senders - 1; sent = s.sent ++ (take len message ∷ []) })
send-Fifo {size = size} {max = max} {s = s} message len b pending e f =
    let m = take len message in
    let grown : length (f.queue ++ (m ∷ [])) ≡ length f.queue + 1 =
      length-append f.queue (m ∷ []) in
    let done = send_section-Queues len message f.holds (omega (arith, f.room)) e in
    let posted =
      post_lem s.buffer.read_semaphore (length f.queue - s.receivers) max f.readable f.read_limit
        (omega (arith, f.room)) in
    record {
      queue = f.queue ++ (m ∷ []);
      order = rw f.order (append_assoc s.received f.queue (m ∷ []));
      holds = done.0;
      readable = rw (done.1, posted) (ap pos (omega (arith, grown, f.reserved)));
      reserved = omega (arith, grown, f.reserved);
      free_room = rw (done.2, f.free_room) (ap pos (omega (arith, grown, f.room)));
      room = omega (arith, grown, f.room);
      read_limit = rw (done.1, posted) f.read_limit;
      write_limit = rw done.2 f.write_limit;
    }

receive-Fifo :
    {size max : ℕ} {s : System} (out bytes : List ℕ) (len : ℕ) (b : Buffer)
    → 0 < s.receivers
    → receive_section out s.buffer ≡ some (pos len, bytes, b)
    → (q : List (List ℕ)) → (f : Fifo size max s) → f.queue ≡ q
    → Fifo size max (record s {
      buffer = b;
      receivers = s.receivers - 1;
      received = s.received ++ (take len bytes ∷ []);
    })
receive-Fifo out bytes len b pending e [] f d =
    let count : length f.queue ≡ 0 = ap length d in
    absurd (omega (arith, count, f.reserved, pending))
receive-Fifo {size = size} {max = max} {s = s} out bytes len b pending e (m ∷ q) f d =
    let done =
      receive_section-Queues {size = size} {max = max} {q = q} {m = m} out bytes len
        (rw (sym d) f.holds) e in
    let count : length f.queue ≡ suc (length q) = ap length d in
    let posted =
      post_lem s.buffer.write_semaphore (max - length f.queue - s.senders) max f.free_room
        f.write_limit (omega (arith, f.room, count)) in
    record {
      queue = q;
      order = rw done.0 (f.order ∙ rw (d, append_assoc s.received (m ∷ []) q) refl);
      holds = done.1;
      readable = rw (done.3, f.readable) (ap pos (omega (arith, count, f.reserved)));
      reserved = omega (arith, count, f.reserved);
      free_room = rw (done.2, posted) (ap pos (omega (arith, count, f.room)));
      room = omega (arith, count, f.room);
      read_limit = rw done.3 f.read_limit;
      write_limit = rw (done.2, posted) f.write_limit;
    }

-- A step that changes neither the queue nor the counters.
Fifo-waits :
    {size max : ℕ} {s : System} (r w : Semaphore)
    → r.counter ≡ s.buffer.read_semaphore.counter
    → r.maximum_value ≡ s.buffer.read_semaphore.maximum_value
    → w.counter ≡ s.buffer.write_semaphore.counter
    → w.maximum_value ≡ s.buffer.write_semaphore.maximum_value
    → Fifo size max s
    → Fifo size max
        (record s { buffer = record s.buffer { read_semaphore = r; write_semaphore = w } })
Fifo-waits r w rc rm wc wm f = record {
  queue = f.queue;
  order = f.order;
  holds = Queues-semaphores r w f.holds;
  readable = rc ∙ f.readable;
  reserved = f.reserved;
  free_room = wc ∙ f.free_room;
  room = f.room;
  read_limit = rm ∙ f.read_limit;
  write_limit = wm ∙ f.write_limit;
}

pub Step-Fifo : {size max : ℕ} {s t : System} → Step s t → Fifo size max s → Fifo size max t
unfolding enter leave grant
Step-Fifo begin_send f = Fifo-waits _ _ refl refl refl refl f
Step-Fifo give_up_send f = Fifo-waits _ _ refl refl refl refl f
Step-Fifo {s = s} (granted_send n) f =
    let g = grant_lem s.buffer.write_semaphore _ f.free_room n in
    record {
      order = f.order;
      queue = f.queue;
      readable = f.readable;
      reserved = f.reserved;
      read_limit = f.read_limit;
      write_limit = f.write_limit;
      holds = Queues-semaphores s.buffer.read_semaphore (grant s.buffer.write_semaphore) f.holds;
      free_room = g.1 ∙ ap pos (omega arith);
      room = omega (arith, g.0, f.room);
    }
Step-Fifo (send message len b p e) f = send-Fifo message len b p e f
Step-Fifo begin_receive f = Fifo-waits _ _ refl refl refl refl f
Step-Fifo give_up_receive f = Fifo-waits _ _ refl refl refl refl f
Step-Fifo {s = s} (granted_receive n) f =
    let g = grant_lem s.buffer.read_semaphore _ f.readable n in
    record {
      order = f.order;
      queue = f.queue;
      free_room = f.free_room;
      room = f.room;
      read_limit = f.read_limit;
      write_limit = f.write_limit;
      holds = Queues-semaphores (grant s.buffer.read_semaphore) s.buffer.write_semaphore f.holds;
      readable = g.1 ∙ ap pos (omega arith);
      reserved = omega (arith, g.0, f.reserved);
    }
Step-Fifo (receive out bytes len b p e) f = receive-Fifo out bytes len b p e f.queue f refl
