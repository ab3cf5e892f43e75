-- ===== src/Buffer/Delivery.antt =====
-- A new buffer, shared by any number of senders and receivers.

use arinc653emulator.Prelude.{
  ap, ℕ, ◌+◌, ◌≤◌, ◌<◌, pos, String, ◌≡◌, refl, sym, arith, List, [], ◌∷◌, ◌++◌, length, take, drop,
  some,
}
use arinc653emulator.Semaphore.{new_semaphore}
use arinc653emulator.Buffer.{Slot, Buffer, new_buffer, send_section, receive_section}
use arinc653emulator.Buffer.Sections.{Queues, send_section_lem, receive_section_lem}
use arinc653emulator.Buffer.Shared.{System, init, Reach, here, later}
use arinc653emulator.Buffer.Fifo.{Fifo, Step-Fifo}

granted-reads :
    {size max : ℕ} {s : System} (out : List ℕ) (q : List (List ℕ)) (f : Fifo size max s)
    → f.queue ≡ q
    → 0 < s.receivers
    → size ≤ length out
    → (m : List ℕ) × (b : Buffer) × (rest : List (List ℕ)) × (receive_section out s.buffer
        ≡ some (pos (length m), m ++ drop (length m) out, b))
      × (s.sent ≡ s.received ++ (m ∷ rest))
granted-reads out [] f d p a =
    let count : length f.queue ≡ 0 = ap length d in absurd (omega (arith, count, f.reserved))
granted-reads {size = size} {max = max} {s = s} out (m ∷ q) f d p a =
    let holds : Queues size max s.buffer (m ∷ q) = rw (sym d) f.holds in
    let l = receive_section_lem out holds (omega (arith, holds.window.0.fits)) in
    (m, l.0, q, l.1, rw (sym d) f.order)

-- The buffer `name` for `max` messages of up to `size` bytes, for which malloc gave blocks of that size.
module _ (fresh : ℕ → Slot) (name : String) (id size max : ℕ)
    (allocated : (i : ℕ) → length (fresh i).actual_load ≡ size) (room : 0 < max) where
  abbrev start_state : System
  start_state = init fresh name id size max

  Reach-Fifo : {s : System} → Reach start_state s → Fifo size max s
  unfolding new_buffer new_semaphore
  Reach-Fifo here = record {
    queue = [];
    order = refl;
    holds = record {
      message_size = refl;
      nb_message = refl;
      head_lt = room;
      room = omega arith;
      tail_at = ground arith;
      blocks = allocated;
      window = record {};
      count = refl;
    };
    readable = refl;
    reserved = omega arith;
    free_room = ap pos (omega arith);
    room = omega arith;
    read_limit = refl;
    write_limit = refl;
  }
  Reach-Fifo (later r st) = Step-Fifo st (Reach-Fifo r)

  -- Any number of threads send to and receive from a new buffer with room for at least one message
  -- (its blocks of the maximum message size), in any order: the messages sent are
  -- those received, in the same order, and then those in the buffer, of which the message count holds
  -- the number; it and the senders that have yet to write are together at most the capacity.
  pub fifo :
      {s : System}
      → Reach start_state s
      → (waiting : List (List ℕ)) × (s.sent ≡ s.received ++ waiting)
        × (s.buffer.current_message_size ≡ pos (length waiting))
        × (length waiting + s.senders ≤ max)
  fifo r = let f = Reach-Fifo r in (f.queue, f.order, f.holds.count, f.room)

  -- On such a buffer, a sender that was granted a unit finds a free slot: the messages sent and not yet
  -- received are fewer than the capacity. With a message whose LENGTH is at most the maximum message size
  -- and its block, the section under the lock runs to its end, and leaves a ring with those messages, in
  -- their order and with their bytes, and then the new one.
  pub granted_sender-writes :
      {s : System} (message : List ℕ) (n : ℕ)
      → Reach start_state s
      → 0 < s.senders
      → n ≤ size
      → n ≤ length message
      → (waiting : List (List ℕ)) × (b : Buffer) × (s.sent ≡ s.received ++ waiting)
        × (length waiting < max)
        × (send_section message (pos n) s.buffer ≡ some b)
        × Queues size max b (waiting ++ (take n message ∷ []))
  granted_sender-writes message n r p a k =
      let f = Reach-Fifo r in
      let free : length f.queue < max = omega (arith, f.room) in
      let l = send_section_lem n message f.holds free a k in (f.queue, l.0, f.order, free, l.1, l.2)

  -- On such a buffer, a receiver that was granted a unit finds a message: with a block of at least the maximum message
  -- size, the section under the lock gives it the first message not yet received, and its length.
  pub granted_receiver-reads :
      {s : System} (out : List ℕ)
      → Reach start_state s
      → 0 < s.receivers
      → size ≤ length out
      → (m : List ℕ) × (b : Buffer) × (rest : List (List ℕ)) × (receive_section out s.buffer
          ≡ some (pos (length m), m ++ drop (length m) out, b))
        × (s.sent ≡ s.received ++ (m ∷ rest))
  granted_receiver-reads out r p a = let f = Reach-Fifo r in granted-reads out f.queue f refl p a
