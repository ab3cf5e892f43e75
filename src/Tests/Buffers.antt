-- ===== src/Tests/Buffers.antt =====
-- A buffer of two messages of up to four bytes, through which one message goes.
use arinc653emulator.Prelude.{
  pos_add_one, ℕ, ◌+◌, ◌-◌, ◌≤◌, ◌<◌, pos, ◌+ℤ◌, ◌-ℤ◌, ◌≡◌, refl, arith, List, [], ◌∷◌, ◌++◌,
  length, take, drop, some,
}
use arinc653emulator.Semaphore.{new_semaphore, grant, leave, post}
use arinc653emulator.Buffer.{
  Slot, Buffer, new_buffer, put, free, memcpy, memset, set_slot, advance, send_section,
  receive_section,
}
use arinc653emulator.Buffer.Sections.{Queues, send_section-bounds, send_section-Queues}
use arinc653emulator.Buffer.Shared.{
  System, Reach, init, here, later, granted_send, send, granted_receive, receive,
}
use arinc653emulator.Buffer.Delivery.{fifo, granted_sender-writes, granted_receiver-reads}

abbrev blank : ℕ → Slot
blank i = record { actual_load = 7 ∷ 7 ∷ 7 ∷ 7 ∷ []; slot_length = pos 9 }

abbrev s0 : System
s0 = init blank "b" 0 4 2

abbrev s1 : System
s1 = record s0 {
  buffer = record s0.buffer { write_semaphore = grant s0.buffer.write_semaphore };
  senders = 0 + 1;
}

abbrev text : List ℕ
text = 1 ∷ 2 ∷ 3 ∷ []

writable : Reach s0 s1
unfolding new_buffer new_semaphore
writable = later here (granted_send (λ e. ground arith))

writes_example :
    (waiting : List (List ℕ)) × (b : Buffer) × (s1.sent ≡ s1.received ++ waiting)
    × (length waiting < 2)
    × (send_section text (pos 3) s1.buffer ≡ some b)
    × Queues 4 2 b (waiting ++ (take 3 text ∷ []))
writes_example =
    granted_sender-writes blank "b" 0 4 2 (λ i. refl) (omega arith) text 3 writable (omega arith)
      (omega arith) (omega arith)

abbrev sent_buffer : Buffer
sent_buffer = put s1.buffer (1 ∷ 2 ∷ 3 ∷ 7 ∷ []) (pos 3)

abbrev s2 : System
s2 = record s1 { buffer = sent_buffer; senders = 0 + 1 - 1; sent = [] ++ (take 3 text ∷ []) }

written : send_section text (pos 3) s1.buffer ≡ some sent_buffer
unfolding send_section memcpy new_buffer new_semaphore grant leave set_slot advance post ◌+ℤ◌ ◌-ℤ◌
written = refl

abbrev s3 : System
s3 = record s2 {
  buffer = record s2.buffer { read_semaphore = grant s2.buffer.read_semaphore };
  receivers = 0 + 1;
}

readable : Reach s0 s3
unfolding send_section new_buffer new_semaphore post
readable =
    later (later writable (send text 3 sent_buffer (omega arith) written))
      (granted_receive (λ e. ground (arith, pos_add_one 0)))

abbrev room_for_four : List ℕ
room_for_four = 0 ∷ 0 ∷ 0 ∷ 0 ∷ []

reads_example :
    (m : List ℕ) × (b : Buffer) × (rest : List (List ℕ)) × (receive_section room_for_four s3.buffer
      ≡ some (pos (length m), m ++ drop (length m) room_for_four, b))
    × (s3.sent ≡ s3.received ++ (m ∷ rest))
reads_example =
    granted_receiver-reads blank "b" 0 4 2 (λ i. refl) (omega arith) room_for_four readable
      (omega arith) (omega arith)

abbrev freed_buffer : Buffer
freed_buffer = free s3.buffer (48 ∷ 48 ∷ 48 ∷ 48 ∷ [])

read_back : receive_section room_for_four s3.buffer ≡ some (pos 3, 1 ∷ 2 ∷ 3 ∷ 0 ∷ [], freed_buffer)
unfolding receive_section memcpy memset new_buffer new_semaphore grant leave set_slot advance post
    ◌+ℤ◌ ◌-ℤ◌
read_back = refl

abbrev s4 : System
s4 = record s3 {
  buffer = freed_buffer;
  receivers = 0 + 1 - 1;
  received = [] ++ (take 3 (1 ∷ 2 ∷ 3 ∷ 0 ∷ []) ∷ []);
}

fifo_example :
    (waiting : List (List ℕ)) × (s4.sent ≡ s4.received ++ waiting)
    × (s4.buffer.current_message_size ≡ pos (length waiting))
    × (length waiting + s4.senders ≤ 2)
fifo_example =
    fifo blank "b" 0 4 2 (λ i. refl) (omega arith)
      (later readable
        (receive room_for_four (1 ∷ 2 ∷ 3 ∷ 0 ∷ []) 3 freed_buffer (omega arith) read_back))

empty : Queues 4 2 s0.buffer []
unfolding new_buffer
empty = record {
  message_size = refl;
  nb_message = refl;
  head_lt = omega arith;
  room = omega arith;
  tail_at = refl;
  blocks = λ i. refl;
  window = record {};
  count = refl;
}

into_empty : send_section text (pos 3) s0.buffer ≡ some (put s0.buffer (1 ∷ 2 ∷ 3 ∷ 7 ∷ []) (pos 3))
unfolding send_section memcpy new_buffer
into_empty = refl

send_bounds_example : (n : ℕ) × (pos 3 ≡ pos n) × (n ≤ 4) × (n ≤ length text)
send_bounds_example = send_section-bounds (pos 3) text empty into_empty

holding : Queues 4 2 (put s0.buffer (1 ∷ 2 ∷ 3 ∷ 7 ∷ []) (pos 3)) ((1 ∷ 2 ∷ 3 ∷ []) ∷ [])
holding = (send_section-Queues 3 text empty (omega arith) into_empty).0
