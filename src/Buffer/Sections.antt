-- ===== src/Buffer/Sections.antt =====
-- SEND_MESSAGE and RECEIVE_MESSAGE under the lock, as a queue of messages.
use mathlib.Core.Option.{some-injective}
use arinc653emulator.Prelude.{
  ℕ, suc, ◌+◌, ◌-◌, ◌≤◌, ◌<◌, ltb, ℤ, pos, negsuc, ◌≡◌, refl, sym, ap, ◌∙◌, arith, pos_add_one,
  pos_sub_one, List, [], ◌∷◌, ◌++◌, length, take, drop, replicate, length-append, length-drop,
  length-replicate, none, some, Bool-cases, inl, inr,
}
use arinc653emulator.Semaphore.{post}
use arinc653emulator.Buffer.{
  Slot, Buffer, memcpy, memset, set_slot, put, free, send_section, receive_section,
}
use arinc653emulator.Buffer.Ring.{
  Holds, wrap, Window, Window-snoc, Window-behind, Window-wrap, advance_lem, memcpy-Holds,
  take-append_exact,
}

-- A buffer of `max` messages of up to `size` bytes in which the messages `q` are waiting.
pub record Queues (size max : ℕ) (b : Buffer) (q : List (List ℕ)) : Type 0 where
  pub message_size : b.max_message_size ≡ pos size
  pub nb_message : b.max_nb_message ≡ pos max
  pub head_lt : b.head < max
  pub room : length q ≤ max
  pub tail_at : b.tail ≡ wrap max (b.head + length q)
  pub blocks : (i : ℕ) → length (b.payload i).actual_load ≡ size
  pub window : Window size max b.payload b.head q
  pub count : b.current_message_size ≡ pos (length q)

wrap_lt : (max i j : ℕ) → i < max → j ≤ max → wrap max (i + j) < max
wrap_lt max i j a b = ground arith

wrap_suc :
    (max i j : ℕ) → i < max → j < max → wrap max (wrap max (i + j) + 1) ≡ wrap max (i + (j + 1))
wrap_suc max i j a b = ground arith

wrap_front :
    (max i j : ℕ) → i < max → suc j ≤ max → wrap max (i + suc j) ≡ wrap max (wrap max (i + 1) + j)
wrap_front max i j a b = ground arith

Window-front :
    (size max : ℕ) (payload : ℕ → Slot) (i : ℕ) (q : List (List ℕ))
    → i < max
    → length q < max
    → Window size max payload (suc i) q
    → Window size max payload (wrap max (i + 1)) q
Window-front size max payload i q a b w = elim (Bool-cases (ltb (i + 1) max)) [
  | inl e ↦ let d : i + 1 ≡ suc i = omega arith in rw (e, d) w
  | inr e ↦
      rw e (Window-wrap size max payload (i + 1 - max) (suc i) q (ground arith) (ground arith) w)
]

head_wrap : (max i : ℕ) → i < max → i ≡ wrap max i
head_wrap max i h = ground arith

Holds-at :
    {size : ℕ} (payload : ℕ → Slot) {m : List ℕ} (i j : ℕ)
    → i ≡ j
    → Holds size (payload j) m
    → Holds size (payload i) m
Holds-at payload i j e h = rw e h

blocks_set :
    {size : ℕ} (payload : ℕ → Slot) (j : ℕ) (slot : Slot)
    → ((i : ℕ) → length (payload i).actual_load ≡ size)
    → length slot.actual_load ≡ size
    → (i : ℕ) → length (set_slot payload j slot i).actual_load ≡ size
unfolding set_slot
blocks_set payload j slot h k i = ground (arith, h i)

put-Queues :
    {size max : ℕ} {b : Buffer} {q : List (List ℕ)} (n : ℕ) (message : List ℕ)
    → Queues size max b q
    → length q < max
    → n ≤ size
    → n ≤ length message
    → Queues size max
        (put b (take n message ++ drop n (b.payload b.tail).actual_load) (pos n))
        (q ++ (take n message ∷ []))
put-Queues {size = size} {max = max} {b = b} {q = q} n message r a h k =
    let m = take n message in
    let old = (b.payload b.tail).actual_load in
    let slot : Slot = record { actual_load = m ++ drop n old; slot_length = pos n } in
    let holds : Holds size slot m = memcpy-Holds size old message n h k (r.blocks b.tail) in
    let tail_lt : b.tail < max = rw r.tail_at (wrap_lt max b.head (length q) r.head_lt r.room) in
    let grown : length (q ++ (m ∷ [])) ≡ length q + 1 = length-append q (m ∷ []) in
    record {
      message_size = r.message_size;
      nb_message = r.nb_message;
      head_lt = r.head_lt;
      room = omega (arith, grown);
      tail_at =
          rw (r.nb_message, advance_lem max b.tail tail_lt, r.tail_at, grown)
            (wrap_suc max b.head (length q) r.head_lt a);
      blocks = blocks_set b.payload b.tail slot r.blocks holds.block;
      window =
          Window-snoc size max b.payload slot b.head b.tail q m (sym r.tail_at) a r.window holds;
      count = rw (r.count, grown) (pos_add_one (length q));
    }

free-Queues :
    {size max : ℕ} {b : Buffer} {q : List (List ℕ)} {m : List ℕ} (zeros : List ℕ)
    → Queues size max b (m ∷ q)
    → length zeros ≡ size
    → Queues size max (free b zeros) q
free-Queues {size = size} {max = max} {b = b} {q = q} {m = m} zeros r k =
    let slot : Slot = record { actual_load = zeros; slot_length = pos 0 } in
    let moved = Window-behind size max b.payload slot b.head q (omega (arith, r.room)) r.window.1 in
    let lem = advance_lem max b.head r.head_lt in
    record {
      message_size = r.message_size;
      nb_message = r.nb_message;
      head_lt = rw (r.nb_message, lem) (wrap_lt max b.head 1 r.head_lt (omega (arith, r.head_lt)));
      room = omega (arith, r.room);
      tail_at =
          rw (r.nb_message, lem, r.tail_at)
            (wrap_front max b.head (length q) r.head_lt (omega (arith, r.room)));
      blocks = blocks_set b.payload b.head slot r.blocks k;
      window =
          rw (r.nb_message, lem)
            (Window-front size max (set_slot b.payload b.head slot) b.head q r.head_lt
              (omega (arith, r.room)) moved);
      count = rw r.count (pos_sub_one (length q));
    }

-- SEND_MESSAGE under the lock, on a buffer with room and a message whose LENGTH is at most the
-- maximum message size and the block at MESSAGE_ADDR: the message joins the end of the queue, and
-- the read semaphore is posted.
pub send_section_lem :
    {size max : ℕ} {b : Buffer} {q : List (List ℕ)} (n : ℕ) (message : List ℕ)
    → Queues size max b q
    → length q < max
    → n ≤ size
    → n ≤ length message
    → (c : Buffer) × (send_section message (pos n) b ≡ some c)
      × Queues size max c (q ++ (take n message ∷ []))
      × (c.read_semaphore ≡ (post b.read_semaphore).1)
      × (c.write_semaphore ≡ b.write_semaphore)
unfolding send_section memcpy
send_section_lem {size = size} {max = max} {b = b} {q = q} n message r a h k =
    let tail_lt : b.tail < max = rw r.tail_at (wrap_lt max b.head (length q) r.head_lt r.room) in
    (
      put b (take n message ++ drop n (b.payload b.tail).actual_load) (pos n),
      ground (arith, r.blocks b.tail),
      put-Queues n message r a h k,
      refl,
      refl,
    )

-- SEND_MESSAGE under the lock copies out of bounds unless LENGTH is from 0 to the maximum message
-- size and the size of the block at MESSAGE_ADDR.
pub send_section-bounds :
    {size max : ℕ} {b c : Buffer} {q : List (List ℕ)} (len : ℤ) (message : List ℕ)
    → Queues size max b q
    → send_section message len b ≡ some c
    → (n : ℕ) × (len ≡ pos n) × (n ≤ size) × (n ≤ length message)
unfolding send_section memcpy
send_section-bounds {b = b} (pos n) message r e =
    (n, refl, ground (arith, r.blocks b.tail), ground (arith, r.blocks b.tail))
send_section-bounds (negsuc n) message r e = absurd (ground arith)

-- RECEIVE_MESSAGE under the lock, on a buffer with a message that fits the block at MESSAGE_ADDR: it
-- gives the first message of the queue and its length, leaves the others, and posts the write
-- semaphore.
pub receive_section_lem :
    {size max : ℕ} {b : Buffer} {q : List (List ℕ)} {m : List ℕ} (out : List ℕ)
    → Queues size max b (m ∷ q)
    → length m ≤ length out
    → (c : Buffer) × (receive_section out b ≡ some (pos (length m), m ++ drop (length m) out, c))
      × Queues size max c q
      × (c.write_semaphore ≡ (post b.write_semaphore).1)
      × (c.read_semaphore ≡ b.read_semaphore)
unfolding receive_section memset memcpy
receive_section_lem {size = size} {max = max} {b = b} {q = q} {m = m} out r h =
    let old = (b.payload b.head).actual_load in
    let fill : List ℕ = replicate size 48 in
    let zeros = fill ++ drop size old in
    let here : Holds size (b.payload b.head) m =
      Holds-at b.payload b.head (wrap max b.head) (head_wrap max b.head r.head_lt) r.window.0 in
    (
      free b zeros,
      ground (arith, r.blocks b.head, here),
      free-Queues zeros r (
          omega (
            arith,
            length-append (fill) (drop size old),
            length-replicate {A = ℕ} size 48,
            length-drop size old,
            r.blocks b.head,
          )),
      refl,
      refl,
    )

-- RECEIVE_MESSAGE under the lock copies out of bounds if the message is longer than the block at
-- MESSAGE_ADDR.
pub receive_section-bounds :
    {size max : ℕ} {b : Buffer} {q : List (List ℕ)} {m : List ℕ} (out : List ℕ)
    → Queues size max b (m ∷ q)
    → length out < length m
    → receive_section out b ≡ none
unfolding receive_section memset memcpy
receive_section-bounds out r h = ground arith

-- Whatever SEND_MESSAGE does under the lock without a copy out of bounds.
pub send_section-Queues :
    {size max : ℕ} {b c : Buffer} {q : List (List ℕ)} (n : ℕ) (message : List ℕ)
    → Queues size max b q
    → length q < max
    → send_section message (pos n) b ≡ some c
    → Queues size max c (q ++ (take n message ∷ []))
      × (c.read_semaphore ≡ (post b.read_semaphore).1)
      × (c.write_semaphore ≡ b.write_semaphore)
send_section-Queues {size = size} {b = b} n message r a e =
    let bounds = send_section-bounds (pos n) message r e in
    let same : n ≡ bounds.0 = ground (arith, bounds.1) in
    let l =
      send_section_lem n message r a (omega (arith, same, bounds.2))
        (omega (arith, same, bounds.3)) in
    let d = some-injective _ _ (sym l.1 ∙ e) in (rw (sym d) l.2, rw (sym d) l.3, rw (sym d) l.4)

-- Whatever RECEIVE_MESSAGE does under the lock without a copy out of bounds.
pub receive_section-Queues :
    {size max : ℕ} {b c : Buffer} {q : List (List ℕ)} {m : List ℕ} (out bytes : List ℕ) (n : ℕ)
    → Queues size max b (m ∷ q)
    → receive_section out b ≡ some (pos n, bytes, c)
    → (take n bytes ≡ m)
      × Queues size max c q
      × (c.write_semaphore ≡ (post b.write_semaphore).1)
      × (c.read_semaphore ≡ b.read_semaphore)
receive_section-Queues {m = m} out bytes n r e = elim (Bool-cases (ltb (length out) (length m))) [
  | inl short ↦ absurd (ground (arith, receive_section-bounds out r))
  | inr fits ↦
      let l = receive_section_lem out r (ground arith) in
      let d = some-injective _ _ (sym l.1 ∙ e) in
      let dn : length m ≡ n = ground (arith, ap (λ x. x.0) d) in
      let db = ap (λ x. x.1) d in
      let dc = ap (λ x. x.2) d in
      (
        rw (sym dn, sym db) (take-append_exact m (drop (length m) out) (length m) refl),
        rw (sym dc) l.2,
        rw (sym dc) l.3,
        rw (sym dc) l.4,
      )
]
