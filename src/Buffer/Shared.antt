-- ===== src/Buffer/Shared.antt =====
-- A buffer shared by any number of senders and receivers: every interleaving of the waits on its
-- two semaphores and of the sections of SEND_MESSAGE and RECEIVE_MESSAGE under the lock.

use arinc653emulator.Prelude.{
  ℕ, ◌+◌, ◌-◌, ◌<◌, pos, String, ◌≡◌, ◌≢◌, List, [], ◌∷◌, ◌++◌, take, some,
}
use arinc653emulator.Semaphore.{Semaphore, enter, leave, grant}
use arinc653emulator.Buffer.{Slot, Buffer, new_buffer, send_section, receive_section}

-- `senders` and `receivers` have taken a unit and not yet entered the section. `sent` are the
-- messages that senders put in, `received` what receivers got, both in order.
pub record System : Type 0 where
  pub buffer : Buffer
  pub senders : ℕ
  pub receivers : ℕ
  pub sent : List (List ℕ)
  pub received : List (List ℕ)

abbrev with_write : Buffer → (Semaphore → Semaphore) → Buffer
with_write b f = record b { write_semaphore = f b.write_semaphore }

abbrev with_read : Buffer → (Semaphore → Semaphore) → Buffer
with_read b f = record b { read_semaphore = f b.read_semaphore }

pub data Step (s : System) : System → Type 0 where
  begin_send : Step s (record s { buffer = with_write s.buffer enter })
  give_up_send : Step s (record s { buffer = with_write s.buffer leave })
  granted_send :
      s.buffer.write_semaphore.counter ≢ pos 0
      → Step s (record s { buffer = with_write s.buffer grant; senders = s.senders + 1 })
  send :
      (message : List ℕ) (len : ℕ) (b : Buffer)
      → 0 < s.senders
      → send_section message (pos len) s.buffer ≡ some b
      → Step s (record s {
        buffer = b;
        senders = s.senders - 1;
        sent = s.sent ++ (take len message ∷ []);
      })
  begin_receive : Step s (record s { buffer = with_read s.buffer enter })
  give_up_receive : Step s (record s { buffer = with_read s.buffer leave })
  granted_receive :
      s.buffer.read_semaphore.counter ≢ pos 0
      → Step s (record s { buffer = with_read s.buffer grant; receivers = s.receivers + 1 })
  receive :
      (out bytes : List ℕ) (len : ℕ) (b : Buffer)
      → 0 < s.receivers
      → receive_section out s.buffer ≡ some (pos len, bytes, b)
      → Step s (record s {
        buffer = b;
        receivers = s.receivers - 1;
        received = s.received ++ (take len bytes ∷ []);
      })

abbrev pub init : (ℕ → Slot) → String → ℕ → ℕ → ℕ → System
init fresh name id size max = record {
  buffer = new_buffer fresh name id (pos size) (pos max);
  senders = 0;
  receivers = 0;
  sent = [];
  received = [];
}

pub data Reach (start : System) : System → Type 0 where
  here : Reach start start
  later : {s t : System} → Reach start s → Step s t → Reach start t
