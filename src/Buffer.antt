-- ===== src/Buffer.antt =====
-- The class APEX_BUFFER_TYPE of src/BUFFER.cc. A section under BUFFER_MUTEX is one step; the locks
-- taken inside it by post and GET_WAITING_COUNT are those of the semaphores. A copy out of bounds is
-- undefined in C: it is `none`. Bytes are natural numbers.
pub mod Ring
pub mod Sections
pub mod Shared
pub mod Fifo
pub mod Delivery
use mathlib.Core.Option
use arinc653emulator.Prelude.{
  ℕ, ◌+◌, ◌-◌, ◌%◌, ◌==◌, ltb, ℤ, pos, negsuc, pos_part, ◌+ℤ◌, ◌-ℤ◌, ltb_ℤ, leb_ℤ, eqb_ℤ, String,
  Bool, true, false, not, ◌&&◌, ◌||◌, Option, none, some, List, [], ◌∷◌, ◌++◌, length, take, drop,
  replicate, if◌then◌else◌,
}
use arinc653emulator.Types.{
  ReturnCode, no_error, no_action, not_available, invalid_param, invalid_config, invalid_mode,
  timed_out, unsigned_mod, infinite_time_value,
}
use arinc653emulator.Time.{TimeSpec}
use arinc653emulator.Blocking.{Wake, Place, by_reason, Outcome, returns, blocks, terminates}
use arinc653emulator.Semaphore.{Semaphore, new_semaphore, post, wait}

-- PAYLOAD_TYPE: the bytes of the block at ACTUAL_LOAD, and LENGTH.
pub record Slot : Type 0 where
  pub actual_load : List ℕ
  pub slot_length : ℤ

-- The members; PAYLOAD as the slot at each index below BUFFER_MAX_NB_MESSAGE.
pub record Buffer : Type 0 where
  pub buffer_name : String
  pub buffer_id : ℕ
  pub max_message_size : ℤ
  pub max_nb_message : ℤ
  pub current_message_size : ℤ
  pub head : ℕ
  pub tail : ℕ
  pub payload : ℕ → Slot
  pub read_semaphore : Semaphore
  pub write_semaphore : Semaphore

-- The constructor; `fresh` is what malloc returned, not initialised.
unfoldable pub new_buffer : (ℕ → Slot) → String → ℕ → ℤ → ℤ → Buffer
new_buffer fresh name id size max = record {
  buffer_name = name;
  buffer_id = id;
  max_message_size = size;
  max_nb_message = max;
  current_message_size = pos 0;
  head = 0;
  tail = 0;
  payload = fresh;
  read_semaphore = new_semaphore "NO_NAME" (pos 0) max;
  write_semaphore = new_semaphore "NO_NAME" max max;
}

-- memcpy(dst, src, n), the new bytes at dst; a negative n is a huge size_t.
unfoldable pub memcpy : List ℕ → List ℕ → ℤ → Option (List ℕ)
memcpy dst src (pos n) =
    if ltb (length dst) n || ltb (length src) n then none else some (take n src ++ drop n dst)
memcpy dst src (negsuc n) = none

-- memset(dst, '0', n)
unfoldable pub memset : List ℕ → ℤ → Option (List ℕ)
memset dst (pos n) = if ltb (length dst) n then none else some (replicate n 48 ++ drop n dst)
memset dst (negsuc n) = none

-- A slot's index is in bounds.
abbrev pub in_bounds : Buffer → ℕ → Bool
in_bounds b i = ltb_ℤ (pos i) b.max_nb_message

unfoldable pub set_slot : (ℕ → Slot) → ℕ → Slot → ℕ → Slot
set_slot payload i slot j = if j == i then slot else payload j

-- The increment of BUFFER_HEAD and of BUFFER_TAIL
unfoldable pub advance : ℤ → ℕ → ℕ
advance max i = if eqb_ℤ (pos (i + 1)) max then 0 else i + 1

-- SEND_MESSAGE after its memcpy
abbrev pub put : Buffer → List ℕ → ℤ → Buffer
put b bytes len = record b {
  payload = set_slot b.payload b.tail (record { actual_load = bytes; slot_length = len });
  current_message_size = b.current_message_size +ℤ pos 1;
  tail = advance b.max_nb_message b.tail;
  read_semaphore = (post b.read_semaphore).1;
}

-- SEND_MESSAGE under the lock: the message is at MESSAGE_ADDR.
unfoldable pub send_section : List ℕ → ℤ → Buffer → Option Buffer
send_section message len b =
    if in_bounds b b.tail
    then Option.map (λ bytes. put b bytes len) (memcpy (b.payload b.tail).actual_load message len)
    else none

-- RECEIVE_MESSAGE after its memset
abbrev pub free : Buffer → List ℕ → Buffer
free b zeros = record b {
  payload = set_slot b.payload b.head (record { actual_load = zeros; slot_length = pos 0 });
  head = advance b.max_nb_message b.head;
  current_message_size = b.current_message_size -ℤ pos 1;
  write_semaphore = (post b.write_semaphore).1;
}

-- RECEIVE_MESSAGE under the lock: *LENGTH, the bytes at MESSAGE_ADDR, and the buffer.
unfoldable pub receive_section : List ℕ → Buffer → Option (ℤ × List ℕ × Buffer)
receive_section out b =
    let slot = b.payload b.head in
    if in_bounds b b.head
    then elim (memcpy out slot.actual_load slot.slot_length) [
      | none ↦ none
      | some bytes ↦
          Option.map (λ zeros. (slot.slot_length, bytes, free b zeros))
            (memset slot.actual_load b.max_message_size)
    ]
    else none

-- BUFFER_STATUS_TYPE
pub record BufferStatus : Type 0 where
  pub nb_message : ℤ
  pub status_max_nb_message : ℤ
  pub status_max_message_size : ℤ
  pub waiting_processes : ℕ

-- GET_BUFFER_STATUS
unfoldable pub get_buffer_status : Buffer → ReturnCode × BufferStatus
get_buffer_status b = (
  no_error,
  record {
    nb_message = b.current_message_size;
    status_max_nb_message = b.max_nb_message;
    status_max_message_size = b.max_message_size;
    waiting_processes = (b.read_semaphore.waiting + b.write_semaphore.waiting) % unsigned_mod;
  },
)

-- The calls on a buffer that stands at `p`. `meanwhile` is what other threads do between the wait on
-- the semaphore and the lock; a copy out of bounds is `returns none`.
module _ {S : Type 0} (p : Place S Buffer) where
  open p use {read, write}

  abbrev pub write_side : Place S Semaphore
  write_side = record {
    read = λ s. (read s).write_semaphore;
    write = λ s x. write s (record (read s) { write_semaphore = x });
  }

  abbrev pub read_side : Place S Semaphore
  read_side = record {
    read = λ s. (read s).read_semaphore;
    write = λ s x. write s (record (read s) { read_semaphore = x });
  }

  -- The code for a wait that ended by time-out
  abbrev pub gave_up : ℤ → ReturnCode
  gave_up timeout = if eqb_ℤ timeout (pos 0) then not_available else timed_out

  abbrev pub send_locked : List ℕ → ℤ → S → Option (ReturnCode × S)
  send_locked message len s = elim (send_section message len (read s)) [
    | none ↦ none
    | some b ↦ some (no_error, write s b)
  ]

  abbrev pub after_send_wait : List ℕ → ℤ → ℤ → (S → S) → ReturnCode × S → Option (ReturnCode × S)
  after_send_wait message len timeout meanwhile (timed_out, s) = some (gave_up timeout, s)
  after_send_wait message len timeout meanwhile (_, s) = send_locked message len (meanwhile s)

  -- SEND_MESSAGE
  unfoldable pub send_message :
      List ℕ → ℤ → TimeSpec → ℤ → List (Wake S) → (S → S) → S → Outcome (Option (ReturnCode × S))
  send_message message len now timeout ws meanwhile s = elim (wait write_side now timeout ws s) [
    | returns r ↦ returns (after_send_wait message len timeout meanwhile r)
    | blocks ↦ blocks
    | terminates ↦ terminates
  ]

  -- What RECEIVE_MESSAGE gives back: RETURN_CODE, and on NO_ERROR *LENGTH and the bytes.
  abbrev pub Received : Type 0
  Received = ReturnCode × Option (ℤ × List ℕ) × S

  abbrev pub receive_locked : List ℕ → S → Option Received
  receive_locked out s = elim (receive_section out (read s)) [
    | none ↦ none
    | some r ↦ some (no_error, some (r.0, r.1), write s r.2)
  ]

  abbrev pub after_receive_wait : List ℕ → ℤ → (S → S) → ReturnCode × S → Option Received
  after_receive_wait out timeout meanwhile (timed_out, s) = some (gave_up timeout, none, s)
  after_receive_wait out timeout meanwhile (_, s) = receive_locked out (meanwhile s)

  -- RECEIVE_MESSAGE
  unfoldable pub receive_message :
      List ℕ → TimeSpec → ℤ → List (Wake S) → (S → S) → S → Outcome (Option Received)
  receive_message out now timeout ws meanwhile s = elim (wait read_side now timeout ws s) [
    | returns r ↦ returns (after_receive_wait out timeout meanwhile r)
    | blocks ↦ blocks
    | terminates ↦ terminates
  ]
