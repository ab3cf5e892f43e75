-- ===== src/BufferServices.antt =====
-- src/APEX_BUFFER_SERVICES.cc.
pub mod Creation
use arinc653emulator.Prelude.{
  ℕ, ◌+◌, leb, ℤ, pos, ltb_ℤ, leb_ℤ, String, Bool, true, false, not, ◌||◌, Option, none, some, List,
  [], ◌∷◌, ◌++◌, length, get_elem?, get_or, set, if◌then◌else◌,
}
use arinc653emulator.Types.{
  ReturnCode, no_error, no_action, invalid_param, invalid_config, invalid_mode, max_time_out,
  system_limit_number_of_buffers, system_limit_number_of_messages,
}
use arinc653emulator.Time.{TimeSpec}
use arinc653emulator.Blocking.{Wake, Place, Outcome, returns, blocks, terminates}
use arinc653emulator.Buffer.{
  Slot, Buffer, new_buffer, send_message, receive_message, BufferStatus, get_buffer_status,
}
use arinc653emulator.Partition.{Partition, Apex, is_normal, find_index}
use arinc653emulator.EventServices.{obtain}

abbrev pub buffer_name_of : Buffer → String
buffer_name_of b = b.buffer_name

-- QUEUING_DISCIPLINE_TYPE, and any other value that a caller passes
pub data QueuingDiscipline : Type 0 where
  fifo priority other : QueuingDiscipline

abbrev pub is_known : QueuingDiscipline → Bool
is_known fifo = true
is_known priority = true
is_known other = false

-- The buffer that CREATE_BUFFER adds; `fresh` is what malloc returned.
abbrev pub added : (ℕ → Slot) → String → ℤ → ℤ → Partition → Partition
added fresh name size nb p = record p {
  buffers = p.buffers ++ (new_buffer fresh name (length p.buffers) size nb ∷ []);
}

-- CREATE_BUFFER: the return code, BUFFER_ID where it is set, and the partition.
unfoldable pub create_buffer :
    (ℕ → Slot) → String → ℤ → ℤ → QueuingDiscipline → Apex → ReturnCode × Option ℕ × Apex
create_buffer fresh name size nb discipline apex =
    let p = obtain apex in
    if is_normal p.mode
    then (invalid_mode, none, some p)
    else if leb system_limit_number_of_buffers (length p.buffers)
    then (invalid_config, none, some p)
    else if not (is_known discipline)
    then (invalid_param, none, some p)
    else if leb_ℤ size (pos 0)
    then (invalid_config, none, some p)
    else if leb_ℤ nb (pos 0) || ltb_ℤ system_limit_number_of_messages nb
    then (invalid_config, none, some p)
    else elim (find_index buffer_name_of name p.buffers) [
      | some _ ↦ (no_action, none, some p)
      | none ↦ (no_error, some (length p.buffers), some (added fresh name size nb p))
    ]

-- The buffer at an index in bounds; `b` stands for the one that is not there.
abbrev pub buffer_at : Buffer → ℕ → Place Partition Buffer
buffer_at b id = record {
  read = λ p. get_or p.buffers id b;
  write = λ p c. record p { buffers = set p.buffers id c };
}

abbrev pub sent : Outcome (Option (ReturnCode × Partition)) → Outcome (Option (ReturnCode × Apex))
sent (returns (some r)) = returns (some (r.0, some r.1))
sent (returns none) = returns none
sent blocks = blocks
sent terminates = terminates

-- SEND_BUFFER: a copy out of bounds is `returns none`.
unfoldable pub send_buffer :
    ℕ
    → List ℕ
    → ℤ
    → TimeSpec
    → ℤ
    → List (Wake Partition)
    → (Partition → Partition)
    → Apex
    → Outcome (Option (ReturnCode × Apex))
send_buffer id message len now timeout ws meanwhile none = returns (some (invalid_config, none))
send_buffer id message len now timeout ws meanwhile (some p) = elim (get_elem? p.buffers id) [
  | none ↦ returns (some (invalid_param, some p))
  | some b ↦
      if ltb_ℤ (pos max_time_out) timeout
      then returns (some (invalid_param, some p))
      else sent (send_message (buffer_at b id) message len now timeout ws meanwhile p)
]

abbrev pub ReceivedBuffer : Type 0
ReceivedBuffer = ReturnCode × Option (ℤ × List ℕ) × Apex

abbrev pub received :
    Outcome (Option (ReturnCode × Option (ℤ × List ℕ) × Partition))
    → Outcome (Option ReceivedBuffer)
received (returns (some r)) = returns (some (r.0, r.1, some r.2))
received (returns none) = returns none
received blocks = blocks
received terminates = terminates

-- RECEIVE_BUFFER
unfoldable pub receive_buffer :
    ℕ
    → List ℕ
    → TimeSpec
    → ℤ
    → List (Wake Partition)
    → (Partition → Partition)
    → Apex
    → Outcome (Option ReceivedBuffer)
receive_buffer id out now timeout ws meanwhile none = returns (some (invalid_config, none, none))
receive_buffer id out now timeout ws meanwhile (some p) = elim (get_elem? p.buffers id) [
  | none ↦ returns (some (invalid_param, none, some p))
  | some b ↦
      if ltb_ℤ (pos max_time_out) timeout
      then returns (some (invalid_param, none, some p))
      else received (receive_message (buffer_at b id) out now timeout ws meanwhile p)
]

-- GET_BUFFER_ID
unfoldable pub get_buffer_id : String → Apex → ReturnCode × Option ℕ
get_buffer_id name none = (invalid_config, none)
get_buffer_id name (some p) = elim (find_index buffer_name_of name p.buffers) [
  | none ↦ (invalid_config, none)
  | some i ↦ (no_error, some i)
]

-- APEX::GET_BUFFER_STATUS
unfoldable pub buffer_status_service : ℕ → Apex → ReturnCode × Option BufferStatus
buffer_status_service id none = (invalid_config, none)
buffer_status_service id (some p) = elim (get_elem? p.buffers id) [
  | none ↦ (invalid_param, none)
  | some b ↦ let r = get_buffer_status b in (r.0, some r.1)
]
