-- ===== src/SamplingPort.antt =====
-- The class SAMPLING_PORT_HELPER of src/SAMPLING_PORT.cc and include/ACM/INTERNAL/SAMPLING_PORT.h. What
-- shm_open, ftruncate and mmap give is an argument; the time is that of the clock, in nanoseconds.
pub mod Copies
pub mod Transfer
use arinc653emulator.Prelude.{
  ℕ, ◌+◌, ◌%◌, ◌^◌, ltb, ℤ, pos, negsuc, ◌+ℤ◌, ◌-ℤ◌, ltb_ℤ, eqb_ℤ, String, Bool, true, false, not,
  ◌||◌, ◌≡◌, Option, none, some, List, ◌++◌, length, take, drop, if◌then◌else◌,
}
use arinc653emulator.Types.{
  ReturnCode, no_error, no_action, invalid_param, invalid_config, invalid_mode,
}
use arinc653emulator.Buffer.{memcpy}
use arinc653emulator.Blocking.{Run, done, aborts, faults}

-- DIRECTION_TYPE
pub data Direction : Type 0 where
  port_source port_dest port_source_dest : Direction

abbrev pub is_source : Direction → Bool
is_source port_source = true
is_source _ = false

abbrev pub is_dest : Direction → Bool
is_dest port_dest = true
is_dest _ = false

-- VALIDITY_TYPE
pub data Validity : Type 0 where
  invalid valid : Validity

-- SAMPLING_DATA: the bytes are those that the shared memory has for the data.
pub record SamplingData : Type 0 where
  pub absolute_time_written : ℤ
  pub message_size : ℤ
  pub bytes : List ℕ

pub record SamplingPort : Type 0 where
  pub port_name : String
  pub max_message_size : ℤ
  pub port_direction : Direction
  pub refresh_period : ℤ
  pub ready_or_not : Bool
  pub last_validity : Validity
  pub shared_memory : SamplingData

abbrev pub system_limit_max_sampling_message_size : ℕ
system_limit_max_sampling_message_size = 262144

-- The two integers before the data, of 8 bytes each: S_EXTRA_MEMORY_REQUIRED
abbrev pub header_size : ℕ
header_size = 16

-- The bytes of a signed integer of 64 bits, as the machine lays it out
pub record Words : Type 0 where
  pub encode : ℤ → List ℕ
  pub decode : List ℕ → ℤ
  pub length-encode : (x : ℤ) → length (encode x) ≡ 8
  pub decode-encode :
      (x : ℤ)
      → (ltb_ℤ x (pos 0 -ℤ pos (2 ^ 63)) || not (ltb_ℤ x (pos (2 ^ 63)))) ≡ false
      → decode (encode x) ≡ x

-- What the platform gives the constructor: the shared memory, or the step that fails.
pub data Mapping : Type 0 where
  exists_already not_opened not_sized not_mapped : Mapping
  mapped : SamplingData → Mapping

abbrev pub by_mapping : SamplingPort → Mapping → ReturnCode × SamplingPort
by_mapping p exists_already = (no_action, p)
by_mapping p not_opened = (invalid_config, p)
by_mapping p not_sized = (no_action, p)
by_mapping p not_mapped = (no_action, p)
by_mapping p (mapped shared) = (
  no_error,
  record p {
    ready_or_not = true;
    shared_memory =
        if is_dest p.port_direction
        then record shared { absolute_time_written = pos 0; message_size = pos 0 }
        else shared;
  },
)

-- The constructor; `unset` stands for the pointer to the shared memory before mmap.
unfoldable pub new_sampling_port :
    SamplingData → Mapping → String → ℤ → Direction → ℤ → ReturnCode × SamplingPort
new_sampling_port unset mapping name max direction refresh =
    let p : SamplingPort = record {
      port_name = name;
      max_message_size = max;
      port_direction = direction;
      refresh_period = refresh;
      ready_or_not = false;
      last_validity = valid;
      shared_memory = unset;
    } in
    if ltb_ℤ (pos system_limit_max_sampling_message_size) max
    then (invalid_config, p)
    else by_mapping p mapping

-- WRITE_SAMPLING_MESSAGE
unfoldable pub write_message : ℤ → List ℕ → ℤ → SamplingPort → Run (ReturnCode × SamplingPort)
write_message now message len p =
    if not p.ready_or_not
    then done (invalid_mode, p)
    else if is_dest p.port_direction
    then done (invalid_mode, p)
    else if ltb_ℤ p.max_message_size len
    then done (invalid_config, p)
    else elim (memcpy p.shared_memory.bytes message len) [
      | none ↦ faults
      | some bytes ↦ done (
        no_error,
        record p {
          shared_memory = record { absolute_time_written = now; message_size = len; bytes = bytes };
        },
      )
    ]

-- READ_LENGTH < sizeof(SYSTEM_TIME_TYPE) + sizeof(MESSAGE_SIZE_TYPE), which compares unsigned values
abbrev pub is_short : ℤ → Bool
is_short (pos n) = ltb n header_size
is_short (negsuc n) = false

-- The bytes that memcpy reads
abbrev pub prefix_of : List ℕ → ℤ → Option (List ℕ)
prefix_of bytes (pos n) = if ltb (length bytes) n then none else some (take n bytes)
prefix_of bytes (negsuc n) = none

-- `written`, an unsigned int
abbrev pub written : ℕ → ℕ
written n = (header_size + n) % 2 ^ 32

module _ (words : Words) where
  open words use {encode, decode}

  -- WRITE_CONTENTS_FROM_DATA_BUFFER; `aborts` is its failed assertion.
  unfoldable pub write_contents : List ℕ → ℤ → SamplingPort → Run (ReturnCode × SamplingPort)
  write_contents msg len p =
      if not p.ready_or_not
      then done (invalid_mode, p)
      else if is_source p.port_direction
      then done (invalid_mode, p)
      else if is_short len
      then done (no_action, p)
      else if ltb (length msg) header_size
      then faults
      else let size = decode (take 8 (drop 8 msg)) in
        if ltb_ℤ size (pos 0)
        then aborts
        else elim (memcpy p.shared_memory.bytes (drop header_size msg) size) [
          | none ↦ faults
          | some bytes ↦ done (
            no_error,
            record p {
              shared_memory = record {
                absolute_time_written = decode (take 8 msg);
                message_size = size;
                bytes = bytes;
              };
            },
          )
        ]

  -- READ_CONTENTS_TO_DATA_BUFFER into `out`: the code, READ_LENGTH and the bytes
  unfoldable pub read_contents : List ℕ → ℤ → SamplingPort → Run (ReturnCode × ℕ × List ℕ)
  read_contents out max_length p =
      if not p.ready_or_not
      then done (invalid_mode, 0, out)
      else if is_dest p.port_direction
      then done (invalid_mode, 0, out)
      else if ltb_ℤ max_length (p.max_message_size +ℤ pos header_size)
      then done (invalid_param, 0, out)
      else elim (prefix_of p.shared_memory.bytes p.shared_memory.message_size) [
        | none ↦ faults
        | some message ↦
            let contents =
              encode p.shared_memory.absolute_time_written
              ++ (encode p.shared_memory.message_size ++ message) in
            elim (memcpy out contents (pos (length contents))) [
              | none ↦ faults
              | some bytes ↦ done (no_error, written (length message), bytes)
            ]
      ]

-- The validity of a message of an age
abbrev pub validity_of : ℤ → ℤ → Validity
validity_of age refresh = if ltb_ℤ refresh age then invalid else valid

-- What READ_SAMPLING_MESSAGE gives back: the code, LENGTH and VALIDITY where they are set, the bytes.
abbrev pub ReadMessage : Type 0
ReadMessage = ReturnCode × Option (ℤ × Validity) × List ℕ × SamplingPort

-- READ_SAMPLING_MESSAGE
unfoldable pub read_message : ℤ → List ℕ → SamplingPort → Run ReadMessage
read_message now out p =
    if not p.ready_or_not
    then done (invalid_mode, none, out, p)
    else if is_source p.port_direction
    then done (invalid_mode, none, out, p)
    else if eqb_ℤ p.shared_memory.message_size (pos 0)
    then done (no_action, some (p.shared_memory.message_size, invalid), out, p)
    else elim (memcpy out p.shared_memory.bytes p.shared_memory.message_size) [
      | none ↦ faults
      | some bytes ↦
          let validity =
            validity_of (now -ℤ p.shared_memory.absolute_time_written) p.refresh_period in
          done (
            no_error,
            some (p.shared_memory.message_size, validity),
            bytes,
            record p { last_validity = validity },
          )
    ]

-- PORT_DIRECTION_TYPE
pub data PortDirection : Type 0 where
  source destination : PortDirection

-- SAMPLING_PORT_STATUS_TYPE
pub record SamplingPortStatus : Type 0 where
  pub refresh_period : ℤ
  pub max_message_size : ℤ
  pub port_direction : PortDirection
  pub last_msg_validity : Validity

-- GET_SAMPLING_PORT_STATUS
unfoldable pub get_sampling_port_status : SamplingPort → ReturnCode × Option SamplingPortStatus
get_sampling_port_status p = if not p.ready_or_not then (invalid_mode, none) else (
  no_error,
  some (record {
    refresh_period = p.refresh_period;
    max_message_size = p.max_message_size;
    port_direction = if is_source p.port_direction then source else destination;
    last_msg_validity = p.last_validity;
  }),
)
