-- ===== src/SamplingServices.antt =====
-- src/APEX_SAMPLING_SERVICES.cc: the services on the sampling ports of the partition.
use arinc653emulator.Prelude.{
  ℕ, ◌%◌, ◌^◌, leb, ℤ, pos, ltb_ℤ, eqb_ℤ, String, ◌||◌, Option, none, some, List, [], ◌∷◌, ◌++◌,
  length, get_elem?, set, if◌then◌else◌,
}
use arinc653emulator.Types.{
  ReturnCode, no_error, no_action, invalid_param, invalid_config, invalid_mode, max_time_out,
}
use arinc653emulator.Blocking.{Run, done, aborts, faults}
use arinc653emulator.SamplingPort.{
  Direction, port_source, port_dest, SamplingData, Mapping, SamplingPort, new_sampling_port, Words,
  write_message, write_contents, read_contents, Validity, read_message, PortDirection, source,
  destination, SamplingPortStatus, get_sampling_port_status, system_limit_max_sampling_message_size,
}
use arinc653emulator.Partition.{Partition, Apex, is_normal, find_index}
use arinc653emulator.EventServices.{obtain}

abbrev pub port_name_of : SamplingPort → String
port_name_of p = p.port_name

abbrev pub system_limit_number_of_sampling_ports : ℕ
system_limit_number_of_sampling_ports = 512

abbrev pub direction_of : PortDirection → Direction
direction_of source = port_source
direction_of destination = port_dest

-- The end of CREATE_SAMPLING_PORT: SAMPLING_PORT_ID is set even where the constructor fails.
abbrev pub port_added : Partition → ReturnCode × SamplingPort → ReturnCode × Option ℕ × Apex
port_added p (no_error, port) = (
  no_error,
  some (length p.sampling_ports),
  some (record p { sampling_ports = p.sampling_ports ++ (port ∷ []) }),
)
port_added p (code, port) = (code, some (length p.sampling_ports), some p)

-- CREATE_SAMPLING_PORT
unfoldable pub create_sampling_port :
    SamplingData → Mapping → String → ℤ → PortDirection → ℤ → Apex → ReturnCode × Option ℕ × Apex
create_sampling_port unset mapping name max direction refresh apex =
    let p = obtain apex in
    if is_normal p.mode
    then (invalid_mode, none, some p)
    else if leb system_limit_number_of_sampling_ports (length p.sampling_ports)
    then (invalid_config, none, some p)
    else if eqb_ℤ max (pos 0) || ltb_ℤ (pos system_limit_max_sampling_message_size) max
    then (invalid_config, none, some p)
    else if eqb_ℤ refresh (pos 0) || ltb_ℤ (pos max_time_out) refresh
    then (invalid_config, none, some p)
    else elim (find_index port_name_of name p.sampling_ports) [
      | some _ ↦ (no_action, none, some p)
      | none ↦
          port_added p (new_sampling_port unset mapping name max (direction_of direction) refresh)
    ]

-- A port that was not found: the test reads the low 32 bits of the identifier, the access all of it.
abbrev pub no_port {ℓ} : {A : Type ℓ} → ℕ → Partition → A → Run A
no_port id p refused = if leb (length p.sampling_ports) (id % 2 ^ 32) then done refused else faults

abbrev pub put_port : ℕ → Partition → Run (ReturnCode × SamplingPort) → Run (ReturnCode × Apex)
put_port id p (done (code, port)) =
    done (code, some (record p { sampling_ports = set p.sampling_ports id port }))
put_port id p aborts = aborts
put_port id p faults = faults

-- WRITE_SAMPLING_MESSAGE
unfoldable pub write_sampling_message : ℕ → ℤ → List ℕ → ℤ → Apex → Run (ReturnCode × Apex)
write_sampling_message id now message len none = done (invalid_config, none)
write_sampling_message id now message len (some p) = elim (get_elem? p.sampling_ports id) [
  | none ↦ no_port id p (invalid_param, some p)
  | some port ↦ put_port id p (write_message now message len port)
]

abbrev pub ReadSampling : Type 0
ReadSampling = ReturnCode × Option (ℤ × Validity) × List ℕ × Apex

abbrev pub read_port :
    ℕ
    → Partition
    → Run (ReturnCode × Option (ℤ × Validity) × List ℕ × SamplingPort)
    → Run ReadSampling
read_port id p (done (code, read, bytes, port)) =
    done (code, read, bytes, some (record p { sampling_ports = set p.sampling_ports id port }))
read_port id p aborts = aborts
read_port id p faults = faults

-- READ_SAMPLING_MESSAGE
unfoldable pub read_sampling_message : ℕ → ℤ → List ℕ → Apex → Run ReadSampling
read_sampling_message id now out none = done (invalid_config, none, out, none)
read_sampling_message id now out (some p) = elim (get_elem? p.sampling_ports id) [
  | none ↦ no_port id p (invalid_param, none, out, some p)
  | some port ↦ read_port id p (read_message now out port)
]

-- GET_SAMPLING_PORT_ID
unfoldable pub get_sampling_port_id : String → Apex → ReturnCode × Option ℕ
get_sampling_port_id name none = (invalid_config, none)
get_sampling_port_id name (some p) = elim (find_index port_name_of name p.sampling_ports) [
  | none ↦ (invalid_config, none)
  | some i ↦ (no_error, some i)
]

-- APEX::GET_SAMPLING_PORT_STATUS
unfoldable pub sampling_port_status_service :
    ℕ → Apex → Run (ReturnCode × Option SamplingPortStatus)
sampling_port_status_service id none = done (invalid_config, none)
sampling_port_status_service id (some p) = elim (get_elem? p.sampling_ports id) [
  | none ↦ no_port id p (invalid_param, none)
  | some port ↦ done (get_sampling_port_status port)
]

module _ (words : Words) where
  -- APEX::WRITE_CONTENTS_FROM_DATA_BUFFER
  unfoldable pub write_contents_from_data_buffer : ℕ → List ℕ → ℤ → Apex → Run (ReturnCode × Apex)
  write_contents_from_data_buffer id msg len none = done (invalid_config, none)
  write_contents_from_data_buffer id msg len (some p) = elim (get_elem? p.sampling_ports id) [
    | none ↦ no_port id p (invalid_param, some p)
    | some port ↦ put_port id p (write_contents words msg len port)
  ]

  -- APEX::READ_CONTENTS_TO_DATA_BUFFER: READ_LENGTH where it is set
  unfoldable pub read_contents_to_data_buffer :
      ℕ → List ℕ → ℤ → Apex → Run (ReturnCode × Option ℕ × List ℕ)
  read_contents_to_data_buffer id out max_length none = done (invalid_config, none, out)
  read_contents_to_data_buffer id out max_length (some p) = elim (get_elem? p.sampling_ports id) [
    | none ↦ no_port id p (invalid_param, none, out)
    | some port ↦ elim (read_contents words out max_length port) [
      | done r ↦ done (r.0, some r.1, r.2)
      | aborts ↦ aborts
      | faults ↦ faults
    ]
  ]
