-- ===== src/Tests/BufferCalls.antt =====
-- A buffer of two messages of up to four bytes, created in a new partition.
use arinc653emulator.Prelude.{ℕ, pos, String, ◌≡◌, ◌≢◌, refl, arith, some, none, [], ◌∷◌}
use arinc653emulator.Types.{no_error}
use arinc653emulator.Buffer.{Slot}
use arinc653emulator.Partition.{Apex, find_index}
use arinc653emulator.EventServices.{obtain, new_partition}
use arinc653emulator.BufferServices.{fifo, create_buffer, get_buffer_id, buffer_status_service}
use arinc653emulator.BufferServices.Creation.{create_buffer-get_buffer_id}

abbrev blank : ℕ → Slot
blank i = record { actual_load = 7 ∷ 7 ∷ 7 ∷ 7 ∷ []; slot_length = pos 9 }

create_example :
    (id : ℕ) × (b : Apex) × (create_buffer blank "b" (pos 4) (pos 2) fifo none
      ≡ (no_error, some id, b))
    × (get_buffer_id "b" b ≡ (no_error, some id))
    × (buffer_status_service id b ≡ (
      no_error,
      some (record {
        nb_message = pos 0;
        status_max_nb_message = pos 2;
        status_max_message_size = pos 4;
        waiting_processes = 0;
      }),
    ))
    × ((other : String)
        → other ≢ "b"
        → get_buffer_id other b ≡ get_buffer_id other (some (obtain none)))
unfolding obtain new_partition find_index
create_example =
    create_buffer-get_buffer_id blank "b" (pos 4) (pos 2) fifo none refl (omega arith) refl
      (omega arith) (omega arith) (omega arith) refl
