-- ===== src/BufferServices/Creation.antt =====
-- The buffer that CREATE_BUFFER adds, and its identifier.
use arinc653emulator.Prelude.{
  ℕ, ◌<◌, leb, ℤ, pos, ◌≤ℤ◌, ◌<ℤ◌, ltb_ℤ, leb_ℤ, String, ◌≡◌, ◌≢◌, refl, sym, arith, true, false,
  none, some, length,
}
use arinc653emulator.Types.{
  no_error, system_limit_number_of_buffers, system_limit_number_of_messages,
}
use arinc653emulator.Buffer.{Slot, new_buffer, get_buffer_status}
use arinc653emulator.Semaphore.{new_semaphore}
use arinc653emulator.Partition.{Apex, is_normal, find_index}
use arinc653emulator.Partition.Names.{
  find_index-append_new, find_index-append_other, get_elem?-append_last,
}
use arinc653emulator.EventServices.{obtain}
use arinc653emulator.BufferServices.{
  QueuingDiscipline, is_known, buffer_name_of, added, create_buffer, get_buffer_id,
  buffer_status_service,
}

-- CREATE_BUFFER with a positive size, from 1 to 512 messages, a known discipline and a new name, in
-- a mode other than NORMAL and below 256 buffers, returns NO_ERROR and an identifier that
-- GET_BUFFER_ID then gives for the name, by which GET_BUFFER_STATUS finds an empty buffer of that
-- capacity and size without waiting processes; the other names keep their identifiers.
pub create_buffer-get_buffer_id :
    (fresh : ℕ → Slot) (name : String) (size nb : ℤ) (discipline : QueuingDiscipline) (a : Apex)
    → is_normal (obtain a).mode ≡ false
    → length (obtain a).buffers < system_limit_number_of_buffers
    → is_known discipline ≡ true
    → pos 0 <ℤ size
    → pos 0 <ℤ nb
    → nb ≤ℤ system_limit_number_of_messages
    → find_index buffer_name_of name (obtain a).buffers ≡ none
    → (id : ℕ) × (b : Apex) × (create_buffer fresh name size nb discipline a
        ≡ (no_error, some id, b))
      × (get_buffer_id name b ≡ (no_error, some id))
      × (buffer_status_service id b ≡ (
        no_error,
        some (record {
          nb_message = pos 0;
          status_max_nb_message = nb;
          status_max_message_size = size;
          waiting_processes = 0;
        }),
      ))
      × ((other : String)
          → other ≢ name
          → get_buffer_id other b ≡ get_buffer_id other (some (obtain a)))
unfolding create_buffer get_buffer_id buffer_status_service new_buffer new_semaphore
    get_buffer_status
create_buffer-get_buffer_id fresh name size nb discipline a f l k s n m new =
    let p = obtain a in
    let b = new_buffer fresh name (length p.buffers) size nb in
    let room : leb system_limit_number_of_buffers (length p.buffers) ≡ false = ground arith in
    let sized : leb_ℤ size (pos 0) ≡ false = ground arith in
    let some_messages : leb_ℤ nb (pos 0) ≡ false = ground arith in
    let few : ltb_ℤ system_limit_number_of_messages nb ≡ false = ground arith in
    (
      length p.buffers,
      some (added fresh name size nb p),
      rw (create_buffer, f, room, k, sized, some_messages, few, new) refl,
      rw (get_buffer_id, find_index-append_new buffer_name_of p.buffers b new) refl,
      rw (buffer_status_service, get_elem?-append_last p.buffers b) refl,
      λ other d.
          rw
            (
              get_buffer_id,
              find_index-append_other buffer_name_of other p.buffers b (λ e. d (sym e)),
            )
            refl,
    )
