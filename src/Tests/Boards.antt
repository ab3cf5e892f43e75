-- ===== src/Tests/Boards.antt =====
-- A partition with one blackboard of four bytes.
use arinc653emulator.Prelude.{ℕ, pos, ◌≡◌, refl, arith, List, [], ◌∷◌, ◌++◌, take, drop, none, some}
use arinc653emulator.Types.{no_error, idle}
use arinc653emulator.Time.{TimeSpec}
use arinc653emulator.Blocking.{returns}
use arinc653emulator.Event.{up, new_event}
use arinc653emulator.Partition.{Blackboard, Partition, find_index}
use arinc653emulator.EventServices.{obtain, new_partition, create_event, get_event_status}
use arinc653emulator.EventServices.Identity.{CreatedOrRefused, create_event-get_event_id}
use arinc653emulator.BlackboardServices.{
  done, create_blackboard, display_blackboard, read_blackboard,
}
use arinc653emulator.BlackboardServices.Links.{WellFormed}
use arinc653emulator.BlackboardServices.Reachable.{start, creates_blackboard, Reach-WellFormed}
use arinc653emulator.BlackboardServices.Transfer.{display-read}
use arinc653emulator.BlackboardServices.Status.{Agree, get_blackboard_status-read_blackboard}
use arinc653emulator.BlackboardServices.Creation.{CreatedOrAborts, create_blackboard_lem}

abbrev now : TimeSpec
now = record { tv_sec = pos 5; tv_nsec = pos 0 }

abbrev fresh : List ℕ
fresh = 7 ∷ 7 ∷ 7 ∷ 7 ∷ []

abbrev board : Blackboard
board = record {
  event_id = 0;
  board_name = "news";
  max_message_size = pos 4;
  current_message_size = pos 0;
  payload = fresh;
}

abbrev with_board : Partition
with_board = record new_partition { events = new_event "news" ∷ []; blackboards = board ∷ [] }

creation : create_blackboard fresh "news" (pos 4) none ≡ done (no_error, some 0, some with_board)
unfolding create_blackboard create_event obtain new_partition new_event find_index
creation = refl

WellFormed-example : WellFormed with_board
WellFormed-example =
    Reach-WellFormed
      (creates_blackboard start fresh "news" (no_error, some 0, some with_board) creation)

abbrev text : List ℕ
text = 1 ∷ 2 ∷ 3 ∷ []

display_example :
    (q : Partition) × (display_blackboard 0 text (pos 3) (some with_board)
      ≡ done (no_error, some q))
    × (read_blackboard (0 ∷ 0 ∷ 0 ∷ 0 ∷ []) 0 now (pos 0) [] (some q)
        ≡ returns
            (done (no_error, some (pos 3, take 3 text ++ drop 3 (0 ∷ 0 ∷ 0 ∷ 0 ∷ [])), some q)))
    × ((k : ℕ) × (get_event_status 0 (some q) ≡ (no_error, some (up, k))))
display_example =
    display-read with_board 0 board text (0 ∷ 0 ∷ 0 ∷ 0 ∷ []) 3 now (pos 0) [] WellFormed-example
      refl (omega arith) (omega arith) (omega arith) (omega arith) (omega arith)

status_example : (k : ℕ) × Agree with_board 0 board fresh now [] k
status_example =
    get_blackboard_status-read_blackboard with_board 0 board fresh now [] WellFormed-example refl
      (omega arith)

abbrev idle_partition : Partition
idle_partition = record new_partition { mode = idle }

-- In the mode IDLE
board_creation_example : CreatedOrAborts fresh "news" 3 (some idle_partition)
unfolding obtain new_partition find_index
board_creation_example = create_blackboard_lem fresh "news" 3 (some idle_partition) refl refl

event_example : CreatedOrRefused "news" (some with_board)
event_example = create_event-get_event_id "news" (some with_board)
