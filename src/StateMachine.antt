-- ===== src/StateMachine.antt =====
-- The hierarchical state machines of StateMachine/src/StateMachine/StateMachine.cpp and
-- include/StateMachine/StateMachine.h. Model has the data, Actions the state-passing form of the
-- methods, Build the construction of a machine, Paths the paths and the points of entry and exit,
-- Walks the evaluation of exits, time-outs and entries, Stepping the choice of the transitions and the
-- step. The other children have the lemmas.
pub mod Model
pub mod Actions
pub mod Build
pub mod Paths
pub mod Walks
pub mod Stepping
pub mod Running
pub mod Tree
pub mod Walking
pub mod Taken
pub mod Searching
pub mod Keeping
pub mod Entering
pub mod Steps
pub mod Total
pub mod Exits
pub mod Parting
pub mod Points
pub mod Order
