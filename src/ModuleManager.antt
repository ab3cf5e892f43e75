-- ===== src/ModuleManager.antt =====
-- The schedule of the module level, of ModuleManager/ModuleManager.cc, ModuleManager/ModuleScheduler.cc
-- and include/ACM/INTERNAL/ModuleManager.h. Defs has the check of the schedule and the loop over the
-- hyperperiods, Ports the search for the partition of a port, Settings what is read from the
-- properties, Text the lines and tokens of a file of properties. The other children have the lemmas.
pub mod Defs
pub mod Ports
pub mod Settings
pub mod Text
pub mod Timeline
pub mod Frames
pub mod Checking
pub mod Hyperperiods
pub mod Tokens
pub mod Properties
