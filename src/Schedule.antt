-- ===== src/Schedule.antt =====
-- Who runs the query: the periodic timer of src/psych.cc and src/psych.hh, and the Tcl commands of
-- src/tcl.cc.
pub mod Flex
pub mod App
pub mod Start
pub mod Calls
pub mod Timer
pub mod Tcl
pub mod Commands
pub mod Lock
pub mod Overlapped
pub mod Refused
