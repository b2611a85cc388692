-- ===== src/Snmp.antt =====
-- The SNMP agent: src/snmp_agent.cc, and the four tables of src/psychMIB.cc.
pub mod Objects
pub mod Columns
pub mod Registered
pub mod Handlers
pub mod Rows
pub mod Walk
pub mod Skipped
pub mod Exported
pub mod Start
pub mod Pump
pub mod Pipe
pub mod Agent
pub mod Contexts
