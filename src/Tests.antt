-- ===== src/Tests.antt =====
-- Runs of the model at concrete inputs, and the theorems of the library applied to them.
mod Fixture
mod Feed
mod Booting
mod Running
mod Messaging
mod Flexing
mod Tracing
mod Printing
mod Publishing
mod Refreshing
mod Querying
mod Loading
mod Timing
mod Starting
mod Configuring
mod Tables
mod Scheduling
mod Naming
mod Living
mod Dating
mod Registry
mod Agents
mod Conditional
