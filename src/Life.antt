-- ===== src/Life.antt =====
-- The life of a plug-in (src/psych.cc): what Init makes, stage by stage, and what Clear and Destroy
-- release; the count of the users of libcurl, and the options of its context.
pub mod Instances
pub mod Multipass
pub mod Pump
pub mod Run
pub mod Stages
pub mod Reverse
pub mod Curl
