-- ===== src/Boot.antt =====
-- What stands around the program: src/main.cc for the application, src/plugin.cc for the plug-in.
pub mod Logging
pub mod Guards
pub mod Balance
