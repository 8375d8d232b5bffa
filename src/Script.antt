-- ===== src/Script.antt =====
-- EventScript::load of src/event_script.cpp and what it parses with.
pub mod Numbers
pub mod Row
pub mod Blocks
pub mod Load
