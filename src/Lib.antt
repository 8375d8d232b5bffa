-- ===== src/Lib.antt =====
-- The core of aoahid_player, which plays scripts of input events to Android devices over AOA HID.
--
-- A script (include/aoahid_player/event_script.hpp, src/event_script.cpp) is a list of rows, grouped
-- in segments that each run on the laps their selector names. A walk steps through the rows of one
-- lap; InputState (src/input_state.cpp) tracks what the rows leave held, so that a seek can rebuild the
-- state that playback has at a row.
--
-- - Base: shared names, tests on numbers, lists, integers, and 64-bit words.
-- - Event: the payload structs, EventRecord, batch_key, profile_of (src/device_group.cpp) and
--   profile_bit (include/aoahid_player/device.hpp). The two button structs are one record, the two key
--   structs another, and the two stylus samples a third. Event.Control names the control that a row drives.
-- - Scale: Space and scale_coordinate (include/aoahid_player/event_script.hpp).
-- - Laps: LapSelector, matches, runs_on, last_run_before, next_run_from (src/event_script.cpp), on
--   uint64_t with its wrap. Laps.Runs, Laps.LastRun and Laps.NextRun hold their properties.
-- - Timeline: Segment, EventScript, lap_length, next_lap, LapWalk and lap_layout
--   (src/event_script.cpp). Timeline.Plan writes down the rows of a lap and their times directly.
-- - Text, KeyNames, Script: EventScript::load over the bytes of a file (src/event_script.cpp) with the
--   parsers of rows and directives, and the tables of src/key_names.cpp. Script.Numbers takes
--   doubles, std::strtod and std::llround as a parameter. A problem keeps its line and reason; the file
--   name, which load writes in front, is left out.
-- - InputState: InputState and state_at (include/aoahid_player/input_state.hpp,
--   src/input_state.cpp). InputState.Held reads a state control by control, and gives the effect of a row on
--   a control; InputState.Rebuild is about state_at, and InputState.Transition models transition.
-- - Getevent: GeteventParser (src/getevent_parser.cpp), which turns the lines of getevent into rows;
--   Getevent.Slots has the slots and the frames. Script.Load.Directives has the directives of load.
-- - Aoahid: the operations of libaoahid that the program calls, as a record that the definitions take; its
--   World is what a call reads and changes. Context is src/context.cpp.
-- - Setup: include/aoahid_player/spec_builder.hpp. Setup.Validate is the validation, Setup.Fields the axes
--   and the widths of fields, Setup.Specs the options for the factories of libaoahid.
-- - Device: Device of src/device.cpp, with the texts in Device.Names.
-- - DeviceGroup: DeviceGroup of src/device_group.cpp. DeviceGroup.Rows is broadcast with apply,
--   scroll and toggle, DeviceGroup.Flush flush, DeviceGroup.Reconfigure open_profiles,
--   reconfigure and send_battery_levels. DeviceGroup.Counts, DeviceGroup.Broadcast and
--   DeviceGroup.Flushed hold the properties, and DeviceGroup.Taken lemmas for Player.Devices. The slots are a list, and a slot is told by its place.
-- - Player: Player of src/player.cpp. Player holds conflicts, flush_now, send, settle, report_skip and execute;
--   Player.Laps clamp, publish, jump and finish_lap, over the doubles of a speed as a parameter; Player.Controls
--   what other threads call, and status. The device group is a record of the operations that it calls,
--   which device_rows fills with the model of DeviceGroup. Properties of a player take the states of the
--   group that they are about as a predicate, and Player.Devices is about those of device_rows in which the
--   active devices have nodes for exactly the profiles of a mask. Player.Run is run with service, hold_paused and
--   wait_to: the thread stands at the head of one of their three loops, and a turn of a loop goes to the next
--   head. A schedule lists a Moment for each turn: the calls of other threads that take effect before it, what the
--   clock shows in it, what the live pump does to the group, and whether a wait at its end reaches its deadline. A
--   call that lands within a turn is taken as one before the turn or before the next. Player.Run.Start is load and
--   the part of run before its loop.
-- - Keymap: apps/aoahid_player_gui/keymap.cpp; Keymap.Glfw has the functions that read constants of GLFW, which
--   are a parameter.
-- - Tests: concrete scripts and devices.
--
-- A std::variant is a data type, a std::array or std::vector a list, a signed integer an integer
-- without bound, an unsigned one a natural number with its wrap written out where the code
-- subtracts or adds. seek_loop runs on fuel, one more than the script has rows, since each step goes
-- to a later row. Sums of waits are natural numbers: a sum that int64_t cannot hold is undefined in the
-- source and not modelled. The begin and end of a segment are natural numbers: the source casts
-- rows.size() to uint32_t, which differs from 2^32 rows on.
--
-- Not modelled: the order of atomic memory accesses and the signal that wakes a wait (src/timing.cpp),
-- libaoahid itself, the recorder (src/recorder.cpp), processes and adb (src/process.cpp,
-- src/adb.cpp), the programs under apps/
-- but for the key tables, and the vendored code under third_party/.
pub mod Base
pub mod Aoahid
pub mod Context
pub mod Setup
pub mod Device
pub mod DeviceGroup
pub mod Player
pub mod Event
pub mod Scale
pub mod Laps
pub mod Text
pub mod KeyNames
pub mod Timeline
pub mod InputState
pub mod Script
pub mod Getevent
pub mod Keymap
pub mod Tests
