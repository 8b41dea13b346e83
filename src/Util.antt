-- ===== src/Util.antt =====
-- The package util: the word filter (util/dfa_filter.go), timers and dates (util/timer.go), the time
-- wheel (util/timewheel.go), names, addresses and encodings (util/utils.go), and the log files
-- (util/loghelper.go).
pub mod Calendar
pub mod Dfa
pub mod Encoding
pub mod LogFile
pub mod Names
pub mod TimeWheel
pub mod Timer
