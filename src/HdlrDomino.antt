-- ===== src/HdlrDomino.antt =====
-- domino/HdlrDomino.hpp, domino/MultiHdlrDomino.hpp, domino/FreeHdlrDomino.hpp and
-- domino/PriDomino.hpp: handlers of events, over domino/RmEvDom.hpp.
pub mod State
pub mod Hdlr
pub mod Tables
pub mod Own
pub mod Slots
pub mod Rows
pub mod Keep
pub mod Added
pub mod Sent
pub mod Appended
pub mod Session
pub mod Lasting
pub mod Locked
pub mod Gone
pub mod Promises
pub mod Calls
