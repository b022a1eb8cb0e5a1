-- ===== src/Domino.antt =====
-- src/domino/Domino.hpp and src/domino/Domino.cpp: tiles, their links and their states.
pub mod Links
pub mod Marks
pub mod Deduce
pub mod State
pub mod Ops
pub mod Remove
pub mod WhyFalse
pub mod Search
pub mod Inv
pub mod Finish
pub mod SetPrev
pub mod SetState
pub mod Meaning
pub mod Promises
