-- ===== src/Domino/SetState.antt =====
-- `setState` of domino/Domino.cpp: which states it sets, and what follows.
pub mod Assign
pub mod Values
pub mod Counted
pub mod Laws
