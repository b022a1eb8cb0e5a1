-- ===== src/Domino/SetPrev.antt =====
-- `setPrev` of domino/Domino.cpp: what it checks, and what it leaves.
pub mod Check
pub mod Wire
pub mod Laws
