-- ===== src/Domino/Deduce.antt =====
-- What `deduceStateFrom_` of domino/Domino.cpp establishes.
pub mod Round
pub mod Rule
pub mod Settle
pub mod Ends
pub mod Agree
pub mod Track
