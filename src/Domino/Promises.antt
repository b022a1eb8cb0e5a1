-- ===== src/Domino/Promises.antt =====
-- What the public calls of domino/Domino.hpp promise, call by call.
pub mod NewEvent
pub mod SetPrev
pub mod Remove
pub mod SetState
pub mod Again
pub mod Returns
