-- ===== src/HdlrDomino/Promises.antt =====
-- What the classes of handlers promise.
pub mod Owners
pub mod Effects
