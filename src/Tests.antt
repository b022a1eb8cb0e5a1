-- ===== src/Tests.antt =====
-- The theorems at concrete dominoes, and runs of the code.
mod Domino
mod Remove
mod MsgSelf
mod Stores
mod Hdlr
mod Data
mod MtInQueue
mod SafePtr
mod ThreadBack
mod Pool
mod Notifier
