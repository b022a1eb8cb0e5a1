-- ===== src/Lib.antt =====
-- The domino library: a domino is a set of tiles (events), each up or down, linked into a graph in
-- which the states of the predecessors decide the state of a tile; a tile that comes up has its
-- effect (its handlers) called.
--
-- Domino (src/domino/Domino.hpp, src/domino/Domino.cpp) is the class `Domino`. Its private data is
-- the record `Domino` of Domino/State.antt: `states_` and `effectEVs_` are the record `Marks` of
-- Domino/Marks.antt, `prev_` and `next_` a pair of vectors `Branches` of Domino/Links.antt,
-- `en_ev_` an association list, `ev_en_` a list, and `is_removed_ev` the `isRemovedEv_` of
-- src/domino/RmEvDom.hpp, from which `newEvent` recycles; without RmEvDom it is empty. The
-- operations have the names of the code: Domino/Marks.antt has `pureSetStateOK_`,
-- `deduceStateSelf_` and `deduceStateFrom_`; Domino/State.antt `getEventBy`, `recycleEv_`,
-- `newEvent`, `isRemoved` and `evNames`; Domino/Ops.antt `effect_`, `pureSetPrev_`, `setPrev` and
-- `setState`; Domino/Remove.antt `pureRmLink_`, `rmEv_` and `rmEvOK`; Domino/WhyFalse.antt
-- `whyFalse`, with an event and its state for the string that names them. An operation takes the
-- domino and returns the next one; `Done` adds the calls of the virtual `effect_(ev)`, in order,
-- and the answer, where D_EVENT_FAILED_RET is `none`.
--
-- MsgSelf (src/msg_self/MsgSelf.hpp, src/msg_self/MsgSelf.cpp) keeps the messages by which
-- handlers are called, in a queue for each priority. MsgSelf.antt has `newMsgOK`, `handleOneMsg_`
-- and `handleAllMsg`; a callback is a parameter `run`, which changes the world and sends messages,
-- and `pings` counts the calls of `mt_pingMainTH`. MsgSelf/Count follows `nMsg_`, MsgSelf/Order
-- the order of the calls. An exception of a callback, which the code catches, is a run that stops
-- early.
--
-- DataStore (src/obj_anywhere/DataStore.hpp) keeps data by key, ObjAnywhere
-- (src/obj_anywhere/ObjAnywhere.hpp, src/obj_anywhere/ObjAnywhere.cpp) the objects of the process
-- in one DataStore by name. DataStore.antt and ObjAnywhere.antt have their operations on an
-- association list; a null pointer is `none`, and the pointer cast of `get` is a parameter.
--
-- HdlrDomino (src/domino/HdlrDomino.hpp) with MultiHdlrDomino, FreeHdlrDomino and PriDomino beside
-- it gives an event handlers, which messages in MsgSelf call. The classes stand over each other in
-- one object; the record `HdlrDomino` of HdlrDomino/State.antt has the data of them all, and the
-- parameter `has_free` says whether FreeHdlrDomino is one of them, as a virtual call of
-- `triggerHdlr_` finds out. A shared pointer to a callback is a number that MAKE_PTR gives once; a
-- weak pointer can be locked while a table owns that number, or a `cb_hdlr_` on the call stack has
-- locked it, which `running` lists. HdlrDomino/Hdlr.antt has the operations of HdlrDomino and
-- MultiHdlrDomino, HdlrDomino/Calls.antt those of the other two, `rmEvOK`, `cb_hdlr_` and
-- `setMsgSelfOK`. HdlrDomino/Session.antt has any sequence of public calls and messages; the body
-- of a callback, a nested `handleAllMsg` included, is what stands between its message and the
-- `end_call` at which `cb_hdlr_` drops what it has locked. The order and the handling of messages
-- are those of MsgSelf; here `sent` lists the calls of `newMsgOK`. The iteration of an
-- unordered_map is in an order that its association list gives. Where `rmOneHdlrOK_` of
-- MultiHdlrDomino gets `end()` for an event without handlers, which the code reads without a test,
-- the model removes nothing; only a nested message for a handler that is already removed comes
-- there.
--
-- DataDomino (src/domino/DataDomino.hpp) keeps data for events in a DataStore, and WbasicDatDom
-- (src/domino/WbasicDatDom.hpp) puts them under write control; DataDomino.antt and
-- WbasicDatDom.antt have their operations over RmEvDom. WbasicDatDom/Protects and
-- WbasicDatDom/Guard show what the control keeps out and lets in.
--
-- MtInQueue (src/thread/MtInQueue.hpp, src/thread/MtInQueue.cpp) brings elements from other
-- threads to the main thread. Each call is atomic in MtInQueue.antt, as `mt_mutex_` makes the
-- shared part of it; the outcome of a try-lock, of `mt_reqMainTH`, and the pushes of handlers and
-- other threads during `handleAllEle` are arguments. A handler neither pops nor clears.
-- MtInQueue/Fifo is about pops, MtInQueue/Handle about `handleAllEle`.
--
-- ThreadBack (src/thread/ThreadBack.hpp, src/thread/ThreadBack.cpp) with AsyncBack
-- (src/thread/AsyncBack.hpp, src/thread/AsyncBack.cpp) runs tasks in other threads and their back
-- functions in the main thread. ThreadBack.antt has `newTaskOK`, `limitNewTaskOK` and
-- `hdlDoneFut`, and as steps of their own the two things that a thread does at the end of a task:
-- to count it and to make its future ready. `hdlDoneFut` is one step: no future becomes ready
-- during it, and the tasks that a back function starts are a parameter. Its loop is structural in
-- the tasks that the count lets it handle.
--
-- ThPoolBack (src/thread/ThPoolBack.hpp, src/thread/ThPoolBack.cpp) is the ThreadBack with a pool
-- of threads and a queue. In ThPoolBack.antt each pool thread stands in a phase of
-- `mt_threadMain_`, and `mt_step` takes it to its next access to what the threads share; the mutex
-- is a flag, and a step that has to wait gives `none`. ThPoolBack/Calls has the calls of the main
-- thread, `newTaskOK` up to the end of its lock, `notify_one`, and `clean_` in three steps;
-- ThPoolBack/Run any course of these steps. The name `id` links a packaged_task to its future. An
-- entry function is a value, of which the parameter `run` says what its call gives. Back functions
-- start no task here. ThPoolBack/Inv is about the lock and the sleep, ThPoolBack/Tasks about where
-- the tasks are, ThPoolBack/Rest and ThPoolBack/Clean about threads that cannot go on,
-- ThPoolBack/Hang about a thread that misses the stop. ThreadBack/ViaMsgSelf has `viaMsgSelf`
-- (src/thread/ThreadBackViaMsgSelf.hpp), by which back functions become messages of MsgSelf.
--
-- MT_Notifier (src/thread/MT_Notifier.hpp, src/thread/MT_Notifier.cpp) and
-- src/thread/MT_PingMainTH.hpp, src/thread/MT_PingMainTH.cpp wake the main thread. MtNotifier.antt
-- has `mt_notify`, `timedwait`, `mt_getMainTH` and `mt_reqMainTH` over the semaphore of libc, the
-- record `Semaphore` with its documented behaviour as `SemaphoreLaws`; what happens during the
-- wait is a list of events that depends on the deadline. The other parts count the calls of
-- `mt_pingMainTH` as `pings`, and take the answer of `mt_reqMainTH` as an argument.
--
-- SafePtr (src/safe_mem/SafePtr.hpp) is the smart pointer of the library. SafePtr.antt has its
-- constructors, moves, `swap`, `cast` and `safe_cast`, and SafeWeak; static types are arguments,
-- and what `if constexpr` asks the compiler, and the casts of std, are the record `Casts`, of
-- which SafePtr/Types states the documented behaviour as `CastLaws`. A cast that does not compile
-- gives `none`. SafePtr/Keys has the comparisons, the hash and `owner_before`, over the addresses
-- that std knows; pointers of two types are converted to their composite type before they are
-- compared, and not before they are hashed.
--
-- The proofs of Domino: Domino/Deduce follows the stack of `deduceStateFrom_`, Domino/Search that
-- of the search for loops in `setPrev`; Domino/Inv is the invariant between two calls and how the
-- steps keep it; Domino/SetPrev, Domino/SetState and Domino/Remove put the parts of the operations
-- together; Domino/Promises has what a caller relies on, and Domino/Meaning what the deduction of
-- a tile's state comes to. Tests has runs of the code on small dominoes.
--
-- Bounds: the loops of `deduceStateFrom_` and of the search run on fuel, and `none` means that it
-- ran out. Under the invariant some fuel is enough, since the links form no cycle:
-- `set_state_fuel`, `set_prev_fuel`, `rm_ev_ok_fuel`, their sum `domino_fuel`, and
-- `why_false_fuel`. `handleAllMsg` may not end when callbacks send messages; when they do not,
-- more fuel than messages is enough. A std::map is a list in its iteration order. The place of
-- `begin()` of an unordered_set is a function of the domino of which nothing is assumed. Events
-- are natural numbers: the vectors run out of memory before a size_t wraps.
--
-- Not modelled: the log (src/log), whose calls change nothing here; failing allocation and thread
-- creation; the raw access to a pointer (`get`, `operator->`, `use_count`).
pub mod Prelude
pub mod DataDomino
pub mod DataStore
pub mod Domino
pub mod HdlrDomino
pub mod MsgSelf
pub mod MtInQueue
pub mod MtNotifier
pub mod ObjAnywhere
pub mod SafePtr
pub mod ThPoolBack
pub mod ThreadBack
pub mod WbasicDatDom
pub mod Tests
