-- ===== src/Lib.antt =====
-- A model of the core of node-lua, the Lua actor server whose C++ code is under src/: contexts
-- (actors) with mailboxes, the run queues of the workers that drive them, the buffers and integer
-- encodings of their messages, and the TCP sockets they read and write.
--
-- Common holds the names and lemmas the other files share. The components:
--   MessageQueue  src/message_queue.h, src/message_queue.cpp: the mailbox of a context, a ring that
--     doubles. `contents` are its messages; MessageQueue.Fifo is the bounded queue it implements.
--     `expand_queue` runs its copying loop once per message.
--   Buffer  src/buffer.h, src/buffer.cpp: reference-counted buffers that are copied on write, over
--     a heap of blocks in which a bad access is a fault. Buffer.Cut has the operations that take
--     bytes away. The allocator is a parameter that grants or refuses a capacity, and `junk` is
--     what fresh memory holds; the calls of one thread are modelled.
--   Endian  src/endian_conv.h, src/endian_conv.cpp: integers in memory in either byte order.
--   ContextQueue  src/context_queue.h, src/context_queue.cpp: the run queue of a worker, contexts
--     linked through their own fields; its functions are what runs under the spin lock.
--   Context  src/context.h, src/context.cpp: a context with its mailbox and its flag. In
--     Context.Schedule it is driven by `context_send` (src/node_lua.cpp) and `worker_process`
--     (src/worker_mgr.cpp); `Reaches` is any order of their critical sections. In
--     Context.Schedule.Serve `serve` is the loop of a worker over the messages of one context, with
--     one round of its script for each pop, and Context.Schedule.Served says what comes of it.
--   ContextMgr  src/context_mgr.h, src/context_mgr.cpp: the handles of contexts, in a table that
--     grows by four. `register_context` has the rounds of its endless loop as fuel, of which two are
--     enough; ContextMgr.Table has the invariant of the table.
--   Message  src/message.h, src/message.cpp: what a message carries, and `message_clean` over a memory
--     that counts references.
--   RefSessions  src/ref_sessions.h, src/ref_sessions.cpp: the coroutines that wait for one thing.
--     The call that resumes one is a parameter that may change the sessions itself.
--   WorkerMgr  src/worker_mgr.cpp: the worker that gets a context, by the lengths of the queues. In
--     WorkerMgr.Pool all threads of the pool run: `interleave` is any interleaving of the atomic steps of
--     `worker_process` (with `steal_context` and `repush_context`), of `push_context`, `check_load`
--     and `stop`, and of the posts of the semaphores. A run queue is the list of its contexts there.
--   Network  src/network.cpp, src/request.h: the pipe through which contexts send requests to the network
--     thread, and how recv_request puts them together from pieces. The results of `recv` are a script
--     of turns, and recv_request takes one at each round of its loop; `serve_pipe` has as many polls as
--     there are turns, and one more.
--   LuaHandle  src/lua_handle_base.cpp, src/uv_handle_base.cpp: the references between the handles of libuv
--     and those of Lua, in a table of Lua, over any order of their ends (`happen_all`).
--   TablePack  src/ltpack.cpp: tables of Lua packed into bytes and read back. A table is its pairs in the
--     order of `lua_next`. Every call of the reader takes a byte, so it has as much fuel as bytes.
--   TcpHandle  src/uv_tcp_handle.h, src/uv_tcp_handle.cpp: a TCP socket that cuts a stream into
--     packets by a length header. The file has the reading side; TcpHandle.Write has the writing
--     side, TcpHandle.Listen the connections of a listening socket, and TcpHandle.Options the
--     headers as Lua sets them (src/lua_tcp_handle.cpp, `set_rwopt` and `get_rwopt`). What libuv,
--     Lua and the allocator come to are parameters and events. TcpHandle.Stream has the framing as
--     a machine that takes one byte after the other, which `write_read_buffer` is compared with.
--
-- A context keeps its messages in a MessageQueue and is handed on in a ContextQueue; a message may
-- carry a Buffer, and the frames of a TcpHandle carry lengths in Endian's encoding. The other
-- handles of libuv, connecting, the rest of the binding to Lua, the end of the worker threads
-- (`worker_mgr_t::wait`), logging and start-up are not modelled: most of this is calls into libuv
-- and Lua, or glue between the parts.
-- Numbers of the machine are natural numbers whose wrap-around is written out. Every loop is a
-- structural recursion on its rounds: as many as messages for `expand_queue`, as waiting sessions
-- for `wakeup_all_blocking`, as bytes for `receive`, as calls of
-- `recv` for `recv_loop`, two for `register_context`, and for `serve` as
-- rounds are in its script.
pub mod Common
pub mod MessageQueue
pub mod Buffer
pub mod Endian
pub mod ContextQueue
pub mod Context
pub mod RefSessions
pub mod WorkerMgr
pub mod TcpHandle
pub mod ContextMgr
pub mod Message
pub mod TablePack
pub mod Network
pub mod LuaHandle
