-- ===== src/Lib.antt =====
-- atm-cache: a TCP cache server in C. A session reads lines from a connection, looks commands up in
-- a dictionary, and keeps its data in another; both stand on `atm_dict`, which stands on `atm_list`.
--
-- Base holds the shared names, the runs that may end the process or go wrong, and 32-bit words.
-- Util models src/core/atm_util.c: `next_power` is `atm_util_next_power`, and `hexdump` in
-- Util.HexDump is `atm_util_hexdump`.
-- LinkedList models src/core/atm_list.c. LinkedList.Nodes has its operations, `list_*` for
-- `atm_list_*`, on a store of entries with a pointer each way; LinkedList.Spec says what they do to
-- the sequence of values, which is how Dict uses a list. LinkedList.Seg and LinkedList.Steps say
-- which store a sequence of entries makes, and the other modules prove each operation against it.
-- Siphash models both hash functions of src/core/atm_siphash.c; the seed is an argument. Str models
-- src/core/atm_str.c: in Str.Bytes the header with capacity, length and block, with `str_new`,
-- `str_grow` and `str_cats`, in Str.Compare the comparison and the hash of strings in memory, and in Str
-- what these are on the bytes, `bytes_cmp` and `bytes_hash`; Str.Sorted relates the two.
-- `Str.Order.str_key` shows that strings, given by their bytes, can be the keys of a dictionary.
-- Str.Split has `str_split`, a scan of the bytes with a state for open quotes, and Str.Text the trim
-- and further operations; Str.Tokens, Str.Words, Str.Join and Str.Argv prove the split.
-- Arr models src/core/atm_arr.c: elements of a fixed number of bytes in a block, `arr_*` for
-- `atm_arr_*`, and `realloc` of src/os/unix/atm_alloc.c.
-- Queue models src/core/atm_queue.c with its consumers as threads: a `Move` is a push or the wait before
-- a pop, which hold the mutex, or one access of a pop, which does not. Queue.Alone has a pop that no
-- thread comes between and Queue.Races runs in which one does.
-- Blk models src/core/atm_blk.c, blocks with their memory and the pool that hands them out, and Buf
-- models src/core/atm_buf.c, a queue of bytes over a list of blocks: `get_rblk`, `get_wblk`,
-- `buf_read`, `buf_write`, `read_line` in Buf.Line and the transfers with a socket in Buf.Sock, where
-- the system calls are a parameter. Buf.Valid says which bytes a buffer holds; Buf.Wblk,
-- Buf.Put and Buf.Take prove what one round of a loop does to them.
-- Dict models src/core/atm_dict.c. Dict.Table has one table with its buckets, `atm_dict_table_*`;
-- a bucket pointer is NULL, live or dangling. Dict.Ops has the operations over the two tables,
-- `atm_dict_*`, with the incremental rehash. Dict.Valid says when a dictionary is well formed and
-- which map it stands for. The other modules prove what each operation does to that map.
-- Obj models the callbacks of src/core/atm_obj.c, which make objects keys of a dictionary. Cmd has the
-- commands of src/core/atm_cmd.c as data, in a dictionary of their own. Sess models
-- src/core/atm_sess.c: a `SessCtx` is a session with the pool, the buffers of its connection, the
-- commands and the cache, `sess_round` one round of the loop of `atm_sess_process`, and
-- `cmd_func_get` and `cmd_func_set` what a command does. Sess.Io, Sess.Rounds and Sess.Serve prove a
-- call of it piece by piece.
-- Conn models the write side of src/core/atm_conn.c, `task_write` for `atm_conn_task_write` and the
-- functions that it calls, and Conn.Free the list of connections to give back, `free_func`.
-- Conn.Threads has the threads that share a connection: a `Turn` is what one of them does under the
-- mutex of the connection, or the test of a loop or a transfer to the socket, under no mutex, and
-- `Turns` is a run.
--
-- A call of `exit` ends a run with `exit_error`, a read of freed memory with `use_after_free`.
-- Counters are 32-bit words with their wrap-around; the theorems ask for at most 2 ^ 27 entries, or
-- 2 ^ 30 while a rehash is under way, so that none wraps and a table of buckets has its bytes. Lengths
-- in a buffer are below 2 ^ 31, where a signed word is not below 0, and lines below 2 ^ 29.
-- Fuel: `next_power` has 31 rounds, one more than the powers of two from 4 to 2 ^ 31; a loop over a
-- list has as many rounds as the list has entries; a loop of `buf_read` or `buf_write` moves a byte in
-- each round but the last, so `nbyte + 1` rounds are enough; a session passes through four states at
-- most; a write task has one round as long as no request comes in between; a pop of a queue has eight
-- accesses.
-- The callbacks `match` and `hash` of a key type are parameters, with the laws that a hashed
-- container needs. Allocation does not fail, since the code aborts when it does.
-- Locks are modelled for the queue and the threads of a connection only: an operation of the
-- dictionary holds its lock throughout, and one thread runs a session and its buffers. Not modelled:
-- the event loop but for what it does to a connection, and what is printed.
mod Base
pub mod Util
pub mod LinkedList
pub mod Siphash
pub mod Str
pub mod Arr
pub mod Queue
pub mod Blk
pub mod Buf
pub mod Dict
pub mod Obj
pub mod Cmd
pub mod Sess
pub mod Conn
mod Tests
