-- ===== src/Lib.antt =====
-- Verification of SimpleHttpServ, a pre-forking HTTP server over epoll.
--
-- The machine that serves a connection (src/ReqStatMach.h)
--   ReqStatMach.State   the enums, the fields of ReqStatMach, init and is_init. `recvbuf` is a
--                       function from indices to bytes that is read and written through `peek`,
--                       `poke` and the kernel's `blit`; the first two stop with a fault at an index
--                       that is out of the array.
--   ReqStatMach.Line    check_one_line: the loop is a recursion on the bytes left.
--   ReqStatMach.Request parse_requesturi and parse_headers, on the C string that the pointer leads to.
--                       The null pointer that strpbrk returns for a line with no blank is followed.
--   ReqStatMach.Batch   parse_batch: the loop runs on fuel, one round more than the bytes behind the
--                       start of the line, and each round but the last uses up bytes.
--   ReqStatMach.Respond respond_http, with snprintf on the two buffers.
--   ReqStatMach.Process process: the receive loop, on fuel one round more than the room in the
--                       buffer, the switch on the result, and the descriptor given up at the end.
--   ReqStatMach.Stream  the specification: the same protocol read one byte at a time, with no buffer
--                       and no batches. Stream.Requests has well-formed requests as texts,
--                       Stream.Splits the batches that the reading may be split into.
--   Epoll               EpollAddFd, EpollDelFd, TestEpollAddFdLT (src/Process.cc) and SetNonBlocking
--                       (src/ProcessPool.h).
-- Text has the C strings and the functions of <cstring> that the sources call; Sys has what the
-- program asks of the kernel, as values in the order asked, and what recv answers. The kernel's recv
-- is a parameter: a function of how often it was called, the descriptor and the room left. What
-- recv(2) documents of it is a hypothesis where it is needed. Output by printf is left out. A length
-- taken from a null pointer is, as a size_t, above that of every string. Where the constructor leaves
-- fields unset, the model starts them as init does.
--
-- The process pool (src/ProcessPool.h, src/Process.h, src/Process.cc)
--   Pool.Process        the entry of a process, SetupEpoll, SetupSigPipe, AddSigaction and SioHandler.
--   Pool.Create         the constructor and run. The answers of socketpair and fork in the process at
--                       hand are a parameter, so that the parent and each child are runs of the same
--                       definition. `proc_` is a function from indices to entries.
--   Pool.Parent         RunParent: its events one by one, and its loop over a list of the answers of
--                       epoll_wait. The search for a child has one round for each entry of the table.
--   Pool.Parent.Select, RoundRobin, Signals, Safety and Stop hold what is proved of it; Pool.Turn has
--                       the search itself, over the length of a table and its test, and Pool.Loops
--                       what both loops return.
--   Pool.Child          RunChild over any type of clients (the template's parameter T, a record of its
--                       three operations): accept, the events, the loop and the sweep. An index
--                       outside of the array of clients is a fault.
--   Pool.Child.Slots    the laws that the pool relies on in a client, and its array of clients. Loop
--                       and Sweep have what follows for RunChild; Requests is the instance at
--                       ReqStatMach that src/MainMultiProc.cc runs.
--   Pool.Program        main of src/MainMultiProc.cc, over the kernel's answers; Program.Stop and
--                       Program.ChildStop are how it ends in the parent and in a child, by Parent.Turns
--                       and Child.Stop, the loops taken up behind earlier waits.
--
-- The programs of examples/framework-intro/
--   Examples.Timers     client_timer_list.h: the doubly linked list on a heap of timers, with a fault
--                       where a null or a freed timer is followed. The loops run on fuel, more than
--                       there are timers. Timers.Chain has the list that the pointers stand for, Add,
--                       Unlink, Remove and Tick what the operations do to it. The list's tail, which no
--                       operation reads, is not part of what is proved.
--   Examples.Chat       the functions and phases of group_chat_service.cc, with the index of the first
--                       client as a parameter: group_chat_service_sio.cc has one entry more, for the
--                       signal pipe. Chat.GroupChat and Chat.SignalChat are their loops, over the
--                       kernel's answers turn by turn. Phase 2 has one round more than there are
--                       clients. Table, Step, Sweep, Accept, Phases, Broadcast, Loop and Stop
--                       hold what is proved.
--   Examples.TimingChat timing_group_chat_service.cc: the table of clients with the timers on them,
--                       on fuel for these that exceeds the seats; TimingChat.Loop is its loop. What
--                       new and time return is among the kernel's answers. A count of clients that
--                       would fall below 0 is a fault. A poll that a signal interrupts is taken to
--                       leave revents as they were. Entries says when table and timers agree; Join,
--                       Message, Gone, Visit, Alarm and Silent have the clients that come, write,
--                       leave, do both, and are silent; Expiry what an alarm leaves, and Quiet, Round,
--                       Turns and Orderly the loop over turns of all of these.
--   Examples.Blocking   handle_http_request.cc, which is also
--                       examples/multitasking/test_block_http_handler.cc: the parser, the receive
--                       loop, on fuel two rounds more than the buffer has bytes, and the loop of main.
--                       Same and Serve compare it with the class, Client and Clients say what the
--                       clients are answered.
--   Examples.RespondHttp respond_http.cc: one answer to each connection, with no request read, and
--                       SIGTERM by turns.
--
-- The programs of examples/multitasking/
--   Examples.EarlierPool processpool.h, the pool before src/ProcessPool.h, and main of
--                       test_multiproc_http_handler.cc. Its parent has no entry in the table, and the
--                       children count from 0. Parent and Program compare it with Pool.Parent and
--                       Pool.Program; Child is RunChild behind the earlier pool's own setup.
--
-- Not modelled: the single instance that each pool keeps; the arguments of each main and, in the chat
-- programs and the blocking handler, its socket calls; examples/multitasking/nonblock_http_handler.h,
-- which is the text of src/ReqStatMach.h; test_processpool.cc, whose client prints what it receives; and
-- the programs of examples/network-programming-api-basic/ and test/, and those on threads, which are
-- calls of the system with no state of their own.
pub mod Prelude
pub mod Sys
pub mod Text
pub mod Epoll
pub mod ReqStatMach
pub mod Pool
pub mod Examples
