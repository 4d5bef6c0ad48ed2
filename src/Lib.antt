-- ===== src/Lib.antt =====
-- The operating-system simulator of this repository: a kernel that plans processes, a CPU, a memory,
-- a console, a file system and an io module, which are programs of their own and talk over sockets.
-- The library models the code that they share, the kernel, the page tables and requests of the memory,
-- the CPU, the console and the free blocks of the file system.
--
-- The parts, and the files that model them:
-- - Prelude: names, lists over the native numbers, machine integers, C strings, bytes in the order of
--   the machine (little-endian), `atoi`.
-- - Commons: the so-commons library, which the repository does not hold. It is an argument of the
--   definitions that call it, a record of its operations with their documented effects as laws;
--   Commons/Reference is an implementation, by which the model runs on concrete data.
-- - Shared/Buffer: shared/src/serialization.c. A stream is its allocated bytes, and a byte that was
--   never written is `none`; a step outside the allocation is `none`. `create_buffer`,
--   `add_to_buffer`, `change_buffer_size`, `buffer_take` and the others have the names of the source.
-- - Shared/Socket: shared/src/sockets.c. The network answers each call of `send` by a count and each
--   call of `recv` by an event: bytes, the end of the connection, or an error.
-- - Shared/Operation: the operation codes and `translate_header` of
--   shared/src/operation_handler.c.
-- - Shared/Process: control blocks and the messages of shared/src/process.c.
-- - Kernel: kernel/src. State has the globals, with the control blocks at addresses and the queues as
--   lists of addresses; Resources and Deadlocks model deadlocks.c, Queues models queues.c, Connection
--   the rounds of the console and dispatch loops of handle_connection.c, Planners the long term
--   planner, FIFO and round robin of planners.c, cut at each `sem_wait`. A kernel function returns,
--   waits on a semaphore whose count is 0, or crashes on a null pointer. Start models the start of the
--   program, Machine its threads, which take turns in any order: a turn goes up to the next wait of a
--   planner or of STOP_PLANNING, or over one whole message, with no other thread in between.
--   Kernel/Balance has the invariant that ties the semaphores to the queues, Kernel/Placed the one that
--   ties each control block to one place, and Kernel/Machine what both say of the states that such
--   turns reach. These are not all states of the program. A message but STOP_PLANNING comes in them only
--   when its handler does not wait before its end: FINISH_PROCESS of a ready process, while the short term planner holds
--   the token of it, waits after the process has left its queue, and the planner may then find no
--   process. A report of the CPU comes only while a process runs, so not after the console has
--   finished it, and none of a sleep, whose thread reads the arguments of a function that may have
--   returned. The degree of multiprogramming at the start is not negative.
-- - Memory: memory/src. State has the globals, with tables, pages and frames at addresses; Pages models
--   page_table.c, Connection the requests of handle_connection.c on the values that were read from
--   their messages. A step is `none` where the code uses freed memory, a null pointer or a value that
--   no `return` gave, and where a reading fails and does not end. Memory/Represents has the abstract view: the swap positions of each process.
--   Memory/Program models the instructions of memory.c, on the text of a file, with the one byte that
--   is allocated for a line.
-- - Shared/Instructions: shared/src/instructions.c, the instructions and their names.
-- - Cpu: cpu/src. Execution models instruction_execution.c, with `string_split` of the library as an
--   argument, Rounds the loop of `execute_process` and the messages of handle_connection.c, Mmu mmu.c.
--   Cpu/Statements says what the statements of a program mean. The CPU sends the reports that
--   Kernel/Connection handles.
-- - Console: console/src/console.c, on the lines that are typed. The requests are those that
--   Kernel/Connection handles.
-- - Filesystem: old/filesystem/src, the free blocks and the reservation of swap.
--
-- Fuel: the loop of `change_buffer_size` has `offset + n + 1` rounds, each adds 64 bytes; the inner
-- loop of `check_process_in_blocked_and_send_to_ready` has one round more than there are instances.
-- The loops of the console have as many rounds as there are lines, since each reads one.
-- The other loops have the number of rounds that their bound gives before they start.
--
-- A mutex of the source stands around single accesses, which are one step here. The kernel's messages
-- are kept as values in the order they are sent; Shared has their bytes.
--
-- Not modelled: the sleep of a process as a turn of Machine (Kernel/Connection has its two parts), the
-- end of a process in the memory, which reads its message from the function `socket` of the C library,
-- the io program, the functions of the file system that read and write a value of a file, the planner
-- by priorities, the thread of a page fault in the kernel, which reads freed stack memory, its
-- interrupt connection, which only logs, opening connections, reading configurations, and the
-- functions that only free memory.
pub mod Prelude
pub mod Commons
pub mod Shared
pub mod Kernel
pub mod Memory
pub mod Cpu
pub mod Console
pub mod Filesystem
