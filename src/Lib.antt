-- ===== src/Lib.antt =====
-- The kernel of an x86-64 teaching operating system: processes, a scheduler with priorities,
-- semaphores, pipes, the allocator and the containers that they stand on. User programs reach these
-- by system calls, and the timer interrupt runs the scheduler.
--
-- The parts and how they interact:
--   TP2-SO-2025/Kernel/datastructures/queue.c  Queue. Queue.Nodes is the memory of its nodes, Queue
--     the operations (createQueue is create_queue, queueNextCyclicIter is next_cyclic_iter, and so
--     on), Queue.Fifo the queue without memory. The other parts use Queue.Fifo.
--   TP2-SO-2025/Kernel/datastructures/array.c  Array.
--   TP2-SO-2025/Kernel/datastructures/list.c  SortedList, over the memory of Queue.Nodes.
--   TP2-SO-2025/Kernel/memory/buddy_system_mm.c  Buddy.
--   TP2-SO-2025/Kernel/memory/first_fit_mm.c  FirstFit, the allocator of another build.
--   TP2-SO-2025/Kernel/strings.c  Strings.
--   TP2-SO-2025/Kernel/scheduler.c  Scheduler for the queues and aging, Scheduler.Schedule for
--     schedule, block_process and unblock_process.
--   TP2-SO-2025/Kernel/sem.c  Semaphore (semWait is sem_wait). It blocks and unblocks processes.
--   TP2-SO-2025/Kernel/pipe.c  Pipe.Ring for the buffer, Pipe for the life of a pipe, Pipe.Transfer
--     for readPipe, writePipe and closePipe. Pipes wait on two semaphores each.
--   TP2-SO-2025/Kernel/process.c  Process for the table and the end of a process, Process.Create for
--     create_process, wait_child and ps. It uses all of the above.
--   TP2-SO-2025/Kernel/drivers/keyboard.c  Keyboard, its tables in Keyboard.Scancodes. The interrupt
--     handler is keyboard_handler; what it asks of the console and the semaphores is a list.
--   TP2-SO-2025/Kernel/idt/syscallDispatcher.c  Syscalls, the calls with logic of their own.
--   TP2-SO-2025/Kernel/fonts.c  Console, the places of the characters on the screen.
--   TP2-SO-2025/Userland/libc  Libc.Numbers for stdlib.c, Libc.Print and Libc.Scan for stdio.c with the
--     colours of TP2-SO-2025/Userland/libsys/ansiColors.c, Libc.Strings for string.c.
--   TP2-SO-2025/Userland/Shell/shell.c  Shell.Parse for parse_command and its loop, Shell.Run for the
--     rest of main. Shell.Filters is some of TP2-SO-2025/Userland/Shell/commands.
--   TP2-SO-2025/Userland/Shell/commands/mvar.c  Mvar, with TP2-SO-2025/Kernel/shared_mvar.c: the byte
--     that writers and readers hand on, as a step relation.
-- Kernel is the state that the parts of scheduler.c, sem.c, pipe.c and process.c share: processes,
-- semaphores and pipes in memory, the process table, the priority queues and the registry of
-- semaphores. Base.Run is the monad of their operations: a run ends with a value and a state, with a
-- fault (a NULL or freed pointer, a panic), or without fuel. The Tests modules hold runs on small states.
--
-- What mm_alloc returns is an argument of the operations that call it; whether the scheduler, the
-- search of the registry of semaphores and the names of the wait semaphores get theirs stands in
-- the kernel's `memory`, from which ask takes an answer. The node of a new semaphore in the
-- registry and the queue of init_sem_queue are taken to be granted. An operation runs to its end
-- before the next one: the source guards them by the interrupt flag and by locks, which are not
-- state here. Where a process waits in the middle of a function, the model has two functions: one
-- up to the wait, and one, ..._resume, from there on. Numbers of w bits wrap where the source
-- counts.
--
-- Fuel: the loops of Queue get a round more than the queue has elements; order_for of Buddy gets 64
-- rounds, within which the source's loop has ended or never does (Buddy.Orders); digits_loop gets
-- the number itself; the aging of a level gets the fuel that its caller names, since the source's
-- loop need not end.
--
-- skip_pipes gets two rounds more than there is text, parse_all two more than the line has bytes;
-- the digits of a number get the number itself. The spaces of a tab get the fuel that the caller
-- names, since that loop need not end either; find_place of FirstFit gets the length of the circle.
--
-- What the user programs write is a list of bytes and colours; an int of theirs is the integer that
-- it stands for, and the negation of the least one is itself. The sums of atoi and sscanf are not
-- cut to 32 bits. The shell's lines are those whose command names fit in their array of 256 bytes.
--
-- Not modelled: the pixels of the screen, clock and sound, interrupts and start-up, fd_read and
-- fd_write, the system call table, the boot loader. Of a process, its arguments, entry point and
-- stack content. Of the modelled files: init_scheduler, freeSemQueue, the storage functions of
-- pipes, arrayFree, foreach_process and wait_all_children, keyboard_sem_init, the memory functions
-- of stdlib.c, the growth of the shell's table of parsed commands, and the commands that only pass
-- on to a system call.
pub mod Base
pub mod Queue
pub mod Kernel
pub mod Scheduler
pub mod Strings
pub mod Semaphore
pub mod Pipe
pub mod Process
pub mod Buddy
pub mod Array
pub mod Mvar
pub mod Libc
pub mod Shell
pub mod Keyboard
pub mod FirstFit
pub mod Console
pub mod SortedList
pub mod Syscalls
