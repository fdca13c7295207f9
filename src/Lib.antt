-- ===== src/Lib.antt =====
-- XinOS, a small preemptive kernel for one RISC-V hart (qemu's virt machine): its memory managers, its
-- task scheduler, its timers, locks and devices, and its start, translated from the C code of os/. The
-- 64-bit build, the default of os/Makefile, is modelled: pointers, size_t and reg_t are numbers below
-- 2 ^ 64, an int is its 32-bit pattern, and wrap-around is written out.
--
-- The parts, and how they interact:
-- - os/page.c hands out pages by a table of flag bytes at the start of the heap (`page_init`,
--   `page_alloc`, `page_free`); `malloc` and `free` take pages from it, and divide a page into blocks
--   of 4 bytes with a second table at the page's end when the request is small.
-- - os/sched.c keeps the tasks in a list ordered by priority. `pop_task` picks the first one that does
--   not sleep and puts it back with a lower priority. A change of task is asked for by a software
--   interrupt, which `task_yield` raises.
-- - os/timer.c keeps the software timers in a list ordered by timeout. The timer interrupt counts a
--   tick, calls the functions of the timers that have run out, wakes a task that slept by `task_delay`,
--   and ends the time slice of the current task.
-- - os/printf.c lays a format out twice: once to count the characters, once to write them to a buffer
--   that goes to the serial line, os/uart.c, which answers received characters by interrupt.
-- - os/lock.c has a lock that disables interrupts, and a spin lock over an atomic exchange, around which
--   the tasks of os/user.c loop.
-- - os/trap.c gets every trap. A software interrupt runs the scheduler, a timer interrupt the timers, an
--   external one claims its source at the controller (os/plic.c) and runs the echo of os/uart.c; an
--   exception is a system call of os/syscall.c or a panic.
--   Before that, os/entry.S has saved the registers in the context of the current task, from which they
--   come back at the end of the trap or when `switch_to` chooses the task again.
-- - os/start.S runs from the reset to `start_kernel` of os/kernel.c, which starts all parts and creates
--   the tasks of os/user.c.
--
-- The files (a part's main file has the state and the operations; its children have the proofs, and
-- Tests the runs at concrete states):
-- - Base: the names shared by all, bit masks as arithmetic (Base/Bits), lists (Base/Lists), fixed-width
--   integers, pointers and memory (Base/Store).
-- - Page: os/page.c up to `page_free`, over a record Heap of the linker's symbols, the variables of the
--   file and the memory. Page/Layout is about `page_init`, Page/Flags about the flag bytes, Page/Run,
--   Page/Search and Page/Tidy about `page_alloc`, Page/Release and Page/Free about `page_free`.
-- - Malloc: the rest of os/page.c, `malloc`, `free` and `memcpy`. Malloc/Usage is about the counter of
--   blocks in use, Malloc/Fit, Take, Marks, Init, Fresh, First and Overlap about `malloc`, Malloc/Copy
--   about `memcpy`;
--   Malloc/Looks, Return and Release follow `free` behind `malloc`, Malloc/Inside is about the place of
--   what `malloc` returns.
-- - Chain: linked lists in memory, as a function from an object's address to the next one, and the
--   walk with two pointers that both lists of the kernel use; Chain/Edit has linking and unlinking,
--   Chain/Order the sorted lists, Chain/Member what stands in a list, Chain/Wait how long an object
--   waits in one.
-- - Hart: the control registers of os/riscv.h and the timer registers.
-- - Task: os/sched.c, over a record Sched; one child for each of `insert_task` (Insert), `pop_task`
--   (Cut and Pop), `task_exit` (Exit) and `task_create` (Create). Task/Ready and Task/Next are about
--   `schedule`, Task/Fair about many turns, Task/Number about the numbers that tasks get.
-- - Timer: os/timer.c and `task_delay` of os/sched.c, over a record Timers that holds the Sched; one
--   child for each of `timer_create` (Insert), `timer_delete` (Delete), `timer_check` (Check),
--   `elapsed_time` (Clock), `timer_init` (Alarm) and `timer_handler` (Handler).
-- - Printf: os/printf.c, with an output buffer as state. Printf/Text is the text that a format stands
--   for, Printf/Scan compares the scan with it, Printf/Output and Printf/Bounds are about the
--   buffer, Printf/Number about numbers, Printf/Line about `printf` and `panic`.
-- - Lock: os/lock.c, and the interleavings of the tasks of os/user.c at one lock (Lock/Exclusion);
--   Lock/Interrupts is about `basic_lock`.
-- - Uart: os/uart.c, over a record of the registers with the readings to come: Uart/Setup is about
--   `uart_init`, Uart/Send about `uart_puts`, Uart/Echo about `uart_ier`.
-- - Plic: os/plic.c, over a record of the controller's registers.
-- - Trap: os/trap.c and os/syscall.c, over a record Machine that holds the Timers, the Plic and the
--   Uart. Trap/Dispatch is about causes and system calls, Trap/Switch about the change of tasks,
--   Trap/Input about the serial line. Trap/Messages has what the handlers print, as outputs that come
--   before the trap's changes; Trap/Spoken, Says and Told are about the texts that are sent.
-- - Entry: os/entry.S and os/usys.S, as lists of instructions that run over a record of the registers and
--   the bytes of the memory, for both builds. Entry/Bytes, Save and Restore are about the loads and
--   stores, Entry/Enter and Resume about the ways into a trap and back, Entry/RoundTrip about both with
--   other tasks between them, Entry/SleepCall about the system call `sleep` from its caller and back,
--   Entry/Swap about `atomic_swap`.
-- - Start: os/start.S, with Start/Bss about all of it.
-- - Kernel: os/kernel.c and `user_init` of os/user.c, over a record System that holds the Machine, the
--   Heap and the output buffer. Kernel/Boot is about `start_kernel`, Kernel/Users about the tasks.
-- - User: the rest of os/user.c, the function of the timers (User/Timeout) and the bodies of the tasks
--   (User/Discipline), as what they do one after the other.
-- - Run: the scheduler and the timers while the kernel runs. `happen` is one interrupt, or one call of a
--   task (`task_delay`, `task_exit`, `task_create`, `timer_create`, `timer_delete`), over the Machine.
--   Run/State has what holds between two events and what an event asks for, Run/Sleepers is about the
--   timers of sleeping tasks, Run/Checks and Run/Tick about the timer interrupt, Run/Switch, Sleep,
--   Exit, Create and Timers about the other events, Run/Wake, Run/Nap and Run/Alarm about many timer
--   interrupts, Run/Reach and Run/Keep about any sequence of events.
-- - Programs: `page_test`, `malloc_test` (Programs/MallocTest) and the table printers of os/page.c
--   (Programs/Table), as lists of messages.
--
-- Memory is a function from addresses to bytes, and a C struct is one function per field, from the
-- object's address to the field. Where the scheduler and the timers call `malloc`, the address that it
-- returned is an argument. A function of the code keeps its name, without a leading underscore.
--
-- Fuel: the loop of `page_free` gets one round more than there are pages, which is enough by a theorem
-- below. A walk along a linked list gets fuel from its caller; the theorems ask for more fuel than the
-- list is long and show that this is enough. The loop of os/start.S gets a round for each four bytes.
-- The other loops count rounds that the code bounds itself.
--
-- A device is what its registers will read: a wait for the serial line consumes a list of readings,
-- and has no result when the list ends first.
--
-- In Run, the software interrupt that a call asks for comes before the task's next instruction, a timer
-- function changes no timer and no task, and interrupts come between two calls, not inside one. Of its
-- surroundings it asks that `malloc` returns an object that is not in use, with a state other than
-- SLEEPING when it is for a task; that the numbers of tasks do not run out; and that tasks give a
-- function to a timer that they start and stop only such timers, while they are in the list.
--
-- In Entry what the hardware does on a trap is the state at the entry, with the cause that an `ecall` has
-- in the mode of the task, `mret` is its jump, the compiled `trap_handler` is a parameter, and no address
-- wraps around.
--
-- Not modelled: the 32-bit variants of the C code, the linker script and os/mem.S, whose symbols are
-- fields of records, `trap_test`, which only provokes a fault, and the exercises. The output of a timer's
-- function is modelled apart from the tick that calls it.
pub mod Base
pub mod Page
pub mod Malloc
pub mod Chain
pub mod Hart
pub mod Task
pub mod Timer
pub mod Printf
pub mod Trap
pub mod Lock
pub mod Uart
pub mod Plic
pub mod Kernel
pub mod Programs
pub mod Run
pub mod User
pub mod Entry
pub mod Start
