-- ===== src/Lib.antt =====
-- RJK, a small kernel for the IA-32: a verification library of its core.
--
-- The kernel schedules threads on one ring, hands out pages from linear page tables, keeps the time
-- from the real-time clock, runs timers, and serves interrupts through two controllers. Its parts
-- protect their state with spinlocks; read-write locks are built on those. Words are
-- 32 bits wide: every definition writes the wrap-around out as a remainder.
--
--   Base     numbers, tests, lists, machine words and bits that all parts share
--   Atomic   arch/ia32/atomic.c: a memory of words, one function per operation
--   Spinlock arch/ia32/spinlock.c: rounds of the lock loop; threads as a step relation
--   Rwlock   arch/ia32/rwlock.c: rounds of the loops between spinlock sections; the threads counted
--            by place, in a step relation
--   Thread   arch/ia32/thread.c: thread records by address, the ring through `next`, the scheduler,
--            the switch, kthread_create, and the functions on a tid. Frame models the stack
--            frame of a new thread and the restore sequence of arch/ia32/entry.S
--   Timer    arch/ia32/timer.c: the list of timers, ktimer_add, the loop of timer_thread, ktimer_init
--   Memory   arch/ia32/memory.c: the linear page tables in memory and get_free_pages; Bytes has
--            the copies and fills, Words the accesses to one word; Virtual the virtual page tables, the
--            regions of virtual pages, and page faults; Elf read_elf, with
--            arch/ia32/include/elf32.h; Setup the two set-up functions, with what the first
--            leaves (Build to Whole) and the address spaces reached from there (Reach); Report
--            print_page_table and copy_pages
--   Time     arch/ia32/time.c: read_rtc, the interrupt handler, the kernel's clock, ktime_init
--   Irq      arch/ia32/irq.c: the mask, the handlers, the ports written, handle_irq; Exception
--            handle_exception, with print_stack_trace of arch/ia32/thread.c
--   Mutex    arch/ia32/mutex.c: a mutex as two words of the memory of Atomic
--   Processor arch/ia32/processor.c: the byte swaps, the flags
--   Module   arch/ia32/module.c: the table of the boot loader's modules and the walk through it
--   Port     arch/ia32/ioport.c: reads and writes of ports over any devices, and their array forms
--   Printf   arch/ia32/printf.c: the number writers, the format's directives and kvsprintf, raw_print on a
--            screen in memory, kvprintf, kprintf_init
--   Condition arch/ia32/condition.c over Mutex and Thread: signal, broadcast, and the parts of
--            kcondition_wait before, between and after its suspensions
--   Init     arch/ia32/init.c: setup, with what the boot loader has left, and the loop of init over the
--            modules. Bounds, Keep, Ranges and Blocked say where the page tables are
--            built and what setup keeps
--   Interface include/kinterface.h, arch/ia32/include/internal.h and arch/ia32/internal.c: the functions
--            by name, the members of the struct, the prototypes and the initialiser; module/main.c in Start
--
-- A function keeps its name. What one lock protects, with interrupts off or not shared with them, is
-- one step on the state. A page fault, an endless loop and a lack of fuel are `none`.
-- Pages that an allocation returns and the clock are arguments or fields of the state.
--
-- Fuel: the scheduler's loop takes rounds; one more than the ring has other threads is enough when a
-- thread may run, and no number is enough when none may. The loop of timer_thread takes one round more
-- than there are timers, when the functions called set none. The loops of get_free_pages take the rounds that their bounds leave, so they
-- need no fuel. kspinlock_lock takes rounds, one being enough on a free lock.
--
-- set_virtual_entry calls itself for a table of its own; rounds bound how deep, and where the table
-- is there it needs one. The loop of kvsprintf takes one round more than the format has bytes, and the
-- digits of a number 11.
--
-- kvsprintf reads its arguments as the 32-bit words on the stack; the memory behind a string
-- argument and the writer of floats are parameters. Float models that writer, write_number_kfloat, over
-- a parameter for the operations on floating point numbers.
--
-- The trace of a stack takes one round more than there are frames; kmemory_linear_setup's loops take the
-- rounds that their bounds leave, and linear_block one more than there are pages; setup_kept asks for more
-- than the pages that the tables reach, which serves for every call.
--
-- Not modelled: arch/ia32/start.S and the interrupt stubs of arch/ia32/entry.S, which are glue; the array
-- copies of memory.c, whose `rep` stands before no instruction of theirs; the order in which init starts the
-- devices, and the switches to the threads that it creates; what a text longer than the page of kprintf_buffer
-- writes behind that page, and an access to a word across the end of the address space.
pub mod Base
pub mod Atomic
pub mod Condition
pub mod Init
pub mod Interface
pub mod Irq
pub mod Memory
pub mod Module
pub mod Mutex
pub mod Port
pub mod Printf
pub mod Processor
pub mod Rwlock
pub mod Spinlock
pub mod Thread
pub mod Time
pub mod Timer
