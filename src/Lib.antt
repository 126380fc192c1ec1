-- ===== src/Lib.antt =====
-- Tacos is a small operating system kernel for RISC-V. This library models its parts below as executable
-- definitions and proves what they do.
--
-- Thread/ models kernel threads. A thread is an id into the table of `Kernel`, the state of the thread
-- manager (src/thread/manager.rs), its scheduler (src/thread/scheduler/priority.rs), the sleep queue
-- (src/sleepq.rs), the tick count (src/sbi/timer.rs) and the interrupt level (src/sbi/interrupt.rs).
--   Thread.Scheduler      PriorityScheduler: register, update_priority, schedule
--   Thread.Fcfs           Fcfs (src/thread/scheduler/fcfs.rs), which the kernel model does not use
--   Thread.State          Thread, Status, Kernel (src/thread/imp.rs)
--   Thread.Manager        Manager::register, schedule, schedule_tail
--   Thread.SleepQueue     the binary heap of sleepers, as a list from which the earliest entry is taken
--   Thread.Calls          block, exit, wake_up, set_priority, get_priority, sleep (src/thread.rs), spawn
--   Thread.Timer          tick
-- Sync/ models src/sync/ on top of it.
--   Sync.Intr             Intr (src/sync/intr.rs)
--   Sync.Once             Once, OnceCell, Lazy (src/sync/once.rs, src/sync/lazy.rs)
--   Sync.Sleep            Sleep: default, acquire, release (src/sync/sleep.rs), with the donation queues of
--                         src/thread/imp.rs
--   Sync.Condvar          Condvar: wait, notify_one, notify_all (src/sync/condvar.rs), over any lock of the guard
--   Sync.Semaphore        Semaphore::down, up, get_maxpriority (src/sync/sema.rs)
-- Files/ models byte streams and files.
--   Files.Stream          the loops of Read::read_exact and Write::write_all (src/io.rs)
--   Files.Vnode           the trait Vnode (src/fs.rs), and the contract that files rely on
--   Files.File            File over any vnode (src/fs.rs), with Seek (src/io.rs)
--   Files.Memory          the inode of src/fs/inmem.rs, which implements Vnode
-- Disk/ models src/fs/disk/.
--   Disk.Directory        DirEntry, RootDir: path2inum, exists, insert, remove (src/fs/disk/dir.rs); a path is the
--                         list of its bytes, and the check of UTF-8 a parameter
--   Disk.Inode            Inode: create, open, read_at, write_at, resize_inner (src/fs/disk/inode.rs) on the sectors of a device
--   Disk.FreeMap          FreeMap: get, set, reset, alloc, in_place_alloc, dealloc
-- Mem/ models src/mem/.
--   Mem.Words             rounding and powers of two (src/mem/utils.rs)
--   Mem.FreeList          InMemList, ListNode: a list that is linked through the free memory (src/mem/utils/list.rs)
--   Mem.Buddy             BuddyAllocator: insert_range, alloc, dealloc (src/mem/palloc.rs); a free list is the list of the
--                         addresses that its chain holds, and find and pop of a node are `elem` and `delete`
--   Mem.Arena             Arena and Desc: pools of blocks of one size (src/mem/malloc.rs)
--   Mem.Heap              Heap: alloc, dealloc and the counters (src/mem/malloc.rs), over Mem.Arena and Mem.Buddy
--   Mem.Entry             Entry (src/mem/pagetable/entry.rs)
--   Mem.PageTable         PageTable: map, get_pte, walk, walk_or_create (src/mem/pagetable.rs), whose tables come
--                         from Mem.Heap
-- Trap/ models traps.
--   Trap                  trap_handler (src/trap.rs), the page fault handler (src/trap/pagefault.rs), system calls
--                         (src/trap/syscall.rs)
--   Trap.UserByte         read_user_byte, write_user_byte and their assembly (src/mem/userbuf.rs)
-- Process/ models src/userproc/load.rs.
--   Process               load_segment over a function that installs a page, and install_page, which is that
--                         function in the kernel, and init_user_stack, over Mem.Buddy and Mem.PageTable
-- Prelude/ holds what the parts share: lists and bits over native numbers, double-ended queues, and
-- outcomes. A method on `&mut self` is a function from the state to an outcome and a state; the outcome
-- is a value, an error of src/error.rs, or a panic, which an assertion, an index out of range and an
-- overflow under the dev profile lead to.
--
-- What is not written out: the sum that gives the address of a table in the kernel's half, and the number of
-- allocated pages, have no bound here, where `usize` would overflow; the free lists of the page allocator
-- take any address, where the chain in memory needs one that is neither null nor in the list;
-- `from_block` takes the size of the blocks from the descriptor at hand, which is the one that the header
-- names; and the borrow that notify_all keeps across its calls of up is no state of the model.
--
-- A file has its vnode to itself: that several files and clones share one is not modelled.
--
-- A device is a list of 512 bytes for each sector below its capacity: a request of the driver reads or
-- replaces one, and fails its assertion beyond. Whether a user buffer translates to a kernel address is
-- a parameter of the inode's methods. Their loops have the length of the buffer as fuel, of which each
-- round takes a byte at least.
--
-- A switch of threads ends the run of a call: the model stops where the thread that has become current
-- goes on, and what follows the switch in the caller is a definition of its own (`down_loop` for the loop
-- of a semaphore, `remember_priority` for the end of `set_priority`, the jobs that are left for `acquire`).
-- A call of `acquire` has as fuel no less than its jobs. The level that a switched-out
-- thread restores is a field of the thread. Loops are recursion on the list or on the number of rounds;
-- the loop of `tick` has as fuel one more than the length of the sleep queue, of which each round takes
-- an entry.
--
-- Tick counts are natural numbers; `i64` would overflow after 2 ^ 63 ticks. Printing is left out. Boot,
-- firmware calls, device registers and register switching are assembly or hardware and are not modelled,
-- nor are the user programs, the tests and the tools; mounting, creating and opening of files by name, the
-- mutex, the spin lock and the request ring of virtio are not modelled. Of a trap, the assembly that saves
-- and restores the frame is left out, and of an executable the parsing of its header, which is a library.
-- The calls of the memory allocators run without interruption, as under the interrupt lock that
-- guards them. The search for the order of a number of pages has 64 rounds, one for each bit; that of a node has as fuel more than the
-- length of the list, and the loop of `insert_range` the pages of the range, of which each round takes one
-- at least. The loops of the directory have as fuel one more than the entries of the file.
pub mod Prelude
pub mod Disk
pub mod Thread
pub mod Sync
pub mod Files
pub mod Mem
pub mod Trap
pub mod Process
