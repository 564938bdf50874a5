-- ===== src/Lib.antt =====
-- KalinoteOS64: a verification library for the kernel in os/.
--
-- The kernel is C for x86-64. The library models its core data structures as functions on explicit
-- memory: an address is a native number, `0` is NULL, a field of all objects of a type is a function
-- from addresses, and a write is `update`. A machine word is a number with its wrap-around written
-- out (`% 2 ^ 64`). What a function does to memory, its guards and its early returns included, is
-- one definition of the same name; a loop is a function of its own on fuel that gives `none` when
-- the fuel is used up, and the theorems about it show that more fuel than the length of the list is
-- enough. Console output by `color_printk` is left out of the other modules' functions.
--
-- * Links is `struct List` of os/include/lib.h, with Chain, Ordered and Distinct about the lists of
--   nodes. The scheduler's queue stands on it.
-- * Timer is os/kernel/timer.c, a singly linked list of its own that ends in `timer_list_last`. The
--   callbacks are a parameter.
-- * Sched is os/kernel/schedule.c on one processor, the task queue in place in the tasks' own nodes.
-- * KeyBuffer is the byte ring of os/driver/keyboard.c and os/driver/mouse.c, and Keyboard the scan
--   code decoder that reads it.
-- * Mouse is the decoder of os/driver/mouse.c with `mouse_cursor_move` of os/graphic/graphic.c.
-- * Pages is the page allocator of os/kernel/memory.c: the search of the bit map over words and
--   zones, taking and freeing pages, and the reference counts. Its theorems ask for zones that are
--   each followed by 64 pages out of use, Pages.Exact for counts that agree with the bit map as well; the loop over a zone has as many steps as the zone has
--   pages, and each step of the code is one page at least.
-- * Slab is the object allocator of os/kernel/memory.c on top of Pages and Links: Kmalloc and Kfree
--   are `kmalloc`, `kmalloc_create` and `kfree`, Cache, Objects and Init the `slab_` functions. `kmalloc`
--   and `kmalloc_create` call each other, and `kfree` itself, for slabs whose descriptor is an object
--   of a smaller size; `depth` counts these calls, and `none` stands for a write through NULL, which
--   `kmalloc_create` does not exclude, as for fuel used up. A colour map is kept bit by bit.
-- * Softirq is os/kernel/softirq.c, with the status word bit by bit and the actions as a parameter.
-- * Vfs is the list of file systems of os/kernel/VFS.c, with `strcmp` of os/include/lib.h.
-- * Fat is os/kernel/fat32.c on a drive that is a parameter, Fat.Device.Drive, with the laws of reading
--   and writing sectors in IsDrive: the entries of the tables; Fat.Name and Fat.Lookup are
--   `FAT32_lookup`, Fat.Entry `fat32_write_inode`, Fat.Superblock `fat32_read_superblock` and
--   Fat.Path `path_walk`. A chain of clusters is followed for a number of rounds, since a chain that
--   returns to itself never ends in the code either; a path needs one round for each byte.
-- * Disk is the request queue of os/driver/disk.c on Links, Sched and Semaphore's wait queues: what
--   the drive answers is a list that the busy loops use up, and what is written to it a list of
--   events. `IDE_transfer` is one step up to the change of the task, an interrupt another one.
-- * Semaphore is os/include/semaphore.h on Links and Sched: up and down are steps of their own.
-- * Spin is the spin lock of os/include/spinlock.h: a step relation of any number of processors, each
--   instruction on the lock word, and each load and store of the preemption count, one step.
-- * Printk is `skip_atoi` and `number` of os/kernel/printk.c, where 65 rounds write any 64-bit number;
--   Printk.Spec and Printk.Format are `vsprintf` on top of them, with one round for each byte, and
--   Printk.Cursor what `color_printk` makes of its text, `putchar` being a list of calls and a text
--   longer than `printk_buf` a fault.
--
-- Not modelled: the set-up of the zones in os/kernel/memory.c and the layers of os/graphic/layer.c,
-- which no theorem here relies on; and what is not C or only drives hardware: the boot loader, the
-- entry code, the interrupt controllers, the frame buffer. Saving and loading registers in
-- `switch_to` is assembly and left out of Sched.
pub mod Base
pub mod Chain
pub mod Ordered
pub mod Distinct
pub mod Links
pub mod Timer
pub mod Sched
pub mod KeyBuffer
pub mod Keyboard
pub mod Pages
pub mod Vfs
pub mod Printk
pub mod Softirq
pub mod Slab
pub mod Spin
pub mod Semaphore
pub mod Fat
pub mod Disk
pub mod Mouse
