-- ===== src/Lib.antt =====
-- A verification of the kernel of .C OS, a small x86_64 operating system in C: its memory
-- managers, its scheduler and system calls, its input drivers, and the services behind its
-- desktop.
--
-- The kernel is one program without processes of its own: kernel.c starts the parts one after the
-- other and then polls them. The input drivers (keyboard.c, mouse.c, usb.c) put events into rings
-- that the desktop takes them from; the launcher (app_launcher.c) and the system calls
-- (syscalls.c) work on the task table of scheduler.c; the other parts keep tables of their own.
-- Each part is a file here, with its state as a record and each C function as a function from the
-- state to the new state and the result. Static variables are the fields of the record. The name
-- of a C function loses the prefix that names its part: `pmm_allocate_frame` is `allocate_frame`
-- in Pmm. Logging is left out everywhere.
--
-- The files and what they model:
-- - Pmm: pmm.c, the bitmap of free page frames.
-- - Vmm: vmm.c, the table of page mappings, and the page tables that initialisation fills.
-- - Heap: heap.c, the slab caches and the blocks of the kernel heap.
-- - Scheduler: scheduler.c, the task table, the ready queue through the tasks' `next` pointers,
--   and the choice of the next task. Task types are in kernel.h.
-- - Syscalls: syscalls.c, the dispatcher, over Scheduler.
-- - Apps: app_launcher.c, the registry of applications, over Scheduler.
-- - Ring: the ring buffer that keyboard.c, mouse.c and usb.c each write out; Ring/Contents sees
--   it as a list, which the three drivers use.
-- - Keyboard, Mouse, Usb: keyboard.c, mouse.c and usb.c, with what the devices and ports read as
--   arguments.
-- - Windows: window_manager.c, the stack of windows.
-- - Files: file_ops.c, the table of files.
-- - Clipboard: clipboard.c.
-- - Fat32: fat32.c. Names has the names of the entries, Directory the search, opening and the
--   listing, and Reading the reads; the disk is a parameter, a function from the number of a
--   sector to its bytes or to nothing.
-- - Services: services.c, over Scheduler, Fat32, Notifications, Usb and Clipboard. Queues has the
--   print and tone queues and the spooler, Daemons the other services.
-- - Kernel: kernel.c. Multiboot has the walks over what the boot loader leaves, Memory what the
--   set-up of the memory makes of it over Pmm, Printing kprintf, and Shell the keys of the shell
--   over Vga.
-- - Gui: gui.c, the windows of the start-up and what the clicks do, over Notifications and Apps.
-- - Vga: vga.c, the text screen and the buffer of the graphics.
-- - Sync: sync.c, with the processors that share a lock as a step relation.
-- - Notifications: notifications.c and the state of control_center.c.
-- - Network: network.c, the bytes of the messages and the handlers of received ones. Card has the
--   driver of the card, Stack what is sent and received over it and the initialisation, over Pci.
-- - Pci: the configuration space of audio.c and ahci.c and the scans of its devices; pci_device_t
--   of kernel.h.
-- - Interrupts: interrupts.c, the descriptor table, the dispatch to the handlers, and the timer.
-- - Ahci: ahci.c, the disk driver. Command has the commands, the transfers and the
--   initialisation, over Pci.
-- - Audio: audio.c, the speaker and the detection of the controller, over Pci.
-- - Serial: serial.c.
-- - Base: Boolean tests, words and bits, arrays as functions of the index, search loops, and
--   integers.
--
-- Numbers are natural numbers; where a C variable has a width that the code can exceed, the
-- wrap-around is written out (`u8`, `u16`, `u32`, `u64`). An array is a function of the index,
-- written by `update`, and its bounds are part of the invariants. A pointer into a table is an
-- index, and NULL is `none`; the addresses in Ahci and Audio are numbers, and NULL is 0. A loop
-- that runs up to a bound is structural recursion. Some loops follow pointers or data and take
-- fuel: the walks over the tags of kernel.c take an argument, and `Enough` says how much; the
-- walks along the clusters of fat32.c take a step for each cluster or for each byte that is read
-- at least, and theirs is an argument, `none` where it runs out, and also where a cluster of more
-- than eight sectors is read over the end of the buffer of 4096 bytes on the stack; the loop of
-- spin_lock takes an argument too; the walks along the ready queue take 256 steps, the size of
-- the task table, which is enough for a queue that holds each slot at most once; the loop over
-- the DHCP options takes one step for each byte, and each step moves on by a byte at least; the
-- loop over the received packets, and the waits for a port of ahci.c and serial.c, take an
-- argument, since the device decides when they end, and are `none` where it runs out; the waits
-- that the source bounds take its bounds, but the 50000 looks of network_initialize are an
-- argument, since no theorem depends on their number; folding the carry of a checksum takes two
-- steps, since a 32-bit sum is folded after two.
--
-- A device is a parameter: a type of states, with functions that read and write its registers and
-- may change it with every access. Network/Card, Ahci, Audio and Serial each have a record of
-- these. What a theorem relies on of a device is a hypothesis.
--
-- What is not modelled: assembly (boot.asm, gdt.asm, isr_stubs.asm, context_switch.asm,
-- syscall_entry.asm), of which the addresses of the interrupt stubs are a parameter; the
-- controller in usb.c, and ahci_new.c, a placeholder; drawing (in gui.c, circles and the copy to
-- the screen in vga.c, and the render functions), which is output; the rest of the start-up in
-- kernel.c, which calls the parts one after the other, and the polling in its shell.
pub mod Ahci
pub mod Apps
pub mod Audio
pub mod Base
pub mod Clipboard
pub mod Fat32
pub mod Files
pub mod Gui
pub mod Heap
pub mod Interrupts
pub mod Kernel
pub mod Keyboard
pub mod Mouse
pub mod Network
pub mod Notifications
pub mod Pci
pub mod Pmm
pub mod Ring
pub mod Scheduler
pub mod Serial
pub mod Services
pub mod Sync
pub mod Syscalls
pub mod Usb
pub mod Vga
pub mod Vmm
pub mod Windows
