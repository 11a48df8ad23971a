-- ===== src/Lib.antt =====
-- A model of the parts of the OS homework repository that carry its logic, with the theorems that
-- make them correct.
--
-- The program and its files:
-- * linux-5.15.178/kernel/kv_store.c gives every process a key-value store with two system calls.
--   `Kv` has the store and its operations under the names of the source, `Kv.Bucket` one hash bucket,
--   `Kv.Invariant` the map that a store stands for, `Kv.Calls` the two calls, `Kv.Lifetime` set-up and
--   clean-up, and `Kv.Threads` the calls of many threads at once, as a step relation, next to what a
--   caller sees of them in `Kv.Threads.Sequential`.
-- * linux-5.15.178/kernel/fork.c makes tasks and calls the set-up of the store. `Fork.Flags` has
--   the checks of the flags, `Fork.State` the state of `copy_process`, `Fork.Unwind` its error path
--   label by label, and `Fork` its steps. `Fork.Store` and `Fork.Leak` join it with `Kv`. `Clone`
--   has `kernel_clone` and the calls that lead to it, with `clone3` in `Clone.Extended`. `Stack`
--   hands out the kernel stack of a new task, of four pages, from a cache with any number of slots
--   (the source has two). `AddressSpace` copies the memory of a process: the loop of `dup_mmap`
--   over the areas, and in `AddressSpace.Whole` `dup_mm` with what it calls in the file. `Unshare`
--   has the `unshare` call, a function for each of its steps and labels, and `Walk` the walk over
--   the tree of processes; one round of `Walk.walk` goes down to a child, up to a parent or on to
--   the next thread. `Vfork` has a parent and the child that it waits for as a step relation, and
--   `Exe` the executable of an address space: its operations, and in `Exe.Race` those of many
--   threads at once, also as a step relation. `Life` has the two counters of an address space and
--   `Life.Group` those of threads and of the `signal_struct` that they share. `Limits` has the greatest
--   number of threads, and `Pidfd` what /proc shows of a descriptor of a process.
-- * linux-5.15.178/arch/x86/entry/vdso/vma.c maps the vdso, the clock pages and the page with a view
--   of the task, and vgetinfo.c reads the task through them. `Vdso.PageFault` has the fault handlers,
--   `Vdso.Map` the mapping, `Vdso.Address` the random address, `Vdso.Setup` the image for a new
--   program, `Vdso.Move` what happens to the areas later, and `Vdso.View` the reader.
-- * HardwareInfoAppPkg/HardwareInfoApp.c installs an ACPI table and HelloWorldPkg/HelloWorld.c finds
--   and replaces one: `Acpi`, `Acpi.Install`, `Acpi.Find` and `Acpi.Modify`, with the printing of all
--   tables in `Acpi.Print` and the whole program in `Acpi.Main`.
-- * linux-5.15.178/drivers/firmware/efi/efi_custom_hwinfo.c shows that table in sysfs: `Sensors`.
-- * memctrl/mmap/impl.c writes a file through a mapping, `FileMap`, and moves an anonymous area,
--   `FileMap.Remap`.
-- * network/tcpdump/custom_tcpdump.c decodes captured packets: `Packet`.
--
-- State is passed explicitly. An `int` is the integer of `Base.Int`, in range; an unsigned number is
-- a native natural number, with its wrap-around written out where it can happen. A breach of the
-- rules of the machine, such as a null pointer or a lock taken twice, is a value of `Base.Run`. The
-- loops run over lists or count down the rounds that the source gives them: 1024 buckets, the size of
-- a table, the entries of an XSDT, the four pages of a stack, the levels of a process number. The
-- rounds of `Walk.walk` are an argument: a walk takes one for each visit, thread and end of a process.
-- The functions of the kernel, the firmware and the C library that are not in the
-- repository are parameters: their answers, and for the memory manager in `Vdso.Map`,
-- `copy_page_range` and `exit_mmap` in `AddressSpace`, `zap_page_range` in `Vdso.Move`, `ftruncate` in
-- `FileMap`, `mmap`, `memcpy` and `munmap` in `FileMap.Remap`, `fls64` and `proc_dointvec_minmax` in
-- `Limits`, `pid_nr_ns` in `Pidfd` and the two functions of `Acpi.Modify` also their documented effect.
-- Where calls interleave, in `Kv.Threads`, `Vfork`, `Exe.Race`, `Life` and `Life.Group`, a step is one
-- access to what they share, and the theorems hold for every order of any number of steps.
--
-- Not modelled: the steps of `copy_process` that only fill in the new task and cannot fail, the other
-- functions of fork.c, the reference counts of pids, the trees and caches that only speed a search up,
-- messages, build files, patches, tests, and the programs in Python, Lua and C++.
-- The stack, thread-local storage and wanted numbers that `copy_process` passes on to `copy_thread`
-- and `alloc_pid` are not written out: the answers of these two stand for those calls.
-- `copy_process` takes whether `dup_task_struct` and `dup_mm` succeed as answers; `Stack` and
-- `AddressSpace` model these two on their own.
mod Base
pub mod Kv
pub mod Fork
pub mod Clone
pub mod Vfork
pub mod Exe
pub mod Life
pub mod Pidfd
pub mod Limits
pub mod Vdso
pub mod AddressSpace
pub mod Stack
pub mod Walk
pub mod Unshare
pub mod Acpi
pub mod Sensors
pub mod FileMap
pub mod Packet
