-- ===== src/Lib.antt =====
-- The eBPF programs of monsa-ebpf: what they leave in their maps, rings and logs.
--
-- The repository holds small kernel programs, each with a loader. A program runs once for each
-- kernel event: it reads a context, calls helpers, updates maps, and may submit a record to a ring
-- buffer, from which its loader reads. The programs of S1-basic/examples count events; those of
-- S2-advanced/examples also emit records. Each one is a function from the helpers' values, a
-- context and a state to a return code and a new state.
--
-- - Base: words, bytes, strings and lists. `add64`, `sub64`, `low32`, `high32`, `bswap16` are the C
--   operations with their wrap-around; `memcpy` writes over the first bytes of a buffer.
-- - Kernel: what is not part of the repository, as interfaces. `Helpers` are the values of the
--   helper functions (common/include/bpf_helpers.h) during one run, `HashMap`, `PerCpuArray` and `RingBuf`
--   the maps, arrays and rings, `IsHash`, `IsLruHash`, `IsPerCpuArray` and `IsRing` their documented
--   behaviour: an update of a new key
--   fails on a full hash map, an LRU map always has room but may evict, a reservation may fail and
--   shows old bytes. Kernel/Memory has instances of each, with a bounded size.
-- - Counting: the counter update `hit` and the block `emit` that reserves, fills, logs and submits a
--   record; most programs consist of these two. Counting/Map, Trace, Emit and Sampling have their
--   lemmas for any program that is made of them.
-- - Packet: reads of packet data as `Run`, where `fault` is a read outside the packet, `stop` an
--   early return and `done` a value; Packet/Loads has the rules for reads within bounds, and
--   Packet/Frame the frames that a sender builds.
-- - Advanced/Tracing, Userspace, Perf, Cgroup, Network, Security: one module for each program, with
--   the source's names: `KprobeEvent` is `struct kprobe_event`, `fill` the stores into the reserved
--   record, `lines` the calls of `bpf_printk`, and the handler has its C name. Two programs of one
--   file that share maps (kretprobe, fentry/fexit, uretprobe) are functions on one state.
--   Advanced/Latency is the struct and update that fentry/fexit and uretprobe share.
-- - Basic: the programs of S1-basic/examples. PerCpu is `bump` on a per-CPU array and the sum that
--   `print_stats` prints; Classes and Counters have the programs on such an array, with the CPU they
--   run on as an input; Probes those with hash maps, and a ring that is written by
--   `bpf_ringbuf_output`.
-- - Counting/Race: the counter update as separate steps of several CPUs; Advanced/Latency/Race: the
--   update of the latency statistics likewise.
-- - Loader: each `main` of a `*_user.c` as `<example>_main`, for S2-advanced in Loader/Advanced and
--   for S1-basic in Loader/Basic. `Frame` holds the variables that are set, `err` and the calls made;
--   a statement leaves `main` at the next one, at its label, or returned. `Answers` is what libbpf and
--   the system return. Discipline says what a loader may do with what it holds, and Plan what each
--   has to do; Polling is about the loop that looks at its polls.
-- - Report: what the loaders print. Layout and Wire are the memory of a record between program and
--   loader; Records has the structs and the `handle_event` of each example, Delivery all of them
--   together, Execve one program with its loader, Timestamp `format_timestamp`, and Maps the prints
--   of the S1 maps, with the walk over the keys of a hash map (Walk) and the variables that the
--   elements of per-CPU maps are read into (Buffers).
-- - System: the loop of a loader at work. `System` holds the maps of the programs, the variables of
--   the loop, the records handed to the handler and the output; a schedule is a list of program
--   runs, the signal and steps of the loader. `IsPolled` is what libbpf documents of
--   `ring_buffer__poll`. `Programs` is the interface between the loop and the programs, which
--   Session fills for the eleven examples that Counted lists: those whose program is one counter
--   update and one record in each run. Openat fills it for kretprobe, with the
--   returns that its records are of in Openat/Calls, and Ledger for fentry_fexit.
-- - Tests: runs on concrete data.
--
-- Numbers are natural numbers below the width of their C type, except `__s64` and `__s32` values,
-- which are `ℤ`. The target is little-endian, for which the programs define `bpf_ntohs` as a byte
-- swap. The loops are recursions on a list or a number, but for two: `digits` has fuel for the 20
-- digits of a 64-bit number, and `walk` fuel for one round more than a map has keys, which its
-- theorem shows to be enough. A run of a program is one step, except in Counting/Race and
-- Advanced/Latency/Race, where the CPUs of one entry interleave. In Loader, the loops of the
-- loaders run over the results that the environment gives up to the stop signal; in System they run
-- with the programs, up to the end of a schedule. Trace lines are appended with the submit,
-- whichever of the two comes first in a program, and an argument that points to an address (`%pI4`)
-- stands as that address. The string that `bpf_probe_read_kernel_str` reads in lsm_file_open.bpf.c
-- is copied.
--
-- Not modelled: what several CPUs do to anything but a counter or an entry of the latency
-- statistics; a program run in the middle of a call of the handler; text on standard error; the
-- rounding of `double`; the scripts; the contents of kernel headers, of which the sizes and offsets
-- of protocol headers and the numbers of commands and accesses are constants here. In one `printf`
-- with two `inet_ntoa` (xdp) the first argument is taken to be evaluated last, as compilers for
-- x86-64 do. The theorems hold for all maps and rings with the behaviour that their `Is` records
-- state.
pub mod Base
pub mod Kernel
pub mod Counting
pub mod Packet
pub mod Basic
pub mod Advanced
pub mod Loader
pub mod Report
pub mod System
pub mod Tests
