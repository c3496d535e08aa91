-- ===== src/Lib.antt =====
-- nv-resource-controller: a shared library that is loaded in front of libc and limits the GPU memory
-- and the kernel launches of a process, and the monitor that sets the pace of the launches.
--
-- The program. src/dlfcn.c exports `ioctl` and `dlsym`. `ioctl` recognises the descriptors of the
-- NVIDIA driver by their device number (`get_device_number` of src/util.c), lets `pre_ioctl` of
-- src/ioctl_hook.c check a request for memory against the account of the device, calls libc's `ioctl`,
-- and lets `post_ioctl` charge what the driver has granted, give back what it has freed, or fill in the
-- answer to a question about memory. The account (`fb_info_t`) is a POSIX shared-memory object for each
-- device number, opened by `create_shm_addr` of src/util.c; the lists and counters of one process are in
-- `gpu_device` of src/ioctl_hook.c, behind a mutex.
--
-- `init` of src/entry.c runs when the library is loaded: it finds libc's functions in the loaded objects,
-- and `_init_device_prop` of src/ioctl_hook.c reads the limits from the environment (src/env.c) and opens
-- the account. In a process with a limit on launches it also opens the attributes of the process's group
-- (`token_attr_t`), another shared object, and starts the thread `token_post`, which posts tokens to a
-- semaphore that `rate_limit` of src/cuda_hook.c takes before each launch of a kernel. How many is set by
-- the monitor, src/server_monitor.c: every 100 ms it asks NVML for the load of the group and moves
-- `add_per_cycle` in the attributes (`delta_change`).
--
-- Which file models what:
--   Prelude            numbers, tests, lists, and `Cmd`: commands over a state that return, fault, wait
--                      for ever or exit
--   Platform           parameters: the constants of the NVIDIA and C headers, the list macros of
--                      include/list.h
--   Hook/Types         the structures of include/hook.h
--   Hook/Memory        `gpu_device`, the shared objects, the mutex
--   Hook/Logger        `LOGGER` of include/hook.h
--   Hook/Paths         the names of the shared objects, in include/hook.h
--   Util/DeviceNumber  `get_device_number` of src/util.c
--   Util/ShmAddr       `create_shm_addr` of src/util.c
--   Ioctl/Params       the argument blocks of the driver's `ioctl`
--   Ioctl/Align        the rounding of sizes in `pre_vid_heap_alloc` and `pre_rm_alloc`
--   Ioctl/Pre          `pre_vid_heap_alloc`, `pre_rm_alloc`, `pre_ioctl`
--   Ioctl/Alloc        `post_device_rm_alloc` to `post_rm_vid_heap_control`
--   Ioctl/Control      `__get_fb_info` to `post_rm_control`
--   Ioctl/Free         `free_device_page`, `free_heap_page`, `post_rm_free`
--   Ioctl/Post         `post_ioctl`
--   Ioctl/Account      when the account of one process is in order
--   Ioctl/Ledger       the allocations that a process has recorded
--   Dlfcn/Ioctl        the exported `ioctl` of src/dlfcn.c; Served is what a call is given, Moves what it
--                      does to the allocations, Ledgers the abstract view of a history of calls, Limit the
--                      quota with a driver that grants what has been asked for
--   Dlfcn/Dlsym        `get_next_symbol` and the exported `dlsym` of src/dlfcn.c
--   Entry              `retrieve_symbols` and `init` of src/entry.c
--   Cuda               the table of src/cuda_hook.c with include/cuda_entry.h, `find_entry` of
--                      src/util.c, `cuGetProcAddress`
--   Cuda/Launch        `rate_limit` and the four launch functions of src/cuda_hook.c
--   Token              one round of `token_post` of src/ioctl_hook.c; Loop is the whole of it, with the
--                      launches of its process
--   Init               `_init_device_prop` of src/ioctl_hook.c; Ready and Second put it together with
--                      `init_attr`, Watched with `main` of the monitor
--   Env                src/env.c: `get_limit`, `get_mem_limit`, `get_core_limit`
--   Util/Iec           `iec_to_bytes` and `get_env_from` of src/util.c
--   Util/Cgroup        `get_cgroup_id` of src/util.c
--   Util/Wait          `wait_duration` of src/util.c
--   Monitor            `init_attr` and `delta_change` of src/server_monitor.c
--   Monitor/Nvml       `init_handle` and `get_gpu_util` of src/server_monitor.c
--   Monitor/Watch      `watch_dog` and `main` of src/server_monitor.c
--   Group              `init_attr`, `delta_change`, the rounds of `token_post` and `rate_limit` as the
--                      steps of the processes of one group and their monitor; Counted and Undelayed
--                      are about how many kernels a process launches
--   Processes          several processes that share the account of a device
--   Tests              a concrete platform, and the theorems at inputs on it
--
-- State and results. A handler is a function from the memory of the process to a `Run`: `ok` with its
-- result and the memory it leaves, `fault` for undefined behaviour (a read through an invalid pointer or
-- of a variable that nothing has written, an `int` that overflows), `blocked` for a wait that nothing in
-- it ends, `exited`. `Returns P r` says that `r` is `ok` and that `P` holds of what it leaves: it is never
-- true of a run that does not come back. `malloc` is a parameter of type `Option ℕ`: the address of the
-- new node, or a null pointer. Sizes are 64-bit words and handles 32-bit words with the
-- wrap-around written out; a semaphore holds at most 2^31 - 1, and a `sem_post` beyond it does nothing.
-- The loops are over lists, so there is no fuel but for the bound that the source counts to itself.
--
-- Not modelled: what `LOGGER` prints, but for the one line of `main` that reads an array; the lifetime
-- of mappings and descriptors in `__get_fb_info`, which no result depends on; threads of one process
-- that allocate at once, except for two interleaved requests in Ioctl/Alloc/Race. In Group the halves of a
-- round, a launch and a call of the monitor are single steps, and in Processes whole calls of `ioctl`;
-- the reads and writes inside them are not interleaved, but for the charge in Processes/LostUpdate. The
-- hooks of src/cuda_hook.c run in one thread. The arithmetic on `float` and `double`, NVML, the dynamic
-- linker and the ELF images are parameters. The loops of `watch_dog` and `token_post` have no end: they
-- are modelled by their first turns and rounds.
pub mod Cuda
pub mod Dlfcn
pub mod Entry
pub mod Env
pub mod Group
pub mod Hook
pub mod Init
pub mod Ioctl
pub mod Monitor
pub mod Platform
pub mod Prelude
pub mod Processes
pub mod Tests
pub mod Token
pub mod Util
