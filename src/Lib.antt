-- ===== src/Lib.antt =====
-- The runtime library and the kernel driver of the STRELA accelerator, verified.
--
-- The program has two halves. lib/strela.c is the library that a process links: a device context
-- with a sticky error, a pool of kernels, a heap of buffers, and slots for jobs. Under it
-- lib/allocators.c has the pool, the free list and an arena. driver/ is the kernel driver: buffer
-- objects, the check of submitted jobs, the accelerator with the one job on it, and the life of the
-- module. The two halves meet in the requests of include/uapi/strela_drm.h.
--
-- Which file models what:
--   Align, Pool, FreeList   lib/allocators.c: the alignment helpers, the pool, the free list
--   Arena                   lib/allocators.c: the arena and its temporary uses
--   Memory                  the memory that the allocators keep their lists in
--   Uapi                    include/uapi/strela_drm.h: the requests
--   Discovery               lib/strela.c: the iterator over /dev/accel, counting and finding devices
--   Device                  lib/strela.c, include/strela.h: the context, its errors, its calls
--   Context                 lib/strela.c: the start and the end of a context
--   Kernel, Buffer          lib/strela.c: the kernel and the buffer submodule
--   Job, Job/Run            lib/strela.c: the job submodule, strela_config and strela_execute
--   Sticky                  lib/strela.c: operations on a device in error
--   Driver/Binding          driver/strela_job.c, driver/strela_core.c: bindings
--   Driver/Submit           driver/strela_job.c: the submission of a job and its end
--   Driver/Engine           driver/strela_core.c, driver/strela_job.c: the job on the device
--   Driver/Sim              driver/strela_core.c: the simulated device
--   Driver/Gem              driver/strela_gem.c: buffer objects
--   Driver/Scheduler        driver/strela_job.c: timeouts, and what ends with the scheduler
--   Driver/Platform         driver/strela_drv.c, driver/strela_core.c: probe, remove, clients
--   Driver/SimDevices       driver/strela_drv.c: the module and its simulated devices
--   OldDriver               driver/strela_driver.c, include/uapi/strela_ioctl.h: the first driver
--   Base, Bits              shared names, words, lists, outcomes, and laws of `&` and `|`
--   Tests                   runs, and the theorems at concrete inputs
--
-- A definition bears the name of the C function, type or macro that it models. C state that is
-- changed in place is passed on: an operation takes the memory, the pool, the device or the engine
-- and returns it changed. `assert` and `abort` are the outcome `aborted`. What the system, the DRM
-- layer or the hardware answers to a call is an argument of the operation, and the calls made are
-- recorded in the state.
--
-- Numbers are unbounded, and the wrap-around of C is written out: the build is one with 64-bit
-- `size_t` and pointers, where the header of an allocation has 24 bytes and a node of the free list
-- 16. A walk over the free list has as much fuel as the area has bytes, and one more: each node
-- takes up at least one byte.
--
-- In FreeList, Blocks says which sequences of blocks a list in memory stands for, State has the
-- invariant, Search, Carve, Alloc and FirstFit are about allocation, and Nodes, Join, Free and
-- Release about linking nodes and freeing. The completions of the first driver are a parameter, with
-- the one law that a wait that follows a completion returns in time. What readdir, openat and
-- DRM_IOCTL_VERSION answer is a listing of the directory.
--
-- What a start takes of the system and gives back is a list of steps, of which each that gives back
-- gives the latest that is held (Base/Steps).
--
-- Not modelled: the tables of functions, ioctls and drivers, which are data for the kernel, the
-- warnings that are logged, and the programs under tests/ and tools/.
pub mod Base
pub mod Bits
pub mod Align
pub mod Memory
pub mod OldDriver
pub mod Arena
pub mod Pool
pub mod FreeList
pub mod Uapi
pub mod Device
pub mod Job
pub mod Kernel
pub mod Buffer
pub mod Discovery
pub mod Context
pub mod Driver
pub mod Sticky
pub mod Tests
