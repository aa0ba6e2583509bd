-- ===== src/Lib.antt =====
-- Cuddl, a user-space device driver layer: the kernel module and its protocol with user space.
--
-- A driver describes a device by its memory regions and its event source, and hands it to the
-- manager, which numbers it, registers it with UIO (and with UDD on Xenomai) and puts it into a table
-- of 256 slots. A process claims and releases resources of managed devices by ioctl commands; the
-- manager counts the references to each resource and keeps a list of them with the process of each,
-- so that the janitor can clean up behind a process that ends without a release.
--
--   Base, CStr   native numbers, arrays as functions with a bounded scan, C ints, error codes, strings
--   Act          actions on a state whose result is a value, an error code, or a fault; Keeps, Runs and
--                Triples are what can be said of them
--   Device       kernel/include/cuddlk/{device,memregion,eventsrc,interrupt}.h and
--                kernel/src/cuddlk_common.c: the device record and the search for a resource
--   Kernel       the state of kernel/linux/src/cuddlk_manager_linux.c; Keeps and Runs are its invariants
--   Register     kernel/linux/src/cuddlk_linux.c: cuddlk_device_register and _unregister
--   Manager      kernel/src/cuddlk_manager_common.c, one function for each of its functions
--   Refs         the reference counts and the lists of cuddlk_manager_linux.c; Counted is the invariant
--                that each count is the number of references, Cleanup and Exit the clean-up
--   Ioctl        cuddlk_manager_ioctl: Commands has the structures of
--                common/include/cuddl/common_impl_linux_ioctl.h, Claim, Release and Query the commands,
--                Buffers the ten allocations; Sound, Duty and Reach the invariant over all commands,
--                Total that they return, RoundTrip that a release undoes a claim
--   Boot         cuddlk_manager_init, _cleanup and _exit of cuddlk_manager_linux.c
--   Janitor      kernel/linux/src/cuddlk_janitor_linux.c
--   Interrupt    kernel/linux/src/cuddlk_linux.c: open counters, handlers, notification; Delivery says
--                which events reach the open files, Lines registers an interrupt line
--   View         what the manager promises, as a ledger of who holds what, and that its commands and
--                the clean-up after a process implement it
--   User         user/src/cuddl_linux.c: the functions that a program calls, over the system calls of
--                its process, with Memregion, Eventsrc, EventSets, Queries and Lifetime (the janitor);
--                an ioctl runs manager_ioctl; Descriptors and Library say what stays open, SetLaws and
--                Ready what a set of event sources is, Lives what the end of a process does,
--                Recorded which references the manager has while a process holds a resource, and
--                Rounds what a claim and its release leave on both sides
--   Cpp          user/include/cuddl/*.hpp: Names is ResourceID, Flags and Versions the classes of these
--                names, Objects is MemRegion, Sources is EventSrc and EventSrcSet, Manager the functions
--                that ask; an exception is a value (Errors), and Scope is what C++ does with a local
--                variable that has a destructor
--   Tests        runs on concrete inputs
--
-- State. A pointer to a device is a number, 0 is NULL, and memory is a function. A fault stands for
-- what does not return: a NULL pointer that is followed, a mutex that is locked twice, a read that
-- blocks for good, a write behind the end of a set of descriptors, or a loop that runs out of fuel.
-- A count is a C int, kept as its pattern modulo 2^32.
-- Bounds. The loop over instance numbers has 256 units of fuel: each of its rounds goes on behind a
-- later slot. All other loops are over a fixed range or a list.
-- Outside the model. UIO, UDD, allocation, copying from and to user space, and the texts that the
-- build generates are parameters: fields of Platform (Register), Call (Ioctl/Commands), InitCalls (Boot)
-- and JanitorCalls (Janitor). The system calls of a process are too: the n-th one turns out as entry n
-- of the script of its Env (User) says, and a descriptor is given back whatever close returns. A
-- signal that is pended is counted until its handler runs.
-- Not modelled. The header files of RTEMS; access to device registers (the volatile loads and stores of
-- iomem.h, and the functions and members of memregion.h and memregion.hpp that do one at an offset),
-- as what a register answers is not in this code; debug output; the C++ members that read a field.
pub mod Base
pub mod Act
pub mod CStr
pub mod Device
pub mod Kernel
pub mod Register
pub mod Manager
pub mod Refs
pub mod Ioctl
pub mod Janitor
pub mod Boot
pub mod Interrupt
pub mod User
pub mod View
pub mod Cpp
pub mod Tests
