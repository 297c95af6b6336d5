-- ===== src/Lib.antt =====
-- libhidl: the runtime library of HIDL, the interface language between Android's framework and its
-- hardware services. The library holds the data types that cross the process boundary, the results
-- of remote calls, helpers for threads and maps, and the client side of service lookup.
--
-- The parts, the files that model them, and the code:
--   Vec, Vec/*: hidl_vec (base/include/hidl/HidlSupport.h). Blocks is the memory behind it: `new[]`
--     and `delete[]` on numbered blocks; a method takes the object's fields and the memory. Vec/Pool
--     has programs over many vectors, and their meaning on lists.
--   Strings, Strings/*: hidl_string (base/HidlSupport.cpp, base/include/hidl/HidlSupport.h), over
--     the same memory, with the static empty string as a block of its own. Strings/Pool has
--     programs over many strings, and their meaning on texts.
--   Array, Array/*: hidl_array (base/include/hidl/HidlSupport.h), a flat buffer, and its exchange
--     with nested std::arrays, which are lists of lists.
--   Version, Version/*: hidl_version (base/include/hidl/HidlSupport.h).
--   Status, Status/*: Status and Return<T> (base/include/hidl/Status.h, base/Status.cpp). A failed
--     Return that nobody checks aborts the process; Run is the outcome of such code.
--   Queue, Queue/*, TaskRunner, TaskRunner/*: SynchronizedQueue and TaskRunner
--     (base/include/hidl/SynchronizedQueue.h, base/TaskRunner.cpp). A run is a list of actions of
--     the client and of the background thread, each one atomic as its lock makes it. Queue/Threads has
--     any number of threads on one queue, with notify_one as a step of its own.
--   MqDescriptor, MqDescriptor/*: MQDescriptor (base/include/hidl/MQDescriptor.h), the layout of a
--     message queue's memory and the file descriptors of its handle.
--   ConcurrentMap, Scheduling: ConcurrentMap (transport/include/hidl/ConcurrentMap.h) and its client
--     setMinSchedulerPolicy (transport/HidlTransportSupport.cpp).
--   Token, Token/*: the token manager's client (transport/token/1.0/utils/HybridInterface.cpp); it
--     uses Return for every remote call. Token/Programs has programs of calls and deaths.
--   Converter, Converter/*: the death recipients of H2BConverter, and programs that link and unlink
--     (transport/token/1.0/utils/include/hidl/HybridInterface.h).
--   Passthrough, Passthrough/*: the lookup of a service in the libraries of this process
--     (transport/ServiceManagement.cpp).
--   Services, Services/*: the wait for a service and the short process name
--     (transport/ServiceManagement.cpp).
--   Allocator, Allocator/*: the allocator of shared memory
--     (transport/allocator/1.0/default/AshmemAllocator.cpp), with the native handles of MqDescriptor.
--   Parcelling, Parcelling/*: statuses and versions in a parcel (transport/HidlBinderSupport.cpp).
--   Handle, Handle/*: hidl_handle (base/HidlSupport.cpp), the owner of a native handle; Handle/Pool
--     has programs over many objects, with a ledger of the handles that were acquired and closed.
--   Mapping, Mapping/*: the mappers of shared memory by name (libhidlmemory/mapping.cpp).
--   Casts, Casts/*: casts of interfaces (transport/HidlTransportUtils.cpp,
--     transport/include/hidl/HidlTransportSupport.h); their answers are Return objects.
--   Binders, Binders/*: the binder object of an interface and back
--     (transport/include/hidl/HidlBinderSupport.h, transport/HidlBinderSupport.cpp), with gBnMap as a
--     ConcurrentMap, and fromBinder's cast.
--   Embedded, Embedded/*: strings, memories, vectors and queue descriptors embedded in a parcel;
--     References, References/*: references to buffers of a parcel (the same two files).
--   Hybrid, Hybrid/*: the exchange of a HAL token between H2BConverter and HpInterface
--     (transport/token/1.0/utils/include/hidl/HybridInterface.h), over Token.
--   Instrumentor, Instrumentor/*: HidlInstrumentor (base/HidlInternal.cpp).
--   Pointer, Pointer/*: hidl_pointer (base/include/hidl/HidlInternal.h).
--   Managers, Managers/*: the reference to the hwservicemanager; DebugDump, DebugDump/*: debugDump
--     and the scan for clients (both transport/ServiceManagement.cpp).
--   SharedMemory, SharedMemory/*: hidl_memory (base/include/hidl/HidlSupport.h), a hidl_handle and a
--     hidl_string, and the mappings of transport/memory/1.0/default.
--   Entries: the process of the allocator and HIDL_FETCH_IMapper
--     (transport/allocator/1.0/default/service.cpp, transport/memory/1.0/default/HidlFetch.cpp);
--   Texts, Texts/*: toString (base/include/hidl/HidlSupport.h, base/include/hidl/MQDescriptor.h).
--   Legacy: transport/include/hidl/LegacySupport.h.
--   Prelude, Prelude/*: tests, lists, integers, texts and outcomes; Tests/*: concrete inputs.
--
-- Parameters: the values of status_t and of the scheduling policies, the remote services,
-- parcels, dup, close, mmap, clones of handles and ashmem_create_region, the dynamic loader,
-- regular expressions, number texts and the file system. What is assumed of them stands as
-- hypotheses of the theorems. `size_t` has 64 bits unless a width is a parameter, `uint32_t`
-- wraps at 2 ^ 32. Loops recurse on a list or on the number of rounds that the source gives
-- them, so no fuel is needed; the wait for a service recurses on what happens while it waits.
-- The loop over a package name, which grows under it, has fuel: twice the name's length and one.
--
-- Not modelled: the generated code of interfaces, logging, the thread pool, and the unit tests.
pub mod Prelude
pub mod Version
pub mod Queue
pub mod TaskRunner
pub mod Status
pub mod ConcurrentMap
pub mod Scheduling
pub mod Token
pub mod Converter
pub mod Blocks
pub mod Vec
pub mod Strings
pub mod MqDescriptor
pub mod Passthrough
pub mod Services
pub mod Allocator
pub mod Array
pub mod Binders
pub mod Instrumentor
pub mod Pointer
pub mod Embedded
pub mod Entries
pub mod References
pub mod Hybrid
pub mod DebugDump
pub mod Managers
pub mod SharedMemory
pub mod Texts
pub mod Legacy
pub mod Casts
pub mod Handle
pub mod Mapping
pub mod Parcelling
mod Tests
