-- ===== src/Lib.antt =====
-- The virtual machine of Slate (src/vm): the heap with its tagged words, objects, marking and
-- sweep, the tables that slots and roles are looked up in, the caches of dispatched methods,
-- the optimizer's edits of code, the profiler, and the tables of memory areas and files.
--
-- A word is a native number below 2 ^ 64, and sums wrap around (Word, after src/vm/inline.hpp).
-- An object is the address of its header in a memory that is a function from byte addresses to
-- words (Header, Memory, after src/vm/inline.hpp and src/vm/object.cpp). Heap has the state
-- `struct object_heap` of src/vm/slate.hpp as a record and the write barrier of
-- src/vm/inline.hpp and src/vm/gc.cpp; Containers has std::set as an ascending list and
-- std::map as a function.
--
-- Mark is the marking of src/vm/gc.cpp (heap_mark, heap_mark_fields, heap_mark_recursively):
-- Mark/Step and Mark/Fields say what one object's fields do, Mark/Trace what is reachable,
-- Mark/Reach what the loop does. The loop runs on fuel; more fuel than there are objects is
-- enough. Space is the sweep of src/vm/gc.cpp (heap_make_free_space, heap_free_object,
-- heap_free_and_coalesce_unmarked): Space/Blocks is a region as blocks that follow one another,
-- Space/Sweep and Space/Swept the specification, Space/Coalesce and Space/Joined the rounds of
-- the loop, Space/Collect the whole call. The loop runs on one more than the bytes of the
-- region, and every block has 32 at least. Freeing an object tells the profiler and the
-- remembered set.
--
-- Allocation is the search for free space and gc_allocate_old of src/vm/gc.cpp, with
-- Allocation/Split about the block that is broken in two; the search runs on one more than the
-- bytes of the region, and the new hash (heap_new_hash of src/vm/object.cpp) on fuel that is an
-- argument. Collection has the roots of the marking and heap_gc, Collection/Tenure the tenuring
-- and heap_full_gc, all of src/vm/gc.cpp; their loops run on one more than the bytes of the
-- region, the marking on one more than those of both spaces, and an object is forwarded once at
-- most. Collection/Survive puts the marking and the sweep together, Collection/Unmark is the
-- unmarking before them, Collection/Roots the roots as lists, Collection/Base the state the
-- marking starts from, Collection/Young the whole of heap_gc, and Collection/Kept that with the
-- write barrier.
--
-- Tables is the slot and role tables of src/vm/object.cpp as lists of entries; their probing is
-- that of Common/Probe, which Pic shares. The names' hashes and the value of nil are arguments.
-- The two loops that choose a size run on fuel, the second one returning nothing when it runs
-- out or a shift would overflow. MethodCache is the global method cache of src/vm/method.cpp
-- with its flush in src/vm/gc.cpp, Pic the inline cache of a caller in src/vm/method.cpp.
-- Optimizer is the code editing of src/vm/optimizer.cpp with the tables of operation codes in
-- Optimizer/Opcodes; its loops run on one more than the words they walk over, since an
-- instruction has a word at least, and the replacement of returns, which makes the code longer
-- by three words for two, on one more than three times the words.
--
-- Profiler is src/vm/profiler.cpp, a call of an empty vector's back being a missing result; the
-- clock is an argument. MemoryAreas is src/vm/external-memory.cpp and Files
-- src/vm/external-files.cpp without WIN32; what malloc, realloc, fopen and the other calls of
-- the C library return is an argument. Handles of memory areas are below their maximum, and
-- sizes and offsets are not negative. Asserts of the source are not modelled, but for the limit
-- of the old space: where a theorem needs one, it is a hypothesis.
--
-- Primitives is the primitives on small integers and arrays of src/vm/primitives.cpp;
-- Primitives/Exact and Primitives/Arrays say what they compute. Allocation/Young is gc_allocate
-- without a collection and the clones of objects, Allocation/Hash the loop for a new hash,
-- which has two rounds.
--
-- Interpreter has the registers and the stack of src/vm/interpreter.cpp; the interpreter's own
-- object is a record beside the memory, since no other object overlaps it. Interpreter/Apply is
-- applying a closure, Interpreter/Return returning, Interpreter/Branch the branch by a key,
-- Interpreter/Step and Interpreter/Instruction the instructions of the loop, Interpreter/Send
-- and Interpreter/Resend signals, sends and resends. A step has a machine, a signal, a send, a
-- resend or a primitive as its result, and none where an allocation would collect, where
-- applying a closure would optimize its method, and where the assertion on the number of its
-- arguments or on the offset of a jump fails. Doubling the stack has one more round than the
-- places that are asked for. Interpreter/Growth, Calls, Entry, Applied, RoundTrip, Jumps and
-- Branch/Lookup hold the proofs.
--
-- Dispatch is method_dispatch_on of src/vm/method.cpp over the objects in memory: Dispatch.antt
-- what is done with a role, Dispatch/Visit the walk over the delegates with the delegation
-- stack as a list, Dispatch/Cached the cache. The walk runs on fuel that is an argument, and
-- has no result where it runs out; the shift of a rank is defined for six arguments at most.
-- Dispatch/Definition is what the definition of methods asks of the call stack and of roles,
-- and Pic/Callers the callers of a method.
--
-- Image is saving and loading: the table of moved objects and the adjustment of pointers of
-- src/vm/object.cpp, heap_initialize of src/vm/gc.cpp, and the parts of main in src/vm/vm.cpp
-- and of prim_save_image in src/vm/primitives.cpp that read and write an image; what malloc,
-- calloc and fread return is an argument. Image/Forward is about the table, Image/Adjust and
-- Image/Adjust/Back about the pointers.
--
-- Memory/Bytes has the bytes of the memory's words, the lowest one first, and Primitives/Bytes
-- the primitives on byte arrays, Primitives/Slots those on the slots of an object by name, over
-- the slot table in memory, Primitives/Objects those on identity, clones, maps and frames,
-- whose walk has one round more than the frame pointer; External is the conversion of integers
-- to byte arrays and back of src/vm/external-library.cpp.
--
-- Not modelled: the forwarding of one object to another (heap_forward), the optimization of
-- methods while they run, the definition of methods, the primitives on floats, on memory areas
-- and on clones with other slots, printing, and the calls of the operating system for pipes,
-- directories, sockets and foreign libraries, but for the conversion of integers.
pub mod Common
pub mod Word
pub mod Header
pub mod Memory
pub mod Containers
pub mod Profiler
pub mod Heap
pub mod Mark
pub mod Space
pub mod Allocation
pub mod Optimizer
pub mod MemoryAreas
pub mod Files
pub mod Tables
pub mod MethodCache
pub mod Pic
pub mod Primitives
pub mod External
pub mod Collection
pub mod Image
pub mod Interpreter
pub mod Dispatch
pub mod Tests
