-- ===== src/Lib.antt =====
-- A verification library for cogutil, the utilities of OpenCog: models of its header-only
-- containers, caches and algorithms and of its configuration files, with the theorems that hold of
-- them. Most parts stand alone in the program and share only Base and Sorted here; the asynchronous
-- callers are clients of the concurrent containers.
--
-- Base/Tests, Base/Lists, Base/Order: Boolean tests of numbers, lists measured by numbers, and the
-- interface `Less` of a strict total order, which stands for `std::less` and `operator<`.
-- Sorted: `std::set` over such an order, as a list in ascending order; Sorted/Laws has its laws.
--
-- Concurrent/Chan: the state that the mutex guards in opencog/util/concurrent_queue.h,
--   concurrent_stack.h and concurrent_set.h, and how a critical section ends: it returns and sends a
--   signal, throws `Canceled`, or waits. The body of one lock is one step.
-- Concurrent/Monitor: threads that call these sections in any order, with sleepers and notifications
--   on their way: `notify_one` wakes at most one sleeper, any one of them, and a sleeper may also
--   wake of itself. Monitor/Wakeup has what the classes share of their wakeups.
-- Concurrent/Queue, Concurrent/Stack, Concurrent/Set: one function for each method of the classes
--   concurrent_queue, concurrent_stack and concurrent_set. The destructors only call `cancel`.
-- Concurrent/Pool: the class pool of opencog/util/pool.h in the same way, without a flag.
--
-- Cache/Entries: list nodes with identities, and the map of opencog/util/lru_cache.h that is keyed by
--   list iterators and compares what they point at.
-- Cache/Lru: the class lru_cache. The cached function is a parameter that may throw. The loop of
--   `resize` runs on fuel, the size of the map, since each round takes one entry. Lru/Ideal is the
--   specification, a list of results with the most recent first; Lru/Refine relates the two, Lru/Inv
--   has the invariant, Lru/Resize the other operations, and Lru/Histories sequences of all of them.
-- Cache/Prr: the class prr_cache of the same file. Which entry goes is a parameter, where the
--   iteration over the map begins; Prr/Bounded has the properties, Prr/Shrinks what
--   erasures leave.
-- Cache/PrrThreaded: threads that call one prr_cache_threaded of the same file, a section of its lock
--   at a time. PrrThreaded/Answers, Sizes and Overfull have the properties.
-- Cache/Inf: threads that call one inf_cache; Inf/Answers and Inf/Memory have the properties.
-- Cache/LruThreaded: the sections of lru_cache_threaded over lru_cache. Cache/Adaptive: adaptive_cache
--   around an lru_cache; the memory readings and the products of sizes are parameters.
-- Cache/ArgResult: lru_cache_arg_result; ArgResult/Refine and ArgResult/Uses have the properties.
--
-- Async/Caller: the class async_caller of opencog/util/async_method_caller.h; Caller/Schedule has the
--   threads around it in any order. Each thread stands between two accesses to what is shared, so
--   that every interleaving of the accesses is a list of events. Async/Buffer: the class async_buffer
--   of async_buffer.h in the same way. Caller/State and Buffer/State have the fields and the places. The element type is
--   any type; the containers are those of Concurrent. Async/Threads and Async/Invariant: sums over
--   threads, and invariants with such sums in them; Sound has the invariant of each class by its
--   steps, Exact what follows for all schedules, Progress what one writer thread alone does.
--
-- Counter: the class of opencog/util/Counter.h over any type of counts. Counter/Lookup, Counter/Product
--   and Counter/Mode have its properties.
-- Algorithm: the functions of opencog/util/algorithm.h on two sorted ranges, unions of sets, and
--   products; Algorithm/Merges and Algorithm/Ranges have the properties.
--
-- Digraph: the class of opencog/util/digraph.h; Digraph/Sort has randomized_topological_sort. The loop
--   over the queue has one round for each node as fuel, since no node is in the queue twice.
--   Digraph/Edges has what the two vectors tell, Sort/Relax, Sort/Loop and Sort/Topological the sort.
--
-- Numeric: the functions of opencog/util/numeric.h on integers, of any width; `__builtin_clzl` is a
--   parameter. The loop of smallest_divisor has the number itself as fuel, which is a divisor.
--   Numeric/Powers and Numeric/Divisor have the properties.
--
-- Config: the class of opencog/util/Config.h and Config.cc. Config/Strings has the strings as lists of
--   bytes, Config/Logging what it asks of the logger, Config/Load the parser and the search for a
--   file; how files are found and read, boost's paths, casts and comparisons are parameters.
--   Config/Lines has the properties.
--
-- Logger: the class of opencog/util/Logger.h and Logger.cc: its settings, and the calls that log makes
--   of the LogWriter; the time, the thread's name, the stack trace and what vsnprintf prints are
--   arguments. Logger/Levels has the levels and their names, with strcasecmp as a parameter.
--   Logger/Writer has the LogWriter, step by step: its thread, a thread that logs, others that queue
--   messages or close the queue, and what fopen, fprintf and fflush answer. Logger/Taken, Messages, Moves,
--   Pending, Flushes, Errors and Progress have the properties of all schedules. Logger/Files has the table of
--   the LogWriters by file name. The queue is that of Concurrent/Queue.
-- Signals: the class SigSlot of opencog/util/sigslot.h; a slot is any value, of which only is known
--   whether it calls the SigSlot again. Signals/Connected has any sequence of calls.
--
-- Selector: the class of opencog/util/lazy_selector.h and lazy_selector.cc over an unsigned int of 32
--   bits; select is an argument. The search for a free lower bound has as much fuel as the type has
--   values, after which the search comes back to where it began. Selector/Fresh has single calls,
--   Selector/Draws sequences of them.
-- Selection: roulette_select, over natural numbers, and the class NodeSelector of
--   opencog/util/selection.h; the random number is an argument. Selection/Roulette and Selection/Nodes
--   have the properties, Selection/Vectors and Selection/Entries lemmas. The scores are not negative,
--   and a sum that an int does not hold is no result. Selection/Tournament:
--   tournament_selection of the same file; the elements that are drawn are an argument.
-- Tokenizer: the classes of opencog/util/StringTokenizer.h and StringTokenizer.cc; both loops have the
--   size of the string as fuel, since each round takes a character. Tokenizer/Alt has the one that
--   splits at once, Tokenizer/First properties of the other.
--
-- Tests: runs on small inputs, and the theorems applied there.
--
-- Hash functions, memory and time are not modelled; a counter of hits or misses does not wrap
-- around. Floating point is not modelled. Not modelled at all: exceptions, random numbers, files and platform, which are
-- input and output; the C clustering library, tree.hh, the cover tree and getopt, which are copies of
-- other projects.
pub mod Algorithm
pub mod Async
pub mod Base
pub mod Cache
pub mod Concurrent
pub mod Config
pub mod Counter
pub mod Digraph
pub mod Logger
pub mod Numeric
pub mod Selection
pub mod Selector
pub mod Signals
pub mod Sorted
pub mod Tests
pub mod Tokenizer
