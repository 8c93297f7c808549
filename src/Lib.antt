-- ===== src/Lib.antt =====
-- SwarmRT: the runtime system of the swarm language, an actor runtime in C in the manner of
-- Erlang.
--
-- Processes are green threads that run on a fixed number of scheduler threads and talk by
-- messages. A process is allocated from an arena that is split in one partition for each
-- scheduler (src/swarmrt_arena.h, src/swarmrt_native.c). It has a mailbox, onto which any thread
-- pushes without a lock, and sleeps in a receive until a sender, a timer or a kill wakes it and
-- so puts it on a run queue. A registry gives processes names. On top of this stand gen_servers
-- and supervisors (src/swarmrt_otp.c), which start, monitor, kill and restart processes by the
-- calls of the runtime.
--
-- The modules and the code that they model:
-- - Base: shared helpers on lists, bytes and numbers; models no code.
-- - Mailbox: the signal stack and the private queue (mailbox_push, mailbox_drain,
--   mailbox_pop_first, mailbox_pop_tagged, sw_mailbox_peek, sw_mailbox_remove_msg of
--   src/swarmrt_native.c). Mailbox.Queue has its laws.
-- - Mailbox.Receive: the receive functions (sw_receive, sw_receive_tagged, sw_receive_any),
--   mailbox_wake, sw_process_kill and the part of scheduler_loop that runs a process, as a
--   machine whose steps are the accesses of shared memory. The steps of senders, killers, timers,
--   the scheduler and the receiver come in any order. Mailbox.Receive.Waking is about sleep and
--   wake-up, Mailbox.Receive.Passes and Mailbox.Receive.Order about the order of messages.
-- - Registry: sw_register, sw_unregister, sw_whereis and registry_remove_proc of
--   src/swarmrt_native.c, with the hash. Registry.Laws is about registration, Registry.Kept about
--   the invariant, Registry.Removal about unregistering, and Registry.LongNames about names of
--   more than 63 bytes.
-- - Arena: the partitions and the stealing of src/swarmrt_arena.h, and sw_spawn_opts,
--   process_destroy and sw_arena_init of src/swarmrt_native.c as far as they allocate.
--   Arena.Steal and Arena.Conserve follow the free slots, Arena.Start is about the initial state,
--   and Arena.Schedule about the choice of a scheduler in sw_spawn_link.
-- - Supervisor: the supervisor loop of src/swarmrt_otp.c. Supervisor.Breaker is about its circuit
--   breaker, Supervisor.Loops and Supervisor.Restarts about the restart strategies, and
--   Supervisor.Messages about what every message leaves.
-- - Links: links, monitors, exit signals and DOWN messages (sw_link, sw_unlink, sw_spawn_link,
--   sw_monitor, sw_demonitor, process_exit of src/swarmrt_native.c). Links.Mutual and
--   Links.Symmetry are about links on both sides, Links.Exits about who hears of an end.
-- - Runq: the run queue of a scheduler, for one priority (sw_add_to_runq, sw_pick_next of
--   src/swarmrt_native.c), as a machine whose events are the accesses of shared memory.
--   Runq.Chain and Runq.Shape are about the chain of processes, Runq.Picks and Runq.Order about
--   the order and Runq.Progress about what is taken.
-- - Timers: sw_send_after, sw_cancel_timer and fire_timers of src/swarmrt_native.c. Timers.Sorted
--   and Timers.Laws have the order and the laws.
-- - Ets: the tables of src/swarmrt_ets.c. Ets has the keys and the operations on one table,
--   Ets.Store all tables and their owners, Ets.Keys the equality of keys, Ets.Chains and Ets.Laws
--   the laws of a set, and Ets.Store.Owners the clean-up of an owner.
-- - Groups: the process groups of src/swarmrt_phase5.c. Groups.Members and Groups.LongNames are
--   about names of up to 63 bytes and longer ones. How a char is widened to 32 bits for the hash
--   is a parameter.
-- - Hotload: the modules of src/swarmrt_hotload.c. Hotload.Versions is about upgrades and
--   rollbacks.
-- - Gc: the minor collection (sw_gc_minor of src/swarmrt_gc.c). Gc.Slide is about the loop that
--   slides words down, Gc.Compact about the collection.
-- - Tokens and Lexer: the tokens and the lexer of the language (lex_init, lskip, lnext and
--   kw_table of src/swarmrt_lang.c). Lexer.Ends is about its end, Lexer.Bounds about the memory
--   that it reads and writes, Lexer.Strings about strings with escapes.
-- - Values, Scope and Patterns: the values of the language, its variables (env_new, env_hash,
--   env_set, env_get) and its patterns (pattern_match) of src/swarmrt_lang.c. The equality of two
--   floats is a parameter. Scope.Laws is about variables that are set, Patterns.Binding about
--   those that a match leaves alone, Patterns.Fits about what a match means.
-- - Equality: sw_val_equal, sw_val_map_get and sw_val_map_put of src/swarmrt_lang.c. A look-up
--   compares a key of the map with the key sought, so the recursion of sw_val_equal changes
--   sides, and the model has two functions for it. Equality.Sides is about these, Equality.Maps
--   about maps.
-- - Task: src/swarmrt_task.c, a wait of a parent for its child. Task.Await and Task.Kept are
--   about the messages that a wait takes and passes over, Task.Answers about its answers, and
--   Task.Handle about start and shutdown.
-- - Server: the gen_servers of src/swarmrt_otp.c (genserver_entry, sw_call_proc, sw_cast_proc,
--   sw_genserver_stop). The callbacks are parameters. The steps of the server and of its clients
--   come in any order. Server.Consistent and Server.Steps are about what each step keeps,
--   Server.Replies about the reply that a call gets.
-- - Syntax and Parser: the syntax trees (node_t of src/swarmrt_lang.h) and the parser
--   (par_primary to par_module and par_expr_string of src/swarmrt_lang.c), on the list of the
--   tokens that the lexer returns. Parser.Levels has operators, statements and blocks,
--   Parser.Forms and Parser.Primary primary expressions, Parser.Modules functions and modules.
--   Parser.Enough, Parser.Loops, Parser.Same and Parser.Fuel are about the fuel, Parser.Grammar,
--   Parser.Operators and Parser.Operands about a grammar of operators. The interpolation of
--   strings (parse_interp_string) is a parameter.
-- - Eval: the evaluator of src/swarmrt_lang.c. Eval has the state (sw_interp_t) and the
--   environments by their addresses (env_new, env_free, env_set, env_get), Eval.Words the words
--   and Eval.Numbers the integers, Eval.Operators the operators, Eval.Messages what a message
--   carries (serialize_val, deserialize_val), Eval.Builtins the built-in functions, Eval.Steps
--   find_fun and the steps that evaluate no node, Eval.Forms the cases of eval, Eval.Run eval
--   itself, sw_lang_new and sw_lang_call. Eval.Operators.Concat is about the buffer of `++`,
--   Eval.Messages.Laws about messages, and Eval.Safe about environments that are freed:
--   Eval.Safe.Kids has the nodes below a node, Eval.Safe.News steps in a new environment,
--   Eval.Safe.Steps and Eval.Safe.Forms the steps and cases, Eval.Safe.Run whole programs.
--   Eval.More, Eval.More.Forms and Eval.More.Run are about the fuel. The texts of numbers and the
--   arithmetic of floats are parameters.
-- - Tests: the modelled code on concrete inputs.
--
-- Bounds. Counters of 32 and 64 bits wrap as in the code where they are modelled. The loop of
-- sw_spawn_link that passes over a scheduler has fuel, of which two rounds are enough with two
-- schedulers. The loops and calls of the parser have fuel for each token and one more, which is
-- enough as each round and each call takes a token. lnext calls itself after an empty line, with
-- fuel for each byte left and one more, which is enough as each line takes a byte. eval has fuel
-- for the depth of its calls of itself; a program need not end, and what runs out of fuel is an
-- outcome of its own. All other loops are structural. Keys of a table point into a memory that no
-- operation changes, and the comparisons of floats are a parameter.
--
-- Not modelled: memory, stacks and the assembly that switches contexts, signals, statistics, and
-- input and output, with what the evaluator prints and the texts of its assertions. The code
-- generator, the distribution over nodes, the search, the desktop and the earlier runtimes are
-- not modelled: they are text output, sockets, vector instructions and glue over the runtime, or
-- superseded by it. Locks make an operation one step; memory orders weaker than sequential
-- consistency are not modelled. A supervisor is taken to have at most 64 children, the size of
-- its array.
pub mod Base
pub mod Mailbox
pub mod Registry
pub mod Arena
pub mod Supervisor
pub mod Task
pub mod Tests
pub mod Timers
pub mod Ets
pub mod Groups
pub mod Hotload
pub mod Links
pub mod Runq
pub mod Tokens
pub mod Lexer
pub mod Values
pub mod Scope
pub mod Patterns
pub mod Gc
pub mod Equality
pub mod Server
pub mod Syntax
pub mod Parser
pub mod Eval
