-- ===== src/Lib.antt =====
-- octobuild: a model of the core of octobuild, a distributed and caching front end for C++ compilers.
--
-- A build is a graph of tasks. `worker.rs` refuses a graph with a cycle and then hands the tasks to
-- its workers, each when those that it depends on are completed. A task is a compilation that a
-- compiler front end (`clang/prepare.rs`, `vs/prepare.rs`) makes of a command line, which
-- `cmd/unix.rs` or `cmd/windows.rs` has split. A compilation preprocesses its source into a memory
-- stream (`io/memstream.rs`), and its outputs are kept under a key (`compiler.rs`) in a file
-- (`io/filecache.rs`).
--
-- - Prelude: Boolean tests, lists, results, members of lists and texts, shared by all.
-- - Cmd (src/cmd): `Unix` and `Windows` have one function `step` for a character, `run` for the loop
--   and `finish` for what stands behind it. Words has the plain splitting that both extend.
-- - Io (src/io): `Stream` states what `Read` and `Write` promise. `Binary` is io/binary.rs over any
--   such stream, and `MemStream` io/memstream.rs, whose reader is one. `FileCache` is
--   io/filecache.rs: `write_entry` and `read_entry` are the format, `Store` has `read_cache`, `write_cache` and
--   `run_cached`, and `Cleanup` is `cleanup`.
-- - Compiler (src/compiler.rs): arguments, commands and tasks. `Key` is what `compile_step_cached`
--   feeds to SHA-256, `Task` is
--   `compile_task`, and `Params` has `find_param` and its filters.
--   `Run` has what runs the commands of the steps.
-- - Clang (src/clang), Vs (src/vs): `Prepare` parses arguments and makes tasks (prepare.rs), and
--   `Steps` has the commands of the two steps (compiler.rs). `Vs.Postprocess` is the filter of
--   preprocessed output (vs/postprocess.rs): `Buffer` is the scanner with the buffer cut at its
--   pointers, `Literals` has tokens and paths, `Directives` lines, and `Filter` the loop.
-- - Worker (src/worker.rs): `Graph` states what petgraph documents, `Validate` is `validate_graph`,
--   and `Execute` is `execute_until_failed`, to which the environment gives results in any order.
--   `Build` is `execute_graph`.
-- - Xg (src/xg/parser.rs): `Parser` reads the events of a build script into environments and
--   projects, and `Project` makes the graph of them.
-- - Cluster (src/cluster, src/bin/octo_coordinator.rs): `Coordinator` is the list of builders and its
--   handlers, and `Client` what a compilation does with builders.
-- - Cache (src/cache.rs, src/io/memcache.rs): the cache of the hashes of files, while other programs
--   write to them.
--
-- The numbers are natural numbers. A `usize` has 64 bits, and the reduction is written where the source
-- casts; sizes of vectors in memory stay below it. A text is the list of its code points, and a
-- `&str` that is sliced is sliced between the characters that the code has tested.
--
-- The loops run on fuel. `validate_graph` has one round for each node and each edge, and
-- `execute_until_failed` one message for each node, which the theorems show to be enough; the loop over
-- late results has a round for each message and each move of a worker, a loop over arguments a round
-- for each argument, `write_data` and `read` a round for each byte or block and one more, and
-- `read_array` and the loops over a cached file a round for each byte. The loops of the scanner have a
-- round for each byte of the input and one for its end, and those of the parser of build scripts one
-- for each event.
--
-- Parameters: SHA-256 and the hash of a file, the functions of `std::path`, the reading of response
-- files, the disk, the compressor LZ4, processes and temporary files, the encodings, the regular
-- expression for warnings, the XML library, the network, the graph library, and the callback that
-- reports progress. The threads of `execute_graph` are the order in which results arrive and, behind
-- the last task, the order in which workers move. A panic, and an index out of range, are results of
-- their own. Not modelled: the semaphore, the counters of the statistic, the daemon of a builder, and
-- the configuration.
pub mod Cache
pub mod Clang
pub mod Cluster
pub mod Cmd
pub mod Compiler
pub mod Io
pub mod Prelude
pub mod Vs
pub mod Worker
pub mod Xg
