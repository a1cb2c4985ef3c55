-- ===== src/Lib.antt =====
-- Verification of shared-memory-fs, a read-mostly file cache in SharedArrayBuffers.
--
-- Files of an application are placed in segments of shared memory by the main thread, published under
-- keys of places, and projected by the threads that serve them. Bytes of a replaced version are freed
-- once every worker has acknowledged the update and no thread reads the version.
--
--   Prelude        shared names; JsMap and JsSet are Map and Set in insertion order
--   Cache          lib/cache.js
--     Extents      the free list of a segment: release with mergeSiblings, and the cut of allocate
--     Pool         class Pool: createSegment, freeSegment
--     Registry     class SegmentRegistry: allocate, release, used
--     Bytes        a Uint8Array view over a segment, set and read
--     Files        class FilesystemCache: allocate, put, remove, free
--     Heap         the blocks of entries and of files that are being placed, in any interleaving, with
--                  the loop of readInto of lib/kernel.js
--   Retirement     lib/kernel.js: the retirement part of #flush, #track, handleAck, handleRelease,
--                  handleWorkerExit, #settle
--     System       the kernel with its workers: link() and its message and close handlers, #connect;
--                  the two directions of a port are queues, and events come in any order
--     Settle, Exit, Ids, Epoch, Ports, Workers, Deliveries, Events   the lemmas of each part
--     Safety       the system as a whole
--   Directories    lib/place.js, class PlaceFiles: the entries with the directory index, and its listings
--     Chains, Index, Removal, Below, Listing   the lemmas of paths, of the index and of listings
--   Errors         lib/errors.js
--   Routing        lib/registry.js, with lib/companion.js and the policies of lib/place.js
--     Keys         texts and keys: bytecodeKey, compressedKey, sourceOf, dirOf
--     Places       class Place: visible, cached, prepared, isDirectory
--     Paths        class PlaceRegistry: route, encloses
--     Router       class FsRouter: read, mutate, copy, rename, link
--     Canonical    canonicalKey
--     Derivatives, Isolation, Moves   what these modules make sure of
--   Pipeline       lib/pipeline.js: Preparers, Prepare (prepareInput), Bytecode (bytecodeFor),
--                  Hierarchy (the checks), Subtree (subtreeMoves); Platform holds what they call
--     Ancestors    the lemmas of fileAbove
--   MapStore       lib/map-store.js: the mutations of a map place
--     Steps        the mutations as steps, and the places that they lead to
--     Keeping, Placed, Tree, Moved, Operations, Contents   the lemmas of each part
--   SabStore       lib/sab-store.js: the turns of mutations of a shared virtual place, with the
--                  publications of lib/kernel.js that they start (publishVirtual, unpublishVirtual,
--                  renameVirtual, renameVirtualTree)
--     Turns, Steps, Orders   turns, commits and ends of publications, in any order
--   Queue          lib/mutation-queue.js: the locks of mutations
--     Order, Fifo, Progress   histories of requests and settled tasks
--   Publication    lib/kernel.js: #stage, #unstage, #flush on the index and its message
--     Projection   #apply, and projectEntry of lib/cache.js
--     Index, Mirror, Commits, Parts   the lemmas of one place
--     Epochs       whole epochs
--   Pins           lib/pins.js: the consumers of shared bytes in one thread
--     Counts, Releases   their counts, and the release of a retired version
--   Examples       runs at concrete inputs
--
-- Correspondence. A class is a record with its fields; a method is a function from the record to the
-- record and its result. A SharedArrayBuffer is the function from an offset to its byte. Numbers are
-- natural numbers: sizes, offsets and ids never are negative, and Number.isSafeInteger is the test
-- against 2 ^ 53 - 1. `meta` and `scriptOptions` are frozen objects that only travel along, and
-- stand as their identities. An operation that throws returns the error, and the state before it is
-- what is left. A link id `link:n` is the number n, from 1 on, and `main` is 0. Loops are recursion
-- on the lists they walk. Three have fuel: #unlink and fileAbove go to a shorter key at each step,
-- so the length of the key is enough; `below` goes to longer keys, none longer than the longest key
-- of the place, so that length and one is enough.
--
-- What the pipeline calls of Node and of the application (path.join, UTF-8, Module.wrap, the cached data of
-- vm.Script, the preparers) is the record Platform; no theorem assumes anything of it. Date.now() is an
-- argument.
--
-- `#place` waits for its reader, and the kernel places several files at a time. Its halves before and after
-- `await this.reader` are two functions, place_start and place_end, and a history of the cache (Heap)
-- interleaves them with the rounds of the loop of readInto, whose reads are events with the bytes that
-- the file system returned; its checks of the source, like every other error, are the event that the
-- reader throws, which may come after it has written any part of the view.
--
-- node:path is a record of the operations that routing calls (resolve, relative, isAbsolute, and whether
-- the platform is Windows), and fileExt of metautil is a parameter; no theorem assumes anything of them.
-- A text is the list of its code units.
--
-- The turn of a shared mutation runs up to its first await; what the pipeline then stores, or drops, of
-- derivatives is an argument of `commit`, and each publication of a key in creation may commit or fail.
-- A tree is renamed under the place barrier, in one step.
--
-- In Queue, a promise is the number of its task, a task settles once it has run, and it releases its locks in
-- the same step, as its reaction comes before those of the tasks that wait for it.
--
-- In Retirement, `#flush` is modelled from the list of the versions that its epoch replaces or
-- removes on, for an epoch that changes something on a kernel that is not closed; `#settle` lists
-- the calls of `cache.free` that it makes, each with the retireId of its record.
--
-- In Publication, the SharedArrayBuffer of a segment stands as the id of the segment, a projected file is an
-- object with its identity, by which its consumers are counted, and an #apply that throws is none. The
-- places of a message stand in the order of the epoch's changes.
--
-- Not modelled: compaction and the relocation that follows a free (FilesystemCache.compact, #compact),
-- snapshots, the storing of prepared inputs by the kernel (#publishEntry, #storeShared) and its states,
-- lib/place-fs.js, serial-queue.js, the requests of workers (mutation-rpc.js), the watcher and config.js. scanner.js,
-- compressor.js, the adapters and bootstrap are calls of Node's file system, zlib and module loader.
pub mod Prelude
pub mod Cache
pub mod Retirement
pub mod Directories
pub mod Errors
pub mod Routing
pub mod Pipeline
pub mod MapStore
pub mod SabStore
pub mod Queue
pub mod Publication
pub mod Pins
pub mod Examples
