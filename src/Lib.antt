-- ===== src/Lib.antt =====
-- Verification library of webcom-sdk-c, the C client of the Webcom platform: a context keeps a
-- WebSocket connection to a server, sends numbered requests over it, listens to paths of a remote
-- JSON tree and keeps a local copy of what it listens to.
--
-- The parts, and the files that model them:
-- - Prelude has the shared names of the libraries, Boolean tests on native numbers, and lists.
--   Compare has the functions that a tree is made with and, apart from them, the order laws that
--   its code relies on; Compare/Agree is about comparisons that agree on some elements.
-- - Avl models lib/collection/avl.c. A node pointer is a `Tree`, with `nil` for NULL; avl_get,
--   avl_insert and avl_remove are `get`, `insert` and `remove`, and the recursive functions keep
--   their names. Avl/Sorted has the sorted lists that a tree stands for, Avl/Order that the
--   operations agree with them, Avl/Height and Avl/Measured the balance, Avl/Operations the
--   interface of avl.h, Avl/Walk the walks. Avl/Iterator has `struct avl_it`, with its array as a
--   list; Avl/Iterator/Remaining says what is still to come, Avl/Iterator/Depth how full the array
--   is.
-- - Hash models lib/hash.c, Base64 lib/base64.c with a decoder in Base64/Decode, and Json
--   lib/datasync/json.c with a reader of JSON strings in Json/Escape.
-- - Path models lib/datasync/path.c: `parse` is wc_datasync_path_parse, with its state machine in
--   `step`, `finish` and `scan`. Path/Words defines the words of a path apart from the code,
--   Path/Parse compares the two, Path/Text is about the normalised text, Path/HashWords about
--   hashes. Path/Order has the order of keys and paths, and Path/Order/Narrow its laws, by those of
--   lists compared element by element in Compare/Lex.
-- - HashTable models lib/collection/ht.c, with the iterator in HashTable/Iterator. HashTable/Buckets
--   has what the loops do to the buckets, HashTable/Rehash says when a table is correct and is about
--   its rehashing, HashTable/Insert and HashTable/Remove are about changes.
-- - Auth models lib/auth/auth.c: the replies (Auth/Replies), and in Auth/Curl the requests and the
--   callbacks of curl (their order in Auth/Once, the URL in Auth/Url).
-- - Datasync models lib/datasync. Datasync/Request is request.c (the numbers and the table of
--   pending requests), Datasync/PushId is datasync_utils.c with wc_datasync_push (its bytes as
--   numbers in Datasync/PushId/Bytes, the ids in Datasync/PushId/Value), Datasync/Listen is
--   listen/listen_registry.c (the items in Datasync/Listen, the functions that send requests in
--   Datasync/Listen/Effects), and Datasync/Connection is datasync.c: `lws_callback` is
--   _wc_lws_callback, and below it stand process_data and process_message. A handler is a function
--   on the context; what it hands to the socket and the application is appended to the list
--   `outputs`. Datasync/Message is message.c and Datasync/Parser is parser.c, over the functions of
--   json-c that Datasync/JsonC names with what is relied on; Datasync/Parser/Stream has the parser
--   object, and Datasync/Parser/Reread compares what is written with what is read.
-- - Cache models lib/datasync/cache/treenode.c, the nodes of the local copy: Cache/Digest has their
--   hashes (right ones in Cache/Digest/Coherent), Cache/Text their JSON text (Cache/Text/Laws),
--   Cache/Lookup the search in the children, Cache/Deep properties of all nodes below a node.
--   Cache/Value has the values that JSON gives, and Cache/Store models treenode_cache.c: a write is
--   a function on the root. Cache/Store/Edit turns a write into one pass, Cache/Store/Invariant and
--   Cache/Store/Sound say what it keeps, Cache/Store/Reads and Cache/Store/Stored what is read
--   after it; Cache/Store/Keys and Cache/Store/Near bring that to the order of keys of path.c.
-- - Datasync/On models lib/datasync/on/on_registry.c: the triggers of one subscription, where
--   `child_changes` is the loop of on_child_trig; Datasync/On/Diff, Datasync/On/Order,
--   Datasync/On/Quiet and Datasync/On/Again are about it, and Datasync/On/Diff/Keys about it under
--   the order of keys of path.c. Datasync/On/Registry has registration, removal
--   (Datasync/On/Registry/Removal, and under the order of paths Datasync/On/Registry/Paths), and Datasync/On/Registry/Event the dispatch, with what
--   happens to cancelled callbacks (Datasync/On/Registry/Freed). Datasync/On/Api models on_api.c,
--   and Datasync/On/Api/Off is about its cancelling of all callbacks of a path.
-- - Fsm models tools/fsm.c, the table-driven state machine of the shell: Fsm/Search is about its
--   binary search, Fsm/Feed about input in several buffers. Shell has the command lines of
--   tools/wcsh_parse.c, whose table of states is tools/wcsh.fsm (Shell/Lines is about lines of
--   words, Shell/Chunks about scripts read in pieces), and Shell/Program models
--   tools/wcsh_program.c, with the order of its statements in Shell/Program/Queue and an idle loop
--   in Shell/Program/Drain; a turn of the loop runs a step only while the idle watcher is started.
-- - Tests evaluates the definitions and applies the theorems at concrete inputs.
--
-- How they interact: the connection's handshake makes the listen registry resume its items, each by
-- a numbered request with the item as the callback's argument; a response takes the request out of
-- the table and writes the item; a lost connection suspends the items and sets the timer for the
-- next attempt. A change of the cache is dispatched to the subscriptions, which compare the hashes
-- of the nodes with those that they have seen; a callback that cancels itself drops its reference
-- in the listen registry. The tree of a registry, or of a node's children, is the sorted list that
-- Avl/Operations relates a tree to.
--
-- The order of keys: wc_datasync_key_cmp cuts a difference of 64 bits to 32, so it is an order only
-- among keys whose numbers stand in one window of 2 ^ 31 (Path/Order/Narrow). The operations of a
-- tree and of the cache take a comparison that no law is asked of, so that of the program too; a
-- theorem that needs the laws has them as a hypothesis on the comparison (`IsLawful`). Two
-- comparisons that agree on the keys in use have the same results, which brings such a theorem to
-- the program's own comparison on keys that are near one another.
--
-- Numbers: an `unsigned` wraps at 2 ^ 32, an `unsigned long` and a hash at 2 ^ 64, a path offset at
-- 2 ^ 16. Three loops run on fuel: that of wc_str_path_hash, which is given more turns than the
-- text has bytes, that of binsearch, which is given as many as the array has places, and the
-- decimal digits of an index, which are given one more turn than its value. A loop over an iterator
-- has as many turns as its theorem says.
--
-- Parameters: key_cmp and data_copy of a tree (Compare); lrand48_r of the push ids; of the
-- connection, whether lws_write succeeds, the clock, whether the application reconnects, the
-- cache and the parser's messages (`Env` of Datasync/Connection); of messages and replies json-c
-- (`JsonC`), its tokener and qsort; of the order of keys what sscanf reads; of requests for a
-- token the escaping of curl and whether there is memory; of the shell the calls that a command
-- makes; of the cache the SHA-1 digest, the text of a number, the parser of JSON texts and the
-- conversions of integers; of the subscriptions the answers of their callbacks.
--
-- Not modelled: failing allocations and destruction, but of a hash table; what a callback does to
-- the context while it is called; what a failed parse of a message leaves allocated;
-- initialisation, cleanup and keepalive of a context; logging, SHA-1, the event-loop glue and the
-- commands of the shell.
pub mod Prelude
pub mod Compare
pub mod Avl
pub mod Hash
pub mod HashTable
pub mod Json
pub mod Fsm
pub mod Shell
pub mod Base64
pub mod Path
pub mod Cache
pub mod Datasync
pub mod Auth
pub mod Tests
