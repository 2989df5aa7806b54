-- ===== src/Lib.antt =====
-- A replicated key-value store with voting, and a file system for logs, in C.
--
-- The store has servers (Server.c, Server.h) that keep a table of keys with version numbers, and a
-- client (Client.c, Client.h) that asks all servers for a vote, waits for a read or a write
-- quorum, chooses one of the answers, and for a PUT sends the update with the next version number
-- to the servers that voted. Vote.h has the entry of the table and the messages. The file system
-- (lfs_fuse.c, Cache.c, Cache.h, log_fs.h) keeps metadata and write buffers in block caches with
-- replacement counters. fusexmp.c is an earlier version of lfs_fuse.c, and tcpclient.c an
-- interactive client for the servers.
--
-- The files and what they model:
-- - Prelude, Text: shared names, lists and integers over the native numbers; C strings as lists
--   of bytes, the words that %s reads, and %d both ways. An int is an integer of any size:
--   overflow is not modelled, nor is the overflow of a char array.
-- - Server/Table: keyval_t, keyVals with numKeys, searchKey, updateKey, initKeyValStruct. A
--   pointer into keyVals is an index. Table/Search: the table as a map from keys to entries.
--   Table/Update: the branches of updateKey.
-- - Server/Handlers: getResponse, putResponse, updateResponse, releaselockResponse,
--   responseServer. A handler returns the new state and the messages that it sends. putResponse
--   is cut at its two calls of recvTimeout, and the thread waits there (await_update,
--   await_release). What sscanf does not fill keeps its old content, an argument. A PUT of a new
--   key into a full table is crashed, since the code then writes past keyVals.
-- - Server/Thread: serverThread from one receive to the next, session for a connection that no
--   other interrupts, Step and Reach for all connections in any order. A segment between two
--   receives is one step, so the races inside of it are not modelled there; one receive is one
--   message.
-- - Server/Put, Server/Get, Server/Readers: theorems about a PUT connection, a GET connection,
--   and numGetters over all runs in which a thread goes from one receive to the next
--   undisturbed.
-- - Client/Messages, Client/Tally, Client/Select: the messages of Client.c, HashMap of Client.h,
--   and selectServer. The replies are the N elements of keyVals_c. hashTable is read only up to
--   index, and is a list of groups.
-- - Client/Connect: connectTo for one server as a function of what the network does, the end of
--   connectThread, after the votes, and the quorum test of main.
-- - Client/Quorum, Client/Versions, Client/Votes, Client/Contact: theorems about voting, version
--   numbers, the reading of votes, and a reader's thread with the server that it asks.
-- - Cache: the blocks of Cache.c, create_cache, get_free_cache_block, update_lru and
--   find_meta_data_block. A pointer to MDATA is an address of a store. Cache/Recency has the
--   order of use that the counters stand for; Cache/Lru, Cache/Free and Cache/Create have the
--   theorems.
-- - Util: atomicIncr, atomicDecr, lll_lock and lll_unlock as steps of threads that share one
--   int, with a step for each read and each compare_and_swap; run takes a list of who makes the
--   next step. Util/Counter and Util/Lock have the theorems, Util/Solo a thread that runs alone.
--   Util/Receive: recvTimeout and the tests of its callers. Util/Itoa: itoa.
-- - FileSystem/Metadata: write_metadata_to_disk, and the scanning and splitting of
--   mdata_from_disk_to_memory. What stands behind the content in the buffer is an argument.
-- - FileSystem/Operations: the globals, mdata_from_disk_to_memory over the cache, the lookup
--   that the calls begin with, lfs_mknod for a regular file where open succeeds, the st_size of
--   lfs_getattr for a file, and lfs_read. The files under MDATA_PATH and CHUNK_PATH are
--   functions from names and paths.
-- - FileSystem/Write: lfs_write. The strcat at its end appends whatever room the block has: what
--   goes over the end is not followed, so a theorem about the text that is read afterwards names
--   the room. FileSystem/Calls: the calls that pass a path on to the system, whose answer is an
--   argument.
-- - FileSystem/Paths, FileSystem/RoundTrip, FileSystem/Reload, FileSystem/Mknod,
--   FileSystem/Sizes: theorems about the metadata file, its reading into the cache, the reuse of
--   metadata under write buffers, and the size of a file. FileSystem/Append, FileSystem/Appends,
--   FileSystem/Capacity, FileSystem/Eviction, FileSystem/LoadPath: theorems about lfs_write, and
--   about what depends on load_path; Cache/Kept: what update_lru does not touch.
-- - Cache/Timestamps, Cache/Chunks: the scanning of timestamps, is_dates_equal,
--   create_date_folder, and write_buffer_to_disk, over the lines of the buffer. The chunk files
--   are a function from paths, the folders one into Bool, and what mkdir answers is an argument;
--   open of a chunk file succeeds just where its folder is there. The overflow of line is left
--   out, and the byte that is tested after the buffer was cleared is taken to lie in it, which
--   FileSystem/Overflow demands. Cache/Consumed, Cache/Written and Cache/Lost have theorems,
--   Cache/Runs the runs of lines of one date that Cache/Written compares the loop with,
--   Cache/Folders the folders, and Cache/OneDate the buffer that goes to one file.
-- - Server/Exclusion: what a client that keeps to the protocol sends (Polite), and what each
--   receive does to the locks; Server/Exclusion/Runs has the runs of such clients,
--   Server/Exclusion/NewKey two writers of a new key. In these a thread runs from one receive to
--   the next undisturbed; Server/Exclusion/Race cuts the test and the write of the lock in
--   putResponse into two steps, and Server/Readers/Race getResponse into one for each access to
--   the entry.
-- - Client/Select/Passed, Client/Select/Members: which servers stand in the groups of
--   selectServer. Client/Select/GetLiars and Client/Select/PutLiars: which servers it reports.
-- - Client/Coordination: main of Client.c with its arguments, the first round of connectThread
--   and the round of updates. What each thread meets, a Peer, is an argument, a function from
--   the index of the server. Client/Coordination/Hosts and Client/Coordination/Writers build it
--   from servers, Client/Coordination/Reads has a whole GET, Client/Coordination/Writes a whole
--   PUT, and Client/Coordination/ReadBack a PUT and the GET after it, with the servers between
--   in Client/Coordination/After.
-- - Server/Start: main of Server.c, and tcpServer up to its loop, with the line in
--   server_loc.txt. Server/Accept: the loop over the connections with isReply;
--   Server/Accept/Slots has the theorem. Client/Locations: how connectThread reads
--   server_loc.txt, and the file after several servers have started.
-- - FileSystem/Spilled, FileSystem/Overflow: a write to a full buffer, over Cache/OneDate, and
--   the read after it.
-- - FileSystem/Nodes: lfs_mknod for all modes, lfs_getattr at any path, lfs_readlink,
--   lfs_readdir and the stubs; FileSystem/Nodes/Existing has a theorem about lfs_mknod.
--   FileSystem/Start: main of lfs_fuse.c.
-- - Cache/Direct: find_cache_block, write_cache_block and read_cache_block, which the file
--   system does not use. What stands behind a string in memory is an argument. Cache/Print:
--   print_cache_block and print_cache, with the pointer buf of a block as an argument.
-- - Fusexmp: fusexmp.c over the state of FileSystem/Operations. Fusexmp/Metadata: its metadata
--   file; Fusexmp/Operations: mdata_from_disk_to_memory, xmp_mknod, xmp_read and xmp_write;
--   Fusexmp/Calls: the calls that pass a path on. Fusexmp/Unread and Fusexmp/Reused have
--   theorems. A pointer that mdata_from_disk_to_memory returns is not to be used, and a write
--   that needs it has died.
-- - Tcpclient: tcpclient.c as rounds of a chat; Tcpclient/Quit has the theorem.
-- - Tests: runs, and each theorem at an input that meets its conditions.
--
-- All loops are structural recursions over lists; digits are printed with the fuel n + 1, which is
-- more than the digits of n.
--
-- Not modelled: the messages that other functions print, the sockets and threads themselves, and
-- the files without program logic (Makefile, scripts, samples).
pub mod Prelude
pub mod Text
pub mod Client
pub mod Server
pub mod Util
pub mod Cache
pub mod FileSystem
pub mod Fusexmp
pub mod Tcpclient
mod Tests
