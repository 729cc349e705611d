-- ===== src/Lib.antt =====
-- BiteBitBitten is a BitTorrent client. This library models its core: reading a torrent file, its
-- description and info hash, the memory arena behind it, the trackers that give addresses, the peers
-- at them and the messages with a peer, the thread pool, the pieces on disk and the resume files.
-- Paths are from the root of the repository.
--
-- The parts and the code they follow. A definition has the name of its C function, in lower case.
-- - Common: tests, lists and machine words on native numbers; Common.Outcome is what a call comes to.
-- - Arena: arena/arena.h. An arena is a record of its sizes and a function from offsets to bytes;
--   Push and Blocks are about offsets and bounds, Copy about the bytes of strings.
-- - Bencode: the first half of parser/parser.c, `peek` to `skip_value`. A parser takes the buffer and
--   the cursor, and gives a value and the new cursor. Strtol is what the code uses of the C library.
--   Tree holds what bencode means, RoundTrip, SkipLaws and Offsets the theorems.
-- - Sha1: SHA1/SHA1.c.
-- - Metainfo: the second half of parser/parser.c, from the parsed dictionary to `TR_info`, with the
--   sanitizer of file names and `get_info_hash`, which joins Bencode and Sha1. Trackers goes from the
--   bytes of a file to its trackers.
-- - Peer: `handle_message` of announcer/announcer.c and all that it calls, and in Results the check of a
--   piece and the handlers of its results in threads/tasks.c. A connection is a stream of bytes each
--   way; what goes to the thread pool is a list.
-- - Disk: `write_piece_to_disk` of threads/tasks.c.
-- - Pool: threads/pool_thread.c. A step is what happens under the lock.
-- - Swarm: the peers of a torrent in announcer/announcer.c. Pool has `parse_peers`, `peer_pool_add`,
--   `pick_peer` and `ANN_refill_peers`, Handshake the life of a connection up to its handshake. Known
--   holds the lists of addresses that the pool stands for; Merge, Proper, Pick, Refill, Connections,
--   Links and Slots the theorems.
-- - Tracker: Udp is announcer/udp.c; Tick is `ANN_announcer_tick` of announcer/announcer.c,
--   `CL_client_tick` of client/client.c, and the handlers in threads/tasks.c of what the pool answers. A
--   loop is a record with the torrents, the table of the requests and what was sent. The trackers give
--   addresses to Swarm. Announce, Table, Timeout, Rounds, Liveness, Moves, Restart, Exchange and Connect hold
--   the theorems.
--   Url has the addresses of trackers, the text of a hash and the random identifiers, Address and
--   Percent the theorems on them.
-- - Strings: utils/str_utils.c, with Trim and Suffix.
-- - Files: files/file_interactions.c, with Copy for the theorem on the copy of a torrent file.
-- - Session: of init/init_session.c, Paths is `init_CL_session`, Start is `init_TR_torrent` and
--   `init_TR_swarm`, Saved is `CMD_add_init` and `init_saved_torrents`; Commands is repl/repl.c and the
--   line that main.c reads. A torrent file goes through Files, Bencode, Metainfo, Swarm and Tracker into the session.
--   Unique, Former and Words hold the theorems.
-- - Resume: resume/resume.c. WriteAll and ReadBack are about the loops over partial writes and reads,
--   Atomic and RoundTrip about the files.
--
-- A call that the code answers with NULL or false is `failed`; what C leaves undefined, and a failed
-- assertion, is `fault`. A loop that can run on runs on fuel and says `out_of_fuel`: `parse_value` and
-- `skip_value` need more than twice the bytes they read, since each call reads a byte or ends a loop
-- that read one; the loop of `arena_push` one round for each chunk of the reserved range, and two
-- more; `request_blocks` one round for each 16 KiB of the piece, and two more; `write_all` and
-- `read_all` one for each byte; `pick_peer` one for each entry of the pool, since each round passes an
-- entry or drops one; `ANN_refill_peers` one for each structure, since a peer that was tried is passed
-- over; the loop of `ANN_announcer_tick` over the table one for each request; `copy_torrent_file` one
-- for each byte, since a round copies at least one.
--
-- Integers are native numbers with the wrap-around of their width written out: `size_t` and `uint64_t`
-- by 2 ^ 64, `uint32_t` and the cursor of the parser by 2 ^ 32. The `int` counters of `contains_suffix`
-- and `assign_piece_to_peer` are not bounded, which differs from the code from 2 ^ 31 on.
--
-- A torrent whose arena was destroyed is marked as released, and a command that reads it is a `fault`.
-- What `fclose` leaves in a file is a parameter.
--
-- Not modelled: sockets, epoll, timers, the terminal and the reading of the environment, which are calls
-- of the system, and the printed text; announces over HTTP and the task that resolves, which are calls
-- of libraries; `arena_destroy` and `arena_push_strf`. The nodes of a parse tree are values, so their
-- place in the arena and a failed allocation are left out. `mmap`, `pwrite`, `write`, `read`, `connect`
-- and the calls on files are parameters; the time, random numbers and the environment are arguments.
pub mod Common
pub mod Arena
pub mod Bencode
pub mod Sha1
pub mod Metainfo
pub mod Peer
pub mod Pool
pub mod Disk
pub mod Resume
pub mod Swarm
pub mod Tracker
pub mod Strings
pub mod Session
pub mod Files
