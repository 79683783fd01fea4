-- ===== src/Lib.antt =====
-- lwNBD: an NBD server for small machines that exports the contexts of its plugins.
--
-- A plugin (include/lwnbd/lwnbd-plugin.h) gives access to some device. Its constructor fills in a
-- context, which is taken from a pool (src/contexts.c) by the table of plugins (src/plugins.c). A
-- client names a context by a URI (src/contexts_uri.c) and then reads and writes it over the NBD
-- protocol (servers/nbd).
--
-- The files:
--   Prelude           names of the libraries, lists, the integers of C, the outcome of C code: a
--                     value, a fault (undefined behaviour), or more rounds than the fuel
--   Plugin, Device    the callbacks of a plugin, a context, and the calls from one to the other
--   Contexts          src/contexts.c; the pool is two lists, a pointer to a context is its index.
--                     Contexts/Pool: the shape of the pool, and lookups
--   System, Plugins   src/plugins.c; all static variables are the record System. Plugins/New: what
--                     lwnbd_plugin_new does to the pool
--   Servers           src/servers.c: the table of servers, the servers by name, and the descriptors
--                     that are watched. Servers/Table: what a registration
--                     leaves
--   Uri               src/contexts_uri.c; the parser (src/yuarel.c) is the parameter Yuarel
--   Text              C strings as lists of bytes
--   Log               src/log.c: which messages are printed, and how
--   Chargen           servers/chargen.c, a client's state from write to write
--   Conn              the callbacks sync_recv_cb and sync_send_cb, as a script of what they store and
--                     return; what has been handed to the sends is kept
--   Nbd/Wire, Errno   include/lwnbd/nbd-protocol.h: structures as lists of bytes
--   Nbd/Context       include/lwnbd/piconbd.h, and nbdify_context of servers/nbd/nbd.c
--   Nbd/Phase         the local variables of transmission_phase (servers/nbd/protocol.c) and the
--                     steps that READ and WRITE share; Accept and Chunk have their lemmas
--   Nbd/Medium        the bytes behind a plugin, and what a plugin's pread and pwrite promise
--   Nbd/Read          NBD_CMD_READ: rounds and the loop; Loop, Chunk, Serve, Replies (what is sent),
--                     Refuse (past the end), Retries (a plugin that fails)
--   Nbd/Write         NBD_CMD_WRITE: rounds and the loop; Chunk, Store, Replies,
--                     Pieces and Delivery (a payload that comes as it is asked for)
--   Nbd/Handshake     servers/nbd/protocol-handshake.c: greeting, options, the haggling loop; Listing
--                     has the answer to LIST, Replies one round for each kind of option,
--                     Exporting the answer to EXPORT_NAME, Negotiation a whole handshake
--   Nbd/Transmission  the switch and the loop of transmission_phase; Dispatch has one round for each
--                     kind of request, Session and WriteSession whole conversations
--   Nbd/Ends          that both phases come to an end: Pace, Reading, Writing and Options for the
--                     steps, Transmission and Handshake for the phases
--   Nbd/Handles       the table of handles of servers/nbd/nbd.c
--   Nbd/Client        the loop over the states of a client (servers/nbd/nbd.c); Client/Rounds: what it
--                     comes to
--   Memory            plugins/memory/memory.c, over one memory of bytes; Memory/Access: what is read,
--                     written and filtered, Memory/Session: such an export under the server
--   Tcp               src/tcp.c: tcp_recv_block over the recv of the socket library; Tcp/Segments:
--                     the segments of a message
--   Tty               plugins/tty/tty.c; Tty/Ring: copies into the ring, Stream: the output that the
--                     ring holds the latest bytes of, Reader: a read that waits
--   Mcman             plugins/mcman/mcman_d.c over the parameter Library, the console's memory card
--                     library; Pages, Patches, Blocks, Loop, Mask, Writing: the steps of a write;
--                     Reading: reads of a card
--   File              plugins/file/file.c over the parameter Os; File/Reads, File/Writes: the loops
--                     that go on after short reads and writes
--   Command           plugins/command/command.c and lc of builtin.c; Command/Table: registration,
--                     queries and results, Command/Listing: the lines of lc
--   Atad              plugins/atad/atad_d.c over the parameter Ata, the driver; Atad/Sectors: what is
--                     written and read
--   Pcmstream         plugins/pcmstream/pcmstream.c over the parameter Audio
--   Tests             concrete plugins and states on which the theorems are applied
--
-- Numbers: an unsigned type of C is a natural number with `% 2 ^ w` where the source may wrap; an
-- `int` compared with a `size_t` is converted as C does.
--
-- Fuel: the READ loop gets blkremains * (CONFIG_MAX_RETRIES + 1) + retry + 2 rounds, since a chunk
-- that goes through lessens the blocks and gives the retries back, and a failed one takes a retry.
-- The WRITE loop gets blkremains + 2. The request loop and the loop over options get one round more
-- than the receives that the script has left, since each round takes one, and a closed connection
-- ends them; so does tcp_recv_block. A read of a file gets one round more than bytes, since every
-- round but the last reads one. The loops of lwnbd_plugin_news and file_pwrite have their fuel as an
-- argument, for they have no bound, and so has the loop over a client's states, where one round more
-- than receives is enough; a terminal that waits has a schedule of what is written.
--
-- The build's constants CONFIG_MAX_RETRIES and CONFIG_NBD_BUFFER_LEN are the record Config. The
-- host is taken for little-endian where the request is converted in place. MAX_REQUEST_SIZE is the
-- same length as CONFIG_NBD_BUFFER_LEN, and the sockets of the context and of the client are one
-- connection.
--
-- Not modelled: the rest of servers/nbd/nbd.c, which uses a variable and a structure that are declared
-- nowhere; tcp_close and listener of src/tcp.c, and the servers
-- daytime and sifrpc, which only call the socket library or that of the console; echo
-- and export of plugins/command/builtin.c; the plugin bdm, whose constructor uses a type that is
-- declared nowhere; src/yuarel.c, which is another project's; ports, examples and tools,
-- which are start-up code and callers.
pub mod Prelude
pub mod Conn
pub mod Plugin
pub mod Device
pub mod Nbd
pub mod Text
pub mod Log
pub mod Chargen
pub mod Contexts
pub mod System
pub mod Plugins
pub mod Uri
pub mod Servers
pub mod Memory
pub mod Tcp
pub mod Tty
pub mod Mcman
pub mod File
pub mod Command
pub mod Atad
pub mod Pcmstream
mod Tests
