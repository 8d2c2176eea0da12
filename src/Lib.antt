-- ===== src/Lib.antt =====
-- A model of angr-ghidra-core: a replacement for the native decompiler process of Ghidra that speaks
-- its framed, packed-binary protocol and answers with angr.
--
-- The parts and how they interact. Ghidra (or the client of the harness) and the core exchange bursts
-- over a pipe. The client sends a command; the core's loop reads it, begins a response, runs a
-- handler, which may ask queries back through the same pipe, and ends the response. The payloads of
-- commands, queries and responses are trees of elements in the packed encoding.
--   Prelude     tests on the native numbers, lists, dicts, `|` and `&` as arithmetic, exceptions as values.
--   Ids         angr_ghidra_core/ghidra_wire/ids.py: the ids used and the tables of names.
--   Packed      angr_ghidra_core/ghidra_wire/packed.py: PackedEncoder (Packed/Encoder) and
--               PackedDecoder (Packed/Decoder). The decoder's methods take the decoder and return it
--               as it is left, also when they raise; the encoder's return the longer buffer.
--   Dump        angr_ghidra_core/ghidra_wire/dump.py: Element and parse_tree.
--   Address     angr_ghidra_core/ghidra_wire/address.py.
--   Framing     angr_ghidra_core/ghidra_wire/framing.py: BurstReader, BurstWriter, the doubled bytes.
--   Transport   the two ends of a pipe as state: the bytes still to come and the bytes written.
--   Server      angr_ghidra_core/ghidra_wire/server.py: ServerTransport.
--   Client      angr_ghidra_core/ghidra_wire/client.py: DecompClient. The oracle that answers queries
--               is a parameter. Client/Calls has the commands on top.
--   Core        angr_ghidra_core/core/angr_core.py: AngrCore.serve, with the command handlers as a
--               parameter, and _fetch_window, with the getBytes callback as a parameter.
--               Core/Commands has its state and the commands that run no angr, Core/Queries what it
--               asks of Ghidra, Core/Thumb and Core/Names what it makes of the answers. Core/Exchange
--               and Core/Called join it to the client.
--   Daemon      angr_ghidra_core/core/server_daemon.py: AngrServer, its threads as a step relation
--               (Daemon/Steps) over a state that has the clock.
--   ImageCache  angr_ghidra_core/core/imagecache.py: probe_image, with the same callback.
--   Pcode       angr_ghidra_core/core/pcode.py: PcodeTranslator. Pcode/Ail holds what it reads of the
--               intermediate language of angr (AIL), Pcode/State the methods that make varnodes and
--               operations, Pcode/Expressions _expr, _call and _stmt, and Pcode/Graph translate. The
--               lookup of a register's offset is a parameter.
--   Variables   angr_ghidra_core/core/variables.py: VariableSymbolTable over the chunks of the generated C.
--   Emit        angr_ghidra_core/core/emit.py: ResponseEmitter. Emit/Writer has sequences of the
--               encoder's calls, Emit/Model and Emit/Tokens the emitter's methods, Emit/Shapes,
--               Emit/Function, Emit/Ast and Emit/Markup the trees that they write.
--   Clang       angr_ghidra_core/ghidra_wire/clang.py: render_c and split_decompile_response. How Python
--               prints a value that is no text is a parameter.
--   HighFunc    angr_ghidra_core/ghidra_wire/highfunc.py: decode_high_function and collect_token_attr.
--   Oracle      angr_ghidra_core/harness/oracle.py: PypcodeOracle, over the tables that it takes from a
--               loaded binary.
--   Edits       angr_ghidra_core/core/edits.py: parse_user_edits over the elements of Dump, and
--               resolve_hash_edits over Dynahash.
--   Dynahash    angr_ghidra_core/core/dynahash.py: DynamicHasher over a graph of p-code operations.
--
-- Conventions. A `bytes` is a list of numbers and a `str` the list of its UTF-8 bytes. An exception is
-- an `Error` in a result. Ids of elements and attributes are below 4096 where the two bytes of a
-- header matter. Numbers are unbounded, as in Python; the encoder's wrap at 2 ^ 64 is written out.
--
-- Bounds. Loops that read make at most one round for each byte, so the length of the data and one more
-- bounds them (parse_tree, the searches of the decoder, read_command, read_response). The walk up of
-- probe_image adds a page in each round that goes on, so max_size / page and one more is enough; the
-- loop of _fetch_window adds a chunk. Chains of skipped operations in Dynahash are followed for as
-- many rounds as the graph has operations, and one more.
--
-- Not modelled: what runs angr (analyses, types), XML specifications,
-- files, sockets and processes, and the sessions of the test harness; they are listed with the
-- components.
pub mod Prelude
pub mod Ids
pub mod Packed
pub mod Dump
pub mod Framing
pub mod Transport
pub mod Server
pub mod Client
pub mod Dynahash
pub mod ImageCache
pub mod Core
pub mod Address
pub mod Edits
pub mod Pcode
pub mod Variables
pub mod Emit
pub mod Clang
pub mod Daemon
pub mod HighFunc
pub mod Oracle
