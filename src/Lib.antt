-- ===== src/Lib.antt =====
-- Verification of chowder, a Minecraft server in C.
--
-- The server reads packets from sockets into a `struct packet`, answers with packets that it fills
-- and finishes, and serves chunks from region files. The part that is modelled is what every
-- exchange goes through, and the arithmetic and tables by which blocks and chunks are found.
--
-- Packet: src/packet.c and src/packet.h. A packet is a record with the fields of the C struct; the
--   block that `data` points to is the list `buf`. A C function that changes the packet takes it and
--   returns it changed.
--   Packet/Buffer: packet_init, packet_try_resize, packet_write_byte, packet_write_bytes.
--   Packet/Varint: read_varint_gen over any source of bytes, packet_read_byte, packet_read_varint,
--   packet_write_varint; Packet/Varint/Encoding is an independent description of the byte string.
--   Packet/Write and Packet/Read: the typed reads and writes, strings, positions (with
--   mc_xyz_to_position of src/world.c) and make_packet.
--   Packet/Slot: the NBT trees and item slots (src/slot.h) in packets, over the model in Nbt.
--   Packet/Header: packet_read_header; sfd_read_byte and read are parameters.
--   Packet/Finalize: finalize_packet. Packet/RoundTrip and Packet/Read/Text: written, then read.
-- Mc: libs/mc/mc.c, block, chunk and region coordinates.
-- Region: libs/anvil/region.c, the table of chunks of a region. Its indices are the places that Mc
--   computes.
-- Section: libs/anvil/section.c, the packed block states of a section; Section/Words reads the array
--   of words as one number, of which Section/Laws, Section/Write and Section/Store take the digits.
-- Anvil: libs/anvil/anvil.c, a chunk out of a region file. Anvil itself has the name under which the
--   block of a palette is looked up in the table of Hashmap, Anvil/Parse the chunk from its NBT tree,
--   Anvil/ReadChunk what is read from the file and inflated. Anvil/Buffer and Anvil/Names are about
--   the buffer for the name, Anvil/Chunks about the parsed chunk, Anvil/Inflate and Anvil/File about
--   the whole, from the bytes of the file to the chunk. `Zlib` has inflateInit and inflate, `Libc` has
--   qsort and strcoll; the file is its bytes.
-- Nbt: libs/nbt/nbt.c and libs/nbt/include/nbt.h, trees of named tags.
--   Nbt/Read and Nbt/Unpack: nbt_unpack and what it calls, nbt_new, nbt_free. Nbt/Pack: nbt_len and
--   nbt_pack. Nbt/Search: nbt_get, nbt_find, nbt_get_value. Nbt/Wire is an independent description
--   of the format; Nbt/Written and Nbt/Parsed to Nbt/Whole are about packing and unpacking,
--   Nbt/Found about the search, Nbt/Freed about the blocks that nbt_free frees, Nbt/Hostile about
--   malformed input. A block is known by its kind and its contents.
-- Json: libs/json/json.c, the parser. Json/Scan has the scans of the input and Json/Parse the
--   functions that call each other; the input is a list of bytes with its terminating zero, and
--   what is read or written behind it is a fault.
--   Json/Bounds, Numbers and Safe are about the accesses to the input; Json/Document is an independent
--   description of a text, Json/Strings, Kept, Layout and Tokens are about what is read from each part of
--   it, Json/RoundTrip about the whole. An object is read as the list of its members in their order.
-- View and World: src/view.h, src/world.c and parts of src/server.c and src/conn.c: the chunks that a
--   player sees, and the count of players of each chunk. Opening a region file and anvil_get_chunk are
--   the argument `Files`. World/Store has the regions, World/Players the counts, World/Views and
--   World/Update what leaving and moving do to them; World/Loading is about world_load_chunks.
-- Config: src/config.c and src/config.h, the table of server properties and their file; Config/Laws is
--   about a line that sets a property, Config/ReadBack and Config/Whole about the default file.
-- Hashmap: libs/hashmap/hashmap.c, open addressing. Hashmap/Slots has the tables from which nothing
--   was removed, Hashmap/Probe where a search ends, Hashmap/Search what
--   hashmap_get returns, Hashmap/Fill, Hashmap/Laws and Hashmap/Resize what hashmap_add does;
--   Hashmap/Keys is about tables in which no key comes twice.
-- LinkedList: libs/list/list.c, nodes in a store by address. LinkedList/Chain says which nodes make up
--   a list, LinkedList/Laws what the functions do to it. Nbt takes such a list as a list of values.
-- Prelude: faults (an access out of bounds, a failed assert) as results, lists, integers, bits and
--   bytes over the native numbers.
-- Tests: witnesses and runs on concrete inputs.
--
-- Numbers. An unsigned integer is a number with its wrap-around written out; a C `int` that may be
-- negative is an integer, or its bit pattern where it is read from a packet. The answer of `realloc`
-- and the bytes of a fresh block are the argument `Heap`; that `malloc` fails is not modelled, as the
-- code does not test it.
--
-- Loops. The loops of read_varint_gen, packet_write_varint and finalize_packet run on a count of
-- rounds (6, 5 and 6): a 32-bit number has at most five groups of seven bits, and the first and the
-- last loop look once more. packet_try_resize has as many rounds as bytes are asked for, and each adds
-- a block. The fuel of the NBT reader bounds the depth of its calls and the rounds of its loops;
-- `children_nodes` of Nbt/Wire says how much a tree needs. The loops of the linked list have a round
-- for each item, and one more that sees the empty node. The fuel of hashmap_add bounds how deep it
-- and hashmap_resize call each other, and the entries that are moved. The fuel of packet_read_header
-- is the rounds in which its block grows. The fuel of json_parse bounds the depth of its calls and the
-- rounds of its loops together, and 3 * length + 1 is enough; parse_string has a round for each
-- character. read_lines has a round for each line, and each takes a character at least. The fuel of
-- the loop over inflate is one round more than the data has bytes, as each round but the last fills
-- some room. Other loops count down what is left.
--
-- Not modelled: sockets, encryption and HTTP (calls of the system and of libraries), opening files,
-- nbt_extra.c; of JSON the accessors, equality and freeing; anvil_get_chunks, which nothing calls, and
-- free_chunk; free_server_properties; level.dat and the strings that are the keys of regions (the model
-- takes the pair of coordinates); and the other components: login and protocol (packets in a
-- fixed order between calls of OpenSSL, HTTP and sockets), the lookup of blocks, the packet generator,
-- which writes C code at build time, and the terminal viewers.
pub mod Prelude
pub mod Packet
pub mod Mc
pub mod Region
pub mod Section
pub mod Anvil
pub mod Nbt
pub mod Json
pub mod View
pub mod World
pub mod Config
pub mod Hashmap
pub mod LinkedList
pub mod Tests
