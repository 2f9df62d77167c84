-- ===== src/Lib.antt =====
-- A verification library for upkeeper: the protocol of libupkeeper/upkeeper, by which the controller
-- of services and its clients talk, and the buddy of controller/, which watches one service.
--
-- The program. libupkeeper/upkeeper is a library that a client and the controller link. A client
-- makes a packet with a `upk_create_` call (upk_protocol.c, which picks the version, and
-- upk_v0_protocol.c), `upk_serialize_packet` (upk_protocol_serializer.c) writes it into a buffer with
-- the serializer of its message (upk_v0_protocol_serializer.c) and its checksum (upk_crc32.c), and
-- `upk_deserialize_packet` reads such a buffer again. The buddy (controller/buddy.c) starts, watches
-- and stops one service, records what happens to it in a ring buffer and sends that to the controller.
-- Packets travel over connections (upk_network.c), each with a queue of messages to write, a buffer for
-- what arrives and a stack of callbacks. These are linked lists of the macros in upk_types.h. The
-- configuration (upk_config.c) is json text, walked with a stack of handlers (upk_json.c), from which
-- the descriptors of services are made in layers.
--
-- The files, by the code that they model:
--   Prelude            no code: the names, tests, list operations and laws that the others share.
--   Crc                upk_crc32.c: `crc_table`, `upk_create_crc32_table`, `upk_crc32`,
--                      `upk_verify_crc32`. Bitwise and Detect hold the laws.
--   Wire               the macros UPK_PUT_ and UPK_FETCH_ of upk_protocol.h. Outcome has the results,
--                      Write and Read the macros, Bytes, Laws and Stops what they write and read.
--   Protocol           Structs and Codes are upk_v0_protocol_structs.h and the enumerations of
--                      upk_protocol.h; SerialReq, SerialRepl, DeserialReq, DeserialRepl and Dispatch
--                      are upk_v0_protocol_serializer.c; PacketFields and Packet are
--                      upk_protocol_serializer.c; CreatePkt, CreateReq and CreateRepl are
--                      upk_v0_protocol.c; Api is upk_protocol.c, and MsgSize has `upk_get_msgsize`.
--                      Layout is a description of the bytes of each message that does not use the
--                      serializers, with the fields in the order of the structs; Valid says which
--                      messages fit their structs, and Calls lists the packet-creating calls. The
--                      other files hold laws.
--   LinkedList         the UPKLIST_ macros of upk_types.h, in Macros, on a heap. Chain says which list
--                      is in the heap; the other files hold laws, by macro.
--   Json               upk_json.c, upk_json.h and upk_json_fmt.h. Types has the values and the nodes of the
--                      stack, Walking the stack and the walk, Text the output, Output the handlers
--                      that print and the serializers, Parsing `upk_json_parse_string`. Reference is
--                      the text of a value by recursion on it alone; the other files hold laws.
--   Net                upk_network.c and upk_network_types.h. Types is the state of a connection,
--                      Writing and Reading are `upk_queue_packet`, `upk_write_packets` and
--                      `upk_read_packets`, Handles the stack of callbacks, Closing the loop that
--                      frees closed connections, and Owned what they have. The other files hold laws.
--   Uuid               uuid.c and upk_uuid.h: identifiers, their text and their version. Hex is what
--                      the code uses of `snprintf` and `strtoul`.
--   Util               upk_util.c: `upk_replace_string`, in Replace, on the bytes of a text. Substitute
--                      is the replacement by recursion on the text; Moving and Replacing hold laws.
--   Config             upk_config.c and upk_config.h. Desc is the descriptor of a service, how it is
--                      cleared and freed, Overlay is `upk_overlay_svcconf_values`, Names the ids of
--                      services, Loading the reading of a file, Finalize `upk_finalize_svc_desc`.
--                      Settings reads a descriptor as a map from members to what is set. The other
--                      files hold laws.
--   Buddy              controller/buddy.c. Ring is the ring buffer, Flush the exchange with the
--                      controller, Process the signal handler, the action scripts, starts and
--                      restarts, Commands the commands of the controller with the stops. Queue
--                      describes the ring as a queue; the other files hold laws.
--
-- The correspondence. A serializer is a writer: it takes the bytes written so far and the size that
-- `calloc` gave to the buffer. A deserializer is a reader over the bytes that are left. Both end in
-- an outcome: `ok`, an `error` with the value that the code stores in errno, or a `fault` where C
-- leaves the behaviour undefined (a write or a read past the end of a buffer, a call through a null
-- pointer). An array `char[UPK_MAX_STRING_LEN]` is the list of its bytes up to the zeros that fill it.
-- A uint32_t is a number with its wrap-around written out. A pointer that may be null is an Option.
-- `upk_deserialize_packet` that reports an error is modelled by that error: the pointer that it then
-- returns was freed before. Sizes of structs and of pointers are those of an LP64 platform. Memory
-- is taken to be available: `calloc` does not fail.
--
-- A linked list is a metanode and a heap from addresses to nodes, in which a freed node is missing; a
-- use of a pointer to no node has no result. Where a connection uses a list, it is a fault.
--
-- Loops run on the structure of a list or count down a number that the code counts itself; those of
-- `buddy_stop_proc` have one round more than their limit, which is enough. Only UPKLIST_FOREACH runs
-- on fuel, and has no result when that runs out; one round more than the list has nodes is enough,
-- which the theorems on the loops include.
--
-- When a closed connection is freed, its user data is an allocation that several connections may have, and
-- to free it twice has no result; what a function of the client frees is an argument.
--
-- Of the buddy, the answers of the system (time, stat, fork, waitpid, select, read, write) are
-- arguments, and the signal mask is part of the state. No handler runs during a flush, in which all
-- signals are blocked. So are what `read` and `write` do on a connection, with errno as far as the code
-- looks at it. A callback is a function on the connection, and the counter `pending_writeq` of the
-- global state is kept with the connection.
--
-- A value of json-c is a tree, as far as the walk looks at it; the texts that json-c and `printf` make of
-- strings and numbers, and what the tokener finds, are arguments. A handler is a code, and what it does
-- is an argument of the walk. A text on the heap is missing, held or freed, and to free or read it when
-- it is freed is a fault.
--
-- Not modelled: the functions that free packets, the event loop of the buddy and its way of
-- calling the controller by itself, the dispatcher of upk_network.c with its descriptor sets and
-- the making of connections, upk_client.c, the handlers of upk_config.c for each key of a configuration, the
-- configuration of the controller, the way back from a descriptor to json, json-c itself, the
-- source of random bytes of UUIDs, the other utilities, UPKLIST_SWAP and the doubly linked lists of
-- upk_types.h, the controller itself and its database, the command line programs, and the vendored
-- copy of sqlite.
pub mod Prelude
pub mod Crc
pub mod Wire
pub mod Protocol
pub mod LinkedList
pub mod Json
pub mod Net
pub mod Uuid
pub mod Util
pub mod Config
pub mod Buddy
