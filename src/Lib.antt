-- ===== src/Lib.antt =====
-- Verification of chlibs, a set of C utility libraries: the queue, the hash map, the
-- array list and the UTF-8 functions of chutil, and of chrpc the channels that carry messages, the
-- types and values of the wire format, and the RPC server.
--
-- How the parts interact. A channel (chrpc/include/chrpc/channel.h) is a table of functions; its
-- three implementations keep their messages in a queue of chutil. A local channel is a queue and a
-- lock; a core of two local channels serves two endpoints; a channel over descriptors writes each
-- message as a frame and finds the frames in the bytes that it reads. The type of a value is
-- written before the value on the wire. The server polls the channels in its queue: a message is a
-- value that names an endpoint and holds its serialised arguments; the endpoint is looked up in a
-- hash map and called, and the response goes back over the channel.
--
--   Common            Boolean tests, and lists measured by native numbers
--   Chutil.Queue      chutil/src/queue.c, chutil/include/chutil/queue.h: q_push, q_poll, q_peek. Fifo
--                     is the bounded FIFO that clients see, Models the relation between the two
--   Chutil.HashMap    chutil/src/map.c, chutil/include/chutil/map.h: hm_put, hm_get, hm_remove,
--                     hm_check_resize and the iterator. Chains, Tables and Resize follow the loops
--                     over a chain, the table and the resize; Refines relates the map to a function
--                     from keys to values, Clients are sequences of calls, Iteration is the iterator
--   Chutil.ArrayList  chutil/src/list.c, the array list. Stores relates it to the list that it stores
--   Chutil.Utf8       chutil/src/utf8.c
--   Chrpc.Channel     chrpc/src/channel.c, chrpc/include/chrpc/channel.h. Mailbox is what a channel
--                     promises, as operations on a list of messages and a record of laws; Clients
--                     are sequences of calls
--   Chrpc.ChannelLocal    chrpc/src/channel_local.c. Holds is the mailbox that a channel holds,
--                     Lifetime making and destroying a channel
--   Chrpc.ChannelLocal2   chrpc/src/channel_local2.c
--   Chrpc.ChannelEcho     chrpc/src/channel_helpers.c, the loop of the echo thread
--   Chrpc.ChannelFd   chrpc/src/channel_fd.c. Bytes is the length field, Feed an automaton that takes
--                     one byte at a time, Rounds and Chunks compare the program's loops with it,
--                     Frames follows what a sender writes, Holds is the invariant, Arrivals the
--                     streams of bytes, Lifetime making and destroying a channel
--   Chrpc.SerialType  chrpc/src/serial_type.c, chrpc/include/chrpc/serial_type.h. Encoding is the
--                     grammar of the header's comment as a function, Writes, Reads and Equality are
--                     about the functions
--   Chrpc.SerialValue chrpc/src/serial_value.c, chrpc/include/chrpc/serial_value.h. The module holds
--                     the members and writing, Reading, Comparing, Numbers and Making the other
--                     functions. Encoding is the grammar, with the length in front of a string that
--                     the code writes, and which members have which type; Writes, Reads, Begins with
--                     Exact, Total, RoundTrip, Blocks with Equality, and Made with Integers are about
--                     writing, reading back, what is accepted, the end of reading, writing and
--                     reading together, comparison, and the constructors
--   Chrpc.RpcServer   chrpc/src/rpc_server.c, chrpc/include/chrpc/rpc_server.h. Endpoints, Responding,
--                     Handling and Serving hold the functions: chrpc_endpoint_set_lookup,
--                     chrpc_send_response, chrpc_poll_channel, chrpc_server_give_channel and the
--                     worker's routine. Lookup is about sets of endpoints, Responses about the bytes
--                     of a response, Delivery, Outcomes and Answers about what becomes of a message,
--                     Arguments about parsed arguments; Interleaving makes the sections of the workers steps,
--                     Invariant and Reachable are about their sequences
--   Chrpc.RpcClient   chrpc/src/rpc_client.c, chrpc/include/chrpc/rpc_client.h. new_chrpc_client, the
--                     putting together of a request and the reading of a response; Calls holds
--                     chrpc_client_send_request with its wait, Waiting is about the end of the wait,
--                     Replies about an answered request, Requests and Responses about the bytes
--                     that go between client and server
--
-- How the code is read. A struct is a record, a block of memory the list of its bytes or cells,
-- and a pointer that may be NULL an option. A call takes the state and returns it with what the
-- call returns or stores. What the operating system and the allocator return (the mutex, dup,
-- read, write, the contents of fresh memory) is an argument; allocation succeeds, as safe_malloc
-- ends the program otherwise. Each operation of a channel holds the channel's mutex, so the calls
-- of several threads are a sequence of calls. The hash function and the comparison of a hash map
-- are its parameters. The functions of the endpoints and the implementation of the channels are
-- parameters of the server; a worker serves a channel in one step, with the state of the server
-- that it finds. A proper value has structs of 1 to 64 fields, members of the kinds and sizes that
-- its type says, lengths below 2 ^ 32, and strings that end in their only NUL. Sums and products
-- of size_t that can wrap are taken modulo 2 ^ 64. Where the code goes on undefined, at a name or a
-- string without its NUL or a struct type without fields, the results exclude the input.
--
-- Fuel. Reading a type calls itself on fewer bytes, so its fuel is the number of bytes and one. A
-- round of the loop over a chunk takes a byte, or takes none and clears the buffer, so its fuel is
-- twice the number of bytes and two. Draining a queue and running an iterator take one call more
-- than there are elements. The wait for a response runs on more fuel than the
-- timeout. Values are read and written by recursion on their type, the cells of an array by
-- recursion on their number. That each is enough is part of the results or used in them.
--
-- Not modelled: the freeing of memory but for the buffers of messages and the channels of a server,
-- hm_equals, the pipe of two endpoints and the local client over it, the helpers that print values,
-- the linked list, heap and streams of chutil and its strings but for hash and comparison, and
-- chjson; the threads and mutexes of the server; and the wrappers of system calls in chsys, which
-- are effects of the operating system.
pub mod Common
pub mod Chutil
pub mod Chrpc
