-- ===== src/Lib.antt =====
-- Verification of Simple VPN (src/*.c): a client, a VPN server and a destination that exchange one
-- packet. The client makes a packet with a GRE, an IP and a TCP header and a payload, hides it with a
-- repeating XOR key and sends it to the server. The server restores it, puts its own address in the
-- place of the client's, drops the GRE header and sends it to the destination. The destination
-- answers with a packet of its own, which the server encapsulates, addresses to the client, hides and
-- sends back.
--
-- The parts and their files:
-- Base        numbers of 8, 16 and 32 bits with their wrap-around written out, `htons`, Boolean
--             tests, the bind of Option, and the status 0 or -1 that functions return.
-- Memory      a block of memory as the list of its bytes. A load or store outside of it is `none`,
--             which stands for undefined behaviour; calloc, memcpy, strncpy, strlen and strings.
--             Pointers into a packet are offsets. Memory/Laws has the lemmas on these.
-- Cipher      src/encrypt.c: `key`, `xor_encrypt_decrypt`.
-- Checksum    src/utils.c: `cksum`, `verify_checksum`.
-- Address     src/host_info.c: `parse_ip_addr`, `parse_ip_addr_to_str`.
-- Hosts       src/host_info.c: the table `hosts` and `get_host_ip`.
-- Protocol    src/protocol.h: the three headers, as records and as the bytes they are stored as.
-- Packet      src/packet.c, src/encap.c and src/decap.c. Packet/Headers: sizes, offsets,
--             `packet_encapsulate`, `packet_decapsulate`, `set_ip`, `set_tcp`. Packet/Create:
--             `create_packets`, `create_packets_des`. Packet/Transfer: the functions that send and
--             receive. Packet/Handle: `serv_handle_pkt`, `serv_handle_pkt_dest`, `save_client_ip`.
--             Packet/Print: the functions that print a packet. Packet/Parts: the parts of a block that
--             holds a packet.
-- Process     what the three programs share: how a run ends, its events in order, and the functions
--             that open sockets. Process/Ends: runs that end.
-- Client, Server, Destination
--             `main` of src/client.c, src/server.c and src/destination.c, cut into functions at the
--             places where it returns early. `none` is undefined behaviour here too.
--             Client/Safety, Server/Safety, Destination/Safety: these on any bytes from the network.
--             Client/Undefined and Server/Undefined: where these access memory outside a block;
--             Server/Lost: answers that the server cannot handle.
-- System      the three programs together: what each one sends is what another one receives.
--             System/Translation: the server as a translator of addresses, on messages that forget how
--             a packet holds them.
-- System/Network
--             programs that run side by side: what is left of each, a queue of messages from each to
--             each other one, and the steps that a scheduler picks; a `recv` from a program that is over,
--             whose sockets are closed, brings no bytes. Network/Performed, Network/Stays, Network/Commute
--             and Network/Schedules are about the order of steps, Network/Turns and Network/Hangups
--             about scripts.
-- System/Agents
--             the three programs from their connections on, as agents of such a network: a `recv` takes
--             a message from a queue and a `send` that succeeds puts one there. Agents/Played,
--             Agents/ServerAlone and Agents/Alone lay them against the functions of Client, Server and
--             Destination, Agents/Scripts and Agents/Relaying say what each one does in a turn, and
--             Agents/Rounds and Agents/Together put the turns together. Agents/Refusal and
--             Agents/Refused are about a server that cannot reach the destination.
-- Guide       the programs of the guides. Guide/RawPacket: client_packet.c and
--             server_packet.c of doc/guide_mininet/examples. Guide/Talk: client.c and server.c there;
--             Talk/Conversation and Talk/Together are about lines that fit the buffer, Talk/Overrun
--             about one that does not. Guide/Tls: encrypt.c, runner.c, server.c and client.c of
--             doc/guide_openssl/example, as the calls that they make to OpenSSL; Guide/Tls/Handles says
--             as a relation on the handles alive what calls are allowed, Guide/Tls/Programs is
--             about the programs, and Guide/Tls/Wrappers about the functions of encrypt.c that make a
--             connection, also where `SSL_new` returns NULL.
-- Tests       the theorems at concrete inputs.
--
-- The operating system is a parameter: records of answers (ClientOs, ServerOs, DestinationOs) say
-- what each call of socket, inet_pton, connect, send, recv and so on returns. `recv` returns the
-- bytes of one message, also in a network, whose queues hold whole messages and whose connections
-- are open. The allocator's blocks are as large as was asked for; only the block of
-- `serv_cli_encrypt_free`, which the code runs over by one byte, has a number of bytes behind it as
-- a parameter, so that the run can be followed on allocators that round sizes up. The machine is
-- little-endian. The programs of the guides have such arguments too (TalkListening, TalkReaching,
-- RawOs, Answers, and the lists of messages, lines and replies).
--
-- Loops are structural recursion, but for two. The folding loop of `cksum` has fuel 3: after the first
-- round a sum of 32 bits is below 2^17 and after the second below 2^16. The loop that prints a number in
-- decimal has fuel 10, the digits of the largest 32-bit number.
--
-- Not modelled: constant messages to the terminal; the rendering of a number by printf; free, but
-- for a flag that says whether a function that sends freed its blocks; the fragments
-- under doc that print a constant or only call OpenSSL; the topology under vpn_topo.
mod Base
pub mod Memory
pub mod Cipher
pub mod Checksum
pub mod Address
pub mod Hosts
pub mod Protocol
pub mod Packet
pub mod Process
pub mod Client
pub mod Server
pub mod Destination
pub mod System
pub mod Guide
mod Tests
