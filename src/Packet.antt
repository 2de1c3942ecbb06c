-- ===== src/Packet.antt =====
-- src/packet.c, src/encap.c and src/decap.c. A packet is a block: a GRE header, an IP header, a TCP
-- header and the payload, one behind the other. A pointer into it is an offset.
pub mod Headers
pub mod Create
pub mod Transfer
pub mod Handle
pub mod Print
pub mod Parts
