-- ===== src/Dns.antt =====
-- packages/core/src/dns-service.ts without `DnsWireFormat`: questions, packets, and the server.
pub mod Question
pub mod Packet
pub mod Cache
pub mod Hosts
pub mod Records
pub mod Server
pub mod Mixing
