-- ===== src/Lib.antt =====
-- Zonzon: a programmable DNS and HTTP gateway for development (TypeScript, packages/core).
--
-- A DNS query enters at `DevDnsServer.resolve`: its questions are parsed from the wire, the cache is
-- asked, the configuration's hosts are searched, and the reply is built, cached and logged; a name
-- that nothing hosts is put to the firewall and then left to the fallback resolver. `DnsHandler`
-- stands before it for UDP, TCP and HTTPS: it asks the rate limiter, forwards to the fallback
-- resolver, and vets what comes back, with DNSSEC and with the firewall, before a client sees it. HTTP
-- requests are routed to the upstream of their host or as a forward proxy, past the firewall and
-- through a circuit breaker, and TLS connections are routed by the server name of their ClientHello.
-- The control plane changes the configuration, one update at a time, and encrypts its secrets.
--
-- The files, with the code each is about:
--   Base            what the modules share: Boolean tests, lists, bits of words, texts of UTF-16 code
--                   units, bytes with UTF-8, and the insertion-ordered `Map` of JavaScript
--   Types           packages/core/src/types.ts
--   Wire            packages/core/src/dns-service.ts, `DnsWireFormat`
--   Dns/Question    the same file, `parseQuestion` and `extractQuestions`
--   Dns/Packet      the same file, `buildResponsePacket`, `buildNoErrorResponse`,
--                   `generateErrorResponse` and `appendEdns0DoBit`
--   Dns/Records     the same file, `encodeARecord` to `encodeSRV`, `buildSingleAnswer`, `buildAnswers`
--   Dns/Hosts       the same file, `findHostConfig`, `hasRecord` and `toTypeNumber`
--   Dns/Cache       the same file, `getFromCache`, `addToCache` and `rewriteResponseTtl`
--   Dns/Server      the same file, `resolve`
--   Dns/Mixing      the same file, `apply0x20Encoding`
--   Dnssec          packages/core/src/dnssec.ts: the records, and in Dnssec/Validation the signatures
--   Handler         packages/core/src/dns-handler.ts, what its transports share
--   Handler/Udp     the same file, `handleUdpMessage` and `forwardUdpQuery`
--   Handler/Tcp     the same file, `handleTcpConnection`, and with Handler/Tcp/Upstream
--                   `forwardTcpQuery`
--   Handler/Doh     the same file, `handleDohRequest` and `resolveQueryAsync`
--   Firewall        packages/core/src/firewall.ts
--   RateLimiter     packages/core/src/rate-limiter.ts
--   Breaker         packages/core/src/http-handler.ts, `ProxyCircuitBreaker`, `getCircuitBreaker`
--   Http            the same file, `findWildcardHost` and `handleHttpFault`
--   Http/Requests   the same file, `handleConnect`, `handleForwardProxy`, `handleRequest`, the loop token
--                   and the headers of `doHttpProxy`
--   HttpProxy       packages/core/src/http-proxy.ts
--   Secrets         packages/core/src/crypto.ts, `isEncrypted`, `encryptSecret` and `decryptSecret`
--   Sni             packages/core/src/sni-proxy.ts, `extractSNI`
--   Sni/Connection  the same file, `handleConnection` up to its tunnel
--   Audit           packages/core/src/audit.ts, the counters
--   Control         packages/control-plane/src/domain/config/config.handler.ts, `ConfigHandler`
--   Control/Lock    config.service.ts beside it, `PessimisticLock`
--   Control/Service the same file, `ConfigService`
-- A method keeps its name, in snake case; a class is a record that its methods take and return.
-- The Tests modules run the definitions and instantiate the theorems.
--
-- A text is the list of its UTF-16 code units and a buffer the list of its bytes. A throw is `none`.
-- The clock, in milliseconds, is an argument and stands still within a call. Doubles are exact
-- natural numbers, which they are below 2 ^ 53. Upper case is lowered for ASCII letters, the only
-- ones that a host name of the configuration can have.
--
-- Loops: `readDomainName` gets fuel for seven runs through the buffer, where its limit of jumps
-- allows six; the eviction of `addToCache` gets one round for each entry;
-- `skipQuestionSection` and `apply0x20Encoding` get one round for each byte of the message; the loops
-- over the messages of a TCP stream get one round for each byte, where a message takes three; the
-- other loops are structural, over a count or a list.
--
-- Parameters: SHA-256 in `resolve`, random bytes and ids, `resolve` of node:dns, `URL` and
-- `base64url` of the runtime, the HMAC of the loop token (the record `Runtime`), what DNSSEC uses of
-- node:crypto (the record `Crypto`), AES-256-GCM (the record `Cipher`), and what `ConfigHandler`
-- calls: the derivations of keys, SHA-256, the schema of the headers and the reading of a
-- configuration. `net.isIPv4`, `net.isIPv6`, `parseInt` and `Number` are those of the runtime and
-- written out in Firewall/Address.
--
-- Not modelled: sockets, timers and files, whose callbacks are the functions here; starting and
-- stopping; the streams of bodies through the HTTP proxy; the log lines; the master key; the schema,
-- which is declared in a third-party library and whose limits are hypotheses here; the command line.
pub mod Base
pub mod Wire
pub mod Types
pub mod Dns
pub mod Dnssec
pub mod Handler
pub mod Firewall
pub mod RateLimiter
pub mod Breaker
pub mod Sni
pub mod Control
pub mod Http
pub mod HttpProxy
pub mod Secrets
pub mod Audit
