-- ===== src/Lib.antt =====
-- DATUM gateway: the protocol core of the gateway that stands between miners (Stratum V1 and V2), the
-- local bitcoind and the OCEAN pool. The gateway greets the pool with a sealed hello, then exchanges
-- encrypted frames whose headers are obfuscated by a key chain; it takes the pool's coinbase outputs,
-- builds the coinbase transaction and the merkle branches of the local block template, hands the same
-- job state to both miner protocols, and relays their shares to the pool.
--
-- Which file models which part:
--
-- Common and its children: shared names, Boolean tests, lists and bytes over the native numbers, the
--   result type, and bit operations as arithmetic.
-- Protocol/Frame: FrameHeader of crates/datum-protocol/src/frame.rs, pack and unpack.
-- Protocol/Opcodes: ProtoCmd of crates/datum-protocol/src/opcodes.rs.
-- Protocol/Obfuscation: datum_header_xor_feedback and HeaderObfuscator of
--   crates/datum-protocol/src/obfuscation.rs; a mutated obfuscator is returned with the word.
-- Protocol/Crypto: the trait DatumCrypto of crates/datum-protocol/src/crypto.rs as a parameter. The
--   laws assumed of it, IsSecretBox, IsSealedBox and IsSigner, are what the dryoc crate documents of its
--   boxes and signatures.
-- Protocol/Handshake: build_hello_payload, seal_hello, frame_for_hello and parse_received_header of
--   crates/datum-protocol/src/handshake.rs; the padding is an argument.
-- Protocol/Nonce, Protocol/Session, Protocol/Events: increment_nonce, derive_session_nonces,
--   Connected::send_frame, Connected::recv_frame and decode_event of crates/datum-protocol/src/client.rs.
--   The connection is passed along; the socket is the list of the bytes written or still to be read.
-- Protocol/Client: DatumClient::connect and the two loops of Connected::run of
--   crates/datum-protocol/src/client.rs. The keys, nk and the padding, which the code draws at random, are
--   arguments; the pool is a function from the bytes that it is sent to the bytes that it answers. The
--   loop over the frames has one unit of fuel more than there are bytes; each frame takes at least four.
-- Protocol/MockPool: the pool of crates/datum-protocol/src/mock_pool.rs, the other side of the greeting.
-- Protocol/Messages: the codecs of crates/datum-protocol/src/messages.rs.
-- Coinbaser: parse_v2_blob and encode_v2_blob of crates/datum-coinbaser/src/lib.rs. The parser's loop has
--   as much fuel as the blob has bytes; each round takes at least eleven.
-- Template: the builders of crates/datum-blocktemplates/src/template_state.rs. Varint, Height, Coinbase,
--   Merkle and State follow push_varint, bip34_height_script, build_split_coinbase_bin,
--   build_merkle_branches and from_template_and_blob. The double SHA-256 and the hex codec are parameters.
--   The loop over the merkle levels has one unit of fuel more than there are transactions: every level
--   halves the size.
-- ShareRelay: JobMeta of crates/datum-stratum-sv1/src/assembler.rs; Jobs is the JobTracker of
--   crates/datum-share-relay/src/lib.rs, its hash map a list of pairs; Target and Encoder are
--   crates/datum-share-relay/src/share_encoder.rs; Relay joins them the way the loop of
--   crates/datum-bin/src/main.rs and finalize_share of crates/datum-stratum-sv2/src/share_path.rs do.
-- Sv1: extranonce1 of crates/datum-stratum-sv1/src/lib.rs, and the ring of emitted jobs and the patched
--   coinb1 of crates/datum-stratum-sv1/src/server.rs.
-- Sv1/Hex: the hex codec that the wire format of crates/datum-stratum-sv1/src/server.rs and
--   crates/datum-bin/src/main.rs need, over characters as numbers.
-- Sv1/Connection: handle_connection of crates/datum-stratum-sv1/src/server.rs as a list of events (a
--   request, a template, a vardiff tick, a pool minimum); Names and Requests hold the requests and their
--   parts, Steps the turns of the loop, and the other children the theorems.
-- Sv1/Notify: the notify message of crates/datum-stratum-sv1/src/assembler.rs, and the conversion of a
--   submitted share, sv1_share_to_inputs of crates/datum-bin/src/main.rs.
-- Sv2: Vardiff, Targets and Shares are crates/datum-stratum-sv2/src/share_path.rs and the clamp of
--   crates/datum-stratum-sv2/src/channel_manager.rs. The clock and the outcome of the floating-point test
--   of a hash rate are arguments.
-- Sv2/Channels: the channel manager of crates/datum-stratum-sv2/src/channel_manager.rs. Open holds the
--   handlers that open a channel, Update the template update; the extranonce allocator is a parameter.
-- Sv2/Setup: crates/datum-stratum-sv2/src/setup_connection.rs.
-- Sv2/Listener: the turns of a connection of crates/datum-stratum-sv2/src/listener.rs, which join the
--   channel manager, the share path and the job tracker.
-- Sv2/Store: the job store and the extranonce bridge of crates/datum-stratum-sv2/src/lib.rs.
-- Sv2/Registry: ChannelRegistry of the same file, in the steps of open and close that other tasks and the
--   readers of the count can come between.
-- Config: the fields of crates/datum-config/src/sections.rs that crates/datum-config/src/validate.rs
--   reads, and the validation. Integers are the signed numbers it needs; Floats are the numbers of 64 and
--   32 bits as multiples of their smallest one, with rounded sums.
-- Dupes: the filter of duplicate shares, crates/datum-dupes/src/lib.rs. The cache of the lru crate is a
--   parameter, and IsLru is what that crate documents of it.
-- Rpc: one call at a time of the client of crates/datum-rpc/src/lib.rs with its credentials and its retry, submitblock
--   and preciousblock, and BlockSubmitter::submit of crates/datum-submitblock/src/lib.rs. HTTP, JSON and
--   the cookie file are parameters that may answer by all that was asked before.
-- Api/Digest: the digest authentication of crates/datum-api/src/digest.rs over a hash that is a parameter.
-- Gateway: tasks of crates/datum-bin/src/main.rs. Upstream is one connection of run_datum_upstream with
--   maybe_request_coinbaser and the counters of RuntimeStats, as a list of the inputs that wake its loop;
--   Jobs is the task that publishes a TemplateState and the task that makes SV1 jobs of them.
-- Examples: the theorems at concrete inputs.
--
-- Machine integers are native numbers with their wrap-around written out; strings and byte vectors are
-- lists of numbers. A result `stuck` or `none` of a loop on fuel stands for no behaviour of the code.
--
-- Not modelled: the noise transport and the key files, the API pages and logging, the accept loops, the
-- parsing and the defaults of the configuration, the constructors and time limits of the RPC client,
-- start-up, the command line and signals of the gateway, and the tasks and watch channels of the tokio
-- runtime, which are glue or third-party code; the TemplatePuller of
-- crates/datum-blocktemplates/src/lib.rs is not yet covered.
pub mod Common
pub mod Protocol
pub mod Coinbaser
pub mod Template
pub mod ShareRelay
pub mod Sv1
pub mod Sv2
pub mod Config
pub mod Dupes
pub mod Rpc
pub mod Api
pub mod Gateway
pub mod Examples
