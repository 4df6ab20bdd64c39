-- ===== src/Lib.antt =====
-- Verification library of libwake, a C library for clusters of nodes that fail: membership,
-- broadcast, voting and signalling. This development models its SWIM membership protocol,
-- src/wake_swim.c and src/wake_swim.h, its broadcast trees, src/wake_plumtree.c and
-- src/wake_plumtree.h, the datagrams that carry the messages of both, src/wake_dgram.c, quorum
-- sensing over a table of pheromones, src/wake_quorum.c, the entities that it is about,
-- src/wake_entity.c, and the signed signals that tell of them, src/wake_signal.c.
--
-- The membership protocol is a state machine that the host drives: it adds and removes members,
-- feeds it the updates that other nodes send, asks which member to probe next, reports time, and
-- asks which updates to attach to the next message. One function per C function takes the state
-- `Swim` (the struct wake_swim_t) and returns what the C function returns together with the state
-- after it.
--
-- - Common: shared names; words of 16, 32 and 64 bits, `memcmp`, list functions over native
--   numbers, and (Common/Keyed) lists that are searched by a key, which are the member table and
--   the queue.
-- - Swim/Types: the structs. An array with its counter is a list, so `member_count`, `update_count`
--   and `probe_size` are lengths, and the padding fields are left out.
-- - Swim/State: the states and state_supersedes. Swim/State/Order: laws of precedence.
-- - Swim/Queue: queue_update. Swim/Members: find_member, is_self, recount_alive and
--   wake_swim_add_member, remove_member, suspect_member, find. Swim/Gossip: wake_swim_apply_update.
--   Swim/Probe: wake_splitmix64, rebuild_probe_order, wake_swim_next_probe and select_delegates.
--   Swim/Suspicion: ilog2, wake_swim_suspect_timeout, report_health, health, check_suspects and
--   reap. Swim/Dissemination: wake_swim_get_updates. Swim/Stats: wake_swim_iterate, stats and the
--   names. Swim/Lifecycle: wake_swim_default_config, create and reset.
-- - Swim/Api: the entry points that change a state, with their tests for null arguments; the
--   functions above are the bodies after those tests.
-- - Swim/Invariant: the representation invariant. Swim/Calls: the calls of a host as a step
--   relation, and its reachable states.
-- - Plumtree/Types: the structs of src/wake_plumtree.h; the two fixed tables are lists of all their
--   slots, and the peers a list with its length as the counter. Plumtree/Peers, Cache, Pending: the
--   helpers on each table, wake_plumtree_add_peer, remove_peer, peer_link and has_msg.
--   Plumtree/Handlers: wake_plumtree_broadcast, recv_gossip, recv_ihave, recv_graft, recv_prune.
--   Plumtree/Tick, Inspect, Lifecycle: wake_plumtree_tick; stats and the names; default_config,
--   create and reset. Plumtree/Api: the entry points with their tests for null arguments.
-- - Plumtree/Output: the calls of send_fn and deliver_fn are values, in the order of the calls,
--   which a handler returns with the state; the callbacks are taken not to call back into the
--   state, and a NULL callback is told nothing. Plumtree/Invariant and Calls: the representation
--   invariant and the calls of a host as a step relation; Relay and Sweep: what a GOSSIP and a tick
--   do, for each node; Once, Recovery, Restart and Wire: what happens over several calls, in one node
--   and between two.
-- - Dgram: the byte helpers, wake_dgram_decode and wake_dgram_encode_swim, encode_pt_gossip and
--   encode_pt_ctrl. The update that a datagram holds is that of Swim/Types, so a decoded list is
--   what wake_swim_apply_update takes, and what wake_swim_get_updates returns is what is encoded.
--   An encoder that returns 0 may have written part of its buffer, which the model forgets.
-- - Quorum: wake_quorum_classify, sweep, sweep_collect, preseed, create and reset. The source
--   writes the body of the loop twice, and so does the model (`judge` and `count`, `collect_one`);
--   the reads of the pheromone table, which other threads change, are an argument.
-- - Entity: siphash_2_4 and the key of the process, the init functions, wake_entity_hash, eq, valid
--   and format, and the names; snprintf cuts a text at the buffer, `decimal` has fuel for the 20
--   digits of a number of 64 bits, and what inet_ntop answers, and the memory behind the value that
--   format reads, are arguments. The struct is a record, and `image` its 64 bytes on a little-endian machine.
-- - Crypto: wake_ed25519_keygen_from_seed, keygen, sign and verify; the calls of the vendored
--   library are a parameter, `Cipher`, and that it accepts what it signs is the hypothesis
--   `IsCorrect`. Signal: wake_signal_init, verify, forward and the names; Signal/Travel: signals
--   hop by hop.
-- - The modules below each component hold its lemmas and theorems; Tests holds a sample table and
--   an application of each theorem to it.
--
-- Numbers are natural numbers; every counter that can wrap wraps by `% 2 ^ w`, and a difference of
-- times is taken modulo 2 ^ 64. A state byte is any number, as on the wire. A node identifier is a
-- list of bytes, 32 in the source; the theorems on datagrams assume that length.
--
-- Bounds and fuel: the loop of ilog2 has `n` rounds of fuel, and `n` halves; the loop of next_probe
-- has as many rounds as the order has entries left; the shuffle counts down. Every other loop, all
-- of src/wake_plumtree.c among them, is recursion on its list. The stack buffers of
-- select_delegates (512 entries) and get_updates (256 flags) are in the definitions.
--
-- The environment: what the four calls of `calloc` in wake_swim_create and of wake_plumtree_create
-- return is an argument (`Allocation`), as is the address that seeds the generator; the callback of
-- wake_swim_iterate is a function with its context as explicit state. wake_swim_destroy and
-- wake_plumtree_destroy only free memory and are not modelled; the null tests of the functions that
-- only read, of the codec and of the sweeps are not modelled.
-- What /dev/urandom gives (`Urandom`) and the clock of wake_signal_init are arguments.
-- Not modelled: src/wake_pheromone.c, src/wake_tac.c and src/wake_version.c; SHA-512, X25519, the
-- AEAD and the wipes of src/wake_crypto.c, each a single call of the vendored library; and that
-- library.
pub mod Common
pub mod Crypto
pub mod Dgram
pub mod Entity
pub mod Plumtree
pub mod Quorum
pub mod Signal
pub mod Swim
pub mod Tests
