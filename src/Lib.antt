-- ===== src/Lib.antt =====
-- A model of the core of the peer-to-peer agents: the Kad identifiers, routing table and tags, the walk
-- to the nodes closest to a target, the Kad flood and request trackers, the publish cache that answers
-- searches, the firewall checks, the scheduler of ED2K upload slots, and the queue of observed searches.
--
-- Parts, and the code that each file models:
--   Base and its children: shared names, lists, maps, sorting, bitwise XOR; no code of the repository.
--   Kad/NodeId: crates/overlord-kad-proto/src/node_id.rs. The sixteen bytes of an identifier are four
--     `Chunk`s of four bytes, in the order in which they are stored. `distance`, `bit` and `cmp` are the
--     methods of the same names.
--   Kad/Routing/Contact: crates/overlord-kad-routing/src/contact.rs and error.rs.
--   Kad/Routing/Bin: bin.rs of the same crate, `RoutingBin`: a bucket is the list of its entries, the
--     oldest first. Bin/Laws has the proofs.
--   Kad/Routing/Zone: zone.rs, `RoutingZone`: a trie whose leaves are buckets. The children prove what a
--     split does (Fill), what a well-formed trie is (Shape), `add` (Add), and `get`, `remove`, `count`
--     and `get_closest` (Lookup).
--   Kad/Routing/Table: table.rs, `RoutingTable`: the trie with the counts for each address and each
--     public /24. The children: the counts (Counts), the invariant (Invariant), that the operations keep
--     it (Operations), the table as a finite map (Lookup) and the nearest entries (Closest).
--   Kad/Tracker: crates/overlord-kad-net/src/tracker.rs, `PacketTracker` (proofs in Flood) and
--     `OutboundRequestTracker` (proofs in Outbound).
--   Ed2k/Upload: crates/overlord-agent-emule/src/ed2k_transfer/upload_queue.rs,
--     `Ed2kUploadQueueState`. The children: the invariant (Invariant), the ranked keys (Waiting), the
--     loops (Promote), what they leave alone (Bounds), `begin_session` (Begin), the operations of a
--     handle (Operations), a handle of an older connection (Handle), and sequences of calls (Reach).
--   Kad/NodeId/Text: `FromStr` of node_id.rs, on ASCII strings.
--   Kad/TagNames, Kad/Packet: the tag names of crates/overlord-kad-proto/src/constants.rs and the packet
--     types of packet/types.rs that other files use.
--   Kad/Utf8, Kad/Wire: `String::from_utf8_lossy` and `str::from_utf8` of the standard library, and reading
--     and writing of little-endian numbers and blocks.
--   Kad/Tag: crates/overlord-kad-proto/src/tag.rs, `Tag` with `write_options` (`write_tag`) and
--     `read_with_mode` (`read_tag`). Kad/Tag/RoundTrip has the proofs.
--   Kad/Traversal: crates/overlord-kad-dht/src/traversal.rs. `Traversal` holds the variables of
--     `run_traversal`, `launch` sends the queries of a round. The children: which contacts of an answer
--     are taken (Sanitize), one round of the loop (Round), the second phase (Phase2), that a change of
--     states keeps the order (Relabel), the invariant (Invariant), before the first round (Start), all
--     rounds (Rounds), that each answer is progress (Progress), and the early end (Converged).
--   Store: crates/overlord-agent-emule/src/kad_store.rs, `KadLocalStore`. The children: the file size
--     that tags tell (FileSize), the lists with expiry and eviction (Entries), tags of publishes and
--     results (Tags), the publishes (Publish), the searches (Search), the invariant and that every
--     operation keeps it (Keyed, Invariant, Preserve), sequences of operations (Run) and the loads that
--     they are answered with (Load), what an answer holds (Answers), and that a publish is found (Found).
--   Store/Expr: kad_search_expr.rs of the same crate, `parse_search_term` and `matches`; Store/Query has
--     expressions as they are written, and the proofs about the parser.
--   Firewall: crates/overlord-agent-emule/src/kad_firewall.rs, `KadFirewallState`. The texts of `last_error`
--     are constructors. The children: the discovery of the external port (Discovery), what an active
--     round satisfies (Rounds), the UDP check (Udp), and sequences of calls (Run).
--   Snoop: crates/overlord-agent-emule/src/snoop_queue.rs, `SnoopQueue`, with `SnoopEntry` of
--     crates/overlord-agent-common/src/types.rs. The children: `merge_entry` (Merge),
--     `record_replay_outcome` (Outcome), the three selections, which share one body (Select), that
--     entries stand under their keys (Keys), what they give out in ten minutes (Budget), and from which
--     entries (Pick, Rest, Cooldown). `hex::decode` is a parameter.
--   Kad/Tests, Kad/Tag/Tests, Kad/Traversal/Tests, Kad/Tracker/Tests, Ed2k/Tests, Snoop/Tests,
--   Store/Tests, Firewall/Tests: runs at concrete values.
--
-- How the parts interact: the table calls the trie, the trie its buckets, and all of them the
-- identifiers. The snoop queue reads identifiers from text. The traversal orders its candidates by the
-- distance of the identifiers. The store filters by tags, and its keyword search calls the search
-- expressions. The trackers, the firewall checks and the upload queue stand alone.
--
-- Parameters. `decode_legacy` of Kad/Tag stands for the decoder of the system's code page and
-- `encoding_rs`, `to_lowercase` of Store for `str::to_lowercase`, and the hexadecimal decoder of Snoop for
-- `hex::decode`; the theorems about them hold for every function in their place.
--
-- State and failure. An operation that changes `self` takes the state and returns the next one, with the
-- result beside it. A `Result` is a data type with the source's errors. Clocks are arguments: an instant
-- is a number of nanoseconds, and a difference of instants stops at 0, as `duration_since` does. A hash
-- map is an association list, or a list of entries that carry their key; where the source iterates over
-- a hash map, the model takes the order of the list.
--
-- Fuel. `RoutingZone::add` recurses down the trie and again after a split. The model gives it
-- 2 * 128 = 256 calls, since a split is refused at depth 127 and each level takes two calls at most;
-- the value `stuck` stands for fuel that ran out. `promote_waiters` and `trim_waiting_queue` loop as long as
-- there are slots or surplus keys; each round takes a key off the waiting order, so they run on its length. `parse_search_term` takes the
-- levels that are left, 24 less its depth, and refuses at 0 as the source does at depth 24.
--
-- Concurrency. The tasks of a traversal are the list of the nodes that they ask, and the loop takes their
-- results in any order, as the events of a walk; the deadline and a cancellation are events as well.
--
-- Not modelled: sockets, files, logging, serialisation and the asynchronous runtime; the packet codec and
-- obfuscation; the second phase of a traversal, which sends packets on a timer; the Kad node that calls
-- the traversal; the ED2K server and peer protocols; port mapping; label strings and `Display` of
-- identifiers.
pub mod Base
pub mod Kad
pub mod Ed2k
pub mod Snoop
pub mod Store
pub mod Firewall
