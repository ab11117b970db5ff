-- ===== src/Lib.antt =====
-- Pokapali: documents that are edited together over a peer-to-peer network, whose snapshots form chains
-- of blocks. This library models the packages that hold the pure core of the program.
--
-- The program's parts and their files:
--   FingerTree    packages/finger-tree/src: 2-3 finger trees with a cached measure, the sequences under
--                 the views of a document. Types (monoid.ts, types.ts, node.ts, digit.ts), Tree
--                 (tree.ts), Fold (fold.ts), Concat (concat.ts), Split (split.ts). A tree of the source
--                 holds values at its top level and nodes of nodes below; here the depth is an index of
--                 the type, and a value of the source is a tree of depth 0.
--   Facts         packages/core/src/facts.ts: the facts that the network, the editor and the timers
--                 report, and the state of a document (Types); its read-only projections (Views).
--   Status        packages/core/src/doc-status.ts: the status values that are derived from the state.
--   Reducers      packages/core/src/reducers.ts: how a fact changes the state. Chain (reduceChain and
--                 its helpers), Slices (gossip, connectivity, content, announcements, pending queries,
--                 IPNS, save state), Epochs (epochs and snapshot history), Document (reduce, and the
--                 state with which doc-runtime.ts starts).
--   Limiters      packages/node/src/rate-limiter.ts and new-name-limiter.ts: the limits of a node on
--                 snapshots, requests and new names, by sliding windows.
--   Wire          the lib0 codec, a library that the two parts below use: a record of its functions with
--                 the documented law that what is written is read back, which is their parameter.
--   Sync          packages/sync/src/reconciliation: how two peers find the edits that one of them lacks.
--                 Messages (messages.ts), Trie (merkle-trie.ts), Session (session.ts), Snapshots
--                 (snapshot-exchange.ts).
--   Signaling     packages/node/src/signaling: the relay that introduces peers to each other. Protocol
--                 (protocol.ts), Frames and Relay (handler.ts), Registry (registry.ts).
--   Prelude       what the parts share: tests, options, association lists for maps and sets.
--   Scenarios     concrete trees, facts, states and calls.
-- The functions keep the source's names in snake case: reduceChain is reduce_chain. A reducer that
-- switches on the type of a fact is a function `…_step` by clauses on the payload of the fact, and the
-- reducer applies it to the fact. The modules below these, such as Chain/Statuses, hold the proofs.
--
-- How things are modelled:
--   A Map or a Set is a list in insertion order, without repetitions where it is made by `map_set` and
--   `set_add`. A CID stands for its text. Times, sequence numbers and attempts are natural numbers.
--   undefined and null are `none`, except in the record of a channel's epochs, which tells them apart. A
--   throw is `none`, and `split`, which also returns undefined, has an outcome of its own. The clock is
--   an argument. The identity test on objects in `reduce` is a parameter of each call, which must not
--   take different values for the same, and may differ from one call to the next; `reduce` and the
--   state that it returns are compared as values. The channels of the epochs are a plain object in the
--   source: a lookup without an own record finds the names of Object.prototype. The texts of decimal numbers, in keys and in reasons, are made
--   with fuel n for the number n, which is enough: n has at most n + 1 digits.
--   A string of bytes is a list of numbers, and a session is the record of the variables that
--   `createSession` closes over; `receive` returns the next one. A stream's `send` function is named by
--   the number of the stream, and what the relay sends is a list of effects in order.
--   `split_leaf` has fuel 256, the bits of a SHA-256 hash, and `none` when no bit tells two hashes apart,
--   where the source does not end. The inner loop of the frame reader has the length of the buffer as
--   fuel, of which each turn takes at least four bytes; the loop that cuts a block into chunks has the
--   length of the block, of which each turn takes at least one byte when the chunk size is not zero. The
--   rounds of a reconciliation are an argument of `exchange` and of `trace`. There is no other fuel: the
--   functions on trees and lists are structural.
--   The check of a received block answers later: `verified` is the step that takes its answer.
--
-- Not modelled: `combine` of monoid.ts; logging; the interpreter's effects (packages/core/src/
-- interpreter.ts, of which only the retry constants are here); the rest of the packages for
-- synchronisation and for nodes: coordination, transports, the forwarding between relays, the waiting of
-- streams and the servers; the packages for capabilities, storage, comments and the user interface; the
-- libraries for cryptography, networks and shared editing, which are not part of the repository.
pub mod Prelude
pub mod FingerTree
pub mod Facts
pub mod Status
pub mod Reducers
pub mod Limiters
pub mod Wire
pub mod Sync
pub mod Signaling
pub mod Scenarios
