-- ===== src/Lib.antt =====
-- The Bridge and the Relay of agent-console. The Bridge (apps/bridge) runs beside the desktop
-- agents; it takes commands, decides hook invocations and keeps a local database. The Relay
-- (apps/relay) stands between the bridges and the browsers and carries their event streams.
--
-- What is modelled, and where:
--
-- Base: lists, tables (association lists with at most one entry for a key) and tests on the native
--   numbers, shared by all.
-- Bridge.Pending: apps/bridge/src/zcode/pending.rs, the registry of hook invocations that wait for
--   a decision. `Registry` is the map under the lock together with logs of what went into the
--   one-shot channels; each operation of `PendingRegistry` is a function on it (Pending/Calls).
--   The clock is an argument, and so is whether the receiver of a reply still exists.
-- Bridge.Store: apps/bridge/src/local_store, the receipts, the queue rows and the cursors. Each SQL
--   transaction is one step; the text of a time is an argument.
-- Bridge.Queue: apps/bridge/src/commands/queue.rs, the manager of one next turn for each session.
--   `World` is its state with the store; every query of SQLite takes one entry of a list of faults,
--   so that each may fail. The answers of the adapter (a snapshot, a stream of receipts) are
--   arguments. Revisions are u64 in the program and pass through i64 and back unchanged. The
--   watcher handles the events of a session one after the other, and no other call is modelled
--   between the queries of one operation.
-- Bridge.Gateway: apps/bridge/src/commands/gateway.rs, where commands enter. A submission runs as one
--   step, with the queue and the store it calls; a task that forwards receipts takes a step for each.
--   What the capability probe and the adapter answer is an argument, and so is the digest of a payload.
-- Bridge.Ipc: apps/bridge/src/adapter/codex/ipc, the length-prefixed frames (frame.rs) and the reader of
--   the socket (client.rs). UTF-8 and JSON are parameters with named hypotheses where a theorem needs
--   them; the dispatch of a value is any function that can fail. The reader's inner loop runs on fuel,
--   one more than the bytes buffered, which is enough because a frame that is taken is not empty.
-- Bridge.Files: apps/bridge/src/files/grant.rs, the handles that open one file below a root. `std::fs`
--   is a record of functions, given anew to each call; the random token and the clock are arguments.
-- Relay.Frame, Relay.Coalesce: apps/relay/src/realtime/buffer.rs, the classes of frames and their
--   merging. `encoded_len` of prost is a parameter; offsets are u64 and wrap.
-- Relay.StreamBuffer: the bounded replay buffer of the same file. The eviction loop runs on fuel,
--   the length of the queue, which is enough because each turn removes a frame.
-- Relay.Outbox: the bounded queue towards one browser of the same file, one call at a time.
-- Relay.Transfers: apps/relay/src/transfers/mod.rs, the registry of file transfers and the state of
--   each. The random id of a transfer and the clock are arguments. A step is what happens under one
--   lock, so that the steps of handlers that take several locks interleave freely.
-- Relay.Streams: apps/relay/src/realtime/mod.rs, the streams of the hub. `DStream` is the state
--   of a stream; `Hub` holds the tables that the stream handlers change under the hub's lock, and
--   each handler is a function on it (Streams/Subscribed, Streams/Upstream and Streams/Publish for
--   what bridges send, Streams/Bindings and Streams/Browsers for browsers, Streams/Upkeep for the
--   hub's own actions). prost's lengths and encodings, the fresh ids and the clock are parameters.
--   The loop of the stash runs on fuel, one more than the events in it, which is enough because
--   each turn removes one. A frame is known by its number where the source compares pointers.
--
-- Not modelled: the HTTP and WebSocket handlers, SQL that only stores and fetches, child
-- processes, the keychain, the mapping to protobuf and the web client, which are input and output
-- or translations; nor the Codex adapter's projection, of the Relay's hub the closing of
-- all browsers, the removal of a bridge, commands, queries and the shutdown, and the handlers and
-- the byte pump of its file transfers.
pub mod Base
pub mod Bridge
pub mod Relay
