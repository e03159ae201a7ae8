-- ===== src/Lib.antt =====
-- Flin is a data platform in Go: a key-value store, message queues, streams and a document store
-- behind one binary protocol, kept in Badger databases. A client encodes a request as a frame, the
-- server decodes it, calls the package of the family and encodes a response.
--
-- Prelude: lists and tests over the native numbers.
-- Wire: what the Go code does on byte slices. Wire/Outcome: a result, an error or a run-time panic.
-- Wire/BigEndian: `binary.BigEndian` on 2, 4 and 8 bytes. Wire/Reader and Wire/Writer: the cursor
-- `pos` over a payload or a fresh buffer; an index or a slice out of range is `panic`. Strings and
-- byte slices are lists of bytes; machine integers are the numbers of their bit patterns, and where
-- the source adds in uint16, uint32 or uint64 the sum is taken modulo the width.
-- Protocol: internal/net/protocol.go. Protocol/Types: codes and records; Protocol/Encode and
-- Protocol/Decode: one function for each Go function, by family (`encode_mset_request` is
-- EncodeMSetRequest); Protocol/Frame: the shared layout; Protocol/RoundTrip: each encoder with its
-- decoder; Protocol/Commands: the requests of a family as data; Protocol/Safety: where the decoders
-- panic.
-- Badger: the store that the packages call, as a parameter with the laws of its documentation.
-- `update` is db.Update: the writes of the body are kept if it returns no error and the commit
-- succeeds. Transactions run one at a time. Badger/Memory is a store that meets the laws.
-- Badger/Shelf also lists its keys, as the iterator of a transaction does. Badger/Writers: entries with
-- a time to live and write batches, with their laws; Badger/ShelfWriters meets them.
-- Queue: internal/queue. Queue/Keys: the keys, `%020d` included; Queue/Storage: Push, Pop, Peek,
-- Len and Clear of internal/queue/storage.go with the metadata of 16 bytes; Queue/Message: the bytes of
-- messages and configurations; Queue/Delivery: internal/queue/storage_ack.go, where a message moves
-- between the indexes of its states. A message id (uuid.New) and the clock are arguments there;
-- Delivery/Kept says where a message stands, Delivery/Expected field by field what a message is meant
-- to be after an operation and when it has expired, and the other modules what each operation does.
-- Queue/Calls: internal/queue/queue.go, handles and settings. Queue/Worker: internal/queue/worker.go.
-- Kv: internal/kv/storage.go. Kv/Storage: the operations on keys, batches and scans; Kv/View: a map
-- from keys to values with counters of 64 bits, stated apart from the code's helpers, which Kv/Refinement
-- and Kv/Trace relate to them; a time to live that has passed is not met. Kv/Chunks: BatchGet by chunks.
-- Server: processRequestBinary of internal/server/server.go with its handlers of keys, queues and
-- streams; those of documents are a parameter. Server/Spec: the map from keys to values as a client sees
-- it; Server/EndToEnd: one command through encoder, server and store; Server/Session: many, to the
-- decoded replies; Server/Gap: pushes and pops.
-- Stream: internal/stream. Stream/Message: the bytes of messages and topics; Stream/Storage: counters,
-- the buffer, its flush and offsets; Stream/Topics: topics, the choice of a partition and committed
-- offsets; Stream/Groups: subscription and the assignment of partitions. Operations run one at a time;
-- the clock and the hash of a key are arguments. Stream/Groups/Shares says what a fair share is, by how
-- often a partition stands in the consumers' lists. Wire/Table: a Go map as the list of its entries.
-- Examples: runs and the theorems at concrete inputs.
--
-- Loops recur on their rounds or their list; no fuel is needed, since every loop of the modelled code
-- has a count.
--
-- Not modelled: sockets, the worker pool, the text protocol, HTTP and clustering (internal/server,
-- cmd), which pass bytes and calls along; the clients; the web applications; pkg/protocol, an older
-- copy that nothing imports. Nor are the tickers of the visibility worker and of the streams' background
-- loops, and the document store.
pub mod Prelude
pub mod Wire
pub mod Protocol
pub mod Badger
pub mod Queue
pub mod Kv
pub mod Server
pub mod Stream
mod Examples
