-- ===== src/Lib.antt =====
-- A verification library for the crawler, scanner and service of this repository.
--
-- Parts and files:
--   * Base: the shared names, lists, tests and sums.
--   * NetUtil: what the table uses of go-ethereum's netutil and enode, as records of operations
--     with the documented laws; Samples has concrete values of them for the examples. Ip: net.IP.
--   * Node: crawler/net/discovery/common/node.go, the node record with its 64-bit counters.
--   * Distance: NodesByDistance of the same file; Distance/Ideal says what it computes (a sorted
--     list cut at a size), Distance/Search is about sort.Search, Distance/Closest about Push.
--   * Table: crawler/net/discovery/table/table.go. Table/State has the records, Table/Lists and
--     Table/Buckets the helpers that work on one bucket under the lock (addIP, addReplacement,
--     replace, bumpInBucket, the locked parts of AddSeenNode and addVerifiedNode), Table/Ops the
--     methods of the table under the Go names in snake case with the package variables that NewTable
--     assigns, Table/Loop the loop of Run that schedules the refreshes, Table/Random
--     ReadRandomNodes. Table/Limits is about the addresses in the buckets.
--   * Feed: crawler/events, the feed of events with its subscriptions.
--   * Handler: crawler/net/discovery/handler.go, which joins the awaiter, the table, the feed and the
--     lookup: execute adds requests to the awaiter, LookupRandom starts a lookup from the table.
--   * Query: crawler/net/discovery/query.go, the lookup. It asks nodes through the handler and keeps
--     its result in a NodesByDistance.
--   * Awaiter: crawler/net/discovery/responseAwaiter.go, the queue of pending requests. A request of
--     the handler is added to it, and a response is matched against it.
--   * V4: crawler/net/discovery/v4, the packet handlers. V4/Bond has the bonds and faults, V4/FindNode
--     the packets of neighbours, V4/Requests the checks and handlers with HandlePacket and the
--     requests that wait for a bond.
--   * Acceptor: the rate limiter of crawler/net/discovery/acceptor.go. Listener: the loop of
--     crawler/net/discovery/listener.go with the workers of the pool acceptor, over a heap of slices.
--   * Identity: crawler/net/discovery/identity.go, the record of the local node.
--   * Crawler: crawler/crawler. Crawler/Seeker has seeker.go, seekerProc.go and filterNode,
--     Crawler/Peers has peer.go, buffer.go and crawlerProc.go, Crawler/Loop the loops of crawler.go
--     over the peers, with the steps of the workers between them.
--   * Pool: crawler/workers/base/pool.go, the workers that run the two processors. The goroutine of
--     Start and each turn of monitor are single steps.
--   * Runner: crawler/workers/runner, the loop of a worker over its iterator; Runner/Iterator has the
--     iterators of crawler/crawler/iterator.go between those who push and several workers.
--   * Scanner: scanner/scanner, the scan of a port range and the scans of announced nodes
--     with their callbacks. Scanner/Controller has the threads of the controller, its calls and their
--     channels.
--   * Metrics: service/metrics, the factory of metrics and what it documents.
--   * ScanConfig: scanner/app, and CrawlConfig: crawler/app/parse.go, the flags and configurations.
--   * Store: service/db/store.go, transactions and migrations. Broker: service/broker, the feed of a
--     topic and the count that its consumer keeps.
--   * Transport: crawler/net/transport and crawler/net/querier.go, the handshake with a peer.
--   * PeekDb: discV4PeekDB of crawler/cmd/disc/v4/disc.go.
--
-- Loops that wait on channels are functions on events: each event is one turn of a select, or what
-- another goroutine does, so that a list of events is one interleaving.
-- Fuel: sort.Search is a loop that halves its range; it gets one round more than the list has
-- elements, and Distance/Search shows that this is enough. The other loops are structural.
-- Time, randomness, the network, Redis and the database are arguments of the operations that use
-- them.
-- Not modelled: logging, the values of metrics, packet encoding and cryptography, SQL and generated
-- queries, the queues of RabbitMQ, Docker, the socket of the writer, the encryption of RLPx, and the
-- commands that only start these parts.
pub mod Base
pub mod Node
pub mod NetUtil
pub mod Samples
pub mod Distance
pub mod Feed
pub mod Table
pub mod Ip
pub mod Awaiter
pub mod Query
pub mod V4
pub mod Scanner
pub mod Store
pub mod Transport
pub mod Runner
pub mod PeekDb
pub mod ScanConfig
pub mod Acceptor
pub mod Crawler
pub mod CrawlConfig
pub mod Pool
pub mod Identity
pub mod Handler
pub mod Listener
pub mod Metrics
pub mod Broker
