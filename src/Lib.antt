-- ===== src/Lib.antt =====
-- Verification of the Kademlia DHT with round-trip times (KadRTT).
--
-- The program is a DHT node whose routing table is a list of k-buckets, which under KadRTT exchanges
-- its entries by round-trip time and by the spread of their IDs, and whose lookups ask the closest
-- known peers for closer ones until the closest have answered.
--
--   * Keyspace: dht/go-libp2p-kbucket/keyspace/keyspace.go and keyspace/xor.go, and util.go. IDs, their
--     order, the XOR distance and the common prefix. A string is a number; sha256 and the XOR of
--     go-ipfs-util are the fields of `Hashing`.
--   * Bucket: bucket.go, kadrttbypeer.go and kadrttvariance.go, one bucket with its entries.
--   * Table and its children: table.go, sorting.go and kadrttsorting.go, the routing table. Buckets has
--     removePeer and nextBucket; Adding has addPeer and addPeer2; KadRtt has addPeerKadRTT; Estimator
--     has setOptValues; Variance has the ID variances; Nearest has NearestPeers. A panic is `none`.
--     The metrics, the diversity filter's answers and float64 (Floats) are parameters, of which nothing is
--     assumed. A bucket is named by `ref` where the code holds a pointer to it.
--   * Diversity: dht/go-libp2p-kbucket/peerdiversity/filter.go and dht/go-libp2p-kad-dht/
--     rt_diversity_filter.go, the limits on peers of one IP group. `Network` has what it takes from
--     other packages. Counts, Tallies, Records and Limits have its proofs.
--   * Peerset: dht/go-libp2p-kad-dht/qpeerset/qpeerset.go, the peers of one lookup. The distance to the
--     key, of another package, is the parameter `distance_to_key`.
--   * Query: dht/go-libp2p-kad-dht/query.go, the loop of one lookup. A goroutine is a peer in flight;
--     `Reach` lets them report in any order and with any answer. The filter and `stopFn` are free.
--     Result has what follows the loop: constructLookupResult and recordValuablePeers.
--   * Refresh: dht/go-libp2p-kad-dht/rtrefresh/rt_refresh_manager.go, the refresh manager, on the table
--     of Table and with Table.Tracked, which has dht/go-libp2p-kbucket/table_refresh.go. `Manager` has
--     what it is given; a query is free in what it does to the table.
--   * Providers: dht/go-libp2p-kad-dht/providers/provider_set.go and providers_manager.go, the provider
--     records, with the goroutine's cases as functions. The laws of the datastore, the cache and the
--     codings are `IsDatastore`, `IsCache` (Adding) and `IsCoding` (Loading).
--   * Handlers: dht/go-libp2p-kad-dht/handlers.go, the handlers of PUT_VALUE, the reading of
--     a value, and, in Peers with betterPeersToQuery of dht.go, those of FIND_NODE, ADD_PROVIDER and
--     GET_PROVIDERS. Storing, Finding and Announcing have the proofs.
--   * Routing: dht/go-libp2p-kad-dht/routing.go and lookup.go, what the node offers over a lookup. Values
--     has SearchValue and GetValue, Storing PutValue and the reading of answers of dht.go, Seeking
--     FindProvidersAsync, Providing Provide, Lookups FindPeer and runLookupWithFollowup. The other
--     children have the proofs. The validator's choice has the law `IsSelector` (Best), the library's
--     set of peers `IsPeerSet` (Sought). The values, answers and errors that the lookup brings are free.
--   * Node: dht/go-libp2p-kad-dht/dht.go, the loop rtPeerLoop through which peers enter the table; Upkeep
--     has fixLowPeers of dht.go and the change of the mode with the events of subscriber_notifee.go.
--     Fixed and Invariant have the proofs.
--   * Filters: dht/go-libp2p-kad-dht/dht_filters.go, which peers are asked and kept by their addresses;
--     `Addresses` has what it takes from the packages of addresses. Public, Local and Routers have its
--     proofs.
--   * Dual: dht/go-libp2p-kad-dht/dual/dual.go, how the answers of two DHTs are put together; Merging
--     has what FindProvidersAsync sends in any order of arrival.
--   * Examples: one small node on which the theorems are applied.
--
-- nextBucket calls itself, so `next_bucket` takes fuel: a prefix of at most m bits needs m + 2 buckets
-- at most, and a hash of 32 bytes has prefixes of at most 256 bits. The loop of removePeer drops a
-- bucket a round, so their number is fuel enough. Go's sort is not stable; where entries are equal in
-- the order compared, the model takes one of the orders.
--
-- Not modelled: the locks (each function is what runs under one), lookup events and prints, the
-- variances that nothing calls, the node's construction and options, the message streams, the search
-- for public keys and the experiment plan.
pub mod Base
pub mod Keyspace
pub mod Peerset
pub mod Query
pub mod Dual
pub mod Handlers
pub mod Providers
pub mod Refresh
pub mod Routing
pub mod Node
pub mod Filters
pub mod Floats
pub mod Bucket
pub mod Table
pub mod Examples
pub mod Diversity
