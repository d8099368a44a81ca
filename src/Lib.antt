-- ===== src/Lib.antt =====
-- SugarDB, the key-value store of this repository: the set and the sorted set type, the eviction
-- caches, the keyspace of one node, the commands on lists, sets, hashes, strings and keys of any type, access control, and
-- publish and subscribe.
--
-- A client's command is checked against the rights of its user (internal/modules/acl) and reaches a
-- handler of internal/modules, which reads its keys with a key function and then calls the server's
-- keyspace (sugardb/keyspace.go): keysExist, getValues, setValues, deleteKey. Values are texts,
-- numbers, hashes, lists and pointers to sets. The keyspace keeps a map of databases, the keys with
-- an expiry time, a memory counter and a cache of access counts or times for eviction.
--
--   Base        Boolean tests, lists, association lists, integers and texts, shared by all parts.
--   Sets        internal/modules/set/set.go: `Set` (record Set), a Go map as the list of its keys.
--               Add, Remove, Subtract, GetRandom and Pop are add, remove, subtract, get_random and
--               pop; Sets/Pointers has Move, Union and Intersection, which work on sets by pointer,
--               over a memory of sets.
--   SortedSets  internal/modules/sorted_set/sorted_set.go, with the checks of options and the
--               comparison of scores of utils.go: NewSortedSet, Contains, Get, AddOrUpdate, Remove,
--               Pop and Subtract; Union and Intersect are in Aggregates. A score is a float64: its
--               arithmetic and order are a parameter (Arithmetic). Folds and Extremes say what is made of
--               the scores of a member in all sets.
--   Eviction    internal/eviction: Lfu and Lru, with the functions of container/heap that they call
--               (Heap). Lengths and Shrinking count the entries of a heap.
--   Keyspace    sugardb/keyspace.go and KeyData of internal/types.go. State is the server as far as
--               the keyspace reads and writes it; Access has keysExist, getExpiry, getValues,
--               deleteKey and createDatabase, Write has setValues, setExpiry and Flush. Evict has
--               updateKeysInCache and adjustMemoryUsage, Sampling has evictKeysWithExpiredTTL,
--               randomKey, getObjectFreq and getObjectIdleTime, Connections has SwapDBs.
--   Commands    Exec is internal/types.go's HandlerFuncParams: the calls of a handler, as actions
--               on the server with an error or a panic as their result. Numbers is AdaptType of
--               internal/utils.go. Lists, with Ends and Removal, is internal/modules/list, and Sets, with Combined, is
--               internal/modules/set: every handler with its key function. A handler of a set
--               changes it through the pointer that the store holds. Hashes, with Values, is
--               internal/modules/hash, the handlers of a hash but for those named below. Strings is
--               internal/modules/string. Generic is internal/modules/generic: SET with its options
--               (Options, and Setting for the texts that give them), the times of keys (Expiry), counters (Counters), and RANDOMKEY, TOUCH
--               and OBJECT (Usage). Times is time.Time and the
--               clock. Steady has what the actions do to the entries of the store on a standalone
--               server without caches whose memory is not limited.
--   Acl         internal/modules/acl. User is user.go: a user, the rules of ACL SETUSER, the normal
--               form. State is acl.go: the users, the connections and the compiled patterns, and
--               the operations on them, with the handlers that change them. Authorize is
--               AuthorizeConnection.
--   PubSub      internal/modules/pubsub. Channel is channel.go, State is pubsub.go: the channels with
--               their subscribers and the messages that wait, and what is written to connections.
--               Handlers is commands.go. A round of the goroutine that `Start` begins takes one
--               message (run_channel); Steps has every order of commands and rounds.
--   Tests       runs on concrete inputs.
--
-- State is passed explicitly. A panic is a result of its own. An order that Go leaves open (the
-- order of a map) is that of the list that stands for the map, but for SUNION and SUNIONSTORE, where it
-- decides which set is changed and is a parameter. The memory counter is the bit
-- pattern of an int64. Texts are their characters, so the length of a text is its number of bytes
-- for ASCII texts, and the comparison without case is that of ASCII. Random draws are an input.
-- Parameters too are the library of patterns, SHA-256, the reading of numbers by math/big in
-- AdaptType, the floats of strconv and their addition, and the print of values that are no scalars. A time is a
-- number of nanoseconds, and the time of a server stands still during a command.
-- The goroutines of updateKeysInCache are run in the order of the databases; locks are not modelled.
-- What goroutines do later, the update of the caches, is kept as tasks; messages to the leader are
-- kept in the order in which they are sent. A node of a cluster is a follower: what a raft leader does
-- waits for the cluster, under the lock of the store, and is not modelled. Writes to subscribers are
-- goroutines, whose order is left open.
-- A slice is the list of its items; where a handler writes through a slice that the store holds
-- (LSET, LREM) the entry of the store changes with it. The spare capacity of a slice is not
-- modelled.
--
-- Union and Intersection run on fuel, for which the number of sets is enough; the functions of the
-- heap run on fuel above the place or the number of entries, which bounds their rounds; the loops of
-- LREM look at each place once. The eviction from a heap runs on fuel, for which one more than the
-- entries of the heap is enough. The loops that draw keys run on fuel too, and no amount is enough for
-- every run of draws.
--
-- Not modelled: HINCRBY, HINCRBYFLOAT, HRANDFIELD and HSTRLEN, the branches of the raft leader, the
-- handlers of sorted sets and GetRandom of a sorted set, getState of the keyspace, the handlers of access control that only
-- print, the dispatch of commands, the cluster, persistence, configuration and the embedded
-- interface. A PUBLISH that finds a
-- channel with a full buffer waits; what it does when it goes on is not modelled.
pub mod Base
pub mod Sets
pub mod SortedSets
pub mod Eviction
pub mod Keyspace
pub mod Commands
pub mod Acl
pub mod PubSub
pub mod Tests
