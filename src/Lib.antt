-- ===== src/Lib.antt =====
-- Verification of the Facto server: the Go services under server/processor and server/api.
--
-- Events reach the processor through a NATS stream. Its consumer buffers them, builds a Merkle tree of
-- their hashes, writes them into three tables of ScyllaDB, stores the root, and acknowledges the
-- messages. The API reads the tables, checks the hash, the signature and the chain of events, and exports
-- evidence packages with a Merkle proof for each event.
--
-- Parts and files:
--   Processor/Merkle     server/processor/merkle.go. BuildMerkleTree, buildTree, hashPair, Root, GetProof
--                        and VerifyProof are build_merkle_tree, build_tree, hash_pair, root_hash, get_proof
--                        and verify_proof. Nodes live in a heap and pointers are its indices, so that
--                        Parent, Left, Right and the comparison of pointers are those of the code.
--   Processor/Storage    server/processor/storage.go. StoreBatch is process and store_batch; the three
--                        goroutines take turns by a list that the environment chooses, and each executed
--                        batch may fail after writing some of its rows. StoreMerkleRoot is
--                        store_merkle_root.
--   Processor/Consumer   server/processor/consumer.go. The loop of Start is select_loop over the inputs
--                        that select takes; handleMessage and flush have their names. The messages
--                        answered, the counters and the database are part of the state.
--   Processor/Fetching   the same Start with its two goroutines: the system's state has the consumer, the
--                        channel and where each goroutine stands; Inner are the steps of the goroutine that
--                        fetches, and a step of the loop takes an input that the channel, the context or the
--                        ticker offers.
--   Processor/Setup      the same Start before its loops: the stream and the durable consumer. JetStream is a
--                        record of calls on a server's state, with the laws of IsServer.
--   Processor/Service    server/processor/main.go: main, with NewStorage, NewConsumer and Close.
--   Processor/Config,    server/processor/main.go and server/api/main.go: loadConfig.
--   Api/Config
--   Processor/Event      the events as the consumer decodes them.
--   Api/Storage          server/api/storage.go. GetEvents, GetEventByFactoID, GetSessionEvents,
--                        getDateRange and buildEventResponse have their names. What a query yields is a
--                        parameter.
--   Api/Event, Handlers  server/api/handlers.go: the responses, and the handlers that read events.
--   Api/Verify, Chain    the same file: buildCanonicalForm, sortedMap, verifyHash, verifySignature, and
--                        VerifyChain.
--   Api/Merkle, Evidence the same file: the tree of an evidence package by its levels, and
--                        GetEvidencePackage.
--   Api/Service          server/api/main.go: the routes, loggerMiddleware, and the metrics of the handlers.
--                        gin is a record of what the server takes from it.
--   Api/Lifecycle        the same main: the session with the database, listening and shutdown.
--   Pipeline             from the queue through the processor and its tables to GetEventByFactoID, the
--                        stored roots beside the evidence packages, and the checks of an event before and
--                        after it is stored.
--   Tree                 the root that both trees should have: halving a list of hashes, level by level.
--   Go                   what the code uses of the language and its standard library.
--   Base                 shared names, Boolean tests and lemmas on lists.
--   Tests                runs at concrete inputs.
--
-- How the parts meet: the consumer calls build_merkle_tree on the hashes of its buffer, then store_batch
-- and store_merkle_root on its database. The goroutine that fetches hands it messages through the channel.
-- The rows that store_batch writes are those from which the API builds its events. The proofs of an
-- evidence package are those that the processor's verify_proof checks.
--
-- Fuel: build_tree has as many rounds as there are leaves, build_levels as many as there are hashes, the
-- walk to the root one more than there are nodes, the batches one more than there are events, and the
-- dates one more than there are days up to the last. Each round halves a list, goes to a newer node or
-- moves on by at least one element or one day, so the rounds are enough.
--
-- Parameters: JetStream, gin and the drivers are records of what the code calls of them. SHA-256 and
-- SHA3-256 are any functions into 32 bytes; encoding/json, the conversions between float32 and float64,
-- Ed25519, time.Parse, sort.Slice and the binding of requests are functions, with laws only where a theorem
-- names them. Times are nanoseconds since the year 1.
--
-- Not modelled: the options of the connections to NATS and ScyllaDB, the wording of logs, the values that
-- the histograms of durations and latencies observe, the ingestion service (Rust), the SDKs, and the
-- scripts.
pub mod Base
pub mod Go
pub mod Tree
pub mod Processor
pub mod Api
pub mod Pipeline
pub mod Tests
