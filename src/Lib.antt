-- ===== src/Lib.antt =====
-- Betterfly2 is an instant-messaging backend: Go services that talk over Kafka, with Redis for
-- routes and calls and PostgreSQL for everything that lasts. A client's request enters through the
-- data forwarding service, which publishes it to the service that owns it; that service answers
-- with an event to the topic of the connection service that holds the client. This library models
-- the parts with the most logic of their own.
--
-- Prelude and its children: comparisons, booleans, lists, integers over the native naturals, and
-- text as code points, whose letters have case in ASCII only.
--
-- Call: services/callService/internal/call. Call/Types is types.go with the messages of
-- proto/call/call_interface.proto; Call/World is what a handler works on, Redis with key expiry
-- and the log of what reached Kafka, with the actions over it; Call/Store is store.go, each Lua
-- script one function (createSessionWithEventsScript is run_create, and
-- transitionSessionWithEventsScript is run_transition), and Call/Store/Config its configuration;
-- Call/Events, Call/Initiate, Call/Answer and Call/Service are service.go: the event builders;
-- getConfig, initiate and resumeCall; accept, reject, hangup and forwardICE; Handle,
-- HandlePushResult and SweepExpired. Call/Keeps, Call/Writes and Call/Follow say what handlers
-- write. Call/Relay is a batch of event_relay.go, whose ledger does not run out within it. Call/Record,
-- Call/Safety,
-- Call/Lifecycle, Call/Once, Call/Outcome and Call/Authority hold results.
-- Times are nanoseconds on one clock. A handler reads it once, where the code reads it several times
-- within a call. A session's JSON text is represented by the session, so that the script's comparison
-- of two texts is one of sessions. Each command to Redis or Kafka may fail without effect (Env.fails), or
-- take effect and lose its reply (Env.loses); a message
-- always marshals and a oneof holds no nil message. SHA-256, decimal numbers, ICE servers and random
-- ids are parameters. Redis aborts a script at an expiry below one millisecond, which happens before
-- the script's first write. PX takes whole milliseconds: a time to live is rounded down to one, and
-- the retention of operation records is taken to be at least one.
--
-- Relations: friends, groups and the requests that lead to them, shared/db. Relations/Types is
-- models.go, with the tables as maps by primary key (a group's members by group, in a list whose order
-- no result depends on); Relations/Friends is util_friend.go with addDirectFriendPairTx;
-- Relations/Groups is util_group.go with the changes of members of util_relationship.go;
-- Relations/Requests makes and expires requests (createPendingRequest and its callers), and
-- Relations/Resolve resolves them (resolveRequest). Relations/Operations makes one type of them all, so
-- that Relations/Ownership, Friendship, Pending and Finality can speak of any sequence of operations;
-- Relations/Authority says who may do what, and Relations/Frames what operations leave alone.
-- Transactions run one at a time, and their statements do not fail: one that fails rolls its
-- transaction back. A time is a number of nanoseconds, which the operations cut to seconds where a
-- column keeps seconds. Lists and joined views are left out here; the requests that a list expires first are not.
--
-- AbTest: services/abTestService/internal/abtest. AbTest/Types is types.go with the tables of
-- shared/db/models.go; AbTest/Values has the JSON values and mergeConfig; AbTest/Versions
-- (compareVersion), AbTest/Targeting (targetingMatches) and AbTest/Evaluate (evaluateExperiment,
-- selectGroup, Evaluate) are evaluator.go; AbTest/Normalize, Store, Create, Changes and Additions are
-- store.go, and AbTest/Commands makes one type of its operations; AbTest/Cache is evaluationSnapshot
-- and invalidateLocal of one process as steps of concurrent evaluations and writes, which may come
-- between the two queries of a load. AbTest/Rollout, Serving,
-- Selection, Merging and AbTest/Cache/Freshness hold results. RFC 3339 is a parameter (Times). A
-- number of a JSON value stands as its literal, a JSON column holds the fields themselves, and an
-- operation runs at once, without a failure of the database. Copies of cached values are left out, for
-- a value of the model does not change; so are the metrics and the cache of a subject's overrides.
--
-- Reliable: the code that all services share for handling a message once. Reliable/Consumer is
-- shared/kafkaconsumer (processWithRetry and, in its child Partition, ConsumeClaim), with what the
-- processor, the context and the publisher do at each attempt as a parameter; its loop runs on the
-- retries that are left, which are finitely many; a backoff wraps around at 64 bits.
-- Reliable/Inbox is shared/db/inbox_outbox.go over business tables of any type, with the cleaning of
-- the inbox by shared/db/retention.go, and Reliable/Outbox is shared/outbox/relay.go, as steps of any number of
-- relays on the rows of one service. Reliable/Inbox/Once, Reliable/Outbox/Delivery and Reliable/Consumer/Delays hold
-- results. Rows of outbox_events stand in the order of the relay's query; tokens, which are random,
-- are fresh numbers. The backoff, a product of floating-point numbers, is one of natural numbers.
--
-- Friend: services/friendService/internal/handler, over the tables of Relations and the inbox of
-- Reliable. Friend/Requests has the messages of proto/friend, Friend/Friends, Groups and Relationships
-- the handlers (handler.go, handler_group_management.go and handler_relationships.go), and
-- Friend/Router the dispatch by oneof and HandleMessage; Friend/Router/Refinement and Messages hold
-- results. The lists of requests are modelled, for they expire requests, without the names and avatars
-- that they join. Whose account exists, and the hash of StableEventID, are parameters; protobuf is left out. The
-- queries that list friends, members and joined groups, which change nothing, are left out.
--
-- Storage: the table of messages, shared/db/util_message.go and `Message` of shared/db/models.go, in
-- Storage/Messages; who may read a message of a group is asked of the tables of Relations. A storing
-- or a recall is one step, as it is a transaction. Storage/Messages/Identity, Once, Recalls, Final
-- and Granted hold results.
-- The pages of messages for a client that catches up are left out.
--
-- Not modelled: the services' processes, Kafka and HTTP code, authentication, push delivery, the
-- storage service's handlers and files, and the connection service.
pub mod AbTest
pub mod Call
pub mod Friend
pub mod Prelude
pub mod Relations
pub mod Reliable
pub mod Storage
