-- ===== src/Lib.antt =====
-- koanf-etcd: a configuration provider that reads keys from etcd v3 and watches them.
--
-- Files, and what they model:
--   Base             lists, bytes, and Go's int64, uint64 and int32 arithmetic
--   Errors           errors.go; classifyWatchError and isFatalRPCError of watch.go
--   Client           the requests and answers of go.etcd.io/etcd/client/v3; Client/Server is what etcd
--                    documents of the answer to a Get, Client/Changes of the options of a Watch
--   Settings         settings.go (settings, newSettings); Settings/Options is options.go
--   Transform        transform.go (makeDefaultKeyTransform, defaultValueTransform)
--   New              etcd.go (New, validateSettings and what they call)
--   Build            etcd.go and transform.go, buildClient with loadTLSFromFiles and
--                    lookupSRVEndpoints
--   Provider         the fields of Provider that change, Stats and its snapshot, Event, and the
--                    effects that a caller or etcd can see
--   Range            read.go, prefixEnd
--   Strings, Path    read.go, splitCleanPath and unflattenMap, with the string functions they call
--   Read             read.go, readCtx, readBytesCtx, readSingle and readPrefix; Read/Requests,
--                    Read/Entries, Read/Pages and Read/Snapshot are what a prefix read returns,
--                    Read/Gets is how many Gets it sends, Read/Effects what a read leaves alone,
--                    Read/Down how it fails
--   Watch            watch.go: translateEvent, deliverBatch, watchKey, watchOpts and the error hooks;
--                    Watch/History is what etcd documents of a Watch, Watch/Served what the
--                    options of the loop's Watch make it send
--   Watch/Backoff    watch.go, backoff
--   Watch/Session    watch.go, consumeWatch; in Watch/Session/Debounce with armDebounce, the timer
--                    and a time for each input
--   Watch/Loop       watch.go, watchLoop with tryHandleCompaction, doResync and sleepBackoff;
--                    Watch/Loop/Replay is what many sessions deliver, Watch/Loop/Cover what they and
--                    the resyncs between them deliver, Watch/Loop/Recovery and Watch/Loop/Pending what
--                    follows a compaction, Watch/Loop/Pace how long it sleeps, Watch/Loop/Tally what it
--                    counts; Watch/Loop/Handed, Watch/Loop/Rereads, Watch/Loop/Keeps and
--                    Watch/Session/Keeps are what these share
--   Lifecycle        etcd.go, Watch, WatchTyped and Close; in Lifecycle/Steps how they and the loops
--                    interleave, in Lifecycle/Runs the loop of Watch/Loop among them, in
--                    Lifecycle/Handover a read and then a watch, in Lifecycle/Ownership New and Close
--   Write            write/write.go
--
-- How they interact: New makes the settings; the reads and the watch loop run on them and on a State,
-- which a function takes and returns. A read returns a State and a Result. The loop opens a session
-- for each Watch, the session hands events to the callbacks, and a compaction makes the loop read
-- again. What is sent, called or waited for is recorded in the State's trace, the newest first.
--
-- Text is a list of bytes. Go's `error` values are the type Error: a sentinel of errors.go, an error
-- from outside, of which errors.Is and status.FromError are known, or a message round another error.
-- Time is counted in nanoseconds, in int64 with its wrap-around. Revisions of etcd are natural
-- numbers.
--
-- Parameters (the record Env, and arguments): the answer of etcd's client to each Get, koanf's
-- maps.Unflatten, the order in which Go ranges over a map, the clock, which calls of a watch callback
-- panic, math/rand/v2's Int64N, and, for the construction of a client, certificates, files, the
-- resolver and clientv3.New (the record World). What the select of a session receives is the list of
-- its inputs, and what the context does is part of a Round. Timers of Go are
-- those with a channel of one tick that fire when they are due (Watch/Session/Debounce).
--
-- Hypotheses on etcd: IsSnapshot says that each Get is answered from one state of the store, with the
-- revision of that state in the header, which holds when no key changes while a read goes on and
-- WithReadRevision is not set; a server answers with the keys of the range in their order, at most as
-- many as the limit says (Client/Server). Delivers says what etcd documents of a Watch
-- (Client/Changes, Watch/History): the events are the changes of the keys in its range that its
-- filters let through, from the revision of WithRev on, in order, each once and none left out, as far
-- as the session got, and a header is not behind them. A header may be ahead of the events, and then
-- the loop resumes too far; the theorems over many sessions are about connections that are not lost
-- at such a time.
--
-- The only fuel is that of the pages of a prefix read, Env's field fuel; a read that has no fuel left
-- fails with out_of_fuel, an error that the program does not have. Each page that another follows
-- holds a key, so that fuel above the number of keys is enough. The sessions and the loop recurse on
-- their inputs and rounds, and stay waiting when these end.
--
-- The steps of Lifecycle/Steps are the sections under watchMu, the swap of `closed`, the waiting and
-- the closing of the client; between them a loop or a read may change anything but the slot of the
-- watch, `closed`, the done channels and the client.
--
-- Not modelled: panics of the hooks OnReconnect, OnResync, OnEmpty and OnWatchError and of a custom
-- transform, which are taken to return. A watch callback returns or
-- panics; that it calls the provider itself, as a recipe of the README does with Read, is not modelled.
pub mod Base
pub mod Errors
pub mod Client
pub mod Range
pub mod Strings
pub mod Path
pub mod Settings
pub mod Transform
pub mod New
pub mod Build
pub mod Provider
pub mod Read
pub mod Watch
pub mod Lifecycle
pub mod Write
