-- ===== src/Lib.antt =====
-- A verification library for s2-sdk-go, the Go SDK of the S2 streaming store.
--
-- The SDK turns appends and reads of streams into S2S frames over HTTP. The files here model, bottom up:
--  Prelude: shared names, Boolean tests, lists over the native numbers, signed integers.
--  Context: the values of ctx.Err().
--  Framing (internal/framing): Types holds compression types, frames and codecs (types.go,
--   decompress.go); Encode holds CreateFrameWithStatus and MarshalProtoFrame; Parser holds
--   S2SFrameParser with its buffer, offset, capacity and size hint; Reader holds FrameReader.
--  Capacity (s2/capacity.go): the tracker that bounds bytes and batches in flight.
--  Errors (s2/error.go): the error types as a tree, the table of codes, decodeAPIError.
--  Retry (s2/retry.go, and shouldRetryError of s2/stream.go): backoff, withRetries in Loop,
--   withAppendRetries in AppendLoop, which classifies failures by Errors.
--  Records (s2/append_utils.go, and the inputs of s2/stream.go): records, their metered sizes in
--   Sizes, validation and clones, the command records in Commands.
--  Batching and Batcher (s2/batcher.go): options with their defaults; the batcher's operations, their
--   step relation in Steps, each taken apart into moves in Moves. What holds between operations is in
--   Valid. A batch it sends is what Submit hands to the validation of Records.
--  Transport (s2/append.go): the transport of an append session: what it writes, what it makes of the
--   frames and responses it reads, its terminal error, half-closing and closing. Frames describes what
--   a frame says on its own, and Reading compares the loop with that.
--  AppendSession (s2/append_session.go, and the options of s2/append_utils.go): State holds the
--   session and the helpers on its queue, Acks what an acknowledgement does, Failures the retries
--   and timeouts, Pump the opening of transports and the submission of what is in flight, Submission
--   how batches come in and how the session closes. It reserves from Capacity, classifies by Errors,
--   waits by Retry, and reconnects by Reconnect. Steps is the step relation over all of them; Moves
--   takes it apart, in StepWalk, into changes of one part of the state each, on which Order, InFlight,
--   Closing, Finality and Coherence state what holds; Cause says when a failure may be
--   retried and what a retry does, in words of its own, and Policy that the code does so. Scenario
--   runs a session from its start.
--  Producer (s2/producer.go): records one by one, over Batcher, Capacity and an append session whose
--   answers are arbitrary: Submission holds Submit, Flush and Close, Steps the step relation, Flush
--   what the barrier of a flush promises, Acks the sequence numbers that records are told.
--  StreamReader (s2/read.go): the position and the budgets that a reader carries from one connection
--   to the next, in Budget against what was read.
--  CaughtUp (s2/read_session.go): the state that tells readers whether they have reached the tail.
--  Reconnect (s2/reconnect.go): when the server's advice to reconnect is taken.
--  Pager (s2/iterator.go): the pager over a listing.
--
-- Conventions. A byte slice is a list of numbers below 256. A method that changes its receiver
-- returns the new record. Mutexes are not modelled: each function is what runs while the lock is
-- held, and what others do in between is a step relation or an argument. zstd, gzip, io.Reader,
-- protobuf, JSON, contexts, timers and the random source are parameters, with the documented
-- behaviour that a theorem relies on as named hypotheses (IsLossless, IsReader). In an append session
-- a handler is one step, but a failure is claimed in one and resolved in another, as others may run
-- in between; the loop of submitInflightBatches is one step too, its writes having any outcome.
-- A channel of results is a number, and what was sent on them all is one list.
--
-- Bounds and fuel. ReadFrame takes fuel: one round reads a byte at least and an incomplete frame
-- is shorter than the largest frame with its prefix, so 2 MiB + 5 rounds are enough. The loop of
-- Next takes a round of fuel per page. The retry loops recur on the attempts left. Durations wrap
-- as int64 where the source computes them; sizes of batches are natural numbers that do not wrap,
-- but an append session takes its limit on bytes as an int64.
-- A status code is natural, and is cut to a uint16.
--
-- Not modelled: the HTTP clients and the building of requests, the loops and the iterator of the read
-- session, configuration, the Benthos plugin, generated code, tools, examples, timers and logging.
pub mod AppendSession
pub mod Batcher
pub mod Batching
pub mod Capacity
pub mod CaughtUp
pub mod Context
pub mod Errors
pub mod Framing
pub mod Pager
pub mod Prelude
pub mod Producer
pub mod Reconnect
pub mod Records
pub mod Retry
pub mod StreamReader
pub mod Transport
