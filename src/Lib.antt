-- ===== src/Lib.antt =====
-- signalg: websocket connections with framed messages, and a registry of them by user and by group.
--
-- The program's parts. `protocol.go` has the frame format: a header of eight bytes, a method, an
-- invocation id and a body in one of three codecs. `connection.go` has one connection: its senders
-- lay out a frame and put it into a bounded queue, a writer goroutine takes the frames off and
-- writes them to the websocket, and a count of operations in flight tells a shutdown when the
-- connection is done. `registry.go` has the connections of a handler by id, user and group.
-- `dispatcher.go` finds the method of a hub that a message names. `server.go` ties them together:
-- it serves a connection from the request to the end, sends to many at once, and shuts down.
--
-- Base, Errors and Text are shared: native numbers, lists, association lists; the sentinel errors,
-- with Go's (value, error) as `Result`; and the text functions of the standard library that the
-- frames and the group names need (`utf8.Valid`, `strings.TrimSpace`).
--
-- Protocol models `protocol.go`, and from `connection.go` `validateProtocolFrame` and the part of
-- the write functions up to `enqueueFrame`. Protocol/Types, Names, Codec, Validate, Decode and
-- Frame are the code; a byte is a number below 256 where a theorem needs it, and the lengths of a
-- header wrap at 2^8 and 2^32 as the conversions of the code do. The packages msgpack,
-- encoding/json and proto are the parameter `Encoders`; the theorem on encoded bodies takes as a
-- hypothesis that `MarshalAppend` appends to its buffer. The other files are proofs.
--
-- Connection models `connection.go`. `Connection` (State) is the Go struct; Operations has the
-- critical sections of `opsMu`, Queue those of `sendMu` and the writer's, Send the six senders,
-- Hint the size hint. Channels that `opsDone` holds are numbered, so that closing one twice shows.
-- In Writer, `Step` is the interleaving of the senders, the handler operations, the writer, and
-- whoever drains or cancels; a step is one critical section. Where Go chooses among ready cases, an
-- argument says which. `discardQueuedFrames` is one step, since it holds `sendMu` and nobody adds
-- meanwhile. A frame is a value here; the texts of errors are left out; a nil receiver takes the
-- branch of a connection with no websocket.
--
-- Buffers models the same frames as slices of arrays that a pool hands out again: `getFrameBuffer`,
-- `putFrameBuffer`, `sameFrameBuffer`, Go's `append`, and the write functions on them. The package
-- slicepool is the parameter `SlicePool` with the laws `IsPool`. `Step` of Memory takes the memory
-- of a connection's goroutines along with the steps of Connection; where a sender does not touch
-- its buffer while it waits, the steps of the others come between. The room that `append` leaves
-- behind a larger array is an argument.
--
-- Reads models `internal/bpool/bpool.go`, and how the goroutines of `readLoop` use its buffers. The
-- type `sync.Pool` is the parameter `SyncPool` with the laws `IsSyncPool`. Elsewhere what a message
-- holds is a value.
--
-- Registry models `registry.go`. The package mapx is the parameter `ShardMap` with the laws
-- `IsMap`, which hold of a map that is used by one call at a time. The methods are state passing,
-- each run with no other beside it; `remove` and `add` also stand in two parts, between which
-- another call may come. Snapshot has the lists of users and of connection ids, whose slices of the
-- pool are values. An entry's `entry_id` stands for its address. Times are integers that do not
-- overflow.
--
-- Batch models `batch_send.go` and `batch_close.go`: the payload that is made once, what a worker
-- does with one connection, and the loop over the results, which may arrive in any order. Pool is
-- the goroutines of a batch, as steps on the two channels: `Step` is one operation of a goroutine.
--
-- Dispatcher models `dispatcher.go`. The package reflect is the parameter `Reflection`, and what
-- the functions of a hub's methods do is another; a type of a hub stands by a number.
-- `dispatcher_for` takes the cache twice, since another call may store between `Load` and
-- `LoadOrStore`. The error `panicked`, which no function returns, stands for a call that panics:
-- `dispatch` does where the type of a method's second result has no nil.
--
-- Handler models `server.go` but for the sessions. `Event` of Admission is one call on the
-- handler's registry and counters, with no other beside it; Races has `removeConnection` where
-- another call comes between. Config, Path and Create are `NewHandler`; Broadcast has the batch
-- senders and, of `batch_close.go`, `CloseUsers` and `CloseConnections`, which take a snapshot of
-- the registry and hand it to Batch; Heartbeat is the loop over a list of turns, each with the time
-- until it is woken; Drained is the end of a shutdown, with how each of its waits ends. The drain
-- of one connection is in Connection. Server is `NewServer` and `Start`; Running in it has
-- `Shutdown`, and the methods that pass on to the handler.
--
-- Session models `ServeHTTP`, `readLoop` and what they call. `World` is the handler's state, the
-- connection's and the dispatchers' cache; a hub is a record of functions on it, and so is what the
-- rest of the program does between two messages. `Request` has the answers of net/http, of the
-- websocket package and of the id generator. `Run` carries the calls that are made on the hub, the
-- websocket and the response, in their order. The messages of a websocket are a list, which ends
-- with an error of `Reader`. Where the dispatcher panics, only the deferred calls are made, and
-- net/http goes on. World, Reading and Serve are the code. Connected models `connected.go`.
--
-- DebugHub models the hub of `example/main.go` and what `main` passes to the handler, as a hub for
-- Session. Hertz models `hertz/handler.go`.
--
-- No function of the model runs on fuel that can run out but the digits of an address, of which 16
-- are enough for 64 bits, and those of a name that is not known, of which three are for a byte. The
-- loops over messages, turns and results are recursions on lists.
--
-- Not modelled: net/http; the flags and routes of the example; the generated protobuf code, which
-- holds no logic of the protocol; logging; the panics of a hub's own code; the texts of errors; and
-- calls on one handler that run at the same time, but for the goroutines of a connection, of a
-- batch and of the read buffers, and the two parts of `add`, `remove` and `removeConnection`.
pub mod Base
pub mod Errors
pub mod Text
pub mod Batch
pub mod Buffers
pub mod Connected
pub mod Connection
pub mod DebugHub
pub mod Dispatcher
pub mod Examples
pub mod Handler
pub mod Hertz
pub mod Protocol
pub mod Reads
pub mod Registry
pub mod Server
pub mod Session
