-- ===== src/Lib.antt =====
-- edgedelta-lambda-extension, a Lambda extension that forwards the telemetry of a function.
--
-- The Telemetry API posts batches of events to an HTTP server (handlers/producer.go), which hands them
-- over a channel to the processor (pushers/processor.go). The processor makes newline-separated JSON
-- records of the events and sends one payload for each batch to the pusher (pushers/pusher.go), which
-- buffers them and posts the buffer to the endpoint. main.go reads the configuration (cfg/config.go),
-- wires the parts together and passes on the invocations that the runtime announces. All channels
-- between the parts are unbuffered.
--
-- Where what is modelled:
--   Text        strings as bytes; `strings.TrimSpace`, `strings.Split` and `strconv.ParseInt`; UTF-8;
--               maps as association lists (Text/Table); newline-framed payloads (Text/Records)
--   Json        `interface{}` values with the type assertions made of them (Value), and `encoding/json`
--               of Go 1.20 with HTML escaping on: the encoder for the structs of the program (Encode)
--               and for a tree (Tree), the parser (Parse), and the decoder into structs, whose keys are
--               compared folded (Decode)
--   Host        float64 arithmetic, the print of a float64, and `time.Parse`, which have no code in
--               the repository: a record that the definitions take as an argument
--   Lambda      lambda/types.go: the telemetry events (Events) and the answers of the Lambda APIs
--               (Responses); lambda/extension_api.go and lambda/telemetry_api.go: the requests
--               (Requests) and the calls (Client); lambda/client.go (Aws)
--   Goroutine   utils/helpers.go: `Go`
--   Producer    handlers/producer.go: `handleLogs` (Handle), `Start` and `Shutdown` (Server)
--   Processor   pushers/processor.go: the structs and their JSON (Types), `process` and its handlers
--               with the package's variables `faasObj` and `requestDurations` passed along (Events),
--               and the loop `run` (Loop), one case of its `select` for each input
--   Pusher      pushers/pusher.go: what a failed `flush` hands back (Flush), the loop `run` (Loop), and
--               the requests, with the retries of utils/helpers.go (Requests)
--   Pipeline    `bufferC` of main.go, which carries the processor's payloads to the pusher
--   Cfg         cfg/config.go: `GetConfigAndValidate`, the environment being its argument
--   Extension   main.go: `startExtension` (Start) with the Lambda APIs' answers as an argument (Types),
--               the loop of `handleInvocations` and `Worker.Stop` (Invocations), the answers of
--               `NextEvent` that the loop goes through (Received), `waitSignals` (Signals), the
--               constructors `NewPusher` and `NewProcessor` that `NewWorker` calls (Wiring), and
--               `NewWorker`, `Worker.Start` and the timeout of an invocation (Workers)
--   System      main.go: `Worker.Invoke`, with the two loops as they meet on unbuffered channels
--               (Steps), and `Worker.Stop` with the handlers of the producer beside them (Stopping).
--               Refines relates the composition to the runs of the loops; Calm, Drained, Ending and
--               Stuck are about its progress
--   Pool        utils/pool.go: the pool, and the steps of the goroutines of its jobs
--
-- How: a loop over a `select` is a function from an input, one constructor for each case, and a state
-- to a state and the messages sent. Any sequence of inputs is a run, so what holds of every run holds
-- for every order in which the channels become ready. A blocking send is a message of the output; that
-- it waits for its receiver is part of System alone, where a loop receives nothing until its messages
-- are taken, and each move of any part is a step; its state keeps what has happened, the cases of both
-- loops and all that the pusher has pushed, dropped and told. What a push comes to, after all its retries, is a
-- Boolean of the input. A flush in flight is a payload of the pusher's state, and its response is an
-- input that names it. Names of the source are kept, in snake_case for functions and fields.
--
-- Machine integers: an `int` and a `time.Duration` have 64 bits and wrap around (Common/Int), the
-- buffering limits are cut to 32 bits, and the pool's int32 counter wraps at 2 ^ 32. Every loop is
-- structural recursion on a batch, a payload, a text or a list of inputs. Two have fuel: the decimal
-- print of an int64 (Text/Decimal), 20 for at most 19 digits, and the JSON parser (Json/Parse), 2 n + 2
-- for a text of n bytes: every call reads a byte or enters an element, and Json/Fuel proves that more
-- fuel gives the same result for every text.
--
-- Parameters, each an argument of the definitions that use it: package net/http (`Http` in
-- Lambda/Requests, each call with the state in which the network then is), the calls of the AWS SDK
-- (`Sdk` in Lambda/Aws, and Kinesis in Pusher/Requests), `backoff.Retry` (Pusher/Requests),
-- `strconv.ParseFloat` (Json/Decode), and Host.
--
-- Not modelled: the settings of the HTTP transport in pushers/pusher.go; the contexts of the requests,
-- whose ends are errors of net/http; the length of a timeout in a composition, where it ends at any
-- moment; the texts of errors, apart from what they are made of; the limit of 10000 nested values of the
-- JSON parser; log output; a pool with a negative limit, which panics where it is made. The loop of the
-- processor takes batches without nil pointers: `receive` stands in front of it, and a batch with one
-- ends the process there. The loop of `handleInvocations` takes `Worker.Invoke` and `Worker.Stop` as
-- calls that return, and System is about those that may not. A map is a list of its entries in some order, each key once. The server of
-- net/http takes no request once its own shutdown has returned.
pub mod Common
pub mod Text
pub mod Json
pub mod Goroutine
pub mod Host
pub mod Lambda
pub mod Producer
pub mod Processor
pub mod Pusher
pub mod Cfg
pub mod Pool
pub mod Pipeline
pub mod Extension
pub mod System
