-- ===== src/Lib.antt =====
-- ghz is a load generator for gRPC services. A run is set up by `NewConfig` from a list of options; the
-- requester makes a pacer, which says when the next request is due, and a worker ticker, which says how
-- many workers there are; one goroutine asks the pacer and hands out numbered requests, another starts
-- and stops workers as the ticker tells it, the workers send the requests, with messages from a message
-- provider, and the reporter counts the results and makes the report.
--
-- The files, and the code that each is about:
--   Prelude                     shared names, lists, tests, Go's integers, floats and text
--   Load.Ticker                 load/worker_ticker.go: a ticker is the list of the values that it sends
--   Load.Pacer                  load/pacer.go: `Pace` and `Rate` of ConstantPacer
--   Load.Pacer.Step             load/pacer.go: StepPacer and LinearPacer
--   Load.Pacer.Segmented        load/pacer.go: SegmentedPacer
--   Runner.Config               runner/options.go: RunConfig, and the values that it starts from
--   Runner.Options              runner/options.go: the With... options (Basic, More, Rest), NewConfig and
--                               createClientTransportCredentials (New), fromConfig and WithConfig, with
--                               Config of runner/config.go (File)
--   Runner.Options.Load         runner/config.go: LoadConfig and checkData; runner/options.go:
--                               WithConfigFromFile
--   Runner.Duration             runner/config.go: the text and the JSON of a Duration
--   Runner.Requester            runner/requester.go: createPacer and createWorkerTicker
--   Runner.Requester.Pacing     runner/requester.go: the goroutine of runWorkers that asks the pacer
--   Runner.Requester.Workers    runner/requester.go: the goroutine of runWorkers that starts and stops
--                               workers, and runner/worker.go: Worker.Stop
--   Runner.Requester.Shutdown   runner/requester.go: how the goroutines of runWorkers and the workers end
--   Runner.Requester.New        runner/requester.go: NewRequester and the options of newClientConn;
--                               runner/run.go
--   Runner.Session              runner/requester.go: Run, Stop, Finish and the connections, as steps of a
--                               run and of the calls of Stop; runner/stats_handler.go: the flag
--   Runner.Session.Handling     runner/stats_handler.go: HandleRPC, as steps beside those of a run
--   Runner.Calls                runner/worker.go: the sending loop of makeClientStreamingRequest and the
--                               receiving loop of makeServerStreamingRequest
--   Runner.Calls.Bidi           runner/worker.go: makeBidiRequest, as steps of its goroutines
--   Runner.Calls.Timed          runner/worker.go: the timer of a client or server streaming call
--   Runner.Calls.Request        runner/worker.go: makeRequest and runWorker
--   Runner.Calls.Unary          runner/worker.go: makeUnaryRequest and marshalPayload
--   Runner.CallData             runner/calldata.go: CallData, randomString and randomInt
--   Runner.Payloads             runner/data.go: messages from JSON and binary data; runner/calldata.go:
--                               hasAction and ExecuteData
--   Runner.Provider             runner/data.go: dataProvider, mdProvider and newDynamicMessageProvider;
--                               runner/calldata.go: executeMetadata
--   Runner.Messages             runner/data.go: staticMessageProvider and dynamicMessageProvider
--   Runner.Reporter             runner/reporter.go: newReporter and the loops of Run
--   Runner.Reporter.Histogram   runner/reporter.go: Latencies and Histogram
--   Runner.Reporter.Finalize    runner/reporter.go: Finalize, Report and Options
--   Runner.Reason               runner/reason.go: StopReason
--   Protodesc                   protodesc/protodesc.go: parseServiceMethod
--   Protodesc.Lookup            protodesc/protodesc.go: the lookup of a method in a proto file, in a
--                               protoset with its dependencies, and by reflection
--   Printer.Influx              printer/influx.go: the lines of a report and of its details
--   Printer.Prometheus          printer/prometheus.go: the labels and the metrics of a report
--   Printer.Text                printer/printer.go: the text histogram
--   Printer.Formats             printer/printer.go: Print with its formats, and the parquet files
--   Printer.Values              printer/printer.go: the other functions that templates call
--   Examples                    concrete inputs
-- A child of these holds theorems about its parent, and is named for them.
--
-- How the code is written here. A struct is a record with its fields, an enumeration or an interface
-- with known implementations a data type. `uint64` and `uint` are numbers below 2 ^ 64 whose operations
-- wrap, `int`, `int64` and `time.Duration` integers that wrap at 2 ^ 63; a conversion is written where
-- the code has one. A map is an association list. A function that changes its receiver returns it. A
-- panic is a constructor of the result. `float64` is an interface (Prelude.Float) with the operations
-- that the program uses and no laws; `Fixed` is an instance for examples. Text is a list of code points.
-- Clocks, channels and the random generator are the environment: a run takes the readings of the clock
-- in order, the stop signals, and the numbers drawn. What a library returns (certificates, parsed
-- templates) is a parameter.
--
-- Fuel. The search of StepPacer.initialize has no bound in the source and takes fuel; more rounds than
-- the number of steps before the rate passes `Stop` are enough. The histogram's loop takes the number of
-- latencies and ten more rounds, which are enough for every input. The loop over delimited messages
-- takes one round more than the data has bytes, enough where each message takes a byte at least. The
-- recursion of resolveFileDescriptor takes the depth of the stack: one call more than the highest rank of
-- a file is enough, where a file ranks above those that it imports. All other loops are by recursion on
-- a list or a number.
--
-- Concurrency. A bidirectional call, a call with a timer, the end of runWorkers, a run, and a run with
-- its stats handlers are step relations: each goroutine's next action is a step with its guard, and the
-- theorems are about every state that steps lead to. Where a loop has one goroutine, the environment is a
-- list of rounds with what the clock and the connection answer.
--
-- Not modelled: the gRPC calls themselves, the decoding of configuration files, the parsing of proto
-- files, the parsing and execution of templates and their text (printer/template.go), the encoders of
-- JSON, parquet and metrics, loggers, the atomic counter, and the generated and test code. Most of this
-- is calls of libraries, or output. The capacity of slices, the text of errors and the JSON form of a
-- report are not modelled, nor is that a write of the output fails.
pub mod Prelude
pub mod Load
pub mod Protodesc
pub mod Runner
pub mod Printer
pub mod Examples
