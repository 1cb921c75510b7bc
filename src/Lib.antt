-- ===== src/Lib.antt =====
-- The smokeping prober: a Prometheus exporter that pings hosts from its own machine and, over SSH
-- sessions to Huawei NE8000 routers, from the routers' uplinks.
--
-- Parts and files
--   Prelude      lists, texts, Go maps as association lists, unbounded and 64-bit integers, decimal
--                numbers, the functions of `strings`, and matchers for regular expressions.
--   Net          package net: addresses as bytes, and the record of the parser, the printer and the
--                resolver, which are parameters.
--   Config       config/config.go: the data, `Config.Router`, `SelectLinks`. Config.Check is
--                `Validate`, one function for each loop; Config.Valid describes a valid
--                configuration without it; Config.Unmarshal has the defaults of `UnmarshalYAML`;
--                Config.Reload is `SafeConfig.ReloadConfig`.
--   Remote       remote/. Targets is targets.go (`Resolve`, `BuildTargets`); Dialer is its
--                `NewSSHDialer`, with `hostKeyCallback` and `authMethods`; Huawei is huawei.go
--                (`BuildCommand`, `CommandDeadline`), and Huawei.Parse its `ParseOutput` (Parse.Lines
--                and Parse.Printed have the format of the router that it reads back); Session is
--                session.go (`readLoop`, `Run`, `waitPrompt`, `drain`, `Close`, and `learnPrompt` in
--                Session.Login), and Dialer.Dial its `Dial` and `startShell`; Scheduler is
--                scheduler.go and metrics.go: the shared state and the effect of each atomic step,
--                `runJob` among them. Scheduler.Steps is the step relation of all goroutines of one
--                scheduler, Steps.Phases what they do to one target. Runner is the interface between
--                a scheduler and a session, Session.Runs the session as its implementation, and
--                Scheduler.Serve what a worker does with jobs and the session that it holds.
--   Prober       main.go: Labels is `buildLabelNamesFromConfig`, Buckets `parseBuckets`, Prepare is
--                `prepare`, Running is `start`, `startRemote` and `stop`; Opening makes
--                the collector; Reload is a round of the
--                reload loop from the file to the running pingers, and Running.Reloads any number of
--                rounds as far as they start and stop something;
--                Startup is `main` from the hosts of the command line to the first start, with
--                its exits, Startup.Serving any number of reloads from there, and Startup.Names
--                and Startup.Fixed the label names of the metrics meanwhile.
--   Collector    collector.go: label values, `Record`, `Collect`. Distinct relates the series to
--                the targets that Remote.Targets builds, and Recorded the observations to what
--                the router prints. Handlers has the metric vectors: `initMetrics`,
--                `NewSmokepingCollector`, `updateProbes`, the handlers of a pinger, the recorder.
--   Tests        runs and instances at concrete inputs.
--
-- How they interact: Reload accepts a file only if Check finds no error; Prepare takes the
-- accepted configuration, makes a probe for each host, calls Targets for each group with a router
-- and makes a scheduler for each router; Running replaces what runs by what is prepared. A
-- scheduler hands targets from timers to workers; a worker calls Huawei for the command, Session
-- for the output and Huawei.Parse for the result, which Collector records. Session.Pinged has the
-- last two together, on output in the router's format, Scheduler.Serve.Answered a whole job, from the
-- command to the recorder, and Scheduler.Serve.Series any number of jobs on one session.
--
-- Representation
--   Strings are lists of bytes; names and outputs are read as ASCII where the source asks for
--   letters, upper case or white space. Durations and the integers of the configuration are
--   unbounded integers; `CommandDeadline`, the offset of a first run and the round trip times of
--   `ParseOutput` wrap to 64 bits as int64 does, and the count of sent packets to uint64.
--   A map is an association list in which the newest entry of a key counts. A value with an error
--   is a result, an error alone an option. A regular expression is a matcher by recursion. What a
--   session receives is a list of signals: the chunks in order, the closed channel, and the end of
--   the list for a timer that fires. A gauge or a counter is a number.
--   Fuel: `show_ℕ` gives a number n as fuel one more than n, and a number has no more digits than
--   that. All other recursion is structural.
--
-- Parameters: the parser, printer and resolver of package net; the YAML decoder, as the document
-- that it gives or its error; the answers of a router; the pingers of package probing; the dialer
-- of a router; the file system; the parsers and the answers of package ssh; `slices.Sort`;
-- `strconv.ParseFloat`; the vectors and the registry of client_golang; the statistics of a pinger;
-- `os.ErrNotExist`. A theorem that relies on one of them has that as a hypothesis.
--
-- Not modelled: log messages; the parser of the flags, signals and the HTTP handlers but the one
-- of /-/reload; the sleeps between the starts of two pingers, but for their length; the times at
-- which a timer fires, so that a step of the scheduler is possible at any time. A context that is
-- cancelled during a dial is seen as calls that fail. A pinger counts as running from the call of
-- its `Run` to the call of its `Stop`, also when `Run` has returned with an error, which is counted
-- (`run_pinger`) and changes nothing else. The end of `main` is its last `stop`, which may come in
-- the middle of a reload, since the reload loop is a goroutine of its own.
pub mod Prelude
pub mod Net
pub mod Config
pub mod Remote
pub mod Tests
pub mod Prober
pub mod Collector
