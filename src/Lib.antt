-- ===== src/Lib.antt =====
-- A verification library for ironharness: the I/O core of a hardware-in-the-loop harness, and the
-- benchmark of agents on top of it.
--
-- The program. A session (src/io_core/session.py) keeps named connections to devices: serial
-- lines, Modbus and MQTT. Every operation passes gates under the lock of the session and leaves
-- entries in a journal. A serial connection may have a background reader
-- (src/io_core/serial_reader.py) that drains the port into a bounded buffer. A transport may be
-- wrapped in a rate limit and a deadline (src/io_core/limits.py), and a recorded journal can be
-- replayed in place of the device (src/io_core/replay.py). src/ironbench is the benchmark that
-- runs agents on top of it: a task is loaded and checked (src/ironbench/tasks.py), the agent asks a
-- model for a program (src/ironbench/agent.py), and a runner executes it on the task's target and
-- scores what it prints (src/ironbench/runner.py and the files runner_*.py beside it).
--
-- The files.
--   Prelude, with Lists, Tests, Search, Text, Hex, Dict and Integer below it: bytes and texts as lists
--   of numbers, Boolean tests, bytes.find, str.strip and split, bytes.hex and bytes.fromhex, the
--   insertion-ordered dictionary, and the integers.
--   Reader: the class SerialReader. A method that runs under the lock of the buffer is one function
--   on the record of the object's fields; run_round is one pass of the thread's loop (_run) over
--   what the port does in it; read_until is a loop over the rounds of the other threads and the
--   clock at each of them.
--   Replay: ReplayTransport and ReplaySession. A method gives the new transport; ReplayMismatch is
--   none, or the flag that close gives.
--   Limits: RateLimiter, RateLimitedTransport and DeadlineTransport over any wrapped transport,
--   which is a function on a state.
--   Session: the registries of Session and the code that reads and writes them. A block under the
--   lock is one function; a run of several threads is a list of such blocks (Session/Steps).
--   Session/Line has the gates of the line operations, Session/Life the opens and the closes.
--   Mqtt: the simulated broker (src/io_core/mqtt_sim.py): topic_matches, and the packets as serve
--   reads and _encode_packet writes them, over the bytes that are still to come. Mqtt/Broker has
--   the handlers of PUBLISH and SUBSCRIBE on the retained messages and the clients.
--   Sandbox: the file sandbox (src/io_core/file_sandbox.py), which the file tools of a session and
--   its transfers write to: the regular files by resolved path, and the two quotas.
--   Verify: expect_read and write_and_expect (src/io_core/verify.py), over the rounds of the clock
--   and the transport.
--   Journal: JsonlJournal and the readers of its files (src/io_core/journal.py). The directory is a
--   function from file indices to texts. Journal/History has the specification of the files,
--   Journal/Memory relates it to all that was written, Journal/Calls has one writer among others,
--   and Journal/Numbers its sequence numbers.
--   Mprepl: the file transfer over the raw REPL (src/io_core/mprepl.py). A link is the buffer of
--   _Stream, the chunks on their way and the board. Mprepl/Device has the specification of a board
--   with one file, which runs a command only where MicroPython raises nothing on it; Mprepl/Tests
--   has one that fulfils it, and that raises on every other command. Mprepl/Loops has the loops on such
--   a board.
--   Capture: Session._monitor_window (src/io_core/session.py), over the rounds of the clock and the
--   port. Exchange: serial_put, serial_get and serial_monitor of the same file, whole: they put the
--   gates of Session/Line, the transfer of Mprepl and the window of Capture together, with what other
--   threads do at the places where the call holds no lock.
--   Policy: the access policy (src/io_core/policy.py), from the texts of the environment to the
--   two checks. In Session its answers are arguments.
--   Faults: the scripted faults of a transport (src/io_core/faults.py).
--   Modbus: the simulated Modbus server (src/io_core/modbus_sim.py), on its registers and on the
--   bytes of a connection. ModbusTransport: the transport over a Modbus client
--   (src/io_core/modbus_transport.py), behind the check of Policy. MqttTransport: the transport over
--   an MQTT client (src/io_core/mqtt_transport.py), with the callbacks of the client.
--   Tasks: load_task and check_target_compat (src/ironbench/tasks.py). Tasks/Values has what
--   yaml.safe_load gives; the checks are in Tasks/Stimulus, PlantSection and Sections, each a list in
--   the order of the source, and Tasks/Load puts them together and builds the task.
--   Agent: the loop of an attempt (src/ironbench/agent.py), over a model and a runner that act on a
--   world, with Agent/Code and Feedback for the texts in between, Prompt for what is asked, Config
--   and Endpoint for the boundary, Chat for one request and Attempt for attempts and campaigns.
--   Runner: what the targets share. Runner/Dispatch has run_task (src/ironbench/runner.py) over the
--   runners of the targets; Writer the pump of a child's input, one event for each block under its
--   lock, Env the .env file and Runs the directories (src/ironbench/runner_common.py); Box, Answer
--   and Events the retained output of src/ironbench/runner_unix.py, its verdicts and the pace of events.
--
-- Parameters. The clock (a list of times), the raw port (what a pass of the thread's loop gets
-- from it), the decoding of bytes for display, the reaction of a transport to open and close,
-- what a reader answers to stop, what a board does with a write and when its chunks come, the
-- UTF-8 codec of topics, case folding and the decimal values of characters, whether a socket
-- takes an answer, the random generator of the faults, the resolution of paths, what the disk
-- does with a write, what the Modbus and MQTT clients answer, the floats of Python and what int, str
-- and the regex functions make of a text, the host of a URL, its addresses and what is said of them,
-- the server of a model, and the runners of the targets. Nothing is assumed of them but
-- what a theorem has as a hypothesis.
--
-- Bounds. Every loop runs over a list, the schedule of the rounds, the events of a journal or the
-- registries, but for these on fuel: that of _encode_packet has one more than the length that it
-- divides, that of _handle_subscribe as much as the body has bytes, that of get_file a number of
-- reads, of which one more than the file has bytes is enough, the cutting of put_file as much as the
-- data has bytes, the search for code in an answer as much as that has characters, and the printing
-- of a number as much as its value. Times are whole units where the source has floats. Numbers are
-- unbounded, as they are in Python.
--
-- Not modelled: the waits and the threads themselves, the text of messages, the data of a journal
-- entry beyond its kind and connection, serial_wait, status, the file and ESP tools; the
-- transport over pyserial and the server of tools. Of src/ironbench: the processes, sockets and
-- staging of the targets, load_tasks, the plant, the reports, the journal view, the command line
-- and the benchmark of operations, which are left for their size.
pub mod Prelude
pub mod Reader
pub mod Replay
pub mod Limits
pub mod Session
pub mod Mqtt
pub mod Sandbox
pub mod Verify
pub mod Journal
pub mod Mprepl
pub mod Capture
pub mod Exchange
pub mod Policy
pub mod Faults
pub mod Modbus
pub mod ModbusTransport
pub mod MqttTransport
pub mod Agent
pub mod Tasks
pub mod Runner
