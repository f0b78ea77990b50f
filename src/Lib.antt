-- ===== src/Lib.antt =====
-- A model of tunstrap, a manager of SSH tunnels: `tunstrap start` reads the description of nodes,
-- starts a worker that opens for each node a connection, its local forwards, its files and its kube
-- targets, and reports the local ports; `tunstrap run` renders them as environment variables of a
-- command and stops the worker when it ends; `tunstrap stop` and `tunstrap status` are for a session.
--
-- The parts, by file:
--   Base        what all modules share: texts as lists of code points, Boolean tests on the native
--               numbers, dicts in insertion order, `Result` for functions that raise
--   Str, Value, Base64
--               the methods of `str`, `int()`, the values of a YAML or JSON document, and base64 as
--               far as the program uses them
--   Messages    the errors and warnings, a constructor for each message instead of its wording
--   Schemas     tunstrap/schemas.py: keys, `host:port`, the models and their validators
--   CliInput    tunstrap/cli_input.py: `USER@HOST[:PORT]`, `NAME=VALUE` and the schema of one node
--   EnvRender   tunstrap/envrender.py: `render_env` and `format_exports`
--   Kube        tunstrap/kube.py: Kube.Config is `parse_kubeconfig`, Kube.Tls the choice of a name,
--               Kube.Patch is `patch_view`, and Kube.Run is `run_kube_targets`
--   Activity    tunstrap/activity.py, and `_idle_watchdog` of tunstrap/_worker.py
--   Fetcher     tunstrap/fetcher.py: `fetch_files`
--   Ssh         tunstrap/ssh.py: `_load_client_keys` and `open_connection`
--   Manager     tunstrap/manager.py, and forwards and teardown of tunstrap/ssh.py; Manager.Output is
--               the report
--   Exceptions  tunstrap/exceptions.py
--   Identity    tunstrap/identity.py: `verify_session`; Identity.Lock is the lock file, as the steps
--               of any number of processes
--   Session     tunstrap/session.py, on the directory of a session
--   Worker      tunstrap/_worker.py: Worker.Ipc is `_write_message` and what it writes, Worker.Life
--               `_run` and `main`, Worker.Verdict what a worker promises to its parent, which
--               Worker.Refinement compares with it, and Worker.Assembled a worker over Session and
--               Manager
--   Daemon      tunstrap/daemon.py: `spawn_daemon` and `_read_ipc_response`; Daemon.Handshake joins
--               the reader to the worker
--   Cli         tunstrap/cli.py: Cli.Options is `_schema_from_flags`, Cli.Start, Cli.Run and Cli.Stop
--               are the commands, Cli.Kill is `_kill_with_identity`; Cli.Start.Wired joins a start to
--               the worker
--   Tests       the theorems at concrete inputs
--
-- A schema (Schemas, or CliInput for the command line) gives the nodes. `start` and `run` (Cli) hand it
-- to a worker (Daemon), which takes the session (Session, Identity), starts the nodes and writes one
-- message into the pipe (Worker). Manager starts each node over its connection (Ssh) and calls Fetcher
-- and Kube.Run on it; Kube.Run parses with Kube.Config, settles the TLS name with Kube.Tls and patches
-- with Kube.Patch; the report goes through the pipe to EnvRender. Activity counts the connections of
-- all forwards. `stop`, `status` and the end of `run` find the worker by its session and kill it.
--
-- State is passed along: the loop over kube targets has a `Progress`, the one over files a `Gathered`,
-- a node its `Sockets`, the log of what was opened and closed, where a connection owns the listeners of
-- the kube targets and closes them when it is closed; a session its `Disk`, a kill the list of
-- its events, and a worker the `Trace` of what it has done when it ends. The SSH library, SFTP, YAML,
-- JSON, the certificate library, URL splitting, SHA-256, pydantic's coercions, the clock, the signals
-- and the file system are arguments (`Remote`, `Sftp`, `Peer`, `Asyncssh`, `World`, `Spawner`, `Host`,
-- `Services` and functions); an error of theirs is a `RemoteError` with its kind, or the name of its
-- class.
-- Loops are structural recursion on the dict or list. `write_all` has as much fuel as the message has
-- bytes, since each round takes one; the waiting of a kill has two rounds for each second of grace and
-- one more, since each round sleeps half a second; `idle_watchdog` takes a number of polls, and
-- `show_nat` fuel for as many digits as the number has. That these are enough is proved with the
-- theorems that use them. Process ids are taken below ten million, above the limit of Linux.
-- Text in Python is taken as a list of code points, and bytes as a list of numbers below 256.
--
-- Not modelled: the parsing of arguments by click and argparse; the TLS probe (`default_san_probe`) and
-- the dumping of YAML, which only call libraries; the log; the signal handlers, and the forwarding of
-- signals to a child; and the interleaving of nodes that are started together.
pub mod Base
pub mod Str
pub mod Ssh
pub mod Value
pub mod Messages
pub mod Base64
pub mod Schemas
pub mod CliInput
pub mod EnvRender
pub mod Kube
pub mod Activity
pub mod Fetcher
pub mod Manager
pub mod Exceptions
pub mod Identity
pub mod Session
pub mod Cli
pub mod Daemon
pub mod Worker
pub mod Tests
