-- ===== src/Lib.antt =====
-- A model of Kid PC Monitor. Its agent runs on the child's computer: it counts the use of a monitored
-- account, locks the session in the curfew and when the allowance is used up, warns before that, keeps
-- its state in files, and takes signed requests of the parent's panel over a socket. Of the panel, the
-- registry of connected agents, the actions on them, the requests that it sends, and its tables of
-- tracked computers, snapshots and heartbeats are modelled.
--
-- Parts, in the order in which they use each other:
-- Base, with shared tests, lists, text, decimal and UTF-8 functions.
-- Clock: Python's datetime.time and datetime.datetime.
-- Policy: src/kid_pc_monitor/lock_policy.py, pure functions of the clock and the settings; its child
--   modules hold the theorems on each, and Policy.Status the texts for the panel.
-- State: src/kid_pc_monitor/agent_state.py. State has the settings and the runtime state; Values and
--   Timestamp check single JSON values; Load has the loaders and the writers of the payloads and the
--   legacy migration; Store the files of one document, with backup, scratch file and quarantine; Agent
--   the class AgentStateStore on the two documents.
-- Control: the class PCTimeControl of src/kid_pc_monitor/pc_time_control.py. The record Control is
--   the object's fields, with the two state files and the list of what was done to the platform.
--   A method is a function to the next Control. Control.Monitor has the phases of monitor_step,
--   Control.Logs the reading of the log's last lines, and Control.Forecast is about the time left.
-- Wire: the nodes, the printer and the errors of src/kid_pc_monitor/agent_protocol.py; Wire.Token is
--   its tokenizer, Wire.Parse its parser, Wire.Frame the length-prefixed frames. Wire.Token.Printed,
--   Wire.Lines and Wire.RoundTrip are about reading what was printed, Wire.Frame.Chunks about frames that
--   arrive in pieces.
-- Auth: src/kid_pc_monitor/agent_auth.py and verify_frame of agent_protocol.py; Auth.Signed is about
--   frames that the sender signed.
-- Request: build_request and parse_request of agent_protocol.py, with the tables of actions and
--   variables in Request.Tables; Request.Sent and Request.Delivery are about a built request at the agent.
-- Dispatch: src/kid_pc_monitor/request_dispatcher.py; Operands has the parsers of operands, Writes
--   and Reads the handlers, Logs the fitting of log lines to one frame.
-- Response: parse_response of agent_protocol.py, by which a client reads an answer.
-- Server: sign_response, and handle_request of src/kid_pc_monitor/remote_control_server.py;
--   Server.Envelope and Server.Replies are about an answer at the client, Server.Exchange about both.
-- Reverse: src/kid_pc_monitor/panel_reverse_server.py, the panel's registry of connected agents as
--   events on a record of its dictionaries; Reverse.Actions has the panel's actions on a session, with
--   action_request_fields of src/kid_pc_monitor/remote_client.py.
-- Scans: src/kid_pc_monitor/scan_store.py, the panel's table of tracked computers: Scans has the rows
--   and the recording of a poll, Scans.Stale the removal of those not seen for long.
-- Snapshots: src/kid_pc_monitor/snapshot_store.py, the panel's table of snapshots: Snapshots has the
--   saving, Snapshots.Latest the look-ups, Snapshots.Dashboard the cards of the dashboard.
-- Agents: src/kid_pc_monitor/agent_sync_store.py, the panel's table of heartbeats.
-- Client: exchange_on_socket of src/kid_pc_monitor/remote_client.py and _serve_connection of
--   src/kid_pc_monitor/agent_sync_client.py, the two ends of a socket.
-- Examples: every theorem below that takes arguments, applied to concrete ones.
--
-- A request goes through Server to Request, Auth and Wire, and when it is accepted to Dispatch, which
-- calls the operations of Control; the monitoring loop calls the same operations, and both ask Policy.
-- What the panel sends comes from Reverse.Actions.
-- Client sends it through the frames of Wire to Server and reads the answer by Response.
--
-- Numbers: durations are whole microseconds, so a number of minutes or seconds that Python keeps as a
-- float is exact here. Text is a list of Unicode code points, and bytes are a list of numbers.
-- Errors: Result has ProtocolError and any other exception apart, since the code catches them apart.
-- Fuel: the tokenizer runs on the length of the text, the parser on the number of tokens, and the
-- decimal printer on the number itself; each round uses up at least one. Reading the log runs on the
-- size of the file, of which each round reads at least one byte. The monitoring loop is a function of
-- the list of its readings.
--
-- The state files: a payload is a dictionary of JSON values, a file is absent, unusable or holds a
-- payload, and each call of the disk has its answer as an argument, with what a call that failed midway
-- leaves behind. Control keeps an abstract view of the two files for the monitoring loop.
--
-- Parameters: `Floats` and `Iso` are Python's floats and ISO dates, `lowered` is str.lower, `Values`
-- are JSON's values in the panel's payloads, `column` what SQLite stores of a value, `casefold` Python's,
-- `decode` is bytes.decode with replacement, `hostname_of`
-- and `peer_of` the fixed attributes of a session, `to_int` Python's int, `mac` is HMAC-SHA256 with
-- its base64url text, `repr` the text that an error message gives a value, `allowance_label` the
-- number in the text of a reached allowance. The answers of the platform, the clock and the disk are
-- arguments (Readings, SaveAnswers, Env).
--
-- Not modelled: threads and sockets, log and console lines, the text of JSON, the loop of a reverse
-- session, the discovery of the panel, the usage history of the snapshots, the web panel, the poller's
-- timer, the installers and the platforms. The clock stands still during one request.
pub mod Base
pub mod Clock
pub mod Policy
pub mod State
pub mod Control
pub mod Wire
pub mod Auth
pub mod Request
pub mod Dispatch
pub mod Response
pub mod Server
pub mod Reverse
pub mod Scans
pub mod Snapshots
pub mod Agents
pub mod Client
mod Examples
