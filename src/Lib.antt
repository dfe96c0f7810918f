-- ===== src/Lib.antt =====
-- A verification library of the core of the Ansible collection for Intel AMT: the IDE-R target that
-- serves a disk image to a machine, the transport that it runs over, the WS-Man client with its
-- retries, the event log, power control, one-time boot, and the state changes of the redirection
-- service. The sources are under plugins/module_utils, and under plugins/modules for Modules.
--
-- The parts and their files:
--   * Prelude: names of the libraries passed on, Boolean tests, lists, dictionaries, struct layouts.
--   * Errors: errors.py, the exception classes as values, and results.
--   * Effect: code that changes a state and raises; the state is kept when it raises.
--   * Client: the WS-Man client (wsman.py) as boot.py, redirection_service.py, message_log.py and
--     client.py call it. What the firmware answers is a parameter, which may depend on every call
--     made before.
--   * Models: models.py, the coercions of WS-Man values, the CIM tables, and the power, network and
--     system state. The functions of Python's builtins on text are the parameter Python; Sample has
--     two such interpreters for runs.
--   * Wsman: wsman.py. Tree and Request are the XML that comes and goes, Transport `_execute` and
--     `_handle_response` over a server whose outcomes are a parameter, Operations Get, Put, Enumerate
--     and Invoke. Refines fills the interface Client with these over one server; the others are the
--     theorems.
--   * MessageLog: message_log.py. Tables and Decode are the records, Container and Read the calls;
--     the others are the theorems. base64 and datetime are parameters.
--   * Power: client.py. Request is the power state and `request_power_state`, Facts the reads of
--     single facts, Gather `get_facts` with the default subset; the others are the theorems.
--   * Modules: plugins/modules. Power and LogClear are the decisions of amt_power and amt_log_clear;
--     the others are the theorems.
--   * Ider: ider.py. Media is MediaImage over a file system that is a parameter; Target the fields of
--     IderEngine that the handlers use; Send the outbound frames; Read `_scsi_read` and `_pump_read`;
--     Write `_scsi_write_request` and `_on_data_from_host`; Replies and Scsi the SCSI commands;
--     Dispatch `_dispatch` and the handlers of messages; Feed `feed` and `_peek_length`. Canned and
--     Command are the constants. Moves is the abstract step relation of the target, Safety its
--     invariant, Framing the theorems on streams of bytes.
--   * Boot: boot.py. Plan, Discovery, Settings and Arm are the code; the others are the theorems.
--   * Redirection: redirection.py. Session, Digest and Connect are the code; the peer, the digests
--     of hashlib and the random cnonce are parameters.
--   * Tls: tls.py. Policy is the transport and trust policy, Der the reading of a certificate's
--     elements, whose loop has the length of the bytes as fuel; Trust and Elements are the theorems.
--   * RedirectionService: redirection_service.py, and RedirectionState of models.py.
-- They interact as the code does: the bytes that Redirection.Connect hands on are fed to Ider.Feed,
-- and Boot, RedirectionService, MessageLog and Power run against Client, whose operations Wsman
-- details.
--
-- Loops: `feed` has the length of its buffer as fuel, since a frame has eight bytes at least;
-- `_pump_read` the bytes and requests that are left; `_fill` the bytes asked for, since a round that
-- goes on brings one. The loop of `read_records` and the Pull loop of `enumerate` have no bound of
-- their own and run on any fuel, with none for a loop that is still running. The retries of
-- `_execute` and the probes of `request_power_state` are counted down, as in the code. Numbers are
-- natural numbers with the wrap-around of the source written out. MediaImage objects are shared by
-- reference and stand in a store under numbers. Handlers keep the state that they had when they
-- raised.
--
-- Not modelled: the text of messages and its redaction, parsing and printing of XML, sessions, TLS
-- adapters and the names and dates of certificates, sockets and processes, the hardware inventory,
-- the rendering of receipts, and the other Ansible modules, which are glue around these. Of the
-- IDE-R engine, what happens when the `send` callable or an open file raises an error of its own, and
-- two images on one file: `send` takes every frame, and each image has the bytes of its own file.
pub mod Prelude
pub mod Errors
pub mod Effect
pub mod Client
pub mod Models
pub mod MessageLog
pub mod Tls
pub mod Wsman
pub mod Power
pub mod Modules
pub mod Ider
pub mod Boot
pub mod Redirection
pub mod RedirectionService
