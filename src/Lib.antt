-- ===== src/Lib.antt =====
-- A model of wavekat-sip (crates/wavekat-sip/src), a SIP user agent in Rust, and theorems about it.
--
-- The program. A transport (stack/transport.rs, stack/stream.rs) turns bytes into messages; on a
-- stream the framer (stack/framing.rs) finds their ends. The engine (stack/engine.rs) is one task
-- that owns the transactions in a table by key. It gives each received message, fired timer and
-- command to the machine of its transaction (stack/transaction/*.rs), which is a pure function from
-- a state and an input to a new state and a list of actions, and carries the actions out: it sends,
-- arms and stops timers, and publishes events to the user agent above. Session timers
-- (session_timer.rs) keep a confirmed call alive. The media side (rtp/*.rs) builds and reads RTP
-- packets and the telephone events that carry DTMF digits. Above the engine, the user agent
-- (stack/ua.rs) runs registrations and calls: it builds their requests (stack/registration.rs,
-- stack/call.rs), answers a challenge (stack/auth.rs), and makes a dialog of an answer
-- (stack/response.rs, stack/dialog.rs). The registrar (registrar.rs) keeps an account (account.rs)
-- registered, at a server that resolve.rs finds. The endpoint (endpoint.rs) routes the requests that no
-- client transaction waits for; sdp.rs negotiates the media of a call. The public interface (caller.rs,
-- callee.rs, inbound.rs) dials, accepts and controls calls by all of these.
--
-- The files.
-- - Base: shared names; lists over native numbers, Boolean tests, machine words, powers of two.
-- - Text: the text functions of the standard library that the parsers call (from_utf8, trim,
--   split, split_once, to_ascii_lowercase, parse of an unsigned number). Words and Decimal have the
--   lemmas on lines and words, and on numbers in decimal.
-- - Sip: messages as the crate sees them through rsip. The functions of rsip are the record `Rsip`,
--   and what the crate relies on is `RsipLaws`.
-- - Transaction: stack/transaction/mod.rs: reliability, timers, timer names, actions. Key is
--   TransactionKey, Ack is build_non_2xx_ack. ClientInvite, ClientNonInvite, ServerInvite and
--   ServerNonInvite are the files client_invite.rs, client_non_invite.rs, server_invite.rs and
--   server_non_invite.rs, each with a module Life on its runs. Machine has the runs: inputs in any
--   order, and firings of the timers that are running.
-- - Dialog: stack/dialog.rs. Identity and Requests have the theorems. Transaction.Via is transport_of
--   and via_value of stack/transaction/mod.rs.
-- - Engine: stack/engine.rs. `on_inbound`, `on_response`, `on_request`, `on_timer_fire`, `on_command`,
--   `apply` and `arm_timer` keep their names; `cancel_timer` is stop_timer; one action of apply is
--   `apply_one`. The `HashMap` is an association list. State has the data, Table,
--   Isolation, Stale and Opening the lemmas on the table and on the inputs.
-- - Framing: stack/framing.rs, `next_message` in steps (`skip_crlf`, `with_end`, `with_length`,
--   `take_message`); Reader is the inner loop of read_task in stack/stream.rs and Task the whole of
--   it. Append, Prefix, Chunks, Delivery and Progress have the theorems.
-- - Stream: `StreamTransport` of stack/stream.rs. An event is one send, ping, turn of the read task or
--   call of recv, and a run any sequence of them; `connect` gives the state of a new connection.
--   History, Simulation and Delivery have the theorems.
-- - Keepalive: stack/keepalive.rs, the ping loop over its rounds; Rounds has the theorems.
-- - SessionTimer: session_timer.rs; Run is session_timer_loop over the list of what its select! meets.
--   Headers and Answered are on its headers.
-- - Rtp: RtpHeader of rtp/mod.rs; Send is send_loop; Dtmf is rtp/dtmf.rs; DtmfRecv is rtp/dtmf_recv.rs.
-- - Answer: stack/response.rs; Agreement has the theorems. Auth: stack/auth.rs; `AgentRsip` is what the
--   user agent calls of rsip, Retry has the theorems. Registration and Call: the request builders of
--   stack/registration.rs and stack/call.rs; Call.Cancel is on the CANCEL.
-- - Ua: stack/ua.rs. `Outside` is what the engine delivers, the clock and the draws, `Air` what was
--   sent. Registering is `register` and `register_query`, Calling is `call_cancellable` and the
--   requests in a dialog, Router is `router`; a loop is one round (`round`, `call_round`) and the loop over it. Numbers,
--   Rounds, Cancelling, Counting and Acknowledging have the theorems.
-- - Endpoint: `route_inbound` and the registries of endpoint.rs, the branches of its match as
--   `new_call`, `in_dialog`, `on_bye` and `on_cancel`; Teardown has the theorems.
-- - Refer: refer.rs and dtmf_info.rs, with dialog_triplet of caller.rs; Replaces has the theorems.
-- - Registrar: registrar.rs; `register_account` is `register`, `conclude` the match on an outcome.
--   Sequence and Operations have the theorems.
-- - Account: account.rs; Fingerprint is the stored digest. Resolve: resolve.rs, with `order_candidates`
--   in steps (`order_classes`, `class_of`, `shuffle`, `pick`) and `resolve_with` after the plan.
-- - Tls: stack/tls.rs and tls_error.rs; `verify_server_cert` is both policies' verifier, `recorded` the
--   RecordingVerifier, `report` the end of `connect`. FirstUse has the theorem.
-- - Sdp: sdp.rs. Parse is the end of `parse_sdp`, Build is `build_sdp_with`; Negotiation, Events
--   and RoundTrip have the theorems, over Lines, Menu, Inline and Reading.
-- - Calls: the `Call` of caller.rs and its operations; `hang_up` is its `hangup` and the `send_bye` of its
--   session handle, `refresh` that handle's. Dialing is `dial_inner`, its match `conclude_call`. Incoming
--   is callee.rs and inbound.rs, with `accept` in steps (`accept_with`, `refuse_offer`, `establish`), and
--   `next_incoming_call` of endpoint.rs. Acts has the
--   operations in a row; Effects, Control, Sessions and Answering have the theorems.
-- - Tests: the theorems at concrete inputs.
--
-- How the code is represented. A handler takes the state and returns the new one; a `&mut` entry of
-- the table is read and stored again. What a task sends, publishes or spawns is appended to a list
-- of its state. A select! loop runs over the list of what it meets. Times are numbers of
-- milliseconds (transactions) or seconds (session timers). Sequence numbers, timestamps, lengths and
-- the sum of framing keep their wrap-around. The loop over the buffered messages runs on fuel: one more
-- than the number of buffered bytes is enough, since a message is never empty. The loops of the user
-- agent and the registrar run on fuel 2, since each repeats at most once; the loops over the records
-- of a server run on the number of records, since each round takes one.
--
-- Not modelled: sockets, the system's DNS resolver, the handshake of rustls, logging, the async runtime and its channels (a
-- send to a closed channel), random branches, tags and nonces, rsip itself and the digest
-- computation, the bytes of a write that fails, and starting an endpoint (the constructors of
-- endpoint.rs and ua.rs).
pub mod Account
pub mod Answer
pub mod Auth
pub mod Base
pub mod Call
pub mod Dialog
pub mod Endpoint
pub mod Engine
pub mod Framing
pub mod Stream
pub mod Tls
pub mod Keepalive
pub mod Registration
pub mod Refer
pub mod Registrar
pub mod Resolve
pub mod Rtp
pub mod Sdp
pub mod SessionTimer
pub mod Sip
pub mod Tests
pub mod Text
pub mod Transaction
pub mod Ua
pub mod Calls
