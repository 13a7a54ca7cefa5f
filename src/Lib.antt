-- ===== src/Lib.antt =====
-- Verification of tophamm, a Zigbee library that talks to a deCONZ adapter over a serial line.
--
-- A call of `Deconz` (deconz/src/deconz.rs) sends a command to the transmitting task, which turns
-- it into a frame of the protocol (deconz/src/protocol.rs) and puts that on the serial line between
-- END bytes, with a checksum (deconz/src/slip.rs). The receiving task takes frames off the line and
-- decodes them; it broadcasts the device states that they carry, and hands a response to whoever
-- waits for its sequence number (tophamm-helpers/src/awaiting.rs). Three more tasks
-- (deconz/src/aps.rs) forward data requests while the adapter has free slots, fetch the
-- confirmations, and fetch the indications. On top of it the program tophamm sends zdo requests and
-- matches their responses by transaction id (tophamm/src/zdo).
--
-- The files, and the code that each of them models:
--   Base, Outcome         numbers, bytes and lists; a value, an error or a panic, and the two build
--                         profiles, which differ in overflow and in debug assertions
--   Helpers/*             tophamm-helpers/src/lib.rs (IncrementingId) and awaiting.rs (Awaiting)
--   Calls                 the calls of Deconz (deconz/src/deconz.rs) and Zdo
--                         (tophamm/src/zdo/mod.rs) that send a numbered item to a task through a
--                         channel
--   Deconz/Types, Errors  deconz/src/types.rs and errors.rs
--   Deconz/Wire           the traits ReadWire and WriteWire of deconz/src/lib.rs at the integers
--   Deconz/Parameters     deconz/src/parameters.rs, its macro written out at the table
--   Deconz/Protocol/*     deconz/src/protocol.rs: Command (CommandId), Fields (Platform, Version,
--                         DeviceState, Destination), Request (into_frame), Response (from_frame)
--   Deconz/Slip/*         deconz/src/slip.rs: crc16, Reader and Writer
--   Deconz/Client, Rx, Tx deconz/src/deconz.rs: Deconz, process_frame and send_request
--   Deconz/Rx/Task        deconz/src/deconz.rs: the loop of Rx on the serial line
--   Deconz/Exchange       deconz/src/deconz.rs: Tx and Rx side by side on the map of senders;
--                         Reply/Timed: make_request against its timeout
--   Deconz/Aps            deconz/src/aps.rs: the loop of ApsRequests as steps, forward_request,
--                         aps_data_confirm and aps_data_indication
--   Deconz/Aps/*          deconz/src/aps.rs: Confirmations (ApsRequests and ApsConfirms side by
--                         side on the map of senders), Indications (the loop of ApsIndications)
--   Deconz/Port           deconz/src/lib.rs: open_tty
--   Deconz/System         deconz/src/deconz.rs: the five tasks that Deconz::new starts, with the
--                         map of commands, the watch channel and the map of data requests
--   Deconz/Library        deconz/src/deconz.rs and aps.rs: the five tasks with the two queues to
--                         them, the calls that wait for room, and what is put on the serial line
--   Deconz/Messages, Zdo/Messages
--                          the Display impls of both crates' errors and of the identifiers in them
--   Zdo/Protocol          tophamm/src/zdo/protocol.rs: the messages of the three zdo commands
--   Zdo/Neighbors         tophamm/src/zdo/mod.rs: the loop of get_neighbors; Requests (the same
--                         with the requests that it makes)
--   Zdo/Transactions      tophamm/src/zdo/mod.rs: make_request, query_endpoints, a round of Rx;
--                         Receiving (the loop of Rx), Exchange (Tx and Rx side by side)
--   Zdo/Layer             tophamm/src/zdo/mod.rs: the calls of make_request, their queue, Tx with
--                         the task that it spawns for each request, and Rx
--   Program               tophamm/src/main.rs: the task between the reader of indications and the
--                         zdo layer, and the survey of the neighbours; Main (the main function);
--                         Passage (that task between the channel of ApsReader, deconz/src/aps.rs,
--                         and that to Zdo)
--   Tests/*               runs on small inputs, and an instance of each result
--
-- How the code is written here: an integer is a number with its wrap-around or its overflow panic
-- written out. A reader is a function from the bytes that are left to a value and the rest; a
-- writer is a function on the buffer. A map with senders is an association list under its lock, so
-- that its calls stand in one order, and a oneshot sender is a name; what a call hands to a sender
-- or broadcasts is in its result. Helpers/Awaiting/Abstract says what the list stands for: the map
-- of its answers. The loops of the slip reader and of the receiving task run on the list of what
-- the line answers to each read, those of the tasks of aps.rs on the list of what wakes them, and
-- get_neighbors on the list of what its requests come to: no fuel is needed, and a loop whose list
-- has ended is waiting. With its requests, get_neighbors runs on fuel, one unit for each request;
-- one more than the length of the table is enough for a device that hands out a neighbour with
-- every response. Tasks that share a map run as one list of events in any order, in which the two
-- halves of register_while, the registration and what follows the await, are events of their own.
-- The five tasks of the library run by a relation of such steps on one state, in which a step is
-- there only when its task is at the point where it can happen. Where a timeout counts, the events
-- stand with the milliseconds that pass before each.
--
-- Code that is not in the repository is a parameter. The crate byteorder is the record Byteorder
-- of Deconz/Wire/External: its reads take the bytes that they ask for or fail, and its writes to a
-- vector append. The writer of tokio is the record Sink of Deconz/Slip/Writer: a call that does
-- not fail appends its bytes. The watch channel of tokio is the record Watch of
-- Deconz/System/Broadcasts: a receiver sees the value that was sent last, each at most once, and
-- at first the initial one. The queues of tokio are the record Mpsc of Calls: a send puts an item
-- behind the others once there is room, which an empty queue has, and a receive takes the first;
-- of the calls that wait for room any may be the next. The timeout of tokio is the record Timer of
-- Deconz/Client: a value that comes before the duration has elapsed is returned, and one that
-- comes after it is not. Otherwise what a oneshot channel answers is an argument of the calls. An
-- I/O error is its kind, and a serial port error is not looked into; their texts are parameters.
-- Opening a serial port is an argument of open_tty and of main.
--
-- Not modelled: the start of the tasks, the end of a channel when a task has ended by a panic (the
-- calls that are left stay where they are), and the Debug texts and log lines.
pub mod Base
pub mod Outcome
pub mod Helpers
pub mod Calls
pub mod Deconz
pub mod Zdo
pub mod Program
pub mod Tests
