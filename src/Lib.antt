-- ===== src/Lib.antt =====
-- The telemetry listener of formula1-app: UDP packets of the game become database rows.
--
-- A datagram goes to the dispatcher, which reads its header, refuses foreign and malformed
-- traffic, parses the body and calls a service. The six packets of one simulation tick are kept in
-- a frame buffer first, which gives them back to the dispatcher as one frame when the tick is over.
-- Sessions and drivers are remembered in dictionaries and sets of bounded size.
--
--   listener/utils/bounded_dict.py, bounded_set.py   Bounded: the entries, oldest first. `set_item`
--                                                    is __setitem__, `add` the set's add.
--   listener/frame_buffer.py                         FrameBuffer: one function per method, on the
--                                                    buffer and the state of its flush callback.
--   listener/packets/packet_header.py                Packets.Header
--   listener/packets/*.py                            Packets.*: a record per dataclass, and a parser
--                                                    that returns a Result. Packets.Total: parsers
--                                                    do not raise at the expected size.
--   listener/enums/*.py                              Enums: tables of values and names.
--   listener/database/repositories/base.py           Repositories.Base: the statements and their
--                                                    failures. Enums.Names: `safe_enum_name`.
--   listener/database/repositories/entries.py        Repositories.Entries
--   listener/services/lap_history.py                 Services.LapHistory
--   listener/services/lap_positions.py               Services.LapPositions
--   listener/services/car_frame.py                   Services.Rows (the values, the columns and the
--                                                    parts of a row), Services.CarFrame
--   listener/services/car_setup.py, tyre_sets.py,    Services.CarSetup, Services.TyreSets,
--     motion_ex.py, lobby_info.py                    Services.MotionEx, Services.LobbyInfo
--   listener/services/participants.py                Services.Participants
--   listener/services/session.py, events.py          Services.Session, Services.Events
--   listener/services/final_classification.py        Services.FinalClassification
--   listener/dispatcher.py                           Dispatcher.State (the attributes and the
--                                                    services' interface), Dispatcher.Frames
--                                                    (_flush_frame, _check_lap_completions),
--                                                    Dispatcher.Routes (the handlers),
--                                                    Dispatcher.Handle (handle_packet).
--   listener/server.py                               Server: the queue, the turns of the receive
--                                                    loop and of the worker, the shutdown. Fates and
--                                                    Waiting are the channel that it refines.
--
-- Conventions. A session uid, which the program keeps as the text of a uint64, is that number. A
-- float or a signed integer of a packet is its bit pattern, least significant byte first; a text is
-- its list of bytes or code points. Python's struct module is modelled in Struct as far as its
-- formats are used, and its dictionaries in Dict as lists of keys and values in order of insertion.
-- `bytes.decode('utf-8')` is a parameter. The monotonic clock is an argument, in microseconds. An
-- exception is a value: Result for code that changes no object, Action for methods, which keep what
-- was changed before they raised. The dispatcher's lock makes its calls a sequence.
--
-- The dispatcher calls the services through the record Dispatcher.State.Services, on any type of
-- states, and its theorems hold for every such record. The modelled services return the calls of
-- their repositories as values, for those swallow the errors of the database; where a service waits
-- for an answer of the database, the answer is an argument. The sum of a datetime and the seconds of
-- a float, the hash of a setup, the hash of a forecast and Python's text functions are parameters.
-- All recursion is on lists or on numbers that the packet gives, so there is no fuel.
--
-- Not modelled: the SQL of the repositories and the rows that most of them make of their
-- arguments, the database client, the server's socket and its kernel buffer, main.py, log lines
-- but for those that are rate-limited or collapsed, and the TypeScript and SQL parts of the
-- repository, which share no code with the listener.
pub mod Prelude
pub mod Result
pub mod Action
pub mod Dict
pub mod Bounded
pub mod Struct
pub mod Packets
pub mod Enums
pub mod FrameBuffer
pub mod Services
pub mod Repositories
pub mod Dispatcher
pub mod Server
mod Tests
