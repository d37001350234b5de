-- ===== src/Lib.antt =====
-- The kkm_https_adapter: an HTTPS server in front of fiscal cash registers.
--
-- A connection's bytes go to the HTTP parser (src/kkmha/http_parser.cpp), which fills a request;
-- `accept` of src/kkmha/server_core.cpp checks the secret and calls the handler of the request's area.
-- The handler of the cash registers (src/kkmha/server_kkmop_handler.cpp) looks the request's
-- idempotency key up in the cache (src/kkmha/server_cache_core.cpp), and otherwise runs an operation:
-- it resolves the serial number to the parameters of a connection (src/library/kkm/connparams.cpp),
-- makes a device (src/library/kkm/device.cpp), which drives the register through its driver, reads the
-- call's details from JSON and writes the call's result to JSON (src/library/kkm/impex.cpp).
--
-- Which file models what:
-- - Base and its children: Boolean tests, lists measured by native numbers, texts as lists of bytes,
--   doubles by their bits, exceptions as values.
-- - Text: src/library/lib/text.cpp and the narrow-string half of text.h. Text/Trim, Text/Split,
--   Text/Join, Text/Variable, Text/Number and Text/Filters hold the laws of the functions of these
--   names, and Number and Filters also `cast` and the filters; Text/Limits: the filters of
--   src/library/lib/numeric.h.
-- - Http: the data of http_types.h, http_request.h and http_response.h; Http/Maps for unordered_map,
--   Http/JsonValue for the JSON library's values.
-- - Http/Render: the `render` functions of the responses.
-- - Http/Parser: http_parser.cpp and http_parser.h, function by function (`parseMethod` is
--   `read_method`, `parseHeader` is `read_header`, `parseBody` is `read_all` under `read_by`,
--   `operator ()` is `parse`); Http/Parser/Input: the input stream.
-- - Json: src/library/lib/json.h, its casts and its readings of properties, with Json/Laws,
--   Json/Naming and Json/Blame on what they throw.
-- - Server/Cache: server_cache_core.cpp (`store`, `load`, `maintain`).
-- - Server/Core: the part of `accept` behind the parser, and `lookupHandler`.
-- - Server/Ping, Server/Default, Server/Static, Server/Handler: the small handlers, and `fail`;
--   Server/Hitman: server_hitman.h, by which the server is stopped in time, with its use in `stop` of
--   server_core.cpp.
-- - Server/KkmOp: the handler of the cash registers, its guards in Server/KkmOp/Guards, its table in
--   Server/KkmOp/Table. What the table's operations do is the interface `Performer`, which
--   Server/KkmOp/Performing fills: Server/KkmOp/World has the registry and the sessions of devices,
--   Server/KkmOp/Operations and Server/KkmOp/Learn the operations, Server/KkmOp/Registry,
--   Server/KkmOp/Sessions and the children of Performing and Learn what holds of them.
-- - Kkm/Driver: the interface of Atol's driver; Kkm/Method: the class `Device` and the statements of
--   its methods; Kkm/Results, Kkm/Details, Kkm/Initial and Kkm/Labels: callparams.h and the tables of
--   names; Kkm/Status and Kkm/Fiscal: the queries; Kkm/Printing, Kkm/Reports, Kkm/Receipt, Kkm/Shift
--   and Kkm/Connection: the other methods, the constructors and the destructor.
-- - Kkm/Method/Laws, Kkm/Preservation and Kkm/Receipt/Preserved: a logic of statements and what every
--   method keeps; Kkm/OpenReceipt, Kkm/Success, Kkm/FirstFailure and Kkm/Shift/Failures use it;
--   Kkm/Reports/Polling: the polls; Kkm/Connection/Checked and Kkm/Connection/Reported: the serial
--   number of a device that has been made.
-- - Kkm/ConnParams: connparams.cpp; Kkm/Import with its children: the reading of details in impex.cpp,
--   with its limits; Kkm/Tables: the tables that it looks values up in; Kkm/Export with its children:
--   the writing of results, and callhelpers.h; Kkm/Queries: the queries that callhelpers.h calls.
-- - The files named Tests: runs, and the theorems at concrete inputs.
--
-- Fuel: `parse` runs its loop on two steps more than there are bytes, since each step but the last
-- takes a byte or ends the stream; `parseBody` and `splitTo` run on one more than the bytes. The polls
-- of a document's state have the source's own counter; the waiting of Server/Hitman runs on fuel and
-- gives no result when it is used up.
--
-- Parameters: the driver of each connection (its answers are a function of the calls that it has had),
-- the JSON library's `parse` and `dump` and its conversions of numbers, the conversions between
-- character sets, the arithmetic of doubles, the operations of the file system, the clock, the remote
-- address, the icon. Doubles are bit patterns, which are compared as IEEE numbers.
--
-- Not modelled: logging, the reading of settings (they are arguments), the asio library's connections,
-- the service, the command line programs, the handler of the configuration, and the start and the stop
-- of the server but for the waiting within the stop. Requests that run at the same time are taken one
-- after the other, and an operation on a cash register is one step.
mod Base
pub mod Text
pub mod Http
pub mod Json
pub mod Server
pub mod Kkm
