-- ===== src/Server/Handler.antt =====
-- `ProtoHandler::fail` of src/kkmha/server_proto_handler.h, without its log line.
use kkm_https_adapter.Base.{Bytes}
use kkm_https_adapter.Http.{Request, Status, text, set_response}

abbrev pub fail : Request → Status → Bytes → Request
fail request status message = set_response status (text message) request
