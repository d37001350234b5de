-- ===== src/Http/Render/Tests.antt =====
-- The theorems on rendering at concrete responses, and the constant responses' own lengths.
use kkm_https_adapter.Base.{[], ◌≡◌, refl, Bytes, utf8, length}
use kkm_https_adapter.Http.{json, forbidden}
use kkm_https_adapter.Http.JsonValue.{Json, Fields, end, field, string, number, object}
use kkm_https_adapter.Http.Render.{message_key, render_proto}
use kkm_https_adapter.Http.Render.Laws.{render_proto_idem}
use kkm_https_adapter.Server.Default.{redirect_body}

abbrev brief : Json → Bytes
brief j = utf8 "{}"

-- The message is no text, and the success is missing.
abbrev fields : Fields
fields = field message_key (number 3) (field (utf8 "a") (string []) end)

redirect_test : length redirect_body ≡ 128
redirect_test = refl

render_proto_idem_example :
    render_proto brief forbidden (render_proto brief forbidden (json (object fields))).1
    ≡ render_proto brief forbidden (json (object fields))
render_proto_idem_example = render_proto_idem brief forbidden (json (object fields))
