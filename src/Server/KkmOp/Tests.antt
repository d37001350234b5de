-- ===== src/Server/KkmOp/Tests.antt =====
-- The theorems on the cash registers' handler at concrete requests.
use kkm_https_adapter.Base.{
  ◌⊎◌, ◌&&◌, ◌||◌, not, ℕ, suc, true, false, [], ◌∷◌, ◌≡◌, refl, arith, Bytes, utf8, none, equal,
  ok,
}
use kkm_https_adapter.Text.{concat_to}
use kkm_https_adapter.Http.{Request, IpAddress, new_request, post, get, Status, set_response}
use kkm_https_adapter.Http.Maps.{find, assign}
use kkm_https_adapter.Http.JsonValue.{object, end}
use kkm_https_adapter.Server.Cache.{Cache, Entry, load, store, maintain, unexpired, expires_after}
use kkm_https_adapter.Server.Cache.Laws.{IsValid}
use kkm_https_adapter.Server.KkmOp.{
  good_chunks, Performer, Payload, returned, thrown, handle, refusal, idempotency_key,
  good_content_type, cache_key, choose, handler_key, new_payload, conclude, from_cache,
}
use kkm_https_adapter.Server.KkmOp.ContentType.{good_chunks-eq-any, any, is_json, is_bad}
use kkm_https_adapter.Server.KkmOp.Table.{sell, handlers}
use kkm_https_adapter.Server.KkmOp.Outcomes.{handle-effects, Performs}
use kkm_https_adapter.Server.KkmOp.Idempotency.{
  handle-repeated, handle-idempotent, handle-IsValid, handle_all,
}

abbrev local : IpAddress
local = record {
  is_v4 = true;
  v4_loopback = true;
  is_v4_mapped = false;
  is_v4_compatible = false;
  embedded_loopback = false;
  v6_loopback = false;
  shown = utf8 "127.0.0.1";
}

-- The world counts the operations, and a clock ticks with each.
abbrev counting : Performer ℕ
counting = record {
  now = λ w. w;
  parse = λ t. ok (object end);
  perform = λ o p w. returned p (suc w);
}

abbrev throwing : Performer ℕ
throwing = record {
  now = λ w. w;
  parse = λ t. ok (object end);
  perform = λ o p w. thrown (utf8 "no") (suc w);
}

abbrev sale : Request
sale = record (new_request local 3) {
  header = (utf8 "x-idempotency-key", utf8 "k") ∷ [];
  hint = utf8 "post" ∷ utf8 "kkm" ∷ utf8 "12" ∷ utf8 "sell" ∷ [];
  method = post;
}

-- The same sale, sent again.
abbrev again : Request
again = record sale { id = 4 }

abbrev keyless : Request
keyless = record sale { header = [] }

abbrev query : Request
query = record (new_request local 5) {
  hint = utf8 "get" ∷ utf8 "kkm" ∷ utf8 "12" ∷ utf8 "status" ∷ [];
  method = get;
}

abbrev empty : Cache
empty = record { entries = []; counter = 0 }

abbrev sale_payload : Payload
sale_payload = record {
  serial_number = utf8 "12";
  details = object end;
  result = none;
  expires_after = 345600;
  status = Status.ok;
  request_id = 3;
}

empty-IsValid : IsValid empty
empty-IsValid = record { distinct = tt; counted = omega arith }

handle-effects_example :
    ((handle counting keyless empty 10).2 ≡ 10) ⊎ Performs counting keyless empty 10
handle-effects_example = handle-effects counting keyless empty 10

good_chunks-eq-any_example :
    good_chunks false true (utf8 "application/json" ∷ utf8 "charset=cp1251" ∷ [])
    ≡ (false || any is_json (utf8 "application/json" ∷ utf8 "charset=cp1251" ∷ []))
      && (true && not (any is_bad (utf8 "application/json" ∷ utf8 "charset=cp1251" ∷ [])))
good_chunks-eq-any_example =
    good_chunks-eq-any false true (utf8 "application/json" ∷ utf8 "charset=cp1251" ∷ [])

abbrev sale_key : Bytes
sale_key = utf8 "kkm::::127.0.0.1::::k"

abbrev entry : Entry
entry = record { response = none; cached_at = 1; expired_at = 50; status = Status.ok }

abbrev filled : Cache
filled = record { entries = (sale_key, entry) ∷ []; counter = 3 }

filled-IsValid : IsValid filled
unfolding find
filled-IsValid = record { distinct = (refl, tt); counted = omega arith }

handle-IsValid_example : IsValid (handle counting sale filled 10).1
handle-IsValid_example = handle-IsValid counting sale filled 10 filled-IsValid

handle-repeated_example :
    ((handle counting again
        (handle_all counting (query ∷ []) filled 10).0
        (handle_all counting (query ∷ []) filled 10).1).0
      ≡ from_cache entry again)
    × ((handle counting again
          (handle_all counting (query ∷ []) filled 10).0
          (handle_all counting (query ∷ []) filled 10).1).2
        ≡ (handle_all counting (query ∷ []) filled 10).1)
unfolding handle refusal idempotency_key find new_request good_content_type cache_key equal load
    maintain unexpired choose handler_key handlers new_payload concat_to conclude expires_after
    store
handle-repeated_example =
    handle-repeated counting entry (query ∷ []) again filled 10 refl refl filled-IsValid refl
      (omega arith, omega arith)

handle-idempotent_example :
    let (first, c1, w1) = handle counting sale empty 10 in
    let (c2, w2) = handle_all counting (query ∷ []) c1 w1 in
    ((handle counting again c2 w2).0
      ≡ set_response first.response.status first.response.content again)
    × ((handle counting again c2 w2).2 ≡ w2)
unfolding handle refusal idempotency_key find new_request good_content_type cache_key equal load
    maintain unexpired choose handler_key handlers new_payload concat_to conclude expires_after
    store assign
handle-idempotent_example =
    handle-idempotent counting sale again (query ∷ []) empty 10 11 sell sale_payload sale_payload
      refl refl refl empty-IsValid refl refl refl refl refl (omega arith, omega arith)
