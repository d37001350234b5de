-- ===== src/Http/JsonValue/Laws.antt =====
-- Looking up behind a value that is put.
use kkm_https_adapter.Base.{some, Bytes, equal, equal_iff, ◌≡◌, refl, arith, if◌then◌else◌}
use kkm_https_adapter.Http.JsonValue.{Json, Fields, end, field, at, put}

pub at-put :
    (k j : Bytes) (v : Json) (fs : Fields)
    → at j (put k v fs) ≡ (if equal k j then some v else at j fs)
unfolding at put
at-put k j v end = refl
at-put k j v (field i w fs) =
    ground (arith, equal_iff k j, equal_iff i k, equal_iff i j, at-put k j v fs)
