-- ===== src/Server/Core/Laws.antt =====
-- Who is let through to a handler.
use kkm_https_adapter.Base.{
  true, false, ◌≡◌, ◌↔◌, ◌⊎◌, refl, arith, Option, some, none, Bytes, utf8, equal_iff, is_nil,
  Bool-cases, inl, inr,
}
use kkm_https_adapter.Http.{
  Request, Status, is_ok, below_bad_request, is_loopback, forbidden, text, set_response, code,
}
use kkm_https_adapter.Http.Maps.{find}
use kkm_https_adapter.Server.Settings.{forbidden_text}
use kkm_https_adapter.Server.Core.{Settings, Handlers, authorize, answer, wrong_secret}

-- The request comes from the machine itself and the settings let it in without a secret.
abbrev pub IsExempt : Settings → Request → Type 0
IsExempt settings r = (settings.loopback_without_secret ≡ true) × (is_loopback r.remote ≡ true)

-- The request carries the secret of the settings, which is not the empty one.
abbrev pub HasSecret : Settings → Request → Type 0
HasSecret settings r =
    (find (utf8 "x-secret") r.header ≡ some settings.secret) × (is_nil settings.secret ≡ false)

right_secret :
    (secret : Bytes) (o : Option Bytes)
    → wrong_secret secret o ≡ false
    → (o ≡ some secret) × (is_nil secret ≡ false)
unfolding wrong_secret
right_secret secret none h = cc
right_secret secret (some given) h = ground (arith, equal_iff given secret)

ok_is_below : (s : Status) → is_ok s ≡ true → below_bad_request s ≡ true
unfolding below_bad_request code
ok_is_below Status.ok h = refl
ok_is_below _ h = cc

wrong-missing :
    (secret : Bytes) (o : Option Bytes)
    → wrong_secret secret o ≡ true
    → o ≡ some secret
    → is_nil secret ≡ true
unfolding wrong_secret
wrong-missing secret none h e = cc
wrong-missing secret (some given) h e = ground (arith, equal_iff given secret)

refused :
    (settings : Settings) (r : Request)
    → below_bad_request r.response.status ≡ true
    → ¬ IsExempt settings r
    → ¬ HasSecret settings r
    → authorize settings r ≡ set_response forbidden (text forbidden_text) r
unfolding authorize
refused settings r b e k =
    ground (arith, right_secret settings.secret (find (utf8 "x-secret") r.header))

-- A handler is reached exactly by the requests that were parsed without a complaint and that come
-- from an exempt address or carry the secret.
pub authorize_iff :
    (settings : Settings) (r : Request)
    → (is_ok (authorize settings r).response.status ≡ true)
      ↔ ((is_ok r.response.status ≡ true) × (IsExempt settings r ⊎ HasSecret settings r))
unfolding authorize
authorize_iff settings r =
    let s = r.response.status in
    let o = find (utf8 "x-secret") r.header in
    ground (arith, ok_is_below s, right_secret settings.secret o, wrong-missing settings.secret o)

-- A request that is refused is answered with Forbidden, and no handler runs: the handlers' state
-- stays as it was. This is every request whose status is below BadRequest, and that is neither exempt
-- nor carries the secret.
pub answer-forbidden :
    {S : Type 0} (settings : Settings) (h : Handlers S) (r : Request) (s : S)
    → below_bad_request r.response.status ≡ true
    → ¬ IsExempt settings r
    → ¬ HasSecret settings r
    → answer settings h r s ≡ (set_response forbidden (text forbidden_text) r, s)
unfolding answer
answer-forbidden settings h r s b e k = rw (refused settings r b e k) refl

-- A request whose status is not Ok never reaches a handler.
pub answer-complained :
    {S : Type 0} (settings : Settings) (h : Handlers S) (r : Request) (s : S)
    → is_ok r.response.status ≡ false
    → answer settings h r s ≡ (authorize settings r, s)
unfolding answer
answer-complained settings h r s e =
    elim (Bool-cases (is_ok (authorize settings r).response.status)) [
      | inl k ↦ ground (arith, (authorize_iff settings r).0 k)
      | inr k ↦ rw k refl
    ]
