-- ===== src/Server/Core/Tests.antt =====
-- The theorems on authorization at concrete requests.
use kkm_https_adapter.Base.{ℕ, suc, true, false, [], ◌∷◌, ◌≡◌, ◌↔◌, ◌⊎◌, refl, utf8, equal}
use kkm_https_adapter.Http.{
  Request, IpAddress, new_request, is_ok, is_loopback, below_bad_request, code,
}
use kkm_https_adapter.Http.Maps.{find}
use kkm_https_adapter.Server.Core.{Settings, Handlers, authorize, answer, lookup_handler}
use kkm_https_adapter.Server.Core.Laws.{IsExempt, HasSecret, authorize_iff}

abbrev foreign : IpAddress
foreign = record {
  is_v4 = true;
  v4_loopback = false;
  is_v4_mapped = false;
  is_v4_compatible = false;
  embedded_loopback = false;
  v6_loopback = false;
  shown = utf8 "10.0.0.2";
}

abbrev settings : Settings
settings = record { loopback_without_secret = true; secret = utf8 "s" }

-- Handlers that count their calls.
abbrev counting : Handlers ℕ
counting = record { call = λ area r n. (r, suc n) }

abbrev unsigned : Request
unsigned = new_request foreign 1

abbrev signed : Request
signed = record unsigned { header = (utf8 "x-secret", utf8 "s") ∷ [] }

signed_test : answer settings counting signed 0 ≡ (signed, 1)
unfolding answer authorize below_bad_request code is_loopback find equal lookup_handler new_request
signed_test = refl

authorize_iff_example : (is_ok (authorize settings signed).response.status ≡ true) ↔ (
    (is_ok signed.response.status ≡ true) × (IsExempt settings signed ⊎ HasSecret settings signed))
authorize_iff_example = authorize_iff settings signed
