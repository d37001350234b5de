-- ===== src/Kkm/ConnParams/Applied.antt =====
-- The application of a connection's parameters goes on or throws.
use kkm_https_adapter.Base.{List, [], ◌∷◌, ◌||◌, equal}
use kkm_https_adapter.Text.Filters.{contains}
use kkm_https_adapter.Kkm.Driver.{WideText, wide, Driver, Setting}
use kkm_https_adapter.Kkm.Method.Laws.{>>-Triple, when-Triple, if-Triple}
use kkm_https_adapter.Kkm.Connection.Checked.{Stays, raise-Stays, demand-Stays}
use kkm_https_adapter.Kkm.ConnParams.{
  ConnSettings, set_single, apply_common, open_com, apply_com, apply,
}

module _ {A : Type 0} (k : Driver) (c : ConnSettings) where
  set_single-Stays : (s : Setting) (t : WideText) → Stays {A = A} (set_single s t)
  set_single-Stays s t = record { run = λ r d h. tt }

  apply_common-Stays : Stays {A = A} (apply_common k c)
  unfolding apply_common
  apply_common-Stays = record {
    run = λ r d.
        (>>-Triple (set_single-Stays _ _) (
            >>-Triple (when-Triple c.time_zone_configured (set_single-Stays _ _))
              (set_single-Stays _ _))).run
          r d;
  }

  open_com-Stays : (port rate : WideText) → Stays {A = A} (open_com k c port rate)
  open_com-Stays port rate = >>-Triple (set_single-Stays _ _) (
      >>-Triple (set_single-Stays _ _)
        (>>-Triple (set_single-Stays _ _) (>>-Triple apply_common-Stays (demand-Stays k _))))

  apply_com-Stays : (l : List WideText) → Stays {A = A} (apply_com k c l)
  unfolding apply_com
  apply_com-Stays [] = raise-Stays _
  apply_com-Stays (kind ∷ []) = raise-Stays _
  apply_com-Stays (kind ∷ (port ∷ [])) = open_com-Stays port _
  apply_com-Stays (kind ∷ (port ∷ (rate ∷ rest))) =
      if-Triple (contains c.allowed_baud_rates rate) (open_com-Stays port rate) (raise-Stays _)

  pub apply-Stays : (l : List WideText) → Stays {A = A} (apply k c l)
  unfolding apply
  apply-Stays [] = raise-Stays _
  apply-Stays (kind ∷ rest) = if-Triple (equal kind (wide "com")) (apply_com-Stays (kind ∷ rest)) (
      if-Triple
        (equal kind (wide "usb")
          || (equal kind (wide "tcpip") || equal kind (wide "ip"))
          || (equal kind (wide "bluetooth") || equal kind (wide "bt")))
        (raise-Stays _) (raise-Stays _))
