-- ===== src/Kkm/Labels.antt =====
-- The labels of the driver's numbers, in src/library/kkm/strings.h, and the enums of types.h by which
-- they are listed. The numbers are the driver's: each table takes them as an argument.
use kkm_https_adapter.Base.{ℕ, List, [], ◌∷◌, Bytes, utf8, ◌==◌, if◌then◌else◌}
use kkm_https_adapter.Kkm.Details.{
  ReceiptType, closed, sell, sell_return, sell_correction, sell_return_correction, buy, buy_return,
  buy_correction, buy_return_correction,
}

pub data Model : Type 0 where
  alliance_20f atol_1f atol_2f atol_11f atol_15f atol_20f atol_22f atol_22v2f atol_25f atol_27f
        atol_27_fp7_f atol_30f atol_35f atol_42fa atol_42fs atol_47fa atol_50f atol_52f atol_55f
        atol_55v2f atol_60f atol_77f atol_90f atol_91f atol_92f atol_pt_5f atol_sigma_10
        atol_sigma_7f atol_sigma_8f atol_stb_6f kaznachey_fa :
      Model

-- `FfdVersion`.
pub data FfdNumber : Type 0 where
  unknown v_1_0_5 v_1_1 v_1_2 : FfdNumber

-- `ShiftState`.
pub data ShiftPhase : Type 0 where
  shift_closed shift_opened shift_expired : ShiftPhase

pub data DocumentType : Type 0 where
  document_closed document_receipt_sell document_receipt_sell_return
        document_receipt_sell_correction document_receipt_sell_return_correction
        document_receipt_buy document_receipt_buy_return document_receipt_buy_correction
        document_receipt_buy_return_correction document_open_shift document_close_shift
        document_registration document_close_archive document_ofd_exchange_status document_service
        document_copy :
      DocumentType

-- `safeGet`.
unfoldable pub safe_get : List (ℕ × Bytes) → ℕ → Bytes
safe_get [] key = []
safe_get ((k, label) ∷ rest) key =
    let other = safe_get rest key in if k == key then label else other

unfoldable pub models : (Model → ℕ) → List (ℕ × Bytes)
models value =
    (value alliance_20f, utf8 "АЛЬЯНС 20Ф")
    ∷ (value atol_1f, utf8 "АТОЛ 1Ф")
    ∷ (value atol_2f, utf8 "АТОЛ 2Ф")
    ∷ (value atol_11f, utf8 "АТОЛ 11Ф")
    ∷ (value atol_15f, utf8 "АТОЛ 15Ф")
    ∷ (value atol_20f, utf8 "АТОЛ 20Ф")
    ∷ (value atol_22f, utf8 "АТОЛ 22Ф (АТОЛ FPrint-22ПТК)")
    ∷ (value atol_22v2f, utf8 "АТОЛ 22 v2 Ф")
    ∷ (value atol_25f, utf8 "АТОЛ 25Ф")
    ∷ (value atol_27f, utf8 "АТОЛ 27Ф")
    ∷ (value atol_27_fp7_f, utf8 "АТОЛ 27 FP7 Ф")
    ∷ (value atol_30f, utf8 "АТОЛ 30Ф")
    ∷ (value atol_35f, utf8 "АТОЛ 35Ф")
    ∷ (value atol_42fa, utf8 "АТОЛ 42ФА")
    ∷ (value atol_42fs, utf8 "АТОЛ 42ФС")
    ∷ (value atol_47fa, utf8 "АТОЛ 47ФА")
    ∷ (value atol_50f, utf8 "АТОЛ 50Ф")
    ∷ (value atol_52f, utf8 "АТОЛ 52Ф")
    ∷ (value atol_55f, utf8 "АТОЛ 55Ф")
    ∷ (value atol_55v2f, utf8 "АТОЛ 55 v2 Ф")
    ∷ (value atol_60f, utf8 "АТОЛ 60Ф")
    ∷ (value atol_77f, utf8 "АТОЛ 77Ф")
    ∷ (value atol_90f, utf8 "АТОЛ 90Ф")
    ∷ (value atol_91f, utf8 "АТОЛ 91Ф")
    ∷ (value atol_92f, utf8 "АТОЛ 92Ф")
    ∷ (value atol_pt_5f, utf8 "АТОЛ PT-5Ф")
    ∷ (value atol_sigma_10, utf8 "АТОЛ Sigma 10")
    ∷ (value atol_sigma_7f, utf8 "АТОЛ Sigma 7Ф")
    ∷ (value atol_sigma_8f, utf8 "АТОЛ Sigma 8Ф")
    ∷ (value atol_stb_6f, utf8 "АТОЛ СТБ 6Ф")
    ∷ (value kaznachey_fa, utf8 "Казначей ФА")
    ∷ []

unfoldable pub ffd_versions : (FfdNumber → ℕ) → List (ℕ × Bytes)
ffd_versions value =
    (value unknown, utf8 "[неизвестная версия]")
    ∷ (value v_1_0_5, utf8 "1.0.5")
    ∷ (value v_1_1, utf8 "1.1")
    ∷ (value v_1_2, utf8 "1.2")
    ∷ []

unfoldable pub shift_state_labels : (ShiftPhase → ℕ) → List (ℕ × Bytes)
shift_state_labels value =
    (value shift_closed, utf8 "Сессия закрыта")
    ∷ (value shift_opened, utf8 "Сессия открыта")
    ∷ (value shift_expired, utf8 "Сессия истекла")
    ∷ []

unfoldable pub receipt_type_labels : (ReceiptType → ℕ) → List (ℕ × Bytes)
receipt_type_labels value =
    (value closed, utf8 "Чек закрыт")
    ∷ (value sell, utf8 "Чек прихода")
    ∷ (value sell_return, utf8 "Чек возврата прихода")
    ∷ (value sell_correction, utf8 "Чек коррекции прихода")
    ∷ (value sell_return_correction, utf8 "Чек коррекции возврата прихода")
    ∷ (value buy, utf8 "Чек расхода")
    ∷ (value buy_return, utf8 "Чек возврата расхода")
    ∷ (value buy_correction, utf8 "Чек коррекции расхода")
    ∷ (value buy_return_correction, utf8 "Чек коррекции возврата расхода")
    ∷ []

unfoldable pub document_type_labels : (DocumentType → ℕ) → List (ℕ × Bytes)
document_type_labels value =
    (value document_closed, utf8 "Документ закрыт")
    ∷ (value document_receipt_sell, utf8 "Чек прихода")
    ∷ (value document_receipt_sell_return, utf8 "Чек возврата прихода")
    ∷ (value document_receipt_sell_correction, utf8 "Чек коррекции прихода")
    ∷ (value document_receipt_sell_return_correction, utf8 "Чек коррекции возврата прихода")
    ∷ (value document_receipt_buy, utf8 "Чек расхода")
    ∷ (value document_receipt_buy_return, utf8 "Чек возврата расхода")
    ∷ (value document_receipt_buy_correction, utf8 "Чек коррекции расхода")
    ∷ (value document_receipt_buy_return_correction, utf8 "Чек коррекции возврата расхода")
    ∷ (value document_open_shift, utf8 "Документ открытия смены")
    ∷ (value document_close_shift, utf8 "Документ закрытия смены")
    ∷ (value document_registration, utf8 "Документ пере/регистрации")
    ∷ (value document_close_archive, utf8 "Документ закрытия архива ФН")
    ∷ (value document_ofd_exchange_status, utf8 "Отчёт о состоянии расчётов")
    ∷ (value document_service, utf8 "Сервисный документ")
    ∷ (value document_copy, utf8 "Копия документа")
    ∷ []
