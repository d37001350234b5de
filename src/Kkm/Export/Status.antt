-- ===== src/Kkm/Export/Status.antt =====
-- The export of the cash register's state: the overloads of `assign` in src/library/kkm/impex.cpp.
use kkm_https_adapter.Base.{Bool, Bytes, utf8}
use kkm_https_adapter.Http.JsonValue.{Json, boolean, number, string, object, Fields, end, field}
use kkm_https_adapter.Kkm.Labels.{
  safe_get, models, shift_state_labels, receipt_type_labels, document_type_labels,
}
use kkm_https_adapter.Kkm.Export.{Exporter, assign_with}
use kkm_https_adapter.Kkm.Results.{Result, Status, ShiftState, ReceiptState, CashStat}

abbrev pub status_key : Bytes
status_key = utf8 "status"

abbrev pub shift_state_key : Bytes
shift_state_key = utf8 "shiftState"

abbrev pub receipt_state_key : Bytes
receipt_state_key = utf8 "receiptState"

abbrev pub cash_stat_key : Bytes
cash_stat_key = utf8 "cashStat"

module _ (x : Exporter) where
  unfoldable pub status_fields : Status → Json
  unfolding safe_get models shift_state_labels receipt_type_labels document_type_labels
  status_fields a = object (
      field (utf8 "blocked") (boolean a.blocked) (
        field (utf8 "cashDrawerOpened") (boolean a.cash_drawer_opened) (
          field (utf8 "coverOpened") (boolean a.cover_opened) (
            field (utf8 "cutError") (boolean a.cut_error) (
              field (utf8 "dateTime") (string (x.date_text a.date_time)) (
                field (utf8 "documentNumber") (number (x.of_unsigned a.document_number)) (
                  field (utf8 "documentType") (number (x.of_unsigned a.document_type)) (
                    field (utf8 "documentTypeText")
                      (string (safe_get (document_type_labels x.numbers.document) a.document_type))
                      (field (utf8 "fiscal") (boolean a.fiscal) (
                        field (utf8 "fnFiscal") (boolean a.fn_fiscal) (
                          field (utf8 "fnPresent") (boolean a.fn_present) (
                            field (utf8 "invalidFn") (boolean a.invalid_fn) (
                              field (utf8 "logicalNumber") (number (x.of_unsigned a.logical_number))
                                (field (utf8 "mode") (number (x.of_unsigned a.mode)) (
                                  field (utf8 "model") (number (x.of_unsigned a.model)) (
                                    field (utf8 "modelName") (string (x.narrow a.model_name)) (
                                      field (utf8 "modelText")
                                        (string (safe_get (models x.numbers.model) a.model))
                                        (field (utf8 "operatorId")
                                          (number (x.of_unsigned a.operator_id))
                                          (field (utf8 "operatorRegistered")
                                            (boolean a.operator_registered)
                                            (field (utf8 "paperNearEnd") (boolean a.paper_near_end)
                                              (field (utf8 "printerConnectionLost")
                                                (boolean a.printer_connection_lost)
                                                (field (utf8 "printerError")
                                                  (boolean a.printer_error)
                                                  (field (utf8 "printerOverheat")
                                                    (boolean a.printer_overheat)
                                                    (field (utf8 "receiptLineLength")
                                                      (number (x.of_unsigned a.receipt_line_length))
                                                      (field (utf8 "receiptLineLengthPix")
                                                        (number
                                                          (x.of_unsigned a.receipt_line_length_pix))
                                                        (field (utf8 "receiptNumber")
                                                          (number (x.of_unsigned a.receipt_number))
                                                          (field (utf8 "receiptPaperPresent")
                                                            (boolean a.receipt_paper_present)
                                                            (field (utf8 "receiptSum")
                                                            (number (x.of_double a.receipt_sum))
                                                            (field (utf8 "receiptType")
                                                            (number (x.of_unsigned a.receipt_type))
                                                            (field (utf8 "receiptTypeText")
                                                            (string (
                                                            safe_get
                                                            (receipt_type_labels x.numbers.receipt)
                                                            a.receipt_type))
                                                            (field (utf8 "serialNumber")
                                                            (string (x.narrow a.serial_number))
                                                            (field (utf8 "shiftNumber")
                                                            (number (x.of_unsigned a.shift_number))
                                                            (field (utf8 "shiftState")
                                                            (number (x.of_unsigned a.shift_state))
                                                            (field (utf8 "shiftStateText")
                                                            (string (
                                                            safe_get
                                                            (shift_state_labels x.numbers.shift)
                                                            a.shift_state))
                                                            (field (utf8 "subMode")
                                                            (number (x.of_unsigned a.sub_mode))
                                                            end)))))))))))))))))))))))))))))))))))

  unfoldable pub assign_status : Fields → Result Status → Bool × Fields
  unfolding assign_with status_fields
  assign_status = assign_with x status_key status_fields

  unfoldable pub shift_state_fields : ShiftState → Json
  unfolding safe_get shift_state_labels
  shift_state_fields a = object (
      field (utf8 "documentsCount") (number (x.of_unsigned a.documents_count)) (
        field (utf8 "receiptNumber") (number (x.of_unsigned a.receipt_number)) (
          field (utf8 "expiredAt") (string (x.date_text a.expiration_date_time)) (
            field (utf8 "shiftNumber") (number (x.of_unsigned a.shift_number)) (
              field (utf8 "shiftState") (number (x.of_unsigned a.shift_state)) (
                field (utf8 "shiftStateText")
                  (string (safe_get (shift_state_labels x.numbers.shift) a.shift_state)) end))))))

  unfoldable pub assign_shift_state : Fields → Result ShiftState → Bool × Fields
  unfolding assign_with shift_state_fields
  assign_shift_state = assign_with x shift_state_key shift_state_fields

  unfoldable pub receipt_state_fields : ReceiptState → Json
  unfolding safe_get receipt_type_labels
  receipt_state_fields a = object (
      field (utf8 "receiptType") (number (x.of_unsigned a.receipt_type)) (
        field (utf8 "receiptTypeText")
          (string (safe_get (receipt_type_labels x.numbers.receipt) a.receipt_type))
          (field (utf8 "receiptNumber") (number (x.of_unsigned a.receipt_number)) (
            field (utf8 "documentNumber") (number (x.of_unsigned a.document_number)) (
              field (utf8 "sum") (number (x.of_double a.sum)) (
                field (utf8 "remainder") (number (x.of_double a.remainder))
                  (field (utf8 "change") (number (x.of_double a.change)) end)))))))

  unfoldable pub assign_receipt_state : Fields → Result ReceiptState → Bool × Fields
  unfolding assign_with receipt_state_fields
  assign_receipt_state = assign_with x receipt_state_key receipt_state_fields

  unfoldable pub cash_stat_fields : CashStat → Json
  cash_stat_fields a = object (
      field (utf8 "sellCashSum") (number (x.of_double a.sell_cash_sum)) (
        field (utf8 "sellReturnCashSum") (number (x.of_double a.sell_return_cash_sum)) (
          field (utf8 "cashSum") (number (x.of_double a.cash_sum)) (
            field (utf8 "cashInSum") (number (x.of_double a.cash_in_sum)) (
              field (utf8 "cashOutSum") (number (x.of_double a.cash_out_sum)) (
                field (utf8 "cashInCount") (number (x.of_unsigned a.cash_in_count))
                  (field (utf8 "cashOutCount") (number (x.of_unsigned a.cash_out_count)) end)))))))

  unfoldable pub assign_cash_stat : Fields → Result CashStat → Bool × Fields
  unfolding assign_with cash_stat_fields
  assign_cash_stat = assign_with x cash_stat_key cash_stat_fields
