-- ===== src/Server/KkmOp/Table.antt =====
-- `s_handlers` of src/kkmha/server_kkmop_handler.cpp.
use kkm_https_adapter.Base.{utf8, [], ◌∷◌}
use kkm_https_adapter.Http.Maps.{Map}

-- The functions that the table names.
pub data Operation : Type 0 where
  base_status status full_status learn reset_registry print_demo print_non_fiscal_document
        print_info print_fn_registrations print_ofd_exchange_status print_ofd_test
        print_close_shift_reports print_last_document cash_stat cash_in cash_out sell sell_return
        report_x close_shift reset_state :
      Operation

unfoldable pub handlers : Map Operation
handlers =
    (utf8 "get/kkm/base-status", base_status)
    ∷ (utf8 "get/kkm/status", status)
    ∷ (utf8 "get/kkm/full-status", full_status)
    ∷ (utf8 "post/kkm/learn", learn)
    ∷ (utf8 "post/kkm/reset-registry", reset_registry)
    ∷ (utf8 "post/kkm/print-demo", print_demo)
    ∷ (utf8 "post/kkm/print-non-fiscal-doc", print_non_fiscal_document)
    ∷ (utf8 "post/kkm/print-info", print_info)
    ∷ (utf8 "post/kkm/print-fn-registrations", print_fn_registrations)
    ∷ (utf8 "post/kkm/print-ofd-exchange-status", print_ofd_exchange_status)
    ∷ (utf8 "post/kkm/print-ofd-test", print_ofd_test)
    ∷ (utf8 "post/kkm/print-close-shift-reports", print_close_shift_reports)
    ∷ (utf8 "post/kkm/print-last-document", print_last_document)
    ∷ (utf8 "get/kkm/cash-stat", cash_stat)
    ∷ (utf8 "post/kkm/cash-in", cash_in)
    ∷ (utf8 "post/kkm/cash-out", cash_out)
    ∷ (utf8 "post/kkm/sell", sell)
    ∷ (utf8 "post/kkm/sell-return", sell_return)
    ∷ (utf8 "post/kkm/report-x", report_x)
    ∷ (utf8 "post/kkm/report-z", close_shift)
    ∷ (utf8 "post/kkm/close-shift", close_shift)
    ∷ (utf8 "post/kkm/reset-state", reset_state)
    ∷ []
