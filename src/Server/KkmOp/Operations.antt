-- ===== src/Server/KkmOp/Operations.antt =====
-- The operations of src/kkmha/server_kkmop_handler.cpp, each over its payload and the world.
use kkm_https_adapter.Base.{List, [], is_nil, if◌then◌else◌, ok, err}
use kkm_https_adapter.Http.{bad_request}
use kkm_https_adapter.Http.JsonValue.{Json}
use kkm_https_adapter.Json.{Read, what}
use kkm_https_adapter.Kkm.Driver.{Driver}
use kkm_https_adapter.Kkm.Method.{Method, threw}
use kkm_https_adapter.Kkm.Reports
use kkm_https_adapter.Kkm.Printing
use kkm_https_adapter.Kkm.Receipt
use kkm_https_adapter.Kkm.Shift
use kkm_https_adapter.Kkm.Import.{assign_cash, assign_close}
use kkm_https_adapter.Kkm.Import.Document.{assign_print}
use kkm_https_adapter.Kkm.Import.Receipt.{assign_receipt}
use kkm_https_adapter.Kkm.Queries.{
  status_query, cash_stat_query, status_queries, full_status_queries,
}
use kkm_https_adapter.Kkm.Export.{Exporter}
use kkm_https_adapter.Kkm.Export.Collecting.{
  Query, Call, Called, called, thrown, call_method, call_plain, collect_data,
}
use kkm_https_adapter.Server.Settings.{bad_request_text}
use kkm_https_adapter.Server.KkmOp.{Payload, Ended, report_cache_life_time}
use kkm_https_adapter.Server.KkmOp.World.{
  World, Outside, Resolved, resolved, refused, broken, resolve_conn_params, session, passed,
  fail_payload, as_fields, as_json,
}

-- `m_expiresAfter = c_reportCacheLifeTime` behind a call that returns.
abbrev pub expiring : {W : Type 0} → Ended Payload W → Ended Payload W
expiring (Ended.returned p w) =
    Ended.returned (record p { expires_after = report_cache_life_time }) w
expiring (Ended.thrown m w) = Ended.thrown m w

-- The arguments of a method are read from JSON before it is called, with the device already there.
abbrev pub given : {A B : Type 0} → Read A → (A → Method B) → Method B
given (err e) method r d = threw (what e) d
given (ok details) method r d = method details r d

module _ {D : Type 0} (o : Outside D) where
  abbrev x : Exporter
  x = o.exporter

  abbrev Operation : Type 0
  Operation = Payload → World D → Ended Payload (World D)

  abbrev pub ended : Payload → World D → Called → Ended Payload (World D)
  ended p w (called json d) = Ended.returned (record p { result = as_json json }) (passed o d w)
  ended p w (thrown m d) = Ended.thrown (x.narrow m) (passed o d w)

  abbrev pub on_resolved :
      (Driver → Call) → Payload → World D → Resolved D → Ended Payload (World D)
  on_resolved call p w (resolved params v) =
      ended p v (session o params call (as_fields p.result) v)
  on_resolved call p w (refused q) = Ended.returned q w
  on_resolved call p w (broken m) = Ended.thrown (x.narrow m) w

  -- `callMethod`, over what it does with the device.
  unfoldable pub with_device : (Driver → Call) → Operation
  unfolding resolve_conn_params session
  with_device call p w = on_resolved call p w (resolve_conn_params o p w)

  abbrev pub plain : (Driver → Method Unit) → Operation
  plain method = with_device (λ k. call_plain x (method k))

  abbrev pub detailed : {A : Type 0} → (Json → Read A) → (Driver → A → Method Unit) → Operation
  detailed assign method p = with_device (λ k. call_plain x (given (assign p.details) (method k))) p

  -- An operation that is not there without a serial number, which looks at it first.
  abbrev pub collecting : (Driver → List Query) → Operation
  collecting queries p w =
      if is_nil p.serial_number
      then Ended.returned (fail_payload bad_request bad_request_text p) w
      else expiring (with_device (λ k. collect_data x (queries k)) p w)

  unfoldable pub base_status : Operation
  unfolding with_device call_method status_query
  base_status p w = expiring (with_device (λ k. call_method x (status_query x k)) p w)

  unfoldable pub status : Operation
  unfolding with_device collect_data status_queries fail_payload bad_request_text
  status = collecting (status_queries x)

  unfoldable pub full_status : Operation
  unfolding with_device collect_data full_status_queries fail_payload bad_request_text
  full_status = collecting (full_status_queries x)

  unfoldable pub print_demo : Operation
  unfolding with_device call_plain Reports.print_demo
  print_demo p w = expiring (plain (λ k. Reports.print_demo k o.device_settings) p w)

  unfoldable pub print_info : Operation
  unfolding with_device call_plain Reports.print_info
  print_info p w = expiring (plain (λ k. Reports.print_info k o.device_settings) p w)

  unfoldable pub print_fn_registrations : Operation
  unfolding with_device call_plain Reports.print_fn_registrations
  print_fn_registrations p w =
      expiring (plain (λ k. Reports.print_fn_registrations k o.device_settings) p w)

  unfoldable pub print_ofd_exchange_status : Operation
  unfolding with_device call_plain Reports.print_ofd_exchange_status
  print_ofd_exchange_status p w =
      expiring (plain (λ k. Reports.print_ofd_exchange_status k o.device_settings) p w)

  unfoldable pub print_ofd_test : Operation
  unfolding with_device call_plain Reports.print_ofd_test
  print_ofd_test p w = expiring (plain (λ k. Reports.print_ofd_test k o.device_settings) p w)

  unfoldable pub print_close_shift_reports : Operation
  unfolding with_device call_plain Reports.print_close_shift_reports
  print_close_shift_reports p w =
      expiring (plain (λ k. Reports.print_close_shift_reports k o.device_settings) p w)

  unfoldable pub print_last_document : Operation
  unfolding with_device call_plain Reports.print_last_document
  print_last_document p w =
      expiring (plain (λ k. Reports.print_last_document k o.device_settings) p w)

  unfoldable pub print_non_fiscal_document : Operation
  unfolding with_device call_plain assign_print Printing.print_non_fiscal_document
  print_non_fiscal_document p w =
      expiring (detailed (assign_print o.setup) Printing.print_non_fiscal_document p w)

  unfoldable pub cash_stat : Operation
  unfolding with_device call_method cash_stat_query
  cash_stat p w = expiring (with_device (λ k. call_method x (cash_stat_query x k)) p w)

  unfoldable pub cash_in : Operation
  unfolding with_device call_plain assign_cash Shift.register_cash_in
  cash_in p w = detailed (assign_cash o.setup) (λ k. Shift.register_cash_in k o.device_settings) p w

  unfoldable pub cash_out : Operation
  unfolding with_device call_plain assign_cash Shift.register_cash_out
  cash_out p w =
      detailed (assign_cash o.setup) (λ k. Shift.register_cash_out k o.device_settings) p w

  unfoldable pub sell : Operation
  unfolding with_device call_plain assign_receipt Receipt.register_sell
  sell p w = detailed (assign_receipt o.setup) (λ k. Receipt.register_sell k o.device_settings) p w

  unfoldable pub sell_return : Operation
  unfolding with_device call_plain assign_receipt Receipt.register_sell_return
  sell_return p w =
      detailed (assign_receipt o.setup) (λ k. Receipt.register_sell_return k o.device_settings) p w

  unfoldable pub close_shift : Operation
  unfolding with_device call_plain assign_close Shift.close_shift
  close_shift p w =
      expiring (detailed (assign_close o.setup) (λ k. Shift.close_shift k o.device_settings) p w)

  unfoldable pub report_x : Operation
  unfolding with_device call_plain assign_close Shift.report_x
  report_x p w =
      expiring (detailed (assign_close o.setup) (λ k. Shift.report_x k o.device_settings) p w)

  unfoldable pub reset_state : Operation
  unfolding with_device call_plain assign_close Shift.reset_state
  reset_state p w =
      expiring (detailed (assign_close o.setup) (λ k. Shift.reset_state k o.device_settings) p w)

  unfoldable pub reset_registry : Operation
  reset_registry p w =
      Ended.returned (record p { expires_after = report_cache_life_time })
        (record w { registry = [] })
