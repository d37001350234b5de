-- ===== src/Server/KkmOp/Performing/Follows.antt =====
-- What any operation does to the world.
use kkm_https_adapter.Base.{
  Bool, true, false, List, is_nil, Result, ok, err, Bool-cases, inl, inr, refl, utf8, [],
}
use kkm_https_adapter.Kkm.Driver.{WideText, Driver}
use kkm_https_adapter.Json.{Read, to_wide_text, key_value}
use kkm_https_adapter.Kkm.Results as KkmResults
use kkm_https_adapter.Kkm.Method.{Device, Method, Flow, going, left, threw}
use kkm_https_adapter.Kkm.ConnParams.{KnownConnParams}
use kkm_https_adapter.Kkm.Export.Collecting.{Call, Query, call_method, call_plain}
use kkm_https_adapter.Kkm.Queries.{
  status_query, cash_stat_query, status_queries, full_status_queries,
}
use kkm_https_adapter.Kkm.Reports
use kkm_https_adapter.Kkm.Printing
use kkm_https_adapter.Kkm.Receipt
use kkm_https_adapter.Kkm.Shift
use kkm_https_adapter.Kkm.Import.{assign_cash, assign_close}
use kkm_https_adapter.Kkm.Import.Document.{assign_print}
use kkm_https_adapter.Kkm.Import.Receipt.{assign_receipt}
use kkm_https_adapter.Http.JsonValue.{Json}
use kkm_https_adapter.Server.KkmOp.{Payload, Ended}
use kkm_https_adapter.Server.KkmOp.World.{World, Outside, register}
use kkm_https_adapter.Server.KkmOp.Registry.{register-IsFiled}
use kkm_https_adapter.Server.KkmOp.Learn.{
  greeted, asked, saved, connected_to, with_params, with_string, learn,
}
use kkm_https_adapter.Server.KkmOp.Sessions.{
  world_of, Follows, Leads, Follows-refl, passed-Follows, with_device-Follows,
}
use kkm_https_adapter.Server.KkmOp.Operations
use kkm_https_adapter.Server.KkmOp.Operations.{
  expiring, given, with_device, plain, detailed, collecting,
}
use kkm_https_adapter.Server.KkmOp.Table as Table
use kkm_https_adapter.Server.KkmOp.Performing.{perform}

module _ {D : Type 0} (o : Outside D) where
  greeted-Follows :
      (p : Payload) (w v : World D) (r : KkmResults.Result KkmResults.Status) (f : Flow Unit)
      → Leads w v
      → Follows w (world_of (greeted o p v r f))
  greeted-Follows p w v r (going s d) l = passed-Follows o w v d l
  greeted-Follows p w v r (left s d) l = passed-Follows o w v d l
  greeted-Follows p w v r (threw m d) l = passed-Follows o w v d l

  asked-Follows :
      (k : Driver) (p : Payload) (w v : World D) (f : Flow KkmResults.Status)
      → Leads w v
      → Follows w (world_of (asked o k p v f))
  asked-Follows k p w v (going s d) l = greeted-Follows p w v s _ l
  asked-Follows k p w v (left s d) l = greeted-Follows p w v s _ l
  asked-Follows k p w v (threw m d) l = passed-Follows o w v d l

  abbrev same : (w : World D) → Leads w w
  same w = record { past = refl; files = λ f. f }

  saved-Follows :
      (k : Driver) (l : List WideText) (p : Payload) (w : World D) (d : Device)
      (r : Result WideText D)
      → Follows w (world_of (saved o k l p w d r))
  saved-Follows k l p w d (err m) = passed-Follows o w w d (same w)
  saved-Follows k l p w d (ok files) =
      let known : KnownConnParams = record { params = l; serial_number = d.serial_number } in
      let v : World D = record w {
        files = files;
        registry = register d.serial_number known w.registry;
      } in
      asked-Follows k p w v _
        (record { past = refl; files = register-IsFiled d.serial_number known w.registry refl })

  connected_to-Follows :
      (k : Driver) (l : List WideText) (p : Payload) (w : World D) (f : Flow Unit)
      → Follows w (world_of (connected_to o k l p w f))
  connected_to-Follows k l p w (going r d) = saved-Follows k l p w d _
  connected_to-Follows k l p w (left r d) = saved-Follows k l p w d _
  connected_to-Follows k l p w (threw m d) = passed-Follows o w w d (same w)

  with_params-Follows :
      (p : Payload) (w : World D) (r : Result WideText (List WideText))
      → Follows w (world_of (with_params o p w r))
  with_params-Follows p w (err m) = Follows-refl w
  with_params-Follows p w (ok l) = connected_to-Follows (o.driver w.past) l p w _

  with_string-Follows :
      (p : Payload) (w : World D) (r : Read (Bool × WideText))
      → Follows w (world_of (with_string o p w r))
  with_string-Follows p w (err e) = Follows-refl w
  with_string-Follows p w (ok (false, s)) = Follows-refl w
  with_string-Follows p w (ok (true, s)) = with_params-Follows p w _

  learn-Follows : (p : Payload) (w : World D) → Follows w (world_of (learn o p w))
  unfolding learn
  learn-Follows p w = elim (Bool-cases (is_nil p.serial_number)) [
    | inl e ↦ rw e (
        with_string-Follows p w (
          key_value o.setup.conversions (to_wide_text o.setup.conversions) (utf8 "connParams") []
            p.details []))
    | inr e ↦ rw e (Follows-refl w)
  ]

  expiring-Follows :
      (w : World D) (e : Ended Payload (World D))
      → Follows w (world_of e)
      → Follows w (world_of (expiring e))
  expiring-Follows w (Ended.returned p v) f = f
  expiring-Follows w (Ended.thrown m v) f = f

  device-Follows :
      (a : Driver → Call) (p : Payload) (w : World D)
      → Follows w (world_of (expiring (with_device o a p w)))
  device-Follows a p w = expiring-Follows w (with_device o a p w) (with_device-Follows o a p w)

  plain-Follows :
      (method : Driver → Method Unit) (p : Payload) (w : World D)
      → Follows w (world_of (expiring (plain o method p w)))
  plain-Follows method p w = device-Follows (λ k. call_plain o.exporter (method k)) p w

  module _ {A : Type 0} (assign : Json → Read A) (method : Driver → A → Method Unit) where
    abbrev on_details : Payload → Driver → Call
    on_details p k = call_plain o.exporter (given (assign p.details) (method k))

    given-Follows :
        (p : Payload) (w : World D) → Follows w (world_of (detailed o assign method p w))
    given-Follows p w = with_device-Follows o (on_details p) p w

    detailed-Follows :
        (p : Payload) (w : World D) → Follows w (world_of (expiring (detailed o assign method p w)))
    detailed-Follows p w = device-Follows (on_details p) p w

  collecting-Follows :
      (queries : Driver → List Query) (p : Payload) (w : World D)
      → Follows w (world_of (collecting o queries p w))
  collecting-Follows queries p w = elim (Bool-cases (is_nil p.serial_number)) [
    | inl e ↦ rw e (Follows-refl w)
    | inr e ↦ rw e (device-Follows _ p w)
  ]

  -- Whatever operation is performed, and however it ends: no connection to a cash register is made, or
  -- one, which is closed in the end; and parameters stay under the serial number that they hold.
  pub perform-Follows :
      (operation : Table.Operation) (p : Payload) (w : World D)
      → Follows w (world_of (perform o operation p w))
  unfolding perform Operations.base_status Operations.status Operations.full_status
      Operations.reset_registry Operations.cash_in Operations.cash_out Operations.sell
      Operations.sell_return Operations.print_demo Operations.print_non_fiscal_document
      Operations.print_info Operations.print_fn_registrations Operations.print_ofd_exchange_status
      Operations.print_ofd_test Operations.print_close_shift_reports Operations.print_last_document
      Operations.cash_stat Operations.report_x Operations.close_shift Operations.reset_state
  perform-Follows Table.learn p w = learn-Follows p w
  perform-Follows Table.base_status p w =
      device-Follows (λ k. call_method o.exporter (status_query o.exporter k)) p w
  perform-Follows Table.print_demo p w =
      plain-Follows (λ k. Reports.print_demo k o.device_settings) p w
  perform-Follows Table.print_non_fiscal_document p w =
      detailed-Follows (assign_print o.setup) Printing.print_non_fiscal_document p w
  perform-Follows Table.print_info p w =
      plain-Follows (λ k. Reports.print_info k o.device_settings) p w
  perform-Follows Table.print_fn_registrations p w =
      plain-Follows (λ k. Reports.print_fn_registrations k o.device_settings) p w
  perform-Follows Table.print_ofd_exchange_status p w =
      plain-Follows (λ k. Reports.print_ofd_exchange_status k o.device_settings) p w
  perform-Follows Table.print_ofd_test p w =
      plain-Follows (λ k. Reports.print_ofd_test k o.device_settings) p w
  perform-Follows Table.print_close_shift_reports p w =
      plain-Follows (λ k. Reports.print_close_shift_reports k o.device_settings) p w
  perform-Follows Table.print_last_document p w =
      plain-Follows (λ k. Reports.print_last_document k o.device_settings) p w
  perform-Follows Table.cash_stat p w =
      device-Follows (λ k. call_method o.exporter (cash_stat_query o.exporter k)) p w
  perform-Follows Table.report_x p w =
      detailed-Follows (assign_close o.setup) (λ k. Shift.report_x k o.device_settings) p w
  perform-Follows Table.close_shift p w =
      detailed-Follows (assign_close o.setup) (λ k. Shift.close_shift k o.device_settings) p w
  perform-Follows Table.reset_state p w =
      detailed-Follows (assign_close o.setup) (λ k. Shift.reset_state k o.device_settings) p w
  perform-Follows Table.cash_in p w =
      given-Follows (assign_cash o.setup) (λ k. Shift.register_cash_in k o.device_settings) p w
  perform-Follows Table.cash_out p w =
      given-Follows (assign_cash o.setup) (λ k. Shift.register_cash_out k o.device_settings) p w
  perform-Follows Table.sell p w =
      given-Follows (assign_receipt o.setup) (λ k. Receipt.register_sell k o.device_settings) p w
  perform-Follows Table.sell_return p w =
      given-Follows (assign_receipt o.setup) (λ k. Receipt.register_sell_return k o.device_settings)
        p w
  perform-Follows Table.status p w = collecting-Follows (status_queries o.exporter) p w
  perform-Follows Table.full_status p w = collecting-Follows (full_status_queries o.exporter) p w
  perform-Follows Table.reset_registry p w = record { closes = inl refl; files = λ f. tt }
