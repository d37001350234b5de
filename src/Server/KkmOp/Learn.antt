-- ===== src/Server/KkmOp/Learn.antt =====
-- `learn` of src/kkmha/server_kkmop_handler.cpp: a cash register gets known, by the parameters of a
-- connection to it.
pub mod Learned
use kkm_https_adapter.Base.{
  Bool, true, false, not, List, [], utf8, is_nil, if◌then◌else◌, Result, ok, err, wide,
}
use kkm_https_adapter.Http.{bad_request}
use kkm_https_adapter.Json.{Read, what, to_wide_text, key_value}
use kkm_https_adapter.Kkm.Driver.{WideText, Driver}
use kkm_https_adapter.Kkm.Results as KkmResults
use kkm_https_adapter.Kkm.Method.{Device, Flow, going, left, threw}
use kkm_https_adapter.Kkm.Connection.{connect, destroy, new_device}
use kkm_https_adapter.Kkm.ConnParams.{KnownConnParams, new_conn_params, known_of_new, apply, save}
use kkm_https_adapter.Kkm.Initial.{new_result, new_status}
use kkm_https_adapter.Kkm.Import.{requires_property}
use kkm_https_adapter.Kkm.Printing.{print_hello}
use kkm_https_adapter.Kkm.Status.{get_status}
use kkm_https_adapter.Kkm.Export.{Exporter, write}
use kkm_https_adapter.Kkm.Export.Status.{assign_status}
use kkm_https_adapter.Server.Settings.{bad_request_text}
use kkm_https_adapter.Server.KkmOp.{Payload, Ended}
use kkm_https_adapter.Server.KkmOp.World.{
  World, Outside, register, fail_payload, passed, as_fields, as_json,
}

module _ {D : Type 0} (o : Outside D) where
  abbrev x : Exporter
  x = o.exporter

  -- The end of the device's life, in a world that has changed besides.
  abbrev threw_with : WideText → Device → World D → Ended Payload (World D)
  threw_with m d w = Ended.thrown (x.narrow m) (passed o (destroy d) w)

  -- `kkm.printHello(); payload.m_result << result;`.
  abbrev pub greeted :
      Payload → World D → KkmResults.Result KkmResults.Status → Flow Unit → Ended Payload (World D)
  greeted p w r (threw m d) = threw_with m d w
  greeted p w r (going s d) =
      Ended.returned
        (record p { result = as_json (write (assign_status x) (as_fields p.result) r) })
        (passed o (destroy d) w)
  greeted p w r (left s d) =
      Ended.returned
        (record p { result = as_json (write (assign_status x) (as_fields p.result) r) })
        (passed o (destroy d) w)

  -- `kkm.getStatus(result)`.
  abbrev pub asked : Driver → Payload → World D → Flow KkmResults.Status → Ended Payload (World D)
  asked k p w (threw m d) = threw_with m d w
  asked k p w (going r d) = greeted p w r (print_hello k (new_result tt) d)
  asked k p w (left r d) = greeted p w r (print_hello k (new_result tt) d)

  abbrev pub saved :
      Driver
      → List WideText
      → Payload
      → World D
      → Device
      → Result WideText D
      → Ended Payload (World D)
  saved k params p w d (err m) = threw_with m d w
  saved k params p w d (ok files) =
      let known : KnownConnParams = known_of_new params d.serial_number in
      let v : World D = record w {
        files = files;
        registry = register d.serial_number known w.registry;
      } in
      asked k p v (get_status k (new_result (new_status x.numbers)) d)

  abbrev pub connected_to :
      Driver → List WideText → Payload → World D → Flow Unit → Ended Payload (World D)
  connected_to k params p w (threw m d) = threw_with m d w
  connected_to k params p w (going r d) =
      saved k params p w d (save o.disk o.setup.conversions d.serial_number params w.files)
  connected_to k params p w (left r d) =
      saved k params p w d (save o.disk o.setup.conversions d.serial_number params w.files)

  abbrev pub with_params :
      Payload → World D → Result WideText (List WideText) → Ended Payload (World D)
  with_params p w (err m) = Ended.thrown (x.narrow m) w
  with_params p w (ok params) =
      let k = o.driver w.past in
      connected_to k params p w
        (connect k o.device_settings (apply k o.conn_settings params) (new_result tt) new_device)

  abbrev pub with_string : Payload → World D → Read (Bool × WideText) → Ended Payload (World D)
  with_string p w (err e) = Ended.thrown (x.narrow (what e)) w
  with_string p w (ok (false, s)) =
      Ended.returned
        (fail_payload bad_request (x.narrow (what (requires_property (wide "connParams")))) p) w
  with_string p w (ok (true, s)) =
      with_params p w (new_conn_params o.setup.conversions.to_lower_wide s)

  unfoldable pub learn : Payload → World D → Ended Payload (World D)
  unfolding fail_payload bad_request_text key_value to_wide_text what requires_property
      new_conn_params connect apply save register get_status print_hello write assign_status destroy
  learn p w =
      if not (is_nil p.serial_number)
      then Ended.returned (fail_payload bad_request bad_request_text p) w
      else with_string p w (
          key_value o.setup.conversions (to_wide_text o.setup.conversions) (utf8 "connParams") []
            p.details [])
