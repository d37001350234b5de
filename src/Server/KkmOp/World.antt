-- ===== src/Server/KkmOp/World.antt =====
-- What the operations of src/kkmha/server_kkmop_handler.cpp work on: the registry of connection
-- parameters, the cash registers with all their calls, and the files. What they are given from outside is a
-- record, `Outside`.
use kkm_https_adapter.Base.{
  false, List, [], ◌∷◌, Option, none, some, Bytes, equal, is_nil, if◌then◌else◌, Result, ok, err,
}
use kkm_https_adapter.Http.{Status, bad_request}
use kkm_https_adapter.Http.JsonValue.{Json, boolean, string, object, Fields, end, put}
use kkm_https_adapter.Kkm.Driver.{WideText, Driver, History}
use kkm_https_adapter.Kkm.Method.{Device, Flow, going, left, threw}
use kkm_https_adapter.Kkm.Reports.{Settings}
use kkm_https_adapter.Kkm.ConnParams.{ConnSettings, Disk, KnownConnParams, known_conn_params, apply}
use kkm_https_adapter.Kkm.Connection.{connect_known, destroy, new_device}
use kkm_https_adapter.Kkm.Initial.{new_result}
use kkm_https_adapter.Kkm.Import.{Setup}
use kkm_https_adapter.Kkm.Export.{Exporter, success_key, message_key}
use kkm_https_adapter.Kkm.Export.Collecting.{Call, Called, called, thrown}
use kkm_https_adapter.Server.KkmOp.{Payload}
use kkm_https_adapter.Server.Settings.{bad_request_text}

-- `s_connParamsRegistry`, the calls of each connection that has been, the latest first, and the files.
pub record World (D : Type 0) : Type 0 where
  pub registry : List (WideText × KnownConnParams)
  pub past : List History
  pub files : D

-- The driver of the next connection, which depends on those that have been, and the conversions and
-- settings of the components below.
pub record Outside (D : Type 0) : Type 0 where
  pub driver : List History → Driver
  pub setup : Setup
  pub exporter : Exporter
  pub disk : Disk D
  pub conn_settings : ConnSettings
  pub device_settings : Settings

abbrev fields_or_new : Option Json → Fields
fields_or_new (some (object fs)) = fs
fields_or_new _ = end

-- `m_result` as the object that results are written to.
abbrev pub as_fields : Option Json → Option Fields
as_fields (some (object fs)) = some fs
as_fields _ = none

abbrev pub as_json : Option Fields → Option Json
as_json none = none
as_json (some fs) = some (object fs)

-- `Payload::fail`.
unfoldable pub fail_payload : Status → Bytes → Payload → Payload
unfolding put
fail_payload status message p = record p {
  status = status;
  result = some (
      object (
        put message_key (string message)
          (put success_key (boolean false) (fields_or_new p.result))));
}

unfoldable pub registered : WideText → List (WideText × KnownConnParams) → Option KnownConnParams
unfolding equal
registered serial [] = none
registered serial ((s, params) ∷ rest) =
    let other = registered serial rest in if equal s serial then some params else other

-- `insert_or_assign`.
unfoldable pub register :
    WideText
    → KnownConnParams
    → List (WideText × KnownConnParams)
    → List (WideText × KnownConnParams)
unfolding equal
register serial params [] = (serial, params) ∷ []
register serial params ((s, old) ∷ rest) =
    let other = register serial params rest in
    if equal s serial then (s, params) ∷ rest else (s, old) ∷ other

-- How `resolveConnParams` ends: with parameters, with `nullptr` and a failed payload, or with an
-- exception.
pub data Resolved (D : Type 0) : Type 0 where
  resolved : KnownConnParams → World D → Resolved D
  refused : Payload → Resolved D
  broken : WideText → Resolved D

module _ {D : Type 0} (o : Outside D) where
  abbrev pub remember : WideText → World D → Result WideText KnownConnParams → Resolved D
  remember serial w (err m) = broken m
  remember serial w (ok params) =
      resolved params (record w { registry = register serial params w.registry })

  abbrev pub look_up : WideText → World D → Option KnownConnParams → Resolved D
  look_up serial w (some params) = resolved params w
  look_up serial w none =
      remember serial w (known_conn_params o.disk o.setup.conversions serial w.files)

  -- A serial number that is not in the registry is always inserted, so that the branch behind a failed
  -- insertion is never taken.
  unfoldable pub resolve_conn_params : Payload → World D → Resolved D
  unfolding fail_payload registered register known_conn_params bad_request_text
  resolve_conn_params p w =
      if is_nil p.serial_number
      then refused (fail_payload bad_request bad_request_text p)
      else let serial = o.setup.conversions.widen p.serial_number in
        look_up serial w (registered serial w.registry)

  abbrev pub gone : Called → Called
  gone (called json d) = called json (destroy d)
  gone (thrown m d) = thrown m (destroy d)

  abbrev pub connected : (Device → Called) → Flow Unit → Called
  connected c (going r d) = c d
  connected c (left r d) = c d
  connected c (threw m d) = thrown m d

  -- A device is made for known parameters, is called, and goes.
  unfoldable pub session : KnownConnParams → (Driver → Call) → Option Fields → World D → Called
  unfolding connect_known destroy apply
  session params call json w =
      let k = o.driver w.past in
      gone (
        connected (call k json) (
          connect_known k o.device_settings (apply k o.conn_settings params.params)
            params.serial_number (new_result tt) new_device))

  abbrev pub passed : Device → World D → World D
  passed d w = record w { past = d.history ∷ w.past }
