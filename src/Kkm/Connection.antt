-- ===== src/Kkm/Connection.antt =====
-- The construction and the destruction of a `Device` of src/library/kkm/device.cpp, and a method's call
-- between them, as `callMethod` of src/library/kkm/callhelpers.h makes it. How the connection's
-- parameters are applied to the driver is the argument `apply`.
pub mod Checked
pub mod Reported
use kkm_https_adapter.Base.{ℕ, false, not, [], ◌++◌, if◌then◌else◌, is_nil, equal, ltb}
use kkm_https_adapter.Kkm.Driver.{WideText, wide, Driver, Param, Command, Constant, constant, call}
use kkm_https_adapter.Kkm.Results.{Result}
use kkm_https_adapter.Kkm.Method.{
  Device, Method, Flow, going, left, threw, ◌>>◌, put, demand, when, asking, raise, issue,
}
use kkm_https_adapter.Kkm.Reports.{Settings}

unfoldable pub not_available : WideText
not_available = wide "Недоступна"

unfoldable pub exchange_error : WideText
exchange_error = wide "Ошибка обмена с ККМ"

unfoldable pub serial_number_mismatch : WideText → WideText → WideText
serial_number_mismatch expected actual =
    wide "Ошибка подключения (ожидаемый СН: "
    ++ (expected ++ (wide ", фактический СН: " ++ (actual ++ wide ")")))

abbrev pub new_device : Device
new_device = record {
  history = [];
  serial_number = [];
  line_length = 0;
  need_to_cancel_receipt = false;
}

abbrev pub keep_serial_number : {A : Type 0} → WideText → Method A
keep_serial_number s r d = going r (record d { serial_number = s })

abbrev pub keep_line_length : {A : Type 0} → ℕ → Method A
keep_line_length n r d = going r (record d { line_length = n })

module _ {A : Type 0} (k : Driver) (settings : Settings) (apply : Method A) where
  unfoldable pub connect : Method A
  unfolding demand not_available exchange_error
  connect =
      apply
      >> demand k Command.open_device
      >> asking (λ h. k.is_opened h) (λ opened. when (not opened) (raise not_available))
      >> put Param.data_type (constant Constant.dt_serial_number)
      >> demand k Command.query_data
      >> asking (λ h. k.get_string h Param.serial_number)
          (λ s. keep_serial_number s >> when (is_nil s) (raise exchange_error))
      >> put Param.data_type (constant Constant.dt_receipt_line_length)
      >> demand k Command.query_data
      >> asking (λ h. k.get_int h Param.receipt_line_length)
          (λ n. keep_line_length (if ltb n 1 then settings.default_line_length else n))

  -- The constructor from known parameters, which checks the serial number.
  unfoldable pub connect_known : WideText → Method A
  unfolding connect serial_number_mismatch
  connect_known serial_number = connect >> λ r d.
      if equal d.serial_number serial_number
      then going r d
      else threw (serial_number_mismatch serial_number d.serial_number) d

-- `~Device`.
unfoldable pub destroy : Device → Device
destroy d =
    let cancelled = if d.need_to_cancel_receipt then issue (call Command.cancel_receipt) d else d in
    issue (call Command.close_device) cancelled

abbrev pub destroyed : {A : Type 0} → Flow A → Flow A
destroyed (going r d) = going r (destroy d)
destroyed (left r d) = left r (destroy d)
destroyed (threw m d) = threw m (destroy d)

-- A device is made, one of its methods is called on a result, and the device goes.
unfoldable pub session :
    {A : Type 0} → Driver → Settings → Method A → WideText → Method A → Result A → Flow A
unfolding connect_known destroy
session k settings apply serial_number method r =
    destroyed ((connect_known k settings apply serial_number >> method) r new_device)
