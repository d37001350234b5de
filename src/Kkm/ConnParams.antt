-- ===== src/Kkm/ConnParams.antt =====
-- src/library/kkm/connparams.cpp: the parameters of a connection, given by a client or read from a file, and
-- their settings in the driver. The file system and the driver's constants are arguments.
pub mod Serials
pub mod Applied
use kkm_https_adapter.Base.{
  ℕ, Bool, true, false, not, ◌&&◌, ◌||◌, List, [], ◌∷◌, ◌++◌, map, Option, none, some, Bytes, utf8,
  equal, is_nil, among, length, ltb, if◌then◌else◌, Result, ok, err,
}
use kkm_https_adapter.Text.{split_to, join_to}
use kkm_https_adapter.Text.Filters.{contains}
use kkm_https_adapter.Http.JsonValue.{Json, string, array, Items, nil, cons}
use kkm_https_adapter.Json.{Failure, what, Conversions, to_wide_text, handle_range}
use kkm_https_adapter.Kkm.Driver.{
  WideText, wide, Driver, Command, Setting, model_setting, time_zone_setting, ofd_channel_setting,
  port_setting, com_file_setting, baudrate_setting, set_setting,
}
use kkm_https_adapter.Kkm.Method.{Method, going, ◌>>◌, demand, when, raise, issue}

-- The settings of src/library/kkm/variables.h and the driver's constants, as texts.
pub record ConnSettings : Type 0 where
  pub default_baud_rate : WideText
  pub allowed_baud_rates : List WideText
  pub time_zone_configured : Bool
  pub time_zone : WideText
  pub model_auto : WideText
  pub ofd_channel_auto : WideText
  pub port_com : WideText

-- The file system, and what `std::filesystem::path` computes. `append` is the operator `/=`. A file that
-- is written may not get its content: nothing says so.
pub record Disk (D : Type 0) : Type 0 where
  pub db_directory : WideText
  pub append : WideText → WideText → WideText
  pub filename : WideText → WideText
  pub without_extension : WideText → WideText
  pub extension : WideText → WideText
  pub stem : WideText → WideText
  pub is_directory : WideText → D → Bool
  pub create_directories : WideText → D → D
  pub is_regular_file : WideText → D → Bool
  pub is_good : WideText → D → Bool
  pub parse : WideText → D → Result WideText Json
  pub dump : Json → Bytes
  pub narrow : WideText → Bytes
  pub write : WideText → Bytes → D → D

unfoldable pub invalid_conn_params : WideText
invalid_conn_params = wide "Недопустимые параметры подключения"

unfoldable pub not_implemented : WideText
not_implemented = wide "Не реализовано"

unfoldable pub invalid_serial_number : WideText
invalid_serial_number = wide "Недопустимый серийный номер"

unfoldable pub invalid_file_path : WideText
invalid_file_path = wide "Не удалось загрузить параметры подключения"

unfoldable pub couldnt_read_file : WideText → WideText
couldnt_read_file path = wide "Не удалось прочитать файл '" ++ (path ++ wide "'")

unfoldable pub saving_error : WideText → WideText
saving_error serial =
    wide "ККМ [" ++ (serial ++ wide "]: Не удалось сохранить параметры подключения")

abbrev pub set_single : {A : Type 0} → Setting → WideText → Method A
set_single s t r d = going r (issue (set_setting s t) d)

module _ {A : Type 0} (k : Driver) (c : ConnSettings) where
  unfoldable pub apply_common : Method A
  apply_common =
      set_single model_setting c.model_auto
      >> when c.time_zone_configured (set_single time_zone_setting c.time_zone)
      >> set_single ofd_channel_setting c.ofd_channel_auto

  abbrev pub open_com : WideText → WideText → Method A
  open_com port baud_rate =
      set_single port_setting c.port_com
      >> set_single com_file_setting (wide "COM" ++ port)
      >> set_single baudrate_setting baud_rate
      >> apply_common
      >> demand k Command.apply_single_settings

  unfoldable pub apply_com : List WideText → Method A
  unfolding invalid_conn_params contains apply_common demand
  apply_com (kind ∷ (port ∷ [])) = open_com port c.default_baud_rate
  apply_com (kind ∷ (port ∷ (baud_rate ∷ rest))) =
      if contains c.allowed_baud_rates baud_rate
      then open_com port baud_rate
      else raise invalid_conn_params
  apply_com _ = raise invalid_conn_params

  -- `applyUsb`, `applyTcpIp` and `applyBluetooth` are all the same: not implemented. The source reads the
  -- first parameter of an empty list, which is not defined; here it is refused.
  unfoldable pub apply : List WideText → Method A
  unfolding equal apply_com not_implemented invalid_conn_params
  apply [] = raise invalid_conn_params
  apply (kind ∷ rest) =
      if equal kind (wide "com")
      then apply_com (kind ∷ rest)
      else if equal kind (wide "usb")
          || (equal kind (wide "tcpip") || equal kind (wide "ip"))
          || (equal kind (wide "bluetooth") || equal kind (wide "bt"))
      then raise not_implemented
      else raise invalid_conn_params

abbrev lower_first : (ℕ → ℕ) → List WideText → List WideText
lower_first to_lower [] = []
lower_first to_lower (kind ∷ rest) = map to_lower kind ∷ rest

-- The constructor of `NewConnParams`.
unfoldable pub new_conn_params : (ℕ → ℕ) → WideText → Result WideText (List WideText)
unfolding split_to invalid_conn_params
new_conn_params to_lower text =
    let params = (split_to [] text (wide ",") false).0 in
    if ltb (length params) 2 then err invalid_conn_params else ok (lower_first to_lower params)

-- `operator std::wstring`.
unfoldable pub conn_params_text : List WideText → WideText
unfolding join_to
conn_params_text params = join_to [] params (wide ",")

-- `KnownConnParams`.
pub record KnownConnParams : Type 0 where
  pub params : List WideText
  pub serial_number : WideText

abbrev pub allowed : WideText
allowed = wide "ABCDEFGHIJKLMNOPQRSTUVWXYZabcdefghijklmnopqrstuvwxyz0123456789.-_"

-- `find_first_not_of(allowed) != npos`.
unfoldable pub has_forbidden : WideText → Bool
unfolding among
has_forbidden [] = false
has_forbidden (c ∷ t) = not (among c allowed) || has_forbidden t

unfoldable pub filter_serial_number : WideText → Result WideText WideText
unfolding has_forbidden invalid_serial_number
filter_serial_number serial =
    if is_nil serial || has_forbidden serial then err invalid_serial_number else ok serial

abbrev pub message_of : {A : Type 0} → Result Failure A → Result WideText A
message_of (err e) = err (what e)
message_of (ok a) = ok a

abbrev pub after_ok :
    {A B : Type 0} → (A → Result WideText B) → Result WideText A → Result WideText B
after_ok f (err e) = err e
after_ok f (ok a) = f a

module _ {D : Type 0} (disk : Disk D) (c : Conversions) where
  unfoldable pub filter_file_path : WideText → D → Result WideText WideText
  unfolding equal has_forbidden invalid_file_path
  filter_file_path path d =
      if not (equal (map c.to_lower_wide (disk.extension path)) (wide ".json"))
      then err invalid_file_path
      else if is_nil (disk.stem path) || has_forbidden (disk.stem path)
      then err invalid_file_path
      else if not (disk.is_regular_file path d)
      then err invalid_file_path
      else ok path

  -- `load`.
  unfoldable pub load : WideText → D → Result WideText (List WideText)
  unfolding couldnt_read_file handle_range to_wide_text
  load path d =
      if disk.is_good path d
      then after_ok
          (λ json. after_ok (λ p. ok p.1) (message_of (handle_range (to_wide_text c) json [] [])))
          (disk.parse path d)
      else err (couldnt_read_file path)

  -- `filePath`, and `serialNumber` of a path.
  unfoldable pub file_path : WideText → WideText
  file_path serial = disk.append disk.db_directory (serial ++ wide ".json")

  unfoldable pub serial_number_of : WideText → WideText
  serial_number_of path = disk.without_extension (disk.filename path)

  abbrev pub loaded : WideText → WideText → D → Result WideText KnownConnParams
  loaded s path d =
      after_ok (λ params. ok (record { params = params; serial_number = s })) (load path d)

  -- The constructors of `KnownConnParams` from a serial number, and from the path of a file.
  unfoldable pub known_conn_params : WideText → D → Result WideText KnownConnParams
  unfolding filter_serial_number filter_file_path file_path load
  known_conn_params serial d =
      after_ok (λ s. after_ok (λ path. loaded s path d) (filter_file_path (file_path s) d))
        (filter_serial_number serial)

  unfoldable pub known_conn_params_at : WideText → D → Result WideText KnownConnParams
  unfolding filter_serial_number filter_file_path serial_number_of load
  known_conn_params_at path d =
      after_ok (λ s. after_ok (λ q. loaded s q d) (filter_file_path path d))
        (filter_serial_number (serial_number_of path))

  -- `json = Text::convert(m_params)`.
  abbrev texts : List WideText → Items
  texts [] = nil
  texts (t ∷ ts) = cons (string (disk.narrow t)) (texts ts)

  abbrev pub params_text : List WideText → Bytes
  params_text params = disk.dump (array (texts params))

  abbrev with_directory : D → D
  with_directory d =
      if disk.is_directory disk.db_directory d
      then d
      else disk.create_directories disk.db_directory d

  -- The files behind the writing of the parameters.
  abbrev pub written : WideText → List WideText → D → D
  written serial params d =
      disk.write (disk.append disk.db_directory (serial ++ wide ".json")) (params_text params)
        (with_directory d)

  -- `NewConnParams::save`.
  unfoldable pub save : WideText → List WideText → D → Result WideText D
  unfolding saving_error
  save serial params d =
      if is_nil serial
      then err (saving_error (wide "-"))
      else if not (disk.is_directory disk.db_directory (with_directory d))
      then err (saving_error serial)
      else if not (
          disk.is_regular_file (disk.append disk.db_directory (serial ++ wide ".json"))
            (written serial params d))
      then err (saving_error serial)
      else ok (written serial params d)

-- The constructors of `KnownConnParams` from `NewConnParams`, which do not look at the serial number.
abbrev pub known_of_new : List WideText → WideText → KnownConnParams
known_of_new params serial = record { params = params; serial_number = serial }
