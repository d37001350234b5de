-- ===== src/Server/KkmOp/Performing/Tests.antt =====
-- The operations in a concrete world: a cash register on a serial port, which reports the number 12.
use kkm_https_adapter.Base.{
  ℕ, suc, true, false, [], ◌∷◌, ◌++◌, utf8, wide, ok, some, none, is_nil, All, ◌≡◌, refl, Bytes,
  Result, length,
}
use kkm_https_adapter.Http.{Request, IpAddress, new_request, post, Status}
use kkm_https_adapter.Http.JsonValue.{Json, string, array, cons, nil, object, field, end}
use kkm_https_adapter.Json.{◌>>=◌}
use kkm_https_adapter.Kkm.Driver.{Driver}
use kkm_https_adapter.Kkm.ConnParams.{ConnSettings, Disk, KnownConnParams, known_conn_params, load}
use kkm_https_adapter.Kkm.ConnParams.Serials.{parts_path, known_conn_params-place}
use kkm_https_adapter.Kkm.Import.Tests.{setup}
use kkm_https_adapter.Kkm.Export.Collecting.Tests.{exporter}
use kkm_https_adapter.Server.Cache.{Cache}
use kkm_https_adapter.Server.KkmOp.{Payload, Ended, handle}
use kkm_https_adapter.Server.KkmOp.Table.{handlers}
use kkm_https_adapter.Server.KkmOp.Idempotency.{handle_all}
use kkm_https_adapter.Server.KkmOp.World.{World, Outside, registered}
use kkm_https_adapter.Server.KkmOp.Registry.{IsFiled}
use kkm_https_adapter.Server.KkmOp.Operations
use kkm_https_adapter.Server.KkmOp.Operations.{with_device}
use kkm_https_adapter.Server.KkmOp.Sessions.{Closes, Reaches, with_device-Reaches, world_of}
use kkm_https_adapter.Server.KkmOp.Learn.{learn}
use kkm_https_adapter.Server.KkmOp.Learn.Learned.{Learned, learn-registered}
use kkm_https_adapter.Server.KkmOp.Performing.{performer}
use kkm_https_adapter.Server.KkmOp.Performing.Requests.{handle-Closes, handle_all-IsFiled}

abbrev driver : Driver
driver = record {
  succeeds = λ h. true;
  is_opened = λ h. true;
  error_description = λ h. wide "no";
  get_int = λ h p. 1;
  get_bool = λ h p. true;
  get_double = λ h p. 4607182418800017408;
  get_string = λ h p. wide "12";
  get_date_time = λ h p. [];
  get_byte_array = λ h p. [];
  value_of = λ c. 0;
}

-- The file system counts the files that have been saved.
abbrev disk : Disk ℕ
disk = record {
  db_directory = wide "db";
  append = λ d n. d ++ (wide "/" ++ n);
  filename = λ p. wide "12.json";
  without_extension = λ p. wide "12";
  extension = λ p. wide ".json";
  stem = λ p. wide "12";
  is_regular_file = λ p d. true;
  is_good = λ p d. true;
  parse = λ p d. ok (array (cons (string (utf8 "com")) (cons (string (utf8 "3")) nil)));
  is_directory = λ p d. true;
  create_directories = λ p d. d;
  dump = λ j. utf8 "[]";
  narrow = λ t. t;
  write = λ p t d. suc d;
}

abbrev conn_settings : ConnSettings
conn_settings = record {
  default_baud_rate = wide "115200";
  allowed_baud_rates = wide "115200" ∷ [];
  time_zone_configured = false;
  time_zone = wide "0";
  model_auto = wide "500";
  ofd_channel_auto = wide "2";
  port_com = wide "0";
}

abbrev outside : Outside ℕ
outside = record {
  driver = λ past. driver;
  setup = setup;
  exporter = exporter;
  disk = disk;
  conn_settings = conn_settings;
  device_settings = record {
    default_line_length = 42;
    document_closing_timeout = 1000;
    customer_account_field = [];
  };
}

abbrev start : World ℕ
start = record { registry = []; past = []; files = 0 }

abbrev empty : Cache
empty = record { entries = []; counter = 0 }

abbrev local : IpAddress
local = record {
  is_v4 = true;
  v4_loopback = true;
  is_v4_mapped = false;
  is_v4_compatible = false;
  embedded_loopback = false;
  v6_loopback = false;
  shown = utf8 "127.0.0.1";
}

abbrev demo : Request
demo = record (new_request local 3) {
  header = (utf8 "x-idempotency-key", utf8 "k") ∷ [];
  hint = utf8 "post" ∷ utf8 "kkm" ∷ utf8 "12" ∷ utf8 "print-demo" ∷ [];
  method = post;
}

abbrev parse : Bytes → Result Bytes Json
parse t = ok (object end)

abbrev payload : Bytes → Json → Payload
payload serial details = record {
  serial_number = serial;
  details = details;
  result = none;
  expires_after = 5;
  status = Status.ok;
  request_id = 3;
}

abbrev port : Json
port = object (field (utf8 "connParams") (string (utf8 "com,3")) end)

handle-Closes_example : Closes start (handle (performer (λ w. 10) parse outside) demo empty start).2
handle-Closes_example = handle-Closes (λ w. 10) parse outside demo empty start

handle_all-IsFiled_example :
    IsFiled
      (handle_all (performer (λ w. 10) parse outside) (demo ∷ demo ∷ []) empty start).1.registry
handle_all-IsFiled_example =
    handle_all-IsFiled (λ w. 10) parse outside (demo ∷ demo ∷ []) empty start tt

with_device-Reaches_example :
    Reaches outside
      (wide "12")
      (payload (utf8 "12") port)
      (λ a. with_device outside a (payload (utf8 "12") port) start)
with_device-Reaches_example = with_device-Reaches outside (payload (utf8 "12") port) start tt

abbrev payload_of : Ended Payload (World ℕ) → Payload
payload_of (Ended.returned q v) = q
payload_of (Ended.thrown m v) = payload [] (object end)

abbrev learning : Ended Payload (World ℕ)
learning = learn outside (payload [] port) start

-- The demonstration is printed over one connection.
demo_connects : length (handle (performer (λ w. 10) parse outside) demo empty start).2.past ≡ 1
unfolding handle performer new_request handlers Operations.print_demo ◌>>=◌
demo_connects = refl

known_conn_params-place_example :
    (load disk setup.conversions (wide "db/12.json") 0 ≡ ok (wide "com" ∷ wide "3" ∷ []))
    × All (λ a. parts_path a ≡ false) (wide "12.json")
    × (is_nil (wide "12") ≡ false)
    × (wide "12" ≡ wide "12")
unfolding known_conn_params ◌>>=◌
known_conn_params-place_example =
    known_conn_params-place disk setup.conversions (wide "12") 0
      (record { params = wide "com" ∷ wide "3" ∷ []; serial_number = wide "12" }) refl

learn-registered_example :
    (known : KnownConnParams) × Learned outside (payload [] port) start (world_of learning) known
    × (registered known.serial_number (world_of learning).registry ≡ some known)
unfolding learn ◌>>=◌
learn-registered_example =
    learn-registered outside (payload [] port) (payload_of learning) start (world_of learning) refl
      refl
