-- ===== src/Kkm/Export/Collecting/Tests.antt =====
-- Two queries on one device, the first of which fails.
use kkm_https_adapter.Base.{
  List, [], ◌∷◌, false, ◌&&◌, none, some, Bytes, utf8, equal, ◌≡◌, refl, All,
}
use kkm_https_adapter.Http.JsonValue.{boolean, number, string, Fields, end, field, at}
use kkm_https_adapter.Kkm.Driver.{wide}
use kkm_https_adapter.Kkm.Method.{Method, going, left, failed}
use kkm_https_adapter.Kkm.Connection.{new_device}
use kkm_https_adapter.Kkm.Export.{Exporter, success_key, message_key}
use kkm_https_adapter.Kkm.Export.Collecting.{Query, called, collect_data}
use kkm_https_adapter.Kkm.Export.Collecting.Whole.{
  IsApart, is_none, first_failure, collect_data-outcome,
}
use kkm_https_adapter.Kkm.Export.Collecting.Laws.{outcome}
use kkm_https_adapter.Kkm.Export.Collecting.FirstFailure.{collect_data-first_failure}

abbrev pub exporter : Exporter
exporter = record {
  of_unsigned = λ n. n;
  of_double = λ d. d;
  narrow = λ t. t;
  date_text = λ d. [];
  numbers = record {
    model = λ m. 0;
    ffd = λ f. 0;
    shift = λ p. 0;
    receipt = λ r. 0;
    document = λ d. 0;
    flag = λ f. 1;
  };
}

abbrev fails : Method Unit
fails r d = left (failed (wide "no paper") r) d

abbrev succeeds : Method Unit
succeeds r d = going r d

abbrev query : Bytes → Method Unit → Query
query key method = record {
  Rest = Unit;
  initial = tt;
  key = key;
  fields = λ a. number 1;
  method = method;
}

abbrev queries : List Query
queries =
    query (utf8 "a") succeeds
    ∷ query (utf8 "b") fails
    ∷ query (utf8 "c") (λ r d. left (failed (wide "no cover") r) d)
    ∷ []

queries_apart : All IsApart queries
unfolding equal
queries_apart = (
  record { success = refl; message = refl },
  (record { success = refl; message = refl }, (record { success = refl; message = refl }, tt)),
)

abbrev collected : Fields
collected =
    field success_key (boolean false)
      (field message_key (string (utf8 "no paper")) (field (utf8 "a") (number 1) end))

collected_lem : collect_data exporter queries none new_device ≡ called (some collected) new_device
unfolding collect_data equal failed
collected_lem = refl

failure_lem : first_failure queries new_device ≡ some (wide "no paper")
unfolding first_failure failed
failure_lem = refl

collect_data-outcome_example :
    outcome (some collected) ≡ (outcome none && is_none (first_failure queries new_device))
collect_data-outcome_example =
    collect_data-outcome exporter queries none (some collected) new_device new_device queries_apart
      collected_lem

not_ok : equal (wide "no paper") (utf8 "OK") ≡ false
unfolding equal
not_ok = refl

collect_data-first_failure_example :
    (at success_key collected ≡ some (boolean false))
    × (at message_key collected ≡ some (string (wide "no paper")))
collect_data-first_failure_example =
    collect_data-first_failure exporter queries collected new_device new_device (wide "no paper")
      queries_apart not_ok failure_lem collected_lem
