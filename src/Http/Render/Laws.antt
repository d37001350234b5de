-- ===== src/Http/Render/Laws.antt =====
-- What a rendered JSON response holds.
use kkm_https_adapter.Base.{
  true, false, ◌≡◌, refl, ap, ◌∙◌, Bytes, equal, equal_refl, some, if◌then◌else◌, Bool-cases, inl,
  inr,
}
use kkm_https_adapter.Http.{
  Status, below_bad_request, status_strings, ProtoResponse, json, constant, solid, binary,
}
use kkm_https_adapter.Http.JsonValue.{Json, Fields, boolean, string, at, is_boolean, is_string}
use kkm_https_adapter.Http.JsonValue.Laws.{at-put}
use kkm_https_adapter.Http.Render.{
  success_key, message_key, with_success, with_message, render_json, render_proto, fields_of,
}

keys_differ : equal message_key success_key ≡ false
unfolding equal
keys_differ = refl

success_is_boolean :
    (s : Status) (fs : Fields) → is_boolean (at success_key (with_success s fs)) ≡ true
unfolding with_success
success_is_boolean s fs = elim (Bool-cases (is_boolean (at success_key fs))) [
  | inl e ↦ rw e e
  | inr e ↦ rw e (
      rw (at-put success_key success_key (boolean (below_bad_request s)) fs)
        (rw (equal_refl success_key) refl))
]

success_kept : (s : Status) (fs : Fields) → at success_key (with_message s fs) ≡ at success_key fs
unfolding with_message
success_kept s fs = elim (Bool-cases (is_string (at message_key fs))) [
  | inl e ↦ rw e refl
  | inr e ↦ rw e (
      at-put message_key success_key (string (status_strings s)) fs
      ∙ ap (λ b. if b then some (string (status_strings s)) else at success_key fs) keys_differ)
]

message_is_string :
    (s : Status) (fs : Fields) → is_string (at message_key (with_message s fs)) ≡ true
unfolding with_message
message_is_string s fs = elim (Bool-cases (is_string (at message_key fs))) [
  | inl e ↦ rw e e
  | inr e ↦ rw e (
      rw (at-put message_key message_key (string (status_strings s)) fs)
        (rw (equal_refl message_key) refl))
]

-- Every JSON response that is rendered says by a truth value whether it is a success, and has a text
-- for its message.
pub rendered_fields :
    (s : Status) (fs : Fields)
    → let completed = with_message s (with_success s fs) in
      (is_boolean (at success_key completed) ≡ true) × (is_string (at message_key completed) ≡ true)
rendered_fields s fs = (
  ap is_boolean (success_kept s (with_success s fs)) ∙ success_is_boolean s fs,
  message_is_string s (with_success s fs),
)

success_idle :
    (s : Status) (fs : Fields) → is_boolean (at success_key fs) ≡ true → with_success s fs ≡ fs
unfolding with_success
success_idle s fs e = rw e refl

message_idle :
    (s : Status) (fs : Fields) → is_string (at message_key fs) ≡ true → with_message s fs ≡ fs
unfolding with_message
message_idle s fs e = rw e refl

completed_idem :
    (s : Status) (fs : Fields)
    → let completed = with_message s (with_success s fs) in
      with_message s (with_success s completed) ≡ completed
completed_idem s fs =
    let completed = with_message s (with_success s fs) in
    let (b, t) = rendered_fields s fs in
    ap (with_message s) (success_idle s completed b) ∙ message_idle s completed t

-- A response that is rendered again, as one from the cache is, gives the same text, and does not
-- change any more.
pub render_proto_idem :
    (dump : Json → Bytes) (s : Status) (p : ProtoResponse)
    → render_proto dump s (render_proto dump s p).1 ≡ render_proto dump s p
unfolding render_proto render_json
render_proto_idem dump s (json j) = rw (completed_idem s (fields_of j)) refl
render_proto_idem dump s (constant t) = refl
render_proto_idem dump s (solid t) = refl
render_proto_idem dump s (binary m c n) = refl
