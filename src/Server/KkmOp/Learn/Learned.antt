-- ===== src/Server/KkmOp/Learn/Learned.antt =====
-- What a cash register that has been learned leaves behind, and how it is found again.
use kkm_https_adapter.Base.{
  Bool, true, false, not, [], List, Result, ok, err, some, is_nil, utf8, wide, if◌then◌else◌,
  Bool-cases, ◌⊎◌, inl, inr, ◌≡◌, refl, sym, ap, ◌∙◌, equal_refl,
}
use mathlib.Core.Path.{subst}
use kkm_https_adapter.Http.{is_ok}
use kkm_https_adapter.Json.{Read, Conversions, to_wide_text, key_value}
use kkm_https_adapter.Kkm.Driver.{WideText, Driver, History, Param}
use kkm_https_adapter.Kkm.Results as KkmResults
use kkm_https_adapter.Kkm.Method.{Device, Flow, going, left, threw}
use kkm_https_adapter.Kkm.ConnParams.{
  KnownConnParams, known_of_new, new_conn_params, apply, save, written, file_path, saving_error,
}
use kkm_https_adapter.Kkm.ConnParams.Applied.{apply-Stays}
use kkm_https_adapter.Kkm.Connection.{new_device}
use kkm_https_adapter.Kkm.Connection.Reported.{
  serial_query, Reported, EndsReported, connect-EndsReported,
}
use kkm_https_adapter.Kkm.Initial.{new_result}
use kkm_https_adapter.Server.KkmOp.{Payload, Ended}
use kkm_https_adapter.Server.KkmOp.World.{World, Outside, registered, register, fail_payload}
use kkm_https_adapter.Server.KkmOp.Registry.{registered-register}
use kkm_https_adapter.Server.KkmOp.Learn.{
  greeted, asked, saved, connected_to, with_params, with_string, learn,
}

module _ {D : Type 0} (o : Outside D) where
  abbrev c : Conversions
  c = o.setup.conversions

  -- A cash register has been learned: its parameters are those that the request gives, its serial number
  -- is the one that it has reported over the connection, the parameters have been written to their
  -- file, which is there, and they are found in the registry.
  pub record Learned (p : Payload) (w v : World D) (known : KnownConnParams) : Type 0 where
    pub given :
        (text : WideText) × (key_value c (to_wide_text c) (utf8 "connParams") [] p.details []
          ≡ ok (true, text))
        × (new_conn_params c.to_lower_wide text ≡ ok known.params)
    pub reported :
        (h : History) × (known.serial_number
          ≡ (o.driver w.past).get_string (serial_query h) Param.serial_number)
    pub saved_as : v.files ≡ written o.disk c known.serial_number known.params w.files
    pub is_there : o.disk.is_regular_file (file_path o.disk c known.serial_number) v.files ≡ true
    pub registry : v.registry ≡ register known.serial_number known w.registry

  -- An operation has failed or thrown, or it has learned a cash register.
  abbrev Tells : Payload → World D → Ended Payload (World D) → Type 0
  Tells p w (Ended.thrown m v) = Unit
  Tells p w (Ended.returned q v) =
      (is_ok q.status ≡ false) ⊎ ((known : KnownConnParams) × Learned p w v known)

  -- What is learned does not look at the connections that have been.
  passed_on :
      (p : Payload) (w v u : World D) (known : KnownConnParams)
      → u.files ≡ v.files
      → u.registry ≡ v.registry
      → Learned p w v known
      → Learned p w u known
  passed_on p w v u known f g l = record {
    given = l.given;
    reported = l.reported;
    saved_as = f ∙ l.saved_as;
    is_there = ap (o.disk.is_regular_file (file_path o.disk c known.serial_number)) f ∙ l.is_there;
    registry = g ∙ l.registry;
  }

  greeted-Tells :
      (p : Payload) (w v : World D) (r : KkmResults.Result KkmResults.Status) (f : Flow Unit)
      (known : KnownConnParams)
      → Learned p w v known
      → Tells p w (greeted o p v r f)
  greeted-Tells p w v r (going s d) known l = inr (known, passed_on p w v _ known refl refl l)
  greeted-Tells p w v r (left s d) known l = inr (known, passed_on p w v _ known refl refl l)
  greeted-Tells p w v r (threw m d) known l = tt

  asked-Tells :
      (k : Driver) (p : Payload) (w v : World D) (f : Flow KkmResults.Status)
      (known : KnownConnParams)
      → Learned p w v known
      → Tells p w (asked o k p v f)
  asked-Tells k p w v (going s d) known l = greeted-Tells p w v s _ known l
  asked-Tells k p w v (left s d) known l = greeted-Tells p w v s _ known l
  asked-Tells k p w v (threw m d) known l = tt

  checked :
      (b : Bool) (s : WideText) (r : Result WideText D) (files : D)
      → (if b then err (saving_error s) else r) ≡ ok files
      → (b ≡ false) × (r ≡ ok files)
  checked true s r files h =
      let wrong : ◌≡◌ {A = Result WideText D} (err (saving_error s)) (ok files) = h in cc
  checked false s r files h = (refl, h)

  not-true : (b : Bool) → not b ≡ false → b ≡ true
  not-true true h = refl
  not-true false h = cc

  save_lem :
      (s : WideText) (l : List WideText) (d files : D)
      → save o.disk c s l d ≡ ok files
      → (files ≡ written o.disk c s l d)
        × (o.disk.is_regular_file (file_path o.disk c s) files ≡ true)
  unfolding save file_path
  save_lem s l d files h =
      let (some_serial, first) = checked (is_nil s) (wide "-") _ files h in
      let (directory, second) = checked _ s _ files first in
      let (there, third) =
        checked (not (o.disk.is_regular_file (file_path o.disk c s) (written o.disk c s l d))) s
          (ok (written o.disk c s l d)) files second in
      let same : files ≡ written o.disk c s l d = cc in
      (
        same,
        ap (o.disk.is_regular_file (file_path o.disk c s)) same
            ∙ not-true (o.disk.is_regular_file (file_path o.disk c s) (written o.disk c s l d))
                there,
      )

  saved-Tells :
      (l : List WideText) (p : Payload) (w : World D) (d : Device) (r : Result WideText D)
      (text : WideText)
      → key_value c (to_wide_text c) (utf8 "connParams") [] p.details [] ≡ ok (true, text)
      → new_conn_params c.to_lower_wide text ≡ ok l
      → Reported (o.driver w.past) d
      → save o.disk c d.serial_number l w.files ≡ r
      → Tells p w (saved o (o.driver w.past) l p w d r)
  saved-Tells l p w d (err m) text g n reported h = tt
  saved-Tells l p w d (ok files) text g n reported h =
      let known = known_of_new l d.serial_number in
      let v : World D = record w {
        files = files;
        registry = register d.serial_number known w.registry;
      } in
      asked-Tells (o.driver w.past) p w v _ known (made files h)
    where
      made :
          (files : D)
          → save o.disk c d.serial_number l w.files ≡ ok files
          → Learned p w
              (record w {
                files = files;
                registry = register d.serial_number (known_of_new l d.serial_number) w.registry;
              })
              (known_of_new l d.serial_number)
      made files h =
          let (content, there) = save_lem d.serial_number l w.files files h in
          record {
            given = (text, g, n);
            reported = reported;
            saved_as = content;
            is_there = there;
            registry = refl;
          }

  connected_to-Tells :
      (l : List WideText) (p : Payload) (w : World D) (f : Flow Unit) (text : WideText)
      → key_value c (to_wide_text c) (utf8 "connParams") [] p.details [] ≡ ok (true, text)
      → new_conn_params c.to_lower_wide text ≡ ok l
      → EndsReported (o.driver w.past) f
      → Tells p w (connected_to o (o.driver w.past) l p w f)
  connected_to-Tells l p w (going r d) text g n e = saved-Tells l p w d _ text g n e refl
  connected_to-Tells l p w (left r d) text g n e = absurd e
  connected_to-Tells l p w (threw m d) text g n e = tt

  with_params-Tells :
      (p : Payload) (w : World D) (r : Result WideText (List WideText)) (text : WideText)
      → key_value c (to_wide_text c) (utf8 "connParams") [] p.details [] ≡ ok (true, text)
      → new_conn_params c.to_lower_wide text ≡ r
      → Tells p w (with_params o p w r)
  with_params-Tells p w (err m) text g n = tt
  with_params-Tells p w (ok l) text g n =
      let k = o.driver w.past in
      connected_to-Tells l p w _ text g n (
        connect-EndsReported k o.device_settings (apply k o.conn_settings l)
          (apply-Stays k o.conn_settings l) (new_result tt) new_device)

  with_string-Tells :
      (p : Payload) (w : World D) (r : Read (Bool × WideText))
      → key_value c (to_wide_text c) (utf8 "connParams") [] p.details [] ≡ r
      → Tells p w (with_string o p w r)
  unfolding fail_payload
  with_string-Tells p w (err e) h = tt
  with_string-Tells p w (ok (false, s)) h = inl refl
  with_string-Tells p w (ok (true, s)) h = with_params-Tells p w _ s h refl

  learn-Tells : (p : Payload) (w : World D) → Tells p w (learn o p w)
  unfolding learn fail_payload
  learn-Tells p w = elim (Bool-cases (is_nil p.serial_number)) [
    | inl e ↦ rw e (
        with_string-Tells p w (key_value c (to_wide_text c) (utf8 "connParams") [] p.details [])
          refl)
    | inr e ↦ rw e (inl refl)
  ]

  learned :
      (p : Payload) (w v : World D) (q : Payload)
      → Tells p w (Ended.returned q v)
      → is_ok q.status ≡ true
      → (known : KnownConnParams) × Learned p w v known
  learned p w v q (inl wrong) h = let no : false ≡ true = sym wrong ∙ h in cc
  learned p w v q (inr l) h = l

  -- When `learn` returns without a failure, a cash register has been learned: with the parameters of the
  -- request, under the serial number that the driver has answered to a query over the connection; they
  -- have been given to the file of that serial number, which is there, and the registry has them.
  pub learn-registered :
      (p q : Payload) (w v : World D)
      → learn o p w ≡ Ended.returned q v
      → is_ok q.status ≡ true
      → (known : KnownConnParams) × Learned p w v known
        × (registered known.serial_number v.registry ≡ some known)
  learn-registered p q w v h s =
      let (known, l) = learned p w v q (subst (Tells p w) h (learn-Tells p w)) s in
      (
        known,
        l,
        ap (registered known.serial_number) l.registry
            ∙ (registered-register known.serial_number known.serial_number known w.registry
                ∙ rw (equal_refl known.serial_number) refl),
      )
