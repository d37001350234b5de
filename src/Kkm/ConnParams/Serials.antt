-- ===== src/Kkm/ConnParams/Serials.antt =====
-- Which serial numbers, and so which files, a request can name.
use kkm_https_adapter.Base.{
  ℕ, Bool, true, false, not, ◌&&◌, ◌||◌, ◌==◌, [], ◌∷◌, ◌++◌, ◌∙◌, if◌then◌else◌, List, is_nil,
  among, ◌≡◌, refl, sym, ap, Bool-cases, inl, inr, All, Result, ok, err, arith, equal, map,
}
use kkm_https_adapter.Json.{Conversions}
use kkm_https_adapter.Kkm.Driver.{WideText, wide}
use kkm_https_adapter.Kkm.ConnParams.{
  Disk, KnownConnParams, allowed, has_forbidden, filter_serial_number, filter_file_path, load,
  known_conn_params, file_path, after_ok, invalid_serial_number, invalid_file_path,
}

-- Characters that part a path: `/`, `\` and `:`, and the terminator.
abbrev pub parts_path : ℕ → Bool
parts_path c = c == b'/' || c == b'\\' || c == b':' || c == 0

-- None of the characters parts a path.
abbrev all_plain : List ℕ → Bool
all_plain [] = true
all_plain (c ∷ cs) = not (parts_path c) && all_plain cs

among-plain : (c : ℕ) (cs : List ℕ) → all_plain cs ≡ true → among c cs ≡ true → parts_path c ≡ false
unfolding among
among-plain c [] h e = cc
among-plain c (d ∷ cs) h e = ground (arith, among-plain c cs)

allowed_plain : all_plain allowed ≡ true
allowed_plain = refl

has_forbidden_lem : (t : WideText) → has_forbidden t ≡ false → All (λ c. parts_path c ≡ false) t
unfolding has_forbidden
has_forbidden_lem [] h = tt
has_forbidden_lem (c ∷ t) h = elim (Bool-cases (among c allowed)) [
  | inl e ↦ (among-plain c allowed allowed_plain e, has_forbidden_lem t (rw e at h))
  | inr e ↦ let wrong : true ≡ false = rw e at h in cc
]

All-append : (P : ℕ → Type 0) (s t : List ℕ) → All P s → All P t → All P (s ++ t)
All-append P [] t h k = k
All-append P (x ∷ s) t h k = (h.0, All-append P s t h.1 k)

or_false : (a b : Bool) → (a || b) ≡ false → (a ≡ false) × (b ≡ false)
or_false false b h = (refl, h)
or_false true b h = cc

filtered_serial :
    (serial s : WideText)
    → filter_serial_number serial ≡ ok s
    → (s ≡ serial) × (is_nil serial ≡ false) × (has_forbidden serial ≡ false)
unfolding filter_serial_number
filtered_serial serial s h = elim (Bool-cases (is_nil serial || has_forbidden serial)) [
  | inl e ↦
      let wrong : ◌≡◌ {A = Result WideText WideText} (err invalid_serial_number) (ok s) =
        rw e at h in
      cc
  | inr e ↦
      let same : ◌≡◌ {A = Result WideText WideText} (ok serial) (ok s) = rw e at h in
      let facts = or_false (is_nil serial) (has_forbidden serial) e in (cc, facts.0, facts.1)
]

after_ok_lem :
    {A B : Type 0} (f : A → Result WideText B) (r : Result WideText A) (b : B)
    → after_ok f r ≡ ok b
    → (a : A) × (r ≡ ok a) × (f a ≡ ok b)
after_ok_lem f (err e) b h = cc
after_ok_lem f (ok a) b h = (a, refl, h)

module _ {D : Type 0} (disk : Disk D) (c : Conversions) where
  checked :
      (b : Bool) (path q : WideText) (r : Result WideText WideText)
      → (r ≡ ok q → q ≡ path)
      → (if b then err invalid_file_path else r) ≡ ok q
      → q ≡ path
  checked true path q r k h =
      let wrong : ◌≡◌ {A = Result WideText WideText} (err invalid_file_path) (ok q) = h in cc
  checked false path q r k h = k h

  filtered_path : (path q : WideText) (d : D) → filter_file_path disk c path d ≡ ok q → q ≡ path
  unfolding filter_file_path
  filtered_path path q d =
      checked (not (equal (map c.to_lower_wide (disk.extension path)) (wide ".json"))) path q _ (
        checked (is_nil (disk.stem path) || has_forbidden (disk.stem path)) path q _
          (checked (not (disk.is_regular_file path d)) path q (ok path) same))
    where
      same : ◌≡◌ {A = Result WideText WideText} (ok path) (ok q) → q ≡ path
      same h = cc

  -- What parameters that are loaded have been made of.
  record Loaded (serial : WideText) (d : D) (p : KnownConnParams) : Type 0 where
    named : p.serial_number ≡ serial
    content : load disk c (file_path disk c serial) d ≡ ok p.params
    some_serial : is_nil serial ≡ false
    plain_serial : has_forbidden serial ≡ false

  known_conn_params-Loaded :
      (serial : WideText) (d : D) (p : KnownConnParams)
      → known_conn_params disk c serial d ≡ ok p
      → Loaded serial d p
  unfolding known_conn_params
  known_conn_params-Loaded serial d p h =
      let (s, is_filtered, then_path) = after_ok_lem _ (filter_serial_number serial) p h in
      let (same, long, plain) = filtered_serial serial s is_filtered in
      let (q, is_path, then_load) =
        after_ok_lem _ (filter_file_path disk c (file_path disk c s) d) p then_path in
      let place = filtered_path (file_path disk c s) q d is_path in
      let (params, is_loaded, made) = after_ok_lem _ (load disk c q d) p then_load in
      let whole : record { params = params; serial_number = s } ≡ p = cc in
      record {
        named = ap (λ (k : KnownConnParams). k.serial_number) (sym whole) ∙ same;
        content =
            ap (λ t. load disk c (file_path disk c t) d) (sym same)
            ∙ (ap (λ t. load disk c t d) (sym place)
                ∙ (is_loaded ∙ ap (λ (k : KnownConnParams). ok k.params) whole));
        some_serial = long;
        plain_serial = plain;
      }

  -- Known parameters have the serial number that they were made from.
  pub known_conn_params-serial :
      (serial : WideText) (d : D) (p : KnownConnParams)
      → known_conn_params disk c serial d ≡ ok p
      → p.serial_number ≡ serial
  known_conn_params-serial serial d p h = (known_conn_params-Loaded serial d p h).named

  -- Parameters that are loaded by a serial number have been read from the file in the directory of the
  -- parameters which that serial number and `.json` name, and no character of this name parts a path. The
  -- serial number is not empty.
  pub known_conn_params-place :
      (serial : WideText) (d : D) (p : KnownConnParams)
      → known_conn_params disk c serial d ≡ ok p
      → (load disk c (disk.append disk.db_directory (serial ++ wide ".json")) d ≡ ok p.params)
        × All (λ a. parts_path a ≡ false) (serial ++ wide ".json")
        × (is_nil serial ≡ false)
        × (p.serial_number ≡ serial)
  unfolding file_path
  known_conn_params-place serial d p h =
      let l = known_conn_params-Loaded serial d p h in
      (
        l.content,
        All-append (λ a. parts_path a ≡ false) serial (wide ".json")
            (has_forbidden_lem serial l.plain_serial) (refl, (refl, (refl, (refl, (refl, tt))))),
        l.some_serial,
        l.named,
      )
