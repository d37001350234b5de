-- ===== src/Server/KkmOp/Registry.antt =====
-- The laws of the registry of connection parameters.
use kkm_https_adapter.Base.{
  true, false, List, [], ◌∷◌, some, All, equal, equal_iff, equal_refl, if◌then◌else◌, Bool-cases,
  inl, inr, ◌≡◌, refl, sym, ◌∙◌,
}
use kkm_https_adapter.Kkm.Driver.{WideText}
use kkm_https_adapter.Kkm.ConnParams.{KnownConnParams}
use kkm_https_adapter.Server.KkmOp.World.{registered, register}

-- Parameters stand under the serial number that they hold.
abbrev pub IsFiled : List (WideText × KnownConnParams) → Type 0
IsFiled = All (λ (e : WideText × KnownConnParams). e.1.serial_number ≡ e.0)

equal_sound : (s t : WideText) → equal s t ≡ true → s ≡ t
equal_sound s t h = (equal_iff s t).0 h

-- What is registered is found under its serial number, and what stands under others is still there.
pub registered-register :
    (s t : WideText) (p : KnownConnParams) (l : List (WideText × KnownConnParams))
    → registered t (register s p l) ≡ (if equal s t then some p else registered t l)
unfolding registered register
registered-register s t p [] = refl
registered-register s t p ((c, old) ∷ l) = elim (Bool-cases (equal c s)) [
  | inl e ↦
      let same = equal_sound c s e in
      rw (e, same) (elim (Bool-cases (equal s t)) [ inl h ↦ rw h refl | inr h ↦ rw h refl ])
  | inr e ↦ rw e (elim (Bool-cases (equal c t)) [
    | inl h ↦
        let same = equal_sound c t h in
        let apart : equal s t ≡ false = elim (Bool-cases (equal s t)) [
          | inl both ↦
              let there = equal_sound s t both in
              let here : c ≡ s = cc in let wrong : equal c s ≡ true = rw here (equal_refl s) in cc
          | inr done ↦ done
        ] in
        rw (h, apart) refl
    | inr h ↦ rw h (registered-register s t p l)
  ])
]

pub register-IsFiled :
    (s : WideText) (p : KnownConnParams) (l : List (WideText × KnownConnParams))
    → p.serial_number ≡ s
    → IsFiled l
    → IsFiled (register s p l)
unfolding register
register-IsFiled s p [] h f = (h, tt)
register-IsFiled s p ((c, old) ∷ l) h f = elim (Bool-cases (equal c s)) [
  | inl e ↦ rw e (h ∙ sym (equal_sound c s e), f.1)
  | inr e ↦ rw e (f.0, register-IsFiled s p l h f.1)
]

pub registered-IsFiled :
    (s : WideText) (p : KnownConnParams) (l : List (WideText × KnownConnParams))
    → IsFiled l
    → registered s l ≡ some p
    → p.serial_number ≡ s
unfolding registered
registered-IsFiled s p [] f h = cc
registered-IsFiled s p ((c, old) ∷ l) f h = elim (Bool-cases (equal c s)) [
  | inl e ↦
      let found : some old ≡ some p = rw e at h in
      let same = equal_sound c s e in let kept = f.0 in cc
  | inr e ↦ registered-IsFiled s p l f.1 (rw e at h)
]
