-- ===== src/Audit/Clean.antt =====
-- What internal/audit/redact.go leaves of a value.
use pvm.Prelude.{String, true, ◌≡◌, refl, inl, inr, Bool-cases}
use pvm.Json.{Json, null, bool, num, str, arr, obj, foreign, Items, nil, cons, Fields, end, field}
use pvm.Audit.Record.{Record}
use pvm.Audit.Keys.{IsSafeKey, is_safe_summary_key-IsSafeKey}
use pvm.Audit.Redact.{is_safe_summary_key, scrub_value, scrub_items, scrub_fields, redact_record}

module _ (Q : String → Type 0) where
  -- At any depth: no key with a denied word, and every text has the property.
  abbrev mutual
    pub IsClean : Json → Type 0
    IsClean (str s) = Q s
    IsClean (arr xs) = AreClean xs
    IsClean (obj fs) = HasClean fs
    IsClean _ = Unit

    pub AreClean : Items → Type 0
    AreClean nil = Unit
    AreClean (cons x xs) = IsClean x × AreClean xs

    pub HasClean : Fields → Type 0
    HasClean end = Unit
    HasClean (field k v fs) = IsSafeKey k × IsClean v × HasClean fs

module _ (Q : String → Type 0) (redact : String → String)
    (masks : (s : String) → Q (redact s)) where
  mutual
    unfolding scrub_value

    scrub_lem : (v : Json) → IsClean Q (scrub_value redact v)
    scrub_lem null = tt
    scrub_lem (bool b) = tt
    scrub_lem (num n) = tt
    scrub_lem (str s) = masks s
    scrub_lem (arr xs) = items_lem xs
    scrub_lem (obj fs) = fields_lem fs
    scrub_lem (foreign x) = tt

    items_lem : (xs : Items) → AreClean Q (scrub_items redact xs)
    items_lem nil = tt
    items_lem (cons x xs) = (scrub_lem x, items_lem xs)

    pub fields_lem : (fs : Fields) → HasClean Q (scrub_fields redact fs)
    fields_lem end = tt
    fields_lem (field k v fs) = elim (Bool-cases (is_safe_summary_key k)) [
      | inl safe ↦ rw safe (is_safe_summary_key-IsSafeKey k safe, scrub_lem v, fields_lem fs)
      | inr bad ↦ rw bad (fields_lem fs)
    ]

  -- Whatever the value, at any depth of the maps, slices and texts of what `ScrubValue` returns there is no key that contains a denied
  -- word, in any case, and every text has any property that `RedactSecrets` establishes.
  pub scrub_value-IsClean : (v : Json) → IsClean Q (scrub_value redact v)
  scrub_value-IsClean v = scrub_lem v

-- What redaction leaves of a row: scrubbed params and masked texts; the evidence about the row itself, its
-- number, time, task, tenant and phase, and the decision, as they were.
pub record IsRedacted (Q : String → Type 0) (r u : Record) : Type 0 where
  pub params : IsClean Q u.params
  pub subject : Q u.subject
  pub action : Q u.action
  pub reason : Q u.reason
  pub evidence :
      (u.seq ≡ r.seq)
      × (u.at ≡ r.at)
      × (u.task ≡ r.task)
      × (u.tenant ≡ r.tenant)
      × (u.phase ≡ r.phase)
      × (u.decision ≡ r.decision)

-- With redaction on, a row has every text property that `RedactSecrets` establishes in its subject, action
-- and reason and at any depth of the maps, slices and texts of its params, which have no key with a denied
-- word there; its number, time, task, tenant, phase and decision stay. Values of other Go types are not looked into.
pub redact_record-IsRedacted :
    (Q : String → Type 0) (redact : String → String) (r : Record)
    → ((s : String) → Q (redact s))
    → IsRedacted Q r (redact_record true redact r)
unfolding redact_record
redact_record-IsRedacted Q redact r masks = record {
  params = scrub_value-IsClean Q redact masks r.params;
  subject = masks r.subject;
  action = masks r.action;
  reason = masks r.reason;
  evidence = (refl, refl, refl, refl, refl, refl);
}
