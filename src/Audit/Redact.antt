-- ===== src/Audit/Redact.antt =====
-- internal/audit/redact.go: `ScrubValue`, `IsSafeSummaryKey` and `RedactRecord`. `RedactSecrets`, a list of
-- regular expressions, is an argument.
use pvm.Prelude.{
  ℕ, ◌+◌, String, Bool, true, false, ◌&&◌, ◌||◌, not, List, [], ◌∷◌, ◌==◌, leb, nat_comparable,
  codes, if◌then◌else◌,
}
use pvm.Json.{Json, null, bool, num, str, arr, obj, foreign, Items, nil, cons, Fields, end, field}
use pvm.Audit.Record.{Record}

-- `unicode.ToLower`, where it gives an ASCII letter: from a capital, U+0130 and the sign U+212A.
abbrev pub lower_code : ℕ → ℕ
lower_code c =
    if leb b'A' c && leb c b'Z'
    then c + 32
    else if c == 304
    then b'i'
    else if c == 8490
    then b'k'
    else c

-- `strings.ToLower`, as far as a search for ASCII words can tell.
abbrev pub lower : List ℕ → List ℕ
lower [] = []
lower (c ∷ cs) = lower_code c ∷ lower cs

abbrev pub starts_with : List ℕ → List ℕ → Bool
starts_with cs [] = true
starts_with [] (w ∷ ws) = false
starts_with (c ∷ cs) (w ∷ ws) = let rest = starts_with cs ws in c == w && rest

-- `strings.Contains`
unfoldable pub contains : List ℕ → List ℕ → Bool
contains [] w = starts_with [] w
contains (c ∷ cs) w = let rest = contains cs w in starts_with (c ∷ cs) w || rest

abbrev pub secret_key_denylist : List String
secret_key_denylist =
    "token" ∷ "secret" ∷ "password" ∷ "passwd" ∷ "key" ∷ "credential" ∷ "cookie" ∷ "auth" ∷ []

abbrev pub avoids : List ℕ → List String → Bool
avoids low [] = true
avoids low (bad ∷ rest) = let others = avoids low rest in not (contains low (codes bad)) && others

unfoldable pub is_safe_summary_key : String → Bool
unfolding contains
is_safe_summary_key k = avoids (lower (codes k)) secret_key_denylist

-- A Go map and `map[string]string`, a slice and `[]string` are one case each here, as in their JSON.
unfoldable mutual
  pub scrub_value : (String → String) → Json → Json
  scrub_value redact null = null
  scrub_value redact (bool b) = bool b
  scrub_value redact (num n) = num n
  scrub_value redact (str s) = str (redact s)
  scrub_value redact (arr xs) = arr (scrub_items redact xs)
  scrub_value redact (obj fs) = obj (scrub_fields redact fs)
  scrub_value redact (foreign x) = foreign x

  pub scrub_items : (String → String) → Items → Items
  scrub_items redact nil = nil
  scrub_items redact (cons x xs) = cons (scrub_value redact x) (scrub_items redact xs)

  pub scrub_fields : (String → String) → Fields → Fields
  scrub_fields redact end = end
  scrub_fields redact (field k v fs) =
      let rest = scrub_fields redact fs in
      let value = scrub_value redact v in if is_safe_summary_key k then field k value rest else rest

-- `enabled` is the switch `redactionEnabled`.
unfoldable pub redact_record : Bool → (String → String) → Record → Record
redact_record false redact r = r
redact_record true redact r = record r {
  params = scrub_value redact r.params;
  subject = redact r.subject;
  action = redact r.action;
  reason = redact r.reason;
}
