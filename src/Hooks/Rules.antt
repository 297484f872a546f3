-- ===== src/Hooks/Rules.antt =====
-- When a rule fires: the matching of src/core/workspace/services/hook/rules.js. A matcher is a value or
-- an array of them in the source, always a list here; the document's classification and the
-- host's regular expressions are the records that the checks call.
pub mod Explained
mod Tests
use canvas_server.Prelude.{
  Bool, true, false, ◌||◌, ◌&&◌, not, Option, none, some, List, [], ◌∷◌, ◌++◌, map, any, all,
  length, String, ◌==◌, includes, or_else, is_some, Text, codes, text_eq, starts_with, has_text,
  if◌then◌else◌,
}

-- A text matcher: a substring, or an object of tests.
pub data TextMatcher : Type 0 where
  plain : Text → TextMatcher
  tests : (equals contains starts regex : Option Text) → TextMatcher
  unusable : TextMatcher

pub data UrlMatcher : Type 0 where
  plain : Text → UrlMatcher
  tests :
      (host : Option (List Text)) (prefix : Option Text) (contains : Option (List Text))
      (regex : Option Text)
      → UrlMatcher
  unusable : UrlMatcher

pub data AttachmentMatcher : Type 0 where
  any_at_all unusable : AttachmentMatcher
  mimes : List Text → AttachmentMatcher
  tests : (mime : Option (List Text)) (filename : Option (List TextMatcher)) → AttachmentMatcher

-- The `when` of a rule, with the keys that are none of the known ones.
pub record When : Type 0 where
  pub event : List String
  pub reason : Option (List String)
  pub schema : Option (List Text)
  pub path : Option (List Text)
  pub url : Option (List UrlMatcher)
  pub from : Option (List TextMatcher)
  pub to : Option (List TextMatcher)
  pub subject : Option (List TextMatcher)
  pub mime : Option (List Text)
  pub attachment : Option AttachmentMatcher
  pub unknown : List String

pub record Rule : Type 0 where
  pub enabled : Bool
  pub when : Option When

-- What the checks ask of a document.
pub record Classification : Type 0 where
  pub reason : Option String
  pub url : Option Text
  pub from : Option Text
  pub to : List Text
  pub subject : Option Text
  pub attachments : List (Option Text)
  pub is_schema : Text → Bool
  pub in_path : Text → Bool
  pub url_matches : Text → Bool
  pub url_matches_regex : Text → Bool
  pub host_matches : Text → Bool
  pub mime_matches : Text → Bool
  pub has_attachment : Option Text → Bool

-- `toLowerCase`, and whether the regular expression is valid and matches.
pub record Matching : Type 0 where
  pub lower : Text → Text
  pub regex_test : Text → Text → Bool

-- A test of an object, which passes if it is not set.
abbrev pub unless_set {ℓ} : {A : Type ℓ} → Option A → (A → Bool) → Bool
unless_set none test = true
unless_set (some x) test = test x

abbrev has_reason : Option String → List String → Bool
has_reason none rs = false
has_reason (some r) rs = includes rs r

-- A check, if its key is set.
abbrev pub checked {ℓ} : {A : Type ℓ} → Option A → (A → Bool) → Option Bool
checked none test = none
checked (some x) test = some (test x)

-- The checks that the rule sets, with their outcomes.
unfoldable pub reported : List (String × Option Bool) → List (String × Bool)
reported [] = []
reported ((key, none) ∷ rest) = reported rest
reported ((key, some b) ∷ rest) = (key, b) ∷ reported rest

-- No check that is set fails; the loop stops at the first that does.
unfoldable pub all_hold : List (String × Option Bool) → Bool
all_hold [] = true
all_hold ((key, none) ∷ rest) = all_hold rest
all_hold ((key, some b) ∷ rest) = if b then all_hold rest else false

abbrev pub empty_when : When
empty_when = record {
  event = [];
  reason = none;
  schema = none;
  path = none;
  url = none;
  from = none;
  to = none;
  subject = none;
  mime = none;
  attachment = none;
  unknown = [];
}

pub record Explanation : Type 0 where
  pub matched : Bool
  pub enabled : Bool
  pub checks : List (String × Bool)

module _ (m : Matching) where
  -- `matchText`
  unfoldable pub match_text : Option Text → TextMatcher → Bool
  match_text none matcher = false
  match_text (some actual) (plain s) = has_text (m.lower s) (m.lower actual)
  match_text (some actual) (tests equals contains starts regex) =
      unless_set equals (λ s. text_eq (m.lower actual) (m.lower s))
      && unless_set contains (λ s. has_text (m.lower s) (m.lower actual))
      && unless_set starts (λ s. starts_with (m.lower s) (m.lower actual))
      && unless_set regex (λ r. m.regex_test r actual)
  match_text (some actual) unusable = false

  -- `matchUrl`
  unfoldable pub match_url : Classification → UrlMatcher → Bool
  match_url c (plain s) = c.url_matches s
  match_url c (tests host prefix contains regex) =
      unless_set host (any c.host_matches)
      && unless_set prefix (λ s. starts_with (m.lower s) (m.lower (or_else c.url [])))
      && unless_set contains (any c.url_matches)
      && unless_set regex c.url_matches_regex
  match_url c unusable = false

  unfoldable pub match_attachment : Classification → AttachmentMatcher → Bool
  match_attachment c any_at_all = c.has_attachment none
  match_attachment c (mimes ms) = any (λ s. c.has_attachment (some s)) ms
  match_attachment c (tests mime filename) =
      unless_set mime (any (λ s. c.has_attachment (some s)))
      && unless_set filename (λ fs. any (λ name. any (match_text name) fs) c.attachments)
  match_attachment c unusable = false

  -- `WHEN_CHECKS` but for the event: each key with its check, if the rule sets it, in order
  abbrev pub checks_of : Classification → When → List (String × Option Bool)
  checks_of c w =
      ("reason", checked w.reason (has_reason c.reason))
      ∷ ("schema", checked w.schema (any c.is_schema))
      ∷ ("path", checked w.path (any c.in_path))
      ∷ ("url", checked w.url (any (match_url c)))
      ∷ ("from", checked w.from (any (match_text c.from)))
      ∷ ("to", checked w.to (any (λ t. any (λ a. match_text (some a) t) c.to)))
      ∷ ("subject", checked w.subject (any (match_text c.subject)))
      ∷ ("mime", checked w.mime (any c.mime_matches))
      ∷ ("attachment", checked w.attachment (match_attachment c))
      ∷ []

  -- The checks that `explainRule` lists.
  abbrev pub listed : Classification → String → When → List (String × Bool)
  listed c event w =
      ("event", includes w.event event) ∷ reported (checks_of c w)
      ++ map (λ key. (key, false)) w.unknown

  unfoldable pub explain_rule : Rule → String → Classification → Explanation
  explain_rule rule event c =
      let checks = listed c event (or_else rule.when empty_when) in
      record {
        matched = rule.enabled && all (λ chk. chk.1) checks;
        enabled = rule.enabled;
        checks = checks;
      }

  unfoldable pub match_rule : Rule → String → Classification → Bool
  match_rule rule event c = if not rule.enabled then false else elim rule.when [
    | none ↦ false
    | some w ↦ if not (includes w.event event) then false else all_hold (checks_of c w)
  ]
