-- ===== src/Hooks/Rules/Tests.antt =====
-- A rule that is explained.
use canvas_server.Prelude.{◌≡◌, true, false, ◌&&◌, none, some, [], ◌∷◌, codes, text_eq}
use canvas_server.Hooks.Rules.{
  Rule, Classification, Matching, TextMatcher, empty_when, explain_rule, match_rule,
}
use canvas_server.Hooks.Rules.Explained.{is_nil, explain_rule-match_rule}

abbrev matching : Matching
matching = record { lower = λ s. s; regex_test = λ r s. false }

abbrev mail : Classification
mail = record {
  reason = some "content";
  url = none;
  from = some (codes "jane@x.y");
  to = [];
  subject = some (codes "invoice 7");
  attachments = [];
  is_schema = λ s. text_eq s (codes "email");
  in_path = λ p. false;
  url_matches = λ s. false;
  url_matches_regex = λ s. false;
  host_matches = λ s. false;
  mime_matches = λ s. false;
  has_attachment = λ s. false;
}

abbrev filing : Rule
filing = record {
  enabled = true;
  when = some (record empty_when {
    event = "document.inserted" ∷ [];
    subject = some (TextMatcher.plain (codes "invoice") ∷ []);
    unknown = "subjects" ∷ [];
  });
}

explain_rule-match_rule_example :
    (explain_rule matching filing "document.inserted" mail).matched
    ≡ (match_rule matching filing "document.inserted" mail && is_nil ("subjects" ∷ []))
explain_rule-match_rule_example = explain_rule-match_rule matching filing "document.inserted" mail
