-- ===== src/Hooks/Dispatch/Tests.antt =====
-- The dispatch of src/core/workspace/services/hook/index.js for a small batch.
use mathlib.Core.List.{Memᴰ}
use canvas_server.Prelude.{arith, lookup, inr, refl, ◌↔◌, true, false, none, some, [], ◌∷◌, codes}
use canvas_server.Hooks.Rules.{Classification, Matching, empty_when, match_rule, all_hold}
use canvas_server.Hooks.Dispatch.{
  Action, Automation, Payload, Workspace, Dispatch, document_payload, dispatch_event, is_batch_echo,
  is_duplicate_dispatch, build_dispatch_key, pruned, depth_limit, singular_event,
}
use canvas_server.Hooks.Dispatch.{Recent}
use canvas_server.Hooks.Dispatch.Once.{IsOnRecord}
use canvas_server.Hooks.Dispatch.Exact.{Fires, MayFire, dispatch_event-Fires}

abbrev matching : Matching
matching = record { lower = λ s. s; regex_test = λ r s. false }

abbrev classified : Payload → Classification
classified p = record {
  reason = none;
  url = none;
  from = none;
  to = [];
  subject = p.document;
  attachments = [];
  is_schema = λ s. false;
  in_path = λ s. false;
  url_matches = λ s. false;
  url_matches_regex = λ s. false;
  host_matches = λ s. false;
  mime_matches = λ s. false;
  has_attachment = λ s. false;
}

abbrev link : Action
link = record { approval = false; body = codes "link" }

abbrev filing : Automation
filing = record {
  rule = record {
    enabled = true;
    when = some (record empty_when { event = "document.inserted" ∷ [] });
  };
  cascade = true;
  approval = false;
  actions = record { approval = true; body = codes "delete" } ∷ link ∷ [];
}

abbrev home : Workspace
home = record { max_depth = 0; rules = filing ∷ []; get = λ id. some (codes "a photo") }

-- Two documents, inserted by a rule.
abbrev batch : Payload
batch = record {
  source = none;
  origin = some "rule";
  depth = some 1;
  batch = false;
  event_id = some (codes "e1");
  ids = some (codes "7" ∷ codes "8" ∷ []);
  named = [];
  document = none;
}

abbrev outcome : Dispatch × Recent
outcome =
    dispatch_event matching classified 5000 2 [] (λ id. some home) "document.inserted.batch" batch
      (codes "w") []

dispatch_event-Fires_example :
    (Fires outcome.0 "document.inserted"
        (document_payload batch (codes "8") (codes "a photo"))
        filing
        link
      × IsOnRecord 5000 (build_dispatch_key "document.inserted.batch" batch (codes "w")) outcome.1)
    ↔ MayFire matching classified 2 5000
        (λ id. some home)
        "document.inserted.batch"
        batch
        (codes "w")
        []
        "document.inserted"
        (document_payload batch (codes "8") (codes "a photo"))
        filing
        link
dispatch_event-Fires_example =
    dispatch_event-Fires matching classified 2 5000 [] (λ id. some home) "document.inserted.batch"
      batch (codes "w") [] "document.inserted"
      (document_payload batch (codes "8") (codes "a photo")) filing link

-- The second document of the batch has the link set, and not the deletion.
fires_test :
    MayFire matching classified 2 5000
      (λ id. some home)
      "document.inserted.batch"
      batch
      (codes "w")
      []
      "document.inserted"
      (document_payload batch (codes "8") (codes "a photo"))
      filing
      link
unfolding is_batch_echo is_duplicate_dispatch build_dispatch_key pruned depth_limit singular_event
    match_rule all_hold lookup
fires_test = record {
  not_from_hook = refl;
  no_echo = inr refl;
  fresh = tt;
  target = home;
  there = refl;
  shallow = omega arith;
  handled = inr (codes "8", codes "a photo", refl, Memᴰ.tail (Memᴰ.head refl), refl, refl);
  listed = Memᴰ.head refl;
  matches = refl;
  due = record {
    cascades = λ h. refl;
    free = refl;
    listed = Memᴰ.tail (Memᴰ.head refl);
    own = refl;
  };
}
