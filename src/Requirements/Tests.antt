-- ===== src/Requirements/Tests.antt =====
-- A chat with one request, its draft, and a creation that fails once.
use lucky_tag.Common.{
  ◌+◌, ◌≤◌, ◌≡◌, refl, Bool, true, false, none, some, List, [], ◌∷◌, length, count, ltb, find, ◌==◌,
  ◌&&◌,
}
use lucky_tag.Contracts.{DemoMessageMessage}
use lucky_tag.Host.{epoch}
use lucky_tag.Requirements.{
  Pattern, Platform, ChatWindow, Template, CreatedRecord, RequirementInput, RequirementCreateInput,
  RequirementEvidence,
}
use lucky_tag.Requirements.Drafts.{
  Workflow, Event, Call, CallState, Reply, create_requirement, settle, steps, no_drafts,
  create_request, id_of, is_under_way,
}
use lucky_tag.Requirements.Drafts.Once.{may_create, steps_create_once}
use lucky_tag.Requirements.Drafts.Settled.{create_requirement-settle}
use lucky_tag.Requirements.Generate.{Generated, generate_requirement_draft, evidence_of}
use lucky_tag.Requirements.Generate.Bounds.{generate_requirement_draft_bounds}
use lucky_tag.Requirements.Preview.{Gateway, Draft}
use lucky_tag.Text.{Text, lit, text_eq, member}
use lucky_tag.Text.Keyed.{find_key}
use lucky_tag.Worker.Effects.{Result, ok, err}
use lucky_tag.Worker.Sample.{host}
use mathlib.Core.List.{Memᴰ}

abbrev matches : Pattern → Bool
matches Pattern.explicit_record = true
matches _ = false

abbrev platform : Platform
platform = record {
  test = λ pattern text. matches pattern;
  replace = λ pattern text substitute. text;
  split = λ pattern text. text ∷ [];
  to_lower_case = λ text. text;
  format_time = λ at. at ∷ [];
  title_before = λ a b c d. ltb c a;
}

abbrev chat : DemoMessageMessage
chat = record {
  id = 1 ∷ [];
  group_id = 103 ∷ [];
  text = 65 ∷ 66 ∷ [];
  created_at = 50 ∷ [];
  recalled = false;
  is_self = false;
  sender_id = none;
  sender_label = none;
}

abbrev generated_of : Result Generated → Generated
generated_of (ok g) = g
generated_of (err e) = record { title = []; description = []; evidence = [] }

abbrev generated : Generated
unfolding generate_requirement_draft
generated = generated_of (generate_requirement_draft platform host [] 0 100 (chat ∷ []))

generated_ok : generate_requirement_draft platform host [] 0 100 (chat ∷ []) ≡ ok generated
unfolding generate_requirement_draft
generated_ok = refl

generate_requirement_draft_bounds_example :
    (length generated.title ≤ 120)
    × (length generated.description ≤ 18000)
    × (1 ≤ length generated.evidence)
    × (length generated.evidence ≤ 12)
    × ((e : RequirementEvidence)
        → Memᴰ e generated.evidence
        → (length e.text ≤ 800)
          × ((m : DemoMessageMessage) × Memᴰ m (chat ∷ [])
              × (m.recalled ≡ false)
              × (e ≡ evidence_of platform m)))
generate_requirement_draft_bounds_example =
    generate_requirement_draft_bounds platform host [] 0 100 (chat ∷ []) generated_ok

abbrev template : Template
template = record {
  record_id = [];
  title = [];
  project_id = 80 ∷ [];
  project_name = [];
  record_type_id = [];
  priority_id = none;
  processor = none;
  members = [];
  verifiers = [];
  tags = [];
}

abbrev gateway : Gateway
unfolding lit
gateway = record {
  parse_url = λ value. some (record {
    protocol = lit "https:";
    hostname = lit "workflow.example.invalid";
    query = λ name. some (lit "1234567890");
  });
  find_group_by_name = λ name. ok (record { id = 103 ∷ []; name = name });
  get_template = λ id. ok template;
  resolve_space = λ text. ok (record { id = 80 ∷ []; name = text });
  read_messages = λ group start finish. ok (chat ∷ []);
  resolve_cycle = λ project text. err [];
  earlier = λ e f. e;
}

abbrev input : RequirementInput
input = record {
  group_name = 71 ∷ [];
  chat_window = ChatWindow.one_day;
  demo_project = 80 ∷ [];
  iteration = [];
  template_url = [];
}

abbrev asked : RequirementCreateInput
asked = record { draft_id = 7 ∷ []; title = 84 ∷ []; description = [] }

abbrev events : List Event
events =
    Event.previewed gateway input epoch (7 ∷ [])
    ∷ Event.create asked (epoch + 1)
    ∷ Event.settled 0 (err []) (epoch + 2)
    ∷ Event.create asked (epoch + 3)
    ∷ []

steps_create_once_example :
    count (may_create (7 ∷ [])) (steps platform host events no_drafts).calls ≤ 1
unfolding member
steps_create_once_example = steps_create_once platform host events (refl, tt) (7 ∷ [])

-- The second call is under way.
events_call : count (may_create (7 ∷ [])) (steps platform host events no_drafts).calls ≡ 1
unfolding steps count
events_call = refl

abbrev draft : Draft
draft = record {
  preview = record {
    draft_id = 7 ∷ [];
    title = 84 ∷ [];
    description = [];
    group_name = [];
    window_start = [];
    window_end = [];
    message_count = 1;
    evidence = [];
    project_id = 80 ∷ [];
    project_name = [];
    template_record_id = [];
    template_title = [];
    processor = none;
    members = [];
    cycle_id = none;
    cycle_name = none;
    expires_at = 1000 ∷ [];
  };
  template = template;
  cycle = none;
  result = none;
  in_flight = some 0;
}

abbrev call : Call
call = record {
  number = 0;
  draft_id = 7 ∷ [];
  request = create_request asked draft;
  state = CallState.under_way;
}

abbrev waiting : Workflow
waiting = record { drafts = draft ∷ []; calls = call ∷ []; next = 1 }

waiting_found : find_key id_of asked.draft_id waiting.drafts ≡ some draft
unfolding find_key text_eq
waiting_found = refl

waiting_answers : find (λ c. c.number == 0 && is_under_way c.state) waiting.calls ≡ some call
unfolding find
waiting_answers = refl

create_requirement-settle_example :
    ((answer : CreatedRecord)
      → ((create_requirement host asked 60 (settle host 0 (ok answer) 55 waiting)).1
          ≡ Reply.known (record {
            record_id = answer.record_id;
            title = call.request.title;
            url = answer.url;
            project_id = call.request.project_id;
            cycle_id = call.request.cycle_id;
            created_at = host.to_iso 55;
          }))
        × ((create_requirement host asked 60 (settle host 0 (ok answer) 55 waiting)).0.next ≡ 1))
    × ((e : Text)
        → (create_requirement host asked 60 (settle host 0 (err e) 55 waiting)).1 ≡ Reply.called 1)
create_requirement-settle_example =
    create_requirement-settle host 0 55 60 waiting asked draft call waiting_found refl refl
      waiting_answers refl
