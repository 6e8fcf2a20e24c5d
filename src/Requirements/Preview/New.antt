-- ===== src/Requirements/Preview/New.antt =====
-- A draft that a preview gives has the preview's identifier, and no call yet.
use lucky_tag.Common.{ℕ, ◌-◌, ◌≡◌, refl, Option, none, List, [], ◌∷◌, length, Bool-cases, inl, inr}
use lucky_tag.Act.{and_then}
use lucky_tag.Contracts.{DemoMessageMessage}
use lucky_tag.Host.{Host}
use lucky_tag.Requirements.{Platform, Template, Cycle, RequirementInput}
use lucky_tag.Requirements.Generate.{generate_requirement_draft}
use lucky_tag.Requirements.Preview.{
  Gateway, Draft, Named, all_of, cycle_of, draft_with, draft_over, extract_template_record_id,
  read_chat, look_up, preview_requirement, window_milliseconds,
}
use lucky_tag.Text.{Text, text_eq}
use lucky_tag.Worker.Effects.{Result, ok, err}

abbrev pub IsNew : Text → Draft → Type 0
IsNew id d = (d.preview.draft_id ≡ id) × (d.in_flight ≡ none)

abbrev pub Gives : (Draft → Type 0) → Result Draft → Type 0
Gives P (ok d) = P d
Gives P (err e) = Unit

Gives-and_then {ℓ} :
    {A : Type ℓ} (P : Draft → Type 0) (r : Result A) (f : A → Result Draft)
    → ((a : A) → Gives P (f a))
    → Gives P (and_then r f)
Gives-and_then P (ok a) f h = h a
Gives-and_then P (err e) f h = tt

module _ (p : Platform) (h : Host) (g : Gateway) (id : Text) (now : ℕ) where
  draft_over-IsNew :
      (start : ℕ) (group : Named) (template : Template) (space : Named) (cycle : Option Cycle)
      (messages : List DemoMessageMessage)
      → Gives (IsNew id) (draft_over p h g id now start group template space cycle messages)
  unfolding draft_over draft_with
  draft_over-IsNew start group template space cycle [] = tt
  draft_over-IsNew start group template space cycle (m ∷ messages) =
      Gives-and_then (IsNew id) (generate_requirement_draft p h group.name start now (m ∷ messages))
        (λ generated. ok (
          draft_with p h g id now start group template space cycle (length (m ∷ messages))
            generated))
        (λ generated. (refl, refl))

  read_chat-IsNew :
      (input : RequirementInput) (group : Named) (template : Template) (space : Named)
      → Gives (IsNew id) (read_chat p h g input now id group template space)
  unfolding read_chat
  read_chat-IsNew input group template space =
      elim (Bool-cases (text_eq template.project_id space.id)) [
        | inl same ↦
            let start : ℕ = now - window_milliseconds input.chat_window in
            rw same (
              Gives-and_then (IsNew id)
                (all_of g.earlier (g.read_messages group.id start now)
                  (cycle_of g space.id input.iteration))
                (λ read. draft_over p h g id now start group template space read.1 read.0)
                (λ read. draft_over-IsNew start group template space read.1 read.0))
        | inr other ↦ rw other tt
      ]

  look_up-IsNew :
      (input : RequirementInput) (record_id : Text)
      → Gives (IsNew id) (look_up p h g input now id record_id)
  unfolding look_up
  look_up-IsNew input record_id =
      Gives-and_then (IsNew id)
        (all_of g.earlier
          (all_of g.earlier (g.find_group_by_name input.group_name) (g.get_template record_id))
          (g.resolve_space input.demo_project))
        (λ found. read_chat p h g input now id found.0.0 found.0.1 found.1)
        (λ found. read_chat-IsNew input found.0.0 found.0.1 found.1)

  pub preview_requirement-IsNew :
      (input : RequirementInput) → Gives (IsNew id) (preview_requirement p h g input now id)
  unfolding preview_requirement
  preview_requirement-IsNew input =
      Gives-and_then (IsNew id) (extract_template_record_id g input.template_url)
        (look_up p h g input now id) (look_up-IsNew input)
