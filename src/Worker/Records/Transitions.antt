-- ===== src/Worker/Records/Transitions.antt =====
-- What `setStatus` does to the list of records.
use lucky_tag.Common.{
  ◌≡◌, ◌⊎◌, inl, inr, refl, true, Option, none, some, List, [], ◌∷◌, arith, Bool-cases,
}
use lucky_tag.Contracts.{ReplyStatus, ReplyRecord}
use lucky_tag.Text.{Text, text_eq, text_eq_iff}
use lucky_tag.Worker.Effects.{Result, ok, err}
use lucky_tag.Worker.Records.{Patch, patched, set_each, onto, onto_selected, or_else}
use lucky_tag.Worker.Status.{may_become}
use mathlib.Core.List.{Memᴰ}

-- A later version of a record: the same record and delivery key, in a status that it may have
-- moved to.
pub record IsVersion (r r' : ReplyRecord) : Type 0 where
  pub id : r'.id ≡ r.id
  pub message_id : r'.message_id ≡ r.message_id
  pub group_id : r'.group_id ≡ r.group_id
  pub idempotency_uuid : r'.idempotency_uuid ≡ r.idempotency_uuid
  pub created_at : r'.created_at ≡ r.created_at
  pub legal : (r'.status ≡ r.status) ⊎ (may_become r.status r'.status ≡ true)

-- Entry by entry, in the same order.
pub data Versions : List ReplyRecord → List ReplyRecord → Type 0 where
  nil : Versions [] []
  cons :
      {r r' : ReplyRecord} {rs rs' : List ReplyRecord}
      → IsVersion r r'
      → Versions rs rs'
      → Versions (r ∷ rs) (r' ∷ rs')

pub IsVersion-refl : (r : ReplyRecord) → IsVersion r r
IsVersion-refl r = record {
  id = refl;
  message_id = refl;
  group_id = refl;
  idempotency_uuid = refl;
  created_at = refl;
  legal = inl refl;
}

patched-IsVersion :
    (status : ReplyStatus) (patch : Patch) (at : Text) (r : ReplyRecord)
    → may_become r.status status ≡ true
    → IsVersion r (patched status patch at r)
unfolding patched
patched-IsVersion status patch at r e = record {
  id = refl;
  message_id = refl;
  group_id = refl;
  idempotency_uuid = refl;
  created_at = refl;
  legal = inr e;
}

-- The record that `setStatus` returns: a stored record, patched by a legal move.
pub record IsSelected (record_id : Text) (status : ReplyStatus) (patch : Patch) (at : Text)
    (rs rs' : List ReplyRecord) (r' : ReplyRecord) : Type 0 where
  pub before : ReplyRecord
  pub found : Memᴰ before rs
  pub named : before.id ≡ record_id
  pub legal : may_become before.status status ≡ true
  pub after : r' ≡ patched status patch at before
  pub stored : Memᴰ r' rs'

onto-eq-ok :
    (r : ReplyRecord) (res : Result (List ReplyRecord × Option ReplyRecord))
    {rs' : List ReplyRecord} {sel : Option ReplyRecord}
    → onto r res ≡ ok (rs', sel)
    → (rest : List ReplyRecord) × (res ≡ ok (rest, sel)) × (rs' ≡ r ∷ rest)
onto-eq-ok r (ok (rest, sel)) e = (rest, cc, cc)
onto-eq-ok r (err m) e = absurd (cc)

onto_selected-eq-ok :
    (r : ReplyRecord) (res : Result (List ReplyRecord × Option ReplyRecord))
    {rs' : List ReplyRecord} {sel : Option ReplyRecord}
    → onto_selected r res ≡ ok (rs', sel)
    → (rest : List ReplyRecord) × (last : Option ReplyRecord) × (res ≡ ok (rest, last))
      × (rs' ≡ r ∷ rest)
      × (sel ≡ or_else last (some r))
onto_selected-eq-ok r (ok (rest, last)) e = (rest, last, refl, cc, cc)
onto_selected-eq-ok r (err m) e = absurd (cc)

module _ (record_id : Text) (status : ReplyStatus) (patch : Patch) (at : Text) where
  abbrev Outcome : List ReplyRecord → List ReplyRecord → Option ReplyRecord → Type 0
  Outcome rs rs' sel =
      Versions rs rs'
      × ((r' : ReplyRecord) → sel ≡ some r' → IsSelected record_id status patch at rs rs' r')

  -- One more record that is left alone.
  skip-Outcome :
      (r : ReplyRecord) (rs rest : List ReplyRecord) (sel : Option ReplyRecord)
      → Outcome rs rest sel
      → Outcome (r ∷ rs) (r ∷ rest) sel
  skip-Outcome r rs rest sel (versions, chosen) = (
    Versions.cons (IsVersion-refl r) versions,
    λ r' e.
        let c = chosen r' e in
        record {
          before = c.before;
          found = Memᴰ.tail c.found;
          named = c.named;
          legal = c.legal;
          after = c.after;
          stored = Memᴰ.tail c.stored;
        },
  )

  -- One more record that is moved; it is selected if no later one is.
  move-Outcome :
      (r : ReplyRecord) (rs rest : List ReplyRecord) (last : Option ReplyRecord)
      → r.id ≡ record_id
      → may_become r.status status ≡ true
      → Outcome rs rest last
      → Outcome
          (r ∷ rs)
          (patched status patch at r ∷ rest)
          (or_else last (some (patched status patch at r)))
  move-Outcome r rs rest none same legal (versions, chosen) = (
    Versions.cons (patched-IsVersion status patch at r legal) versions,
    λ r' e. record {
      before = r;
      found = Memᴰ.head refl;
      named = same;
      legal = legal;
      after = cc;
      stored = Memᴰ.head (cc);
    },
  )
  move-Outcome r rs rest (some l) same legal (versions, chosen) = (
    Versions.cons (patched-IsVersion status patch at r legal) versions,
    λ r' e.
        let c = chosen r' e in
        record {
          before = c.before;
          found = Memᴰ.tail c.found;
          named = c.named;
          legal = c.legal;
          after = c.after;
          stored = Memᴰ.tail c.stored;
        },
  )

  pub set_each-Outcome :
      (rs rs' : List ReplyRecord) (sel : Option ReplyRecord)
      → set_each record_id status patch at rs ≡ ok (rs', sel)
      → Outcome rs rs' sel
  unfolding set_each
  set_each-Outcome [] rs' sel e =
      let no_record : rs' ≡ [] = cc in
      let no_choice : sel ≡ none = cc in
      rw (no_record, no_choice) (Versions.nil, λ r' chosen. absurd (cc))
  set_each-Outcome (r ∷ rs) rs' sel e = elim (Bool-cases (text_eq r.id record_id)) [
    | inl same ↦ elim (Bool-cases (may_become r.status status)) [
      | inl legal ↦
          let (rest, last, e', shape, chosen) = onto_selected-eq-ok _ _ (rw (same, legal) at e) in
          rw (shape, chosen)
            (move-Outcome r rs rest last ((text_eq_iff _ _).0 same) legal
              (set_each-Outcome rs rest last e'))
      | inr illegal ↦ absurd (ground arith)
    ]
    | inr other ↦
        let (rest, e', shape) = onto-eq-ok _ _ (rw other at e) in
        rw shape (skip-Outcome r rs rest sel (set_each-Outcome rs rest sel e'))
  ]
