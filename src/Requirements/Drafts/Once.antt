-- ===== src/Requirements/Drafts/Once.antt =====
-- At most one record is created for a draft.
use lucky_tag.Common.{
  ℕ, ◌≤◌, ◌≡◌, refl, sym, ap, ◌∙◌, Bool, true, false, not, ◌&&◌, ◌==◌, ==_iff, Option, none, some,
  List, [], ◌∷◌, map, arith, subst, filter, find, count, count-map-le, mem_of_mem-map,
  mem_of_mem-filter, Bool-cases, Option-cases, inl, inr,
}
use lucky_tag.Host.{Host}
use lucky_tag.Requirements.{Platform, CreatedRecord, RequirementCreateInput, RequirementResult}
use lucky_tag.Requirements.Drafts.{
  CallState, Call, Workflow, Event, id_of, is_expired, is_under_way, is_flight,
  remove_expired_drafts, busy_with, start_call, go_on, store_draft, create_requirement, marked,
  landed, settle_call, settle, result_of, step, steps, no_drafts,
}
use lucky_tag.Requirements.Preview.{Draft, preview_requirement}
use lucky_tag.Requirements.Preview.New.{IsNew, Gives, preview_requirement-IsNew}
use lucky_tag.Text.{Text, text_eq, text_eq_iff, member}
use lucky_tag.Text.Keyed.{find_key, put_entry, mem_of_find_key, mem_of_mem-put_entry}
use lucky_tag.Worker.Effects.{Result, ok, err}
use mathlib.Core.List.{Memᴰ}

abbrev is_failed : CallState → Bool
is_failed CallState.failed = true
is_failed _ = false

-- A call for the draft that created a record, or still may.
abbrev pub may_create : Text → Call → Bool
may_create id c = text_eq c.draft_id id && not (is_failed c.state)

abbrev other_may_create : ℕ → Text → Call → Bool
other_may_create n id c = may_create id c && not (c.number == n && is_under_way c.state)

-- `randomUUID` gives each preview an identifier that none before had.
abbrev pub IsFresh : List Text → List Event → Type 0
IsFresh used [] = Unit
IsFresh used (Event.previewed g input now id ∷ es) =
    (member id used ≡ false) × IsFresh (id ∷ used) es
IsFresh used (Event.preview_started now ∷ es) = IsFresh used es
IsFresh used (Event.create input now ∷ es) = IsFresh used es
IsFresh used (Event.settled n answer at ∷ es) = IsFresh used es

record IsSingle (used : List Text) (w : Workflow) : Type 0 where
  once : (id : Text) → count (may_create id) w.calls ≤ 1
  fresh : (id : Text) → member id used ≡ false → count (may_create id) w.calls ≡ 0
  owned : (d : Draft) → Memᴰ d w.drafts → member (id_of d) used ≡ true
  idle :
      (d : Draft)
      → Memᴰ d w.drafts
      → d.in_flight ≡ none
      → d.result ≡ none
      → count (may_create (id_of d)) w.calls ≡ 0
  busy :
      (d : Draft) (n : ℕ)
      → Memᴰ d w.drafts
      → d.in_flight ≡ some n
      → count (other_may_create n (id_of d)) w.calls ≡ 0

remove_expired_drafts-IsSingle :
    (h : Host) (now : ℕ) {used : List Text} {w : Workflow}
    → IsSingle used w
    → IsSingle used (remove_expired_drafts h now w)
unfolding remove_expired_drafts
remove_expired_drafts-IsSingle h now {used} {w} i =
    let was : (d : Draft)
        → Memᴰ d (filter (λ d. not (is_expired h now d)) w.drafts)
        → Memᴰ d w.drafts =
      λ d m. (mem_of_mem-filter (λ d. not (is_expired h now d)) w.drafts m).0 in
    record {
      once = i.once;
      fresh = i.fresh;
      owned = λ d m. i.owned d (was d m);
      idle = λ d m. i.idle d (was d m);
      busy = λ d n m. i.busy d n (was d m);
    }

IsSingle-used :
    (id : Text) {used : List Text} {w : Workflow} → IsSingle used w → IsSingle (id ∷ used) w
unfolding member
IsSingle-used id i = record {
  once = i.once;
  fresh = λ j m. i.fresh j (ground (arith, m));
  owned = λ d m. ground (arith, i.owned d m);
  idle = i.idle;
  busy = i.busy;
}

put_entry-IsSingle :
    (d : Draft) {used : List Text} {w : Workflow}
    → IsSingle used w
    → member (id_of d) used ≡ false
    → d.in_flight ≡ none
    → IsSingle (id_of d ∷ used) (record w { drafts = put_entry id_of d w.drafts })
unfolding member
put_entry-IsSingle d {used} {w} i new quiet = record {
  once = i.once;
  fresh = λ id m. i.fresh id ground (arith, m);
  owned = λ e m. elim (mem_of_mem-put_entry id_of d w.drafts m) [
    | inl same ↦ ground (arith, (text_eq_iff (id_of e) (id_of d)).1 (ap id_of same))
    | inr old ↦ ground (arith, i.owned e old)
  ];
  idle = λ e m a b. elim (mem_of_mem-put_entry id_of d w.drafts m) [
    | inl same ↦
        subst (λ x. count (may_create (id_of x)) w.calls ≡ 0) (sym same) (i.fresh (id_of d) new)
    | inr old ↦ i.idle e old a b
  ];
  busy = λ e n m a. elim (mem_of_mem-put_entry id_of d w.drafts m) [
    | inl same ↦ absurd (cc (ap (λ (x : Draft). x.in_flight) same))
    | inr old ↦ i.busy e n old a
  ];
}

text_eq-false : (s t : Text) → text_eq s t ≡ false → text_eq t s ≡ false
text_eq-false s t e = elim (Bool-cases (text_eq t s)) [
  | inl f ↦ absurd (cc (e, (text_eq_iff s t).1 (sym ((text_eq_iff t s).0 f))))
  | inr f ↦ f
]

id_of-busy_with : (n : ℕ) (id : Text) (d : Draft) → id_of (busy_with n id d) ≡ id_of d
id_of-busy_with n id d = ground arith

count-other-le :
    (n : ℕ) (id : Text) (cs : List Call)
    → count (other_may_create n id) cs ≤ count (may_create id) cs
unfolding count
count-other-le n id [] = omega arith
count-other-le n id (c ∷ cs) = ground (arith, count-other-le n id cs)

start_call-IsSingle :
    (input : RequirementCreateInput) (d : Draft) {used : List Text} {w : Workflow}
    → IsSingle used w
    → Memᴰ d w.drafts
    → d.in_flight ≡ none
    → d.result ≡ none
    → IsSingle used (start_call input d w)
unfolding start_call count
start_call-IsSingle input d {used} {w} i m quiet unknown = record {
  once = λ id. elim (Bool-cases (text_eq (id_of d) id)) [
    | inl same ↦
        let none_yet =
          subst (λ x. count (may_create x) w.calls ≡ 0) ((text_eq_iff (id_of d) id).0 same)
            (i.idle d m quiet unknown) in
        ground (arith, same, none_yet)
    | inr other ↦ ground (arith, other, i.once id)
  ];
  fresh = λ id new. elim (Bool-cases (text_eq (id_of d) id)) [
    | inl same ↦
        let known =
          subst (λ x. member x used ≡ true) ((text_eq_iff (id_of d) id).0 same) (i.owned d m) in
        absurd (cc)
    | inr other ↦ ground (arith, other, i.fresh id new)
  ];
  owned = λ e n.
      let (f, n', q) = mem_of_mem-map (busy_with w.next (id_of d)) w.drafts n in
      rw (ap id_of q ∙ id_of-busy_with w.next (id_of d) f) (i.owned f n');
  idle = λ e n a b.
      let (f, n', q) = mem_of_mem-map (busy_with w.next (id_of d)) w.drafts n in
      elim (Bool-cases (text_eq (id_of f) (id_of d))) [
        | inl same ↦ absurd (ground (arith, same, a, ap (λ (x : Draft). x.in_flight) q))
        | inr other ↦
            let same : e ≡ f = q ∙ rw other refl in
            let apart = text_eq-false (id_of f) (id_of d) other in
            let zero =
              i.idle f n' (ap (λ (x : Draft). x.in_flight) (sym same) ∙ a)
                (ap (λ (x : Draft). x.result) (sym same) ∙ b) in
            subst (λ x. count (may_create (id_of x)) (start_call input d w).calls ≡ 0) (sym same)
              (ground (arith, apart, zero))
      ];
  busy = λ e k n a.
      let (f, n', q) = mem_of_mem-map (busy_with w.next (id_of d)) w.drafts n in
      elim (Bool-cases (text_eq (id_of f) (id_of d))) [
        | inl same ↦
            let own : id_of e ≡ id_of d =
              ap id_of q
              ∙ id_of-busy_with w.next (id_of d) f
              ∙ (text_eq_iff (id_of f) (id_of d)).0 same in
            let flight : k ≡ w.next = ground (arith, same, a, ap (λ (x : Draft). x.in_flight) q) in
            subst (λ x. count (other_may_create k x) (start_call input d w).calls ≡ 0) (sym own)
              (subst (λ j. count (other_may_create j (id_of d)) (start_call input d w).calls ≡ 0)
                (sym flight)
                (ground (
                  arith,
                  i.idle d m quiet unknown,
                  count-other-le w.next (id_of d) w.calls,
                  ==_iff w.next w.next,
                )))
        | inr other ↦
            let same : e ≡ f = q ∙ rw other refl in
            let apart = text_eq-false (id_of f) (id_of d) other in
            let zero = i.busy f k n' (ap (λ (x : Draft). x.in_flight) (sym same) ∙ a) in
            subst (λ x. count (other_may_create k (id_of x)) (start_call input d w).calls ≡ 0)
              (sym same) (ground (arith, apart, zero))
      ];
}

id_of-landed :
    (n : ℕ) (result : Option RequirementResult) (d : Draft) → id_of (landed n result d) ≡ id_of d
id_of-landed n none d = ground arith
id_of-landed n (some r) d = ground arith

landed_other :
    (n : ℕ) (result : Option RequirementResult) (d : Draft)
    → is_flight n d.in_flight ≡ false
    → landed n result d ≡ d
landed_other n none d e = rw e refl
landed_other n (some r) d e = rw e refl

in_flight-landed :
    (n : ℕ) (result : Option RequirementResult) (d : Draft)
    → is_flight n d.in_flight ≡ true
    → (landed n result d).in_flight ≡ none
in_flight-landed n none d e = rw e refl
in_flight-landed n (some r) d e = rw e refl

result-landed :
    (n : ℕ) (result : Option RequirementResult) (d : Draft)
    → is_flight n d.in_flight ≡ true
    → (landed n result d).result ≡ none
    → result ≡ none
result-landed n none d e f = refl
result-landed n (some r) d e f = absurd (ground (arith, e, f))

in_flight-eq-some : (n : ℕ) (flight : Option ℕ) → is_flight n flight ≡ true → flight ≡ some n
in_flight-eq-some n none e = cc
in_flight-eq-some n (some m) e = ap some ((==_iff m n).0 e)

landed-IsSingle :
    (n : ℕ) (state : CallState) (result : Option RequirementResult) {used : List Text}
    {w : Workflow}
    → (result ≡ none → is_failed state ≡ true)
    → IsSingle used w
    → IsSingle used
        (record w { drafts = map (landed n result) w.drafts; calls = map (marked n state) w.calls })
landed-IsSingle n state result {used} {w} tells i =
    let fewer : (id : Text)
        → count (may_create id) (map (marked n state) w.calls) ≤ count (may_create id) w.calls =
      λ id.
        count-map-le (may_create id) (may_create id) (marked n state) (λ c e. ground (arith, e))
          w.calls in
    record {
      once = λ id. omega (arith, fewer id, i.once id);
      fresh = λ id new. omega (arith, fewer id, i.fresh id new);
      owned = λ d m.
          let (e, m', q) = mem_of_mem-map (landed n result) w.drafts m in
          rw (ap id_of q ∙ id_of-landed n result e) (i.owned e m');
      idle = λ d m a b.
          let (e, m', q) = mem_of_mem-map (landed n result) w.drafts m in idle-landed d e m' q a b;
      busy = λ d k m a.
          let (e, m', q) = mem_of_mem-map (landed n result) w.drafts m in
          elim (Bool-cases (is_flight n e.in_flight)) [
            | inl mine ↦
                absurd (cc (a, ap (λ (x : Draft). x.in_flight) q, in_flight-landed n result e mine))
            | inr other ↦
                let same : d ≡ e = q ∙ landed_other n result e other in
                let kept : e.in_flight ≡ some k = ap (λ (x : Draft). x.in_flight) (sym same) ∙ a in
                let apart : (k == n) ≡ false = ap (is_flight n) (sym kept) ∙ other in
                let fewer_others =
                  count-map-le (other_may_create k (id_of e)) (other_may_create k (id_of e))
                    (marked n state) (λ c f. ground (arith, f, apart)) w.calls in
                rw same (omega (arith, fewer_others, i.busy e k m' kept))
          ];
    }
  where
    idle-landed :
        (d e : Draft)
        → Memᴰ e w.drafts
        → d ≡ landed n result e
        → d.in_flight ≡ none
        → d.result ≡ none
        → count (may_create (id_of d)) (map (marked n state) w.calls) ≡ 0
    idle-landed d e m q a b = elim (Bool-cases (is_flight n e.in_flight)) [
      | inl mine ↦
          let lost : result ≡ none =
            result-landed n result e mine (ap (λ (x : Draft). x.result) (sym q) ∙ b) in
          let fewer =
            count-map-le (may_create (id_of e)) (other_may_create n (id_of e)) (marked n state)
              (λ c f. ground (arith, f, tells lost)) w.calls in
          rw (ap id_of q ∙ id_of-landed n result e)
            (omega (arith, fewer, i.busy e n m (in_flight-eq-some n e.in_flight mine)))
      | inr other ↦
          let same : d ≡ e = q ∙ landed_other n result e other in
          let zero =
            i.idle e m (ap (λ (x : Draft). x.in_flight) (sym same) ∙ a)
              (ap (λ (x : Draft). x.result) (sym same) ∙ b) in
          let fewer =
            count-map-le (may_create (id_of e)) (may_create (id_of e)) (marked n state)
              (λ c f. ground (arith, f)) w.calls in
          rw same (omega (arith, fewer, zero))
    ]

settle_call-IsSingle :
    (h : Host) (call : Option Call) (answer : Result CreatedRecord) (at : ℕ) {used : List Text}
    {w : Workflow}
    → IsSingle used w
    → IsSingle used (settle_call h call answer at w)
unfolding settle_call
settle_call-IsSingle h none answer at i = i
settle_call-IsSingle h (some call) (ok made) at i =
    landed-IsSingle call.number CallState.created (some (result_of h call.request made at))
      (λ e. absurd (cc)) i
settle_call-IsSingle h (some call) (err e) at i =
    landed-IsSingle call.number CallState.failed none (λ e. refl) i

go_on-IsSingle :
    (input : RequirementCreateInput) (found : Option Draft) {used : List Text} {w : Workflow}
    → ((d : Draft) → found ≡ some d → Memᴰ d w.drafts)
    → IsSingle used w
    → IsSingle used (go_on input found w).0
unfolding start_call
go_on-IsSingle input none m i = i
go_on-IsSingle input (some d) m i = elim (Option-cases d.result) [
  | inr (r, known) ↦ rw known i
  | inl unknown ↦ elim (Option-cases d.in_flight) [
    | inr (n, flying) ↦ rw (unknown, flying) i
    | inl quiet ↦ rw (unknown, quiet) (start_call-IsSingle input d i (m d refl) quiet unknown)
  ]
]

store_draft-IsSingle :
    (id : Text) (r : Result Draft) {used : List Text} {w : Workflow}
    → Gives (IsNew id) r
    → member id used ≡ false
    → IsSingle used w
    → IsSingle (id ∷ used) (store_draft r w)
store_draft-IsSingle id (ok d) {used} {w} (named, quiet) new i =
    subst (λ x. IsSingle (x ∷ used) (store_draft (ok d) w)) named
      (put_entry-IsSingle d i (subst (λ x. member x used ≡ false) (sym named) new) quiet)
store_draft-IsSingle id (err e) none_given new i = IsSingle-used id i

no_drafts-IsSingle : IsSingle [] no_drafts
unfolding count
no_drafts-IsSingle = record {
  once = λ id. omega arith;
  fresh = λ id new. refl;
  owned = λ d m. elim m [ ];
  idle = λ d m a b. elim m [ ];
  busy = λ d n m a. elim m [ ];
}

module _ (p : Platform) (h : Host) where
  steps-IsSingle :
      (es : List Event) {used : List Text} {w : Workflow}
      → IsFresh used es
      → IsSingle used w
      → (id : Text) → count (may_create id) (steps p h es w).calls ≤ 1
  unfolding steps step create_requirement settle
  steps-IsSingle [] fresh i = i.once
  steps-IsSingle (Event.preview_started now ∷ es) fresh i =
      steps-IsSingle es fresh (remove_expired_drafts-IsSingle h now i)
  steps-IsSingle (Event.previewed g input now id ∷ es) (new, fresh) i = steps-IsSingle es fresh (
      store_draft-IsSingle id (preview_requirement p h g input now id)
        (preview_requirement-IsNew p h g id now input) new i)
  steps-IsSingle (Event.create input now ∷ es) {used} {w} fresh i =
      let swept = remove_expired_drafts h now w in
      steps-IsSingle es fresh (
        go_on-IsSingle input (find_key id_of input.draft_id swept.drafts)
          (λ d e. (mem_of_find_key id_of input.draft_id swept.drafts e).0)
          (remove_expired_drafts-IsSingle h now i))
  steps-IsSingle (Event.settled n answer at ∷ es) {used} {w} fresh i = steps-IsSingle es fresh (
      settle_call-IsSingle h (find (λ c. c.number == n && is_under_way c.state) w.calls) answer at
        i)

  -- However previews, creations, answers and the clock interleave, of the calls that create a requirement
  -- for a draft at most one has created a record or may still do so: the gateway rejected the others, which is
  -- taken to create nothing. Each preview has an identifier of its own.
  pub steps_create_once :
      (es : List Event)
      → IsFresh [] es
      → (id : Text) → count (may_create id) (steps p h es no_drafts).calls ≤ 1
  unfolding count
  steps_create_once es fresh = steps-IsSingle es fresh no_drafts-IsSingle
