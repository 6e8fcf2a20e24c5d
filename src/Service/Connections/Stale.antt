-- ===== src/Service/Connections/Stale.antt =====
-- An answer counts exactly if no operation on its connection began since.
use lucky_tag.Common.{
  ℕ, suc, ◌+◌, ◌≡◌, refl, Bool, true, false, ◌==◌, some, List, [], ◌∷◌, arith, count, map, ap,
  Bool-cases, if◌then◌else◌, inl, inr,
}
use lucky_tag.Service.Connections.{
  ConnectionKind, ConnectionStatus, Connections, Event, kind_eq, generation_of, is_generation,
  replace_connection, replace_each, replace_connection_if_current, step, steps,
}

-- The counter of a kind, 0 for the device.
abbrev pub generation : ConnectionKind → Connections → ℕ
generation ConnectionKind.sample_messaging s = s.generations.sample_messaging
generation ConnectionKind.sample_library s = s.generations.sample_library
generation ConnectionKind.sampleauth s = s.generations.sampleauth
generation ConnectionKind.sample_device s = 0

abbrev pub is_probed : ConnectionKind → Bool
is_probed ConnectionKind.sample_device = false
is_probed _ = true

-- The event begins an operation on the kind.
abbrev pub begins : ConnectionKind → Event → Bool
begins kind (Event.started other shown) = kind_eq other kind
begins kind (Event.answered generation status) = false
begins kind (Event.probe_started at) = true

generation-replace_if_current :
    (kind : ConnectionKind) (status : ConnectionStatus) (n : ℕ) (s : Connections)
    → generation kind (replace_connection_if_current status n s) ≡ generation kind s
unfolding replace_connection_if_current
generation-replace_if_current kind status n s =
    elim (Bool-cases (is_generation (generation_of status.kind s.generations) n)) [
      | inl e ↦ rw e (generation_statuses kind (replace_each status s.statuses) s)
      | inr e ↦ rw e refl
    ]
  where
    generation_statuses :
        (kind : ConnectionKind) (cs : List ConnectionStatus) (s : Connections)
        → generation kind (record s { statuses = cs }) ≡ generation kind s
    generation_statuses ConnectionKind.sample_messaging cs s = refl
    generation_statuses ConnectionKind.sample_library cs s = refl
    generation_statuses ConnectionKind.sampleauth cs s = refl
    generation_statuses ConnectionKind.sample_device cs s = refl

generation-step :
    (kind : ConnectionKind) (e : Event) (s : Connections)
    → is_probed kind ≡ true
    → generation kind (step e s)
      ≡ (if begins kind e then suc (generation kind s) else generation kind s)
unfolding step
generation-step kind (Event.answered n status) s p = generation-replace_if_current kind status n s
generation-step ConnectionKind.sample_messaging (Event.probe_started at) s p = refl
generation-step ConnectionKind.sample_library (Event.probe_started at) s p = refl
generation-step ConnectionKind.sampleauth (Event.probe_started at) s p = refl
generation-step ConnectionKind.sample_messaging
      (Event.started ConnectionKind.sample_messaging shown) s p =
    refl
generation-step ConnectionKind.sample_messaging (Event.started ConnectionKind.sample_library shown)
      s p =
    refl
generation-step ConnectionKind.sample_messaging (Event.started ConnectionKind.sampleauth shown) s
      p =
    refl
generation-step ConnectionKind.sample_messaging (Event.started ConnectionKind.sample_device shown) s
      p =
    refl
generation-step ConnectionKind.sample_library (Event.started ConnectionKind.sample_messaging shown)
      s p =
    refl
generation-step ConnectionKind.sample_library (Event.started ConnectionKind.sample_library shown) s
      p =
    refl
generation-step ConnectionKind.sample_library (Event.started ConnectionKind.sampleauth shown) s p =
    refl
generation-step ConnectionKind.sample_library (Event.started ConnectionKind.sample_device shown) s
      p =
    refl
generation-step ConnectionKind.sampleauth (Event.started ConnectionKind.sample_messaging shown) s
      p =
    refl
generation-step ConnectionKind.sampleauth (Event.started ConnectionKind.sample_library shown) s p =
    refl
generation-step ConnectionKind.sampleauth (Event.started ConnectionKind.sampleauth shown) s p = refl
generation-step ConnectionKind.sampleauth (Event.started ConnectionKind.sample_device shown) s p =
    refl
generation-step ConnectionKind.sample_device (Event.probe_started at) s p = absurd (cc)
generation-step ConnectionKind.sample_device (Event.started other shown) s p = absurd (cc)

generation-steps :
    (kind : ConnectionKind) (es : List Event) (s : Connections)
    → is_probed kind ≡ true
    → generation kind (steps es s) ≡ generation kind s + count (begins kind) es
unfolding steps count
generation-steps kind [] s p = omega arith
generation-steps kind (e ∷ es) s p =
    ground (arith, generation-steps kind es (step e s) p, generation-step kind e s p)

generation_of-probed :
    (kind : ConnectionKind) (s : Connections)
    → is_probed kind ≡ true
    → generation_of kind s.generations ≡ some (generation kind s)
generation_of-probed ConnectionKind.sample_messaging s p = refl
generation_of-probed ConnectionKind.sample_library s p = refl
generation_of-probed ConnectionKind.sampleauth s p = refl
generation_of-probed ConnectionKind.sample_device s p = absurd (cc)

no_begins : (n m : ℕ) → ((n + m) == n) ≡ (m == 0)
no_begins n m = ground arith

-- Every status of the answer's kind is the answer, and every other one is as it was.
replaced_each :
    (status : ConnectionStatus) (cs : List ConnectionStatus)
    → replace_each status cs ≡ map (λ c. if kind_eq c.kind status.kind then status else c) cs
unfolding replace_each
replaced_each status [] = refl
replaced_each status (c ∷ cs) =
    ap (λ rest. (if kind_eq c.kind status.kind then status else c) ∷ rest) (replaced_each status cs)

replaced :
    (status : ConnectionStatus) (s : Connections)
    → replace_connection status s ≡ record s {
      statuses = map (λ c. if kind_eq c.kind status.kind then status else c) s.statuses;
    }
unfolding replace_connection
replaced status s = ap (λ cs. record s { statuses = cs }) (replaced_each status s.statuses)

-- An answer that carries the generation of its connection at some moment is put in the place of
-- every status of its kind, and leaves the others, if no operation on the connection began since, and changes
-- nothing if one did, whatever else happened in between.
pub answered-steps :
    (status : ConnectionStatus) (es : List Event) (s : Connections)
    → is_probed status.kind ≡ true
    → step (Event.answered (generation status.kind s) status) (steps es s) ≡ (
        if count (begins status.kind) es == 0
        then record (steps es s) {
          statuses =
              map (λ c. if kind_eq c.kind status.kind then status else c) (steps es s).statuses;
        }
        else steps es s)
unfolding step
answered-steps status es s p =
    let known = generation_of-probed status.kind (steps es s) p in
    unfold replace_connection_if_current in
    rw known (
      rw (generation-steps status.kind es s p) (
        rw
          (
            no_begins (generation status.kind s) (count (begins status.kind) es),
            replaced status (steps es s),
          )
          refl))
