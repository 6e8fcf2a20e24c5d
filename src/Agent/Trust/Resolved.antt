-- ===== src/Agent/Trust/Resolved.antt =====
-- Which of several candidates is taken.
use lucky_tag.Common.{
  ◌≡◌, ◌⊎◌, refl, sym, subst, List, [], ◌∷◌, Bool-cases, mem-cons-cases, inl, inr,
}
use lucky_tag.Agent.Trust.{
  Files, ClaudeCliTrustPolicy, or_next, validate_trusted_claude_cli, first_trusted,
  resolve_trusted_claude_cli,
}
use lucky_tag.Agent.Trust.Trusted.{IsTrusted, validate_trusted_claude_cli_iff}
use lucky_tag.Text.{Text, member, distinct, distinct_from}
use lucky_tag.Text.Member.{mem_of_member}
use lucky_tag.Worker.Effects.{Result, ok, err}
use mathlib.Core.List.{Memᴰ}

module _ (f : Files) (policy : ClaudeCliTrustPolicy) where
  -- What a choice among candidates should give.
  unfoldable pub IsChosen : List Text → Result Text → Type 0
  IsChosen candidates (ok path) = (c : Text) × Memᴰ c candidates × IsTrusted f policy c path
  IsChosen candidates (err e) = (c path : Text) → Memᴰ c candidates → IsTrusted f policy c path → ⊥

  or_next-IsChosen :
      (c : Text) (cs : List Text) (r : Result Text)
      → validate_trusted_claude_cli f policy c ≡ r
      → (rest : Result Text) → IsChosen cs rest
      → IsChosen (c ∷ cs) (or_next f policy r rest)
  unfolding IsChosen
  or_next-IsChosen c cs (ok p) e rest h =
      (c, Memᴰ.head refl, (validate_trusted_claude_cli_iff f policy c p).0 e)
  or_next-IsChosen c cs (err g) e (ok p) h = let (d, m, t) = h in (d, Memᴰ.tail m, t)
  or_next-IsChosen c cs (err g) e (err g') h = λ d path m t. elim (mem-cons-cases m) [
    | inl same ↦
        let trusted =
          (validate_trusted_claude_cli_iff f policy c path).1
            (subst (λ x. IsTrusted f policy x path) same t) in
        absurd (cc (e, trusted))
    | inr m' ↦ h d path m' t
  ]

  first_trusted-IsChosen :
      (candidates : List Text) → IsChosen candidates (first_trusted f policy candidates)
  unfolding first_trusted IsChosen
  first_trusted-IsChosen [] = λ c path m t. elim m [ ]
  first_trusted-IsChosen (c ∷ cs) =
      or_next-IsChosen c cs (validate_trusted_claude_cli f policy c) refl
        (first_trusted f policy cs) (first_trusted-IsChosen cs)

mem_of_mem-distinct_from :
    {t : Text} (seen ts : List Text) → Memᴰ t (distinct_from seen ts) → Memᴰ t ts
unfolding distinct_from
mem_of_mem-distinct_from seen [] m = m
mem_of_mem-distinct_from seen (u ∷ us) m = elim (Bool-cases (member u seen)) [
  | inl known ↦ Memᴰ.tail (mem_of_mem-distinct_from seen us (rw known at m))
  | inr fresh ↦ elim (mem-cons-cases (rw fresh at m)) [
    | inl e ↦ Memᴰ.head e
    | inr m' ↦ Memᴰ.tail (mem_of_mem-distinct_from (u ∷ seen) us m')
  ]
]

-- A text of the list was seen before, or is kept.
mem-distinct_from :
    {t : Text} (seen ts : List Text) → Memᴰ t ts → Memᴰ t seen ⊎ Memᴰ t (distinct_from seen ts)
unfolding distinct_from
mem-distinct_from seen [] m = inr m
mem-distinct_from {t} seen (u ∷ us) m = elim (Bool-cases (member u seen)) [
  | inl known ↦ elim (mem-cons-cases m) [
    | inl e ↦ inl (subst (λ x. Memᴰ x seen) (sym e) (mem_of_member u seen known))
    | inr m' ↦ elim (mem-distinct_from seen us m') [ inl a ↦ inl a | inr b ↦ inr (rw known b) ]
  ]
  | inr fresh ↦ elim (mem-cons-cases m) [
    | inl e ↦ inr (rw fresh (Memᴰ.head e))
    | inr m' ↦ elim (mem-distinct_from (u ∷ seen) us m') [
      | inl a ↦ elim (mem-cons-cases a) [ inl e ↦ inr (rw fresh (Memᴰ.head e)) | inr b ↦ inl b ]
      | inr b ↦ inr (rw fresh (Memᴰ.tail b))
    ]
  ]
]

IsChosen-distinct :
    (f : Files) (policy : ClaudeCliTrustPolicy) (candidates : List Text) (r : Result Text)
    → IsChosen f policy (distinct candidates) r
    → IsChosen f policy candidates r
unfolding IsChosen
IsChosen-distinct f policy candidates (ok p) h =
    let (c, m, t) = h in (c, mem_of_mem-distinct_from [] candidates m, t)
IsChosen-distinct f policy candidates (err e) h = λ c path m t.
    elim (mem-distinct_from [] candidates m) [
      | inl none_there ↦ elim none_there [ ]
      | inr m' ↦ h c path m' t
    ]

-- The program that resolveTrustedClaudeCli returns is one to which a candidate leads and that is trusted: in the
-- package's place, with no symbolic link for its manifest, owned and guarded as the policy asks, of an allowed
-- size, with the pinned name, version and digests, and executable. When it throws, no candidate leads to one.
pub resolve_trusted_claude_cli-IsChosen :
    (f : Files) (policy : ClaudeCliTrustPolicy) (candidates : List Text)
    → IsChosen f policy candidates (resolve_trusted_claude_cli f policy candidates)
unfolding resolve_trusted_claude_cli
resolve_trusted_claude_cli-IsChosen f policy candidates =
    IsChosen-distinct f policy candidates (first_trusted f policy (distinct candidates))
      (first_trusted-IsChosen f policy (distinct candidates))
