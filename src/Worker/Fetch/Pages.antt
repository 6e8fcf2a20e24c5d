-- ===== src/Worker/Fetch/Pages.antt =====
-- How many pages `fetchMentions` reads, and in which order it returns their messages.
use lucky_tag.Common.{
  ℕ, zero, suc, ◌+◌, ◌≤◌, ◌≡◌, refl, sym, ap, ◌∙◌, inl, inr, Option, none, some, List, [], ◌∷◌,
  arith, Bool-cases,
}
use lucky_tag.Common.Sort.{sort, IsSorted, sort-IsSorted}
use lucky_tag.Contracts.{DemoMessageMessage, DemoMessageMentionPage}
use lucky_tag.Host.{IsHost}
use lucky_tag.Text.{Text, member}
use lucky_tag.Worker.Effects.{
  Result, ok, err, World, M, Options, pure, ◌>>=◌, ask, list_mentions, continue,
}
use lucky_tag.Worker.Effects.Inversion.{>>=-eq-ok}
use lucky_tag.Worker.Fetch.{
  fetch_pages, fetch_mentions, next_page, page_limit, set_messages, page_input, oldest_first,
}

module _ (o : Options) (group_id start finish : Text) where
  abbrev Few : ℕ → World → World → Type 0
  Few n u v = (u.tick ≤ v.tick) × (v.tick ≤ u.tick + n) × (v.state ≡ u.state) × (v.sends ≡ u.sends)

  abbrev after_page :
      ℕ
      → List Text
      → Text
      → List DemoMessageMessage
      → DemoMessageMentionPage
      → M (List DemoMessageMessage)
  after_page pages visited cursor ms page = elim (next_page page) [
    | none ↦ pure (set_messages page.messages ms)
    | some next ↦
        fetch_pages o group_id start finish pages (cursor ∷ visited) next
          (set_messages page.messages ms)
  ]

  last_page :
      (pages : ℕ) (u : World) (page : DemoMessageMentionPage) (ms : List DemoMessageMessage)
      (next : Option Text) (more : Text → M (List DemoMessageMessage))
      → ((t : Text) (w : World) → Few pages w (more t w).1)
      → Few
          (suc pages)
          u
          (elim next as (λ x. M (List DemoMessageMessage)) [
            | none ↦ pure (set_messages page.messages ms)
            | some t ↦ more t
          ]
            (record u { tick = suc u.tick })).1
  last_page pages u page ms none more h = (omega arith, omega arith, refl, refl)
  last_page pages u page ms (some t) more h =
      let (a, b, c, d) = h t (record u { tick = suc u.tick }) in
      (omega (arith, a), omega (arith, b), c, d)

  page_step :
      (pages : ℕ) (visited : List Text) (cursor : Text) (ms : List DemoMessageMessage)
      (r : Result DemoMessageMentionPage) (u : World)
      → ((page : DemoMessageMentionPage) (t : Text) (w : World)
          → Few pages w
              (fetch_pages o group_id start finish pages
                (cursor ∷ visited)
                t
                (set_messages page.messages ms)
                w).1)
      → Few
          (suc pages)
          u
          (continue r (after_page pages visited cursor ms) (record u { tick = suc u.tick })).1
  page_step pages visited cursor ms (ok page) u h =
      last_page pages u page ms (next_page page) _ (h page)
  page_step pages visited cursor ms (err e) u h = (omega arith, omega arith, refl, refl)

  fetch_pages-Few :
      (pages : ℕ) (visited : List Text) (cursor : Text) (ms : List DemoMessageMessage) (w : World)
      → Few pages w (fetch_pages o group_id start finish pages visited cursor ms w).1
  unfolding fetch_pages list_mentions ask ◌>>=◌
  fetch_pages-Few zero visited cursor ms w = (omega arith, omega arith, refl, refl)
  fetch_pages-Few (suc pages) visited cursor ms w = elim (Bool-cases (member cursor visited)) [
    | inl e ↦ rw e (omega arith, omega arith, refl, refl)
    | inr e ↦ rw e (
        page_step pages visited cursor ms
          (o.list_mentions w.tick (page_input o group_id start finish cursor)) w
          (λ page t. fetch_pages-Few pages (cursor ∷ visited) t (set_messages page.messages ms)))
  ]

  fetch_mentions-Few : (w : World) → Few page_limit w (fetch_mentions o group_id start finish w).1
  unfolding fetch_mentions ◌>>=◌
  fetch_mentions-Few w =
      sorted_few (fetch_pages o group_id start finish page_limit [] (48 ∷ []) [] w)
        (fetch_pages-Few page_limit [] (48 ∷ []) [] w)
    where
      sorted_few :
          (out : Result (List DemoMessageMessage) × World)
          → Few page_limit w out.1
          → Few page_limit w (continue out.0 (λ ms. pure (sort (oldest_first o.host) ms)) out.1).1
      sorted_few (ok ms, v) h = h
      sorted_few (err e, v) h = h

  fetch_mentions-IsSorted :
      IsHost o.host
      → (w v : World) (ms : List DemoMessageMessage)
      → fetch_mentions o group_id start finish w ≡ (ok ms, v)
      → IsSorted (oldest_first o.host) ms
  unfolding fetch_mentions
  fetch_mentions-IsSorted lawful w v ms e =
      let (found, u, fetched, rest) =
        >>=-eq-ok (fetch_pages o group_id start finish page_limit [] (48 ∷ []) []) _ w e in
      let same : sort (oldest_first o.host) found ≡ ms = cc in
      rw (← same) (
        sort-IsSorted (oldest_first o.host) (λ a b. lawful.locale_total a.created_at b.created_at)
          (λ a b c p q. lawful.locale_trans a.created_at b.created_at c.created_at p q) found)

  -- With a lawful host, reading the mentions of a group makes at most ten calls, whatever the other side answers, changes
  -- no record and sends nothing, and what it returns is ordered from the oldest to the newest.
  pub fetch_mentions_bounded :
      IsHost o.host
      → (w v : World) (r : Result (List DemoMessageMessage))
      → fetch_mentions o group_id start finish w ≡ (r, v)
      → (v.tick ≤ w.tick + 10)
        × (v.state ≡ w.state)
        × (v.sends ≡ w.sends)
        × ((ms : List DemoMessageMessage) → r ≡ ok ms → IsSorted (oldest_first o.host) ms)
  fetch_mentions_bounded lawful w v r e =
      let after : (fetch_mentions o group_id start finish w).1 ≡ v = ap (λ t. t.1) e in
      let (a, b, c, d) = fetch_mentions-Few w in
      (
        omega (arith, b, ap (λ (t : World). t.tick) after),
        sym (ap (λ t. t.state) after) ∙ c,
        sym (ap (λ t. t.sends) after) ∙ d,
        λ ms good. fetch_mentions-IsSorted lawful w v ms (e ∙ ap (λ t. (t, v)) good),
      )
