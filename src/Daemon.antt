-- ===== src/Daemon.antt =====
-- daemon/index.ts: what the local service does with credentials and configurations. Calls of the keychain
-- and of the service leave the daemon: each takes one tick, and how it ends may depend on the tick.
pub mod Save
mod Tests
use lucky_tag.Common.{ℕ, suc, Bool, true, false, ◌&&◌, Option, none, some, if◌then◌else◌}
use lucky_tag.Act.{Act}
use lucky_tag.Contracts.{AgentRuntimeKind, codex, claude_code, AppConfig}
use lucky_tag.Text.{Text, text_eq, truthy, trim}
use lucky_tag.Worker.Effects.{Result, ok, err}

-- `AgentCredentialScope`
pub record Scope : Type 0 where
  pub runtime : AgentRuntimeKind
  pub base_url : Text

-- A call that writes may fail, before or after what it writes has taken effect.
pub data Outcome : Type 0 where
  done : Outcome
  failed : (applied : Bool) (e : Text) → Outcome

pub record Options : Type 0 where
  -- `new URL(text).toString()`, with `none` where it throws
  pub to_url : Text → Option Text
  pub read_fault : ℕ → Option Text
  pub write_outcome : ℕ → Outcome
  pub snapshot_fault : ℕ → Option Text
  pub save_outcome : ℕ → Outcome
  pub decorate_fault : ℕ → Option Text

-- The keychain, the stored configuration, and how many failures `.catch(() => undefined)` has dropped.
pub record World : Type 0 where
  pub credential : Scope → Option Text
  pub config : AppConfig
  pub ignored : ℕ
  pub tick : ℕ

abbrev pub same_runtime : AgentRuntimeKind → AgentRuntimeKind → Bool
same_runtime codex codex = true
same_runtime claude_code claude_code = true
same_runtime _ _ = false

unfoldable pub same_scope : Scope → Scope → Bool
unfolding text_eq
same_scope s t = same_runtime s.runtime t.runtime && text_eq s.base_url t.base_url

unfoldable pub put : Scope → Option Text → World → World
unfolding same_scope
put scope value w = record w {
  credential = λ s. if same_scope s scope then value else w.credential s;
}

abbrev pub next : World → World
next w = record w { tick = suc w.tick }

abbrev pub unless_fault {ℓ} : {A : Type ℓ} → Option Text → A → Result A
unless_fault none a = ok a
unless_fault (some e) a = err e

abbrev pub written : Outcome → World → World → Result (Unit {0}) × World
written done before after = (ok tt, after)
written (failed true e) before after = (err e, after)
written (failed false e) before after = (err e, before)

module _ (o : Options) where
  -- `credentials.get(scope)`: an empty credential counts as none.
  unfoldable pub get_credential : Scope → Act World (Option Text)
  get_credential scope w =
      (unless_fault (o.read_fault w.tick) (truthy (w.credential scope)), next w)

  -- `credentials.set(scope, value)`, and `credentials.delete(scope)` at `none`
  unfoldable pub write_credential : Scope → Option Text → Act World (Unit {0})
  unfolding put
  write_credential scope value w =
      written (o.write_outcome w.tick) (next w) (put scope value (next w))

  -- `service.getSnapshot()`, of which the configuration is read
  unfoldable pub get_snapshot : Act World AppConfig
  get_snapshot w = (unless_fault (o.snapshot_fault w.tick) w.config, next w)

  -- `service.saveConfig(config)`
  unfoldable pub save_config : AppConfig → Act World (Unit {0})
  save_config config w =
      written (o.save_outcome w.tick) (next w) (record (next w) { config = config })

  -- `decorateSnapshot(saved)`
  unfoldable pub decorate_snapshot : Act World (Unit {0})
  decorate_snapshot w = (unless_fault (o.decorate_fault w.tick) tt, next w)

  -- `normalizeEndpoint(value)`
  abbrev url_or : Option Text → Text → Text
  url_or none text = text
  url_or (some url) text = url

  unfoldable pub normalize_endpoint : Text → Text
  unfolding trim
  normalize_endpoint value = url_or (o.to_url (trim value)) (trim value)

  unfoldable pub credential_scope : AgentRuntimeKind → Text → Scope
  unfolding normalize_endpoint
  credential_scope runtime base_url = record {
    runtime = runtime;
    base_url = normalize_endpoint base_url;
  }

-- `try { m } catch (error) { … }`
abbrev pub caught {ℓ} : {A : Type ℓ} → Result A × World → (Text → Act World A) → Result A × World
caught (ok a, w) handler = (ok a, w)
caught (err e, w) handler = handler e w

abbrev pub or_else {ℓ} : {A : Type ℓ} → Act World A → (Text → Act World A) → Act World A
or_else m handler w = caught (m w) handler

abbrev pub dropped : Result (Unit {0}) × World → Result (Unit {0}) × World
dropped (ok tt, w) = (ok tt, w)
dropped (err e, w) = (ok tt, record w { ignored = suc w.ignored })

-- `m.catch(() => undefined)`
abbrev pub ignoring : Act World (Unit {0}) → Act World (Unit {0})
ignoring m w = dropped (m w)
