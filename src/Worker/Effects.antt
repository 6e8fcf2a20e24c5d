-- ===== src/Worker/Effects.antt =====
-- worker.ts: `WorkerEngineOptions` and the fields of `WorkerEngine`, as a state monad with errors.
-- An error is its message. Every call that leaves the engine takes one tick, and what it returns
-- may depend on the tick, so the environment may answer each call differently.
pub mod Inversion
pub mod Rules
use lucky_tag.Common.{
  ℕ, suc, ◌+◌, Bool, true, false, Option, none, some, List, [], ◌∷◌, if◌then◌else◌,
}
use lucky_tag.Contracts.{
  AppConfig, ReplyEvidence, CoreStateFile, DemoMessageMessage, DemoMessageMentionPage,
  DemoMessageSendResult,
}
use lucky_tag.Host.{Host}
use lucky_tag.Text.{Text}

pub data Result {ℓ} (A : Type ℓ) : Type ℓ where
  ok : A → Result A
  err : Text → Result A

pub record MentionsInput : Type 0 where
  pub group_id : Text
  pub start : Text
  pub finish : Text
  pub limit : ℕ
  pub cursor : Text

pub record ConversationInput : Type 0 where
  pub group_id : Text
  pub time : Text
  pub forward : Bool
  pub limit : ℕ

pub record SendInput : Type 0 where
  pub group_id : Text
  pub text : Text
  pub uuid : Text

-- A call of `sendMessage`, with its tick and the stored state as the engine last left it.
pub record SendEvent : Type 0 where
  pub input : SendInput
  pub tick : ℕ
  pub stored : CoreStateFile

pub record Options : Type 0 where
  pub host : Host
  pub get_config : ℕ → Result AppConfig
  pub get_current_config : Option (ℕ → AppConfig)
  pub search : ℕ → Text → ℕ → List ReplyEvidence
  pub now : ℕ → ℕ
  pub instance_id : Text
  -- What others have done to the stored state since the last access: `saveConfig` writes it too.
  pub interfere : ℕ → CoreStateFile → CoreStateFile
  -- A call of the store that rejects leaves the stored state as it was.
  pub store_fault : ℕ → Option Text
  pub list_mentions : ℕ → MentionsInput → Result DemoMessageMentionPage
  pub list_conversation_messages : ℕ → ConversationInput → Result (List DemoMessageMessage)
  pub send_message : ℕ → SendInput → Result DemoMessageSendResult

-- The local variables of `executeRun`; one run is active at a time.
pub record Counters : Type 0 where
  pub discovered : ℕ
  pub sent : ℕ
  pub previews : ℕ
  pub ignored : ℕ
  pub needs_manual : ℕ
  pub recalled : ℕ
  pub failed : ℕ

-- `sends` lists the calls of `sendMessage`, newest first; `updates` counts those of `onUpdate`, and
-- `spawned` the runs that were started without waiting for them.
pub record World : Type 0 where
  pub state : CoreStateFile
  pub tick : ℕ
  pub sends : List SendEvent
  pub allowlist : List Text
  pub updates : ℕ
  pub timer : Option ℕ
  pub initialized : Bool
  pub spawned : ℕ
  pub counters : Counters
  pub notes : List Text

abbrev pub M {ℓ} : Type ℓ → Type ℓ
M A = World → Result A × World

abbrev pub pure {ℓ} : {A : Type ℓ} → A → M A
pure a w = (ok a, w)

abbrev pub throw {ℓ} : {A : Type ℓ} → Text → M A
throw e w = (err e, w)

abbrev pub continue {ℓ κ} : {A : Type ℓ} {B : Type κ} → Result A → (A → M B) → M B
continue (ok a) f w = f a w
continue (err e) f w = (err e, w)

infixl 5 ◌>>=◌ ◌>>◌
unfoldable pub ◌>>=◌ {ℓ κ} : {A : Type ℓ} {B : Type κ} → M A → (A → M B) → M B
◌>>=◌ m f w = continue (m w).0 f (m w).1

abbrev pub ◌>>◌ {ℓ κ} : {A : Type ℓ} {B : Type κ} → M A → M B → M B
m >> k = m >>= λ _. k

abbrev pub handle {ℓ} : {A : Type ℓ} → Result A → (Text → M A) → M A
handle (ok a) f w = (ok a, w)
handle (err e) f w = f e w

-- `try { m } catch (error) { f(errorMessage(error)) }`
unfoldable pub catch {ℓ} : {A : Type ℓ} → M A → (Text → M A) → M A
catch m f w = handle (m w).0 f (m w).1

-- One call that leaves the engine.
unfoldable pub ask {ℓ} : {A : Type ℓ} → (ℕ → Result A) → M A
ask f w = (f w.tick, record w { tick = suc w.tick })

unfoldable pub observe {ℓ} : {A : Type ℓ} → (ℕ → A) → M A
observe f w = (ok (f w.tick), record w { tick = suc w.tick })

abbrev pub of_result {ℓ} : {A : Type ℓ} → Result A → M A
of_result r w = (r, w)

-- `this.notify()`
unfoldable pub notify : M (Unit {0})
notify w = (ok tt, record w { updates = suc w.updates })

abbrev pub when : Bool → M (Unit {0}) → M (Unit {0})
when true m = m
when false m = pure tt

module _ (o : Options) where
  unfoldable pub now : M ℕ
  unfolding observe
  now = observe o.now

  unfoldable pub get_config : M AppConfig
  unfolding ask
  get_config = ask o.get_config

  unfoldable pub search_index : Text → ℕ → M (List ReplyEvidence)
  unfolding observe
  search_index question limit = observe (λ k. o.search k question limit)

  unfoldable pub list_mentions : MentionsInput → M DemoMessageMentionPage
  unfolding ask
  list_mentions input = ask (λ k. o.list_mentions k input)

  unfoldable pub list_conversation_messages : ConversationInput → M (List DemoMessageMessage)
  unfolding ask
  list_conversation_messages input = ask (λ k. o.list_conversation_messages k input)

  -- The call of `sendMessage`, which is recorded whether it succeeds or not.
  unfoldable pub send_message : SendInput → M DemoMessageSendResult
  send_message input w = (
    o.send_message w.tick input,
    record w {
      tick = suc w.tick;
      sends = record { input = input; tick = w.tick; stored = w.state } ∷ w.sends;
    },
  )

  -- The world once a call of the store has begun.
  abbrev pub reached : World → World
  reached w = record w { tick = suc w.tick; state = o.interfere w.tick w.state }

  abbrev pub read_reached : Option Text → M CoreStateFile
  read_reached none w = (ok w.state, w)
  read_reached (some e) w = (err e, w)

  -- `stateStore.read()`
  unfoldable pub read_state : M CoreStateFile
  read_state w = read_reached (o.store_fault w.tick) (reached w)

  abbrev pub commit {ℓ} : {A : Type ℓ} → Result (CoreStateFile × A) → M A
  commit (ok (next, a)) w = (ok a, record w { state = next })
  commit (err e) w = (err e, w)

  abbrev pub update_reached {ℓ} :
      {A : Type ℓ} → Option Text → (CoreStateFile → M (CoreStateFile × A)) → M A
  update_reached none mutator w = commit (mutator w.state w).0 (mutator w.state w).1
  update_reached (some e) mutator w = (err e, w)

  -- `stateStore.update(mutator)`: what the mutator throws, or the store rejects, changes nothing.
  unfoldable pub update_state {ℓ} : {A : Type ℓ} → (CoreStateFile → M (CoreStateFile × A)) → M A
  update_state mutator w = update_reached (o.store_fault w.tick) mutator (reached w)
