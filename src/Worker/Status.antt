-- ===== src/Worker/Status.antt =====
-- worker.ts: terminal statuses and the table of allowed transitions.
pub mod Paths
use lucky_tag.Common.{ℕ, ◌≡◌, refl, Bool, true, false, List, [], ◌∷◌, arith, any, ◌||◌}
use lucky_tag.Contracts.{
  ReplyStatus, pending, sending, sent, ignored, needs_manual, recalled, dry_run, failed,
}
use lucky_tag.Text.{Text, lit}

-- The spelling of a status in the stored records.
unfoldable pub status_name : ReplyStatus → Text
unfolding lit
status_name pending = lit "pending"
status_name sending = lit "sending"
status_name sent = lit "sent"
status_name ignored = lit "ignored"
status_name needs_manual = lit "needs_manual"
status_name recalled = lit "recalled"
status_name dry_run = lit "dry_run"
status_name failed = lit "failed"

abbrev pub status_eq : ReplyStatus → ReplyStatus → Bool
status_eq pending pending = true
status_eq sending sending = true
status_eq sent sent = true
status_eq ignored ignored = true
status_eq needs_manual needs_manual = true
status_eq recalled recalled = true
status_eq dry_run dry_run = true
status_eq failed failed = true
status_eq _ _ = false

unfoldable pub is_terminal : ReplyStatus → Bool
is_terminal pending = false
is_terminal sending = false
is_terminal _ = true

-- The rows of the table in `assertTransition`.
abbrev allowed : ReplyStatus → List ReplyStatus
allowed pending = pending ∷ sending ∷ ignored ∷ needs_manual ∷ recalled ∷ dry_run ∷ failed ∷ []
allowed sending = sending ∷ sent ∷ ignored ∷ needs_manual ∷ recalled ∷ dry_run ∷ failed ∷ []
allowed sent = sent ∷ []
allowed ignored = ignored ∷ []
allowed needs_manual = needs_manual ∷ []
allowed recalled = recalled ∷ []
allowed dry_run = dry_run ∷ []
allowed failed = failed ∷ []

-- `allowed[from].includes(to)`
unfoldable pub may_become : ReplyStatus → ReplyStatus → Bool
unfolding any
may_become from to = any (status_eq to) (allowed from)

pub status_eq-eq : (s t : ReplyStatus) → status_eq s t ≡ true → s ≡ t
status_eq-eq pending t h = ground arith
status_eq-eq sending t h = ground arith
status_eq-eq sent t h = ground arith
status_eq-eq ignored t h = ground arith
status_eq-eq needs_manual t h = ground arith
status_eq-eq recalled t h = ground arith
status_eq-eq dry_run t h = ground arith
status_eq-eq failed t h = ground arith

-- A terminal status is never left.
pub may_become-terminal : (s t : ReplyStatus) → is_terminal s ≡ true → may_become s t ≡ true → s ≡ t
unfolding may_become is_terminal
may_become-terminal s t h k = ground arith

-- Only a record that was claimed for sending can become sent.
pub may_become-sent :
    (s : ReplyStatus) → may_become s sent ≡ true → is_terminal s ≡ false → s ≡ sending
unfolding may_become is_terminal
may_become-sent s h k = ground arith
