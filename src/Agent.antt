-- ===== src/Agent.antt =====
-- daemon/agent-runtime.ts: how the program of an agent is chosen, and what it is given to run with.
pub mod Runtime
pub mod Specification
pub mod Trust
mod Tests
use lucky_tag.Common.{ℕ, Bool, true, false, Option, none, some, List, [], ◌∷◌, ◌++◌, if◌then◌else◌}
use lucky_tag.Contracts.{AgentConfiguration}
use lucky_tag.Text.{Text, text_eq}

pub data Sandbox : Type 0 where
  read_only workspace_write : Sandbox

-- `AgentExecutionRequest`; the session and the time limit have no part in what is modelled.
pub record AgentExecutionRequest : Type 0 where
  pub prompt : Text
  pub configuration : AgentConfiguration
  pub api_key : Option Text
  pub sandbox : Option Sandbox

-- Environment variables; of two with one name the later counts.
abbrev pub Variables : Type 0
Variables = List (Text × Text)

abbrev pub later_or : Option Text → Option Text → Option Text
later_or (some v) earlier = some v
later_or none earlier = earlier

unfoldable pub variable : Text → Variables → Option Text
unfolding text_eq
variable name [] = none
variable name ((n, value) ∷ rest) =
    later_or (variable name rest) (if text_eq n name then some value else none)

-- `ExecutionSpecification`
pub record ExecutionSpecification : Type 0 where
  pub command : Text
  pub args : List Text
  pub cwd : Text
  pub env : Variables

-- `RuntimeInvocation`
pub record RuntimeInvocation : Type 0 where
  pub command : Text
  pub argument_prefix : List Text
