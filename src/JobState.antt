-- ===== src/JobState.antt =====
-- cerise/job_store/job_state.py: the enumeration `JobState` and its static methods.
pub mod Laws
use text.Mathlib.Text.{◌==◌ as str_eq}
use simple_cwl_xenon_service.Prelude.{
  ℕ, String, Bool, false, ◌||◌, Option, none, some, List, [], ◌∷◌, ◌==◌, if◌then◌else◌,
}

pub data JobState : Type 0 where
  submitted staging_in waiting running finished staging_out success : JobState
  staging_in_cr waiting_cr running_cr staging_out_cr cancelled : JobState
  system_error temporary_failure permanent_failure : JobState

-- A member's place in the declaration, by which members are compared.
unfoldable pub index : JobState → ℕ
index submitted = 0
index staging_in = 1
index waiting = 2
index running = 3
index finished = 4
index staging_out = 5
index success = 6
index staging_in_cr = 7
index waiting_cr = 8
index running_cr = 9
index staging_out_cr = 10
index cancelled = 11
index system_error = 12
index temporary_failure = 13
index permanent_failure = 14

-- `a == b` on members.
unfoldable pub state_eq : JobState → JobState → Bool
unfolding index
state_eq a b = index a == index b

-- `state in [...]`.
unfoldable pub state_in : JobState → List JobState → Bool
unfolding state_eq
state_in s [] = false
state_in s (t ∷ ts) = state_eq s t || state_in s ts

unfoldable pub is_final : JobState → Bool
unfolding state_in
is_final state =
    state_in state (success ∷ cancelled ∷ permanent_failure ∷ temporary_failure ∷ system_error ∷ [])

unfoldable pub cancellation_active : JobState → Bool
unfolding state_in
cancellation_active state =
    state_in state (staging_in_cr ∷ waiting_cr ∷ running_cr ∷ staging_out_cr ∷ [])

unfoldable pub is_remote : JobState → Bool
unfolding state_in
is_remote state = state_in state (waiting ∷ waiting_cr ∷ running ∷ running_cr ∷ [])

-- The dictionary `state_to_cwl_string`, indexed by the state.
unfoldable pub to_cwl_state_string : JobState → String
to_cwl_state_string submitted = "Waiting"
to_cwl_state_string staging_in = "Waiting"
to_cwl_state_string waiting = "Running"
to_cwl_state_string running = "Running"
to_cwl_state_string finished = "Running"
to_cwl_state_string staging_out = "Running"
to_cwl_state_string success = "Success"
to_cwl_state_string staging_in_cr = "Waiting"
to_cwl_state_string waiting_cr = "Running"
to_cwl_state_string running_cr = "Running"
to_cwl_state_string staging_out_cr = "Running"
to_cwl_state_string cancelled = "Cancelled"
to_cwl_state_string system_error = "SystemError"
to_cwl_state_string temporary_failure = "TemporaryFailure"
to_cwl_state_string permanent_failure = "PermanentFailure"

-- `state.name`, as it is written to the column `state`.
unfoldable pub state_name : JobState → String
state_name submitted = "SUBMITTED"
state_name staging_in = "STAGING_IN"
state_name waiting = "WAITING"
state_name running = "RUNNING"
state_name finished = "FINISHED"
state_name staging_out = "STAGING_OUT"
state_name success = "SUCCESS"
state_name staging_in_cr = "STAGING_IN_CR"
state_name waiting_cr = "WAITING_CR"
state_name running_cr = "RUNNING_CR"
state_name staging_out_cr = "STAGING_OUT_CR"
state_name cancelled = "CANCELLED"
state_name system_error = "SYSTEM_ERROR"
state_name temporary_failure = "TEMPORARY_FAILURE"
state_name permanent_failure = "PERMANENT_FAILURE"

-- The members in declaration order.
abbrev pub members : List JobState
members =
    submitted ∷ staging_in ∷ waiting ∷ running ∷ finished ∷ staging_out ∷ success ∷ staging_in_cr
    ∷ waiting_cr ∷ running_cr ∷ staging_out_cr ∷ cancelled ∷ system_error ∷ temporary_failure
    ∷ permanent_failure ∷ []

find_name : String → List JobState → Option JobState
find_name name [] = none
find_name name (s ∷ ss) = if str_eq (state_name s) name then some s else find_name name ss

-- `JobState[state_str]`; `none` is the KeyError.
unfoldable pub of_name : String → Option JobState
unfolding find_name state_name
of_name name = find_name name members
