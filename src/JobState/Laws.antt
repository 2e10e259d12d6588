-- ===== src/JobState/Laws.antt =====
-- What the classification of the states says, and the codec of the column `state`.
use text.Mathlib.Text.{◌==◌ as str_eq}
use simple_cwl_xenon_service.Prelude.{◌≡◌, refl, ◌↔◌, true, false, not, ◌||◌, some, arith}
use simple_cwl_xenon_service.JobState.{
  JobState, submitted, state_eq, is_final, cancellation_active, is_remote, state_name, of_name,
  to_cwl_state_string,
}

of_index : (a b : JobState) → state_eq a b ≡ true → a ≡ b
unfolding state_eq
of_index a b h = ground arith

pub state_eq_refl : (a : JobState) → state_eq a a ≡ true
unfolding state_eq
state_eq_refl a = ground arith

pub state_eq_iff : (a b : JobState) → (state_eq a b ≡ true) ↔ (a ≡ b)
state_eq_iff a b = (of_index a b, λ e. rw e (state_eq_refl b))

-- Reading back the name under which a state is stored gives that state, for every state.
of_name-name : (s : JobState) → of_name (state_name s) ≡ some s
unfolding of_name
of_name-name submitted = refl
of_name-name _ = refl

-- A final state is neither pending cancellation nor remote.
pub is_final_exclusive :
    (s : JobState) → is_final s ≡ true → (cancellation_active s ≡ false) × (is_remote s ≡ false)
unfolding is_final cancellation_active is_remote
is_final_exclusive s h = ground arith

-- What a client sees as Waiting or Running is exactly a job that is not in a final state.
pub to_cwl_state_string-is_final :
    (s : JobState)
    → is_final s
      ≡ not (str_eq (to_cwl_state_string s) "Waiting" || str_eq (to_cwl_state_string s) "Running")
unfolding is_final to_cwl_state_string
to_cwl_state_string-is_final submitted = refl
to_cwl_state_string-is_final _ = refl
