-- ===== src/ExecutionManager/Service.antt =====
-- The service from its start to its end: the recovery, the search for an update, and the loop of
-- `execute_jobs`. Times are whole ticks of the clock, and the reading number k of `perf_counter` is
-- `perf_counter k`.
use simple_cwl_xenon_service.Prelude.{ℕ, zero, suc, Bool, true, false, if◌then◌else◌}
use simple_cwl_xenon_service.Prelude.Int.{ℤ, pos, negsuc, ◌+ℤ◌, ltb_ℤ}
use simple_cwl_xenon_service.World.{M, pure, ◌>>=◌, ◌>>◌}
use simple_cwl_xenon_service.ExecutionManager.Interface.{Backend}
use simple_cwl_xenon_service.ExecutionManager.Process.{
  recover, execute_round, poll_shutdown, set_update_available,
}

-- `-n`
abbrev negate : ℤ → ℤ
negate (pos zero) = pos zero
negate (pos (suc n)) = negsuc n
negate (negsuc n) = pos (suc n)

-- What `ExecutionManager.__init__` does after its parts are made; the second argument is
-- `RemoteApi.update_available`.
unfoldable pub start : Backend → M Bool → M Unit
unfolding recover
start backend update_available = do
  recover backend
  update ← update_available
  set_update_available backend update

module _ (backend : Backend) (perf_counter : ℕ → ℤ) (refresh second : ℤ) where
  -- `now - last_active > self._remote_refresh`
  abbrev is_due : ℤ → ℤ → Bool
  is_due now last_active = ltb_ℤ refresh (now +ℤ negate last_active)

  -- The number of rounds is limited by the fuel: the result is false where it runs out before a request
  -- to shut down. Two readings of the clock belong to a round.
  unfoldable pub execute_loop : ℕ → ℕ → ℤ → M Bool
  unfolding execute_round ◌+ℤ◌
  execute_loop zero k last_active = pure false
  execute_loop (suc fuel) k last_active = do
    let now = perf_counter k
    let due = is_due now last_active
    let rest = execute_loop fuel (suc (suc k)) (if due then perf_counter (suc k) else last_active)
    shutting_down ← poll_shutdown
    if shutting_down then pure true else (execute_round backend due >> rest)

  unfoldable pub execute_jobs : ℕ → M Bool
  unfolding execute_loop ◌+ℤ◌
  execute_jobs fuel = execute_loop fuel 1 (perf_counter 0 +ℤ negate refresh +ℤ negate second)
