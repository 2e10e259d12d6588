-- ===== src/ExecutionManager/Loops.antt =====
-- The loops over all jobs keep every invariant that the handling of each job keeps: recovery, a round of
-- `execute_jobs`, and the service from its start on.
use simple_cwl_xenon_service.Prelude.{ℕ, zero, suc, ◌≡◌, refl, Bool, true, false, List, [], ◌∷◌}
use simple_cwl_xenon_service.Prelude.Int.{ℤ}
use simple_cwl_xenon_service.World.{World, M, find_jobs}
use simple_cwl_xenon_service.World.Quiet.{Quiet, Quiet-find_jobs}
use simple_cwl_xenon_service.World.Keeps.{
  Keeps, LocalOnly, Keeps-pure, Keeps-bind, Keeps-if, keeps_rules,
}
use simple_cwl_xenon_service.ExecutionManager.Interface.{Backend}
use simple_cwl_xenon_service.ExecutionManager.Process.{
  set_have, get_have, get_update_available, when, look, poll_shutdown, process_one, process_loop,
  process_jobs, set_update_available, install_if_idle, execute_round, recover_job, recover_each,
  recover,
}
use simple_cwl_xenon_service.ExecutionManager.Service.{start, execute_loop, execute_jobs}

-- What the loops are made of.
pub record Handling (I : World → Type 0) (backend : Backend) : Type 1 where
  pub of_quiet : {A : Type 0} {m : M A} → Quiet m → Keeps I m
  pub of_local : {A : Type 0} {m : M A} → LocalOnly m → Keeps I m
  pub of_round : (check_remote : Bool) (id : ℕ) → Keeps I (process_one backend check_remote id)
  pub of_recovery : (id : ℕ) → Keeps I (recover_job backend id)

look-store : (signals : List Bool) (w : World) → (look signals w).1.store ≡ w.store
look-store [] w = refl
look-store (s ∷ ss) w = refl

look-env : (signals : List Bool) (w : World) → (look signals w).1.env ≡ w.env
look-env [] w = refl
look-env (s ∷ ss) w = refl

look-previous :
    (signals : List Bool) (w : World) → (look signals w).1.previous_state ≡ w.previous_state
look-previous [] w = refl
look-previous (s ∷ ss) w = refl

poll_shutdown-LocalOnly : LocalOnly poll_shutdown
poll_shutdown-LocalOnly = record {
  store = λ w. look-store w.signals w;
  env = λ w. look-env w.signals w;
  previous = λ w. look-previous w.signals w;
}

set_have-LocalOnly : (b : Bool) → LocalOnly (set_have b)
set_have-LocalOnly b = record { store = λ w. refl; env = λ w. refl; previous = λ w. refl }

get_have-LocalOnly : LocalOnly get_have
get_have-LocalOnly = record { store = λ w. refl; env = λ w. refl; previous = λ w. refl }

get_update_available-LocalOnly : LocalOnly get_update_available
get_update_available-LocalOnly = record { store = λ w. refl; env = λ w. refl; previous = λ w. refl }

module _ (I : World → Type 0) (backend : Backend) (handling : Handling I backend) where
  open backend use {services}
  open handling use {of_quiet, of_local, of_round, of_recovery}

  set_update_available-LocalOnly : (b : Bool) → LocalOnly (set_update_available backend b)
  set_update_available-LocalOnly b = record {
    store = λ w. refl;
    env = λ w. refl;
    previous = λ w. refl;
  }

  when-Keeps : (b : Bool) {m : M Unit} → Keeps I m → Keeps I (when b m)
  when-Keeps true k = k
  when-Keeps false k = Keeps-pure tt

  get_have-Keeps : Keeps I get_have
  get_have-Keeps = of_local get_have-LocalOnly

  find_jobs-Keeps : Keeps I find_jobs
  find_jobs-Keeps = of_quiet Quiet-find_jobs

  cases-Keeps :
      {A : Type 0} (b : Bool) (m n : M A)
      → Keeps I m
      → Keeps I n
      → Keeps I (elim b [ true ↦ m | false ↦ n ])
  cases-Keeps true m n km kn = km
  cases-Keeps false m n km kn = kn

  process_loop-Keeps :
      (check_remote : Bool) (ids : List ℕ) → Keeps I (process_loop backend check_remote ids)
  unfolding process_loop
  process_loop-Keeps check_remote [] = get_have-Keeps
  process_loop-Keeps check_remote (id ∷ ids) =
      let rest = process_loop-Keeps check_remote ids in
      Keeps-bind _ _ (of_local poll_shutdown-LocalOnly) λ shutting_down.
        cases-Keeps shutting_down _ _ get_have-Keeps (
          Keeps-bind _ _ (of_round check_remote id)
            λ go_on. cases-Keeps go_on _ _ rest (Keeps-pure false))

  set_have-Keeps : (b : Bool) → Keeps I (set_have b)
  set_have-Keeps b = of_local (set_have-LocalOnly b)

  get_update_available-Keeps : Keeps I get_update_available
  get_update_available-Keeps = of_local get_update_available-LocalOnly

  set_update_available-Keeps : (b : Bool) → Keeps I (set_update_available backend b)
  set_update_available-Keeps b = of_local (set_update_available-LocalOnly b)

  process_jobs-Keeps : (check_remote : Bool) → Keeps I (process_jobs backend check_remote)
  unfolding process_jobs
  process_jobs-Keeps check_remote =
      search (keeps_rules, set_have-Keeps, find_jobs-Keeps, process_loop-Keeps) depth 8

  recover_each-Keeps : (ids : List ℕ) → Keeps I (recover_each backend ids)
  unfolding recover_each
  recover_each-Keeps [] = Keeps-pure tt
  recover_each-Keeps (id ∷ ids) = Keeps-bind _ _ (of_recovery id) (λ _. recover_each-Keeps ids)

  recover-Keeps : Keeps I (recover backend)
  unfolding recover
  recover-Keeps = Keeps-bind _ _ find_jobs-Keeps recover_each-Keeps

  pub start-Keeps :
      (update_available : M Bool)
      → Quiet update_available
      → Keeps I (start backend update_available)
  unfolding start
  start-Keeps update_available quiet =
      Keeps-bind _ _ recover-Keeps λ _. Keeps-bind _ _ (of_quiet quiet) set_update_available-Keeps

  module _ (install : Quiet services.install) where
    install-Keeps : Keeps I services.install
    install-Keeps = of_quiet install

    install_if_idle-Keeps : (running : Bool) → Keeps I (install_if_idle backend running)
    unfolding install_if_idle
    install_if_idle-Keeps running =
        search
          (
            keeps_rules, get_update_available-Keeps, when-Keeps, install-Keeps,
            set_update_available-Keeps,
          )
          depth 8

    execute_round-Keeps : (check_remote : Bool) → Keeps I (execute_round backend check_remote)
    unfolding execute_round
    execute_round-Keeps check_remote =
        Keeps-bind _ _ (process_jobs-Keeps check_remote) install_if_idle-Keeps

    module _ (perf_counter : ℕ → ℤ) (refresh second : ℤ) where
      pub execute_loop-Keeps :
          (fuel k : ℕ) (last_active : ℤ)
          → Keeps I (execute_loop backend perf_counter refresh second fuel k last_active)
      unfolding execute_loop
      execute_loop-Keeps zero k last_active = Keeps-pure false
      execute_loop-Keeps (suc fuel) k last_active =
          let rest = execute_loop-Keeps fuel (suc (suc k)) _ in
          Keeps-bind _ _ (of_local poll_shutdown-LocalOnly) λ shutting_down.
            Keeps-if shutting_down _ _ (Keeps-pure true)
              (Keeps-bind _ _ (execute_round-Keeps _) (λ _. rest))

      pub execute_jobs-Keeps :
          (fuel : ℕ) → Keeps I (execute_jobs backend perf_counter refresh second fuel)
      unfolding execute_jobs
      execute_jobs-Keeps fuel = execute_loop-Keeps fuel 1 _
