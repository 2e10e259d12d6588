-- ===== src/Front/Requests.antt =====
-- What the request handlers do to the store and what they answer.
use Prim.Native.String.{◌++◌}
use simple_cwl_xenon_service.Prelude.{
  ℕ, ◌≡◌, refl, true, ==_refl, ◌||◌, Option, none, some, String, [], arith,
}
use simple_cwl_xenon_service.Exception.{Outcome, ok, raised, job_not_found}
use simple_cwl_xenon_service.JobState.{
  submitted, to_cwl_state_string, is_final, cancellation_active,
}
use simple_cwl_xenon_service.JobStore.{Store, rows, with_state, get_job, get_var, create_job}
use simple_cwl_xenon_service.JobStore.Table.{Row, new_row}
use simple_cwl_xenon_service.JobStore.Select.{rows-create_job}
use simple_cwl_xenon_service.JobStore.Single.{
  Single, Single-set_var, get_job-Single, get_var-Single,
}
use simple_cwl_xenon_service.Front.{
  RestJob, created, after_cancel, cancel_transitions, mark_deleted, internal_job_to_rest_job,
  get_job_by_id, cancel_job_by_id, delete_job_by_id, post_job,
}
use simple_cwl_xenon_service.Front.Cancel.{
  cancel_target, Single-cancel_transitions, cancel_target_pending,
}

module _ {Json : Type 0} (loads : String → Option Json) (no_output : Json) (hex : ℕ → String)
    (base_url : String) where
  get_job_by_id-found :
      (id : ℕ) (s : Store)
      → get_job id s ≡ some id
      → get_job_by_id loads no_output hex base_url id s
        ≡ (internal_job_to_rest_job loads no_output hex base_url id s, s)
  unfolding get_job_by_id
  get_job_by_id-found id s h = rw (h, get_job_by_id)

  cancel_job_by_id-found :
      (id : ℕ) (s : Store)
      → get_job id s ≡ some id
      → cancel_job_by_id loads no_output hex base_url id s
        ≡ get_job_by_id loads no_output hex base_url id (cancel_transitions id s)
  unfolding cancel_job_by_id
  cancel_job_by_id-found id s h = rw (h, cancel_job_by_id)

  cancel_job_by_id-missing :
      (id : ℕ) (s : Store)
      → get_job id s ≡ none
      → cancel_job_by_id loads no_output hex base_url id s ≡ (raised job_not_found, s)
  unfolding cancel_job_by_id
  cancel_job_by_id-missing id s h = rw (h, cancel_job_by_id)

  -- A cancel request for a job that is there moves it to the target of its state and changes no other
  -- column; the job is then final or pending cancellation.
  pub cancel_job_by_id-Single :
      (id : ℕ) (r : Row) (s : Store)
      → Single id r s
      → Single id
          (with_state (cancel_target r.state) r)
          (cancel_job_by_id loads no_output hex base_url id s).1
        × ((is_final (cancel_target r.state) || cancellation_active (cancel_target r.state)) ≡ true)
  cancel_job_by_id-Single id r s h =
      let h' = Single-cancel_transitions id r s h in
      (
        rw
            (
              cancel_job_by_id-found id s (get_job-Single id r s h),
              get_job_by_id-found id (cancel_transitions id s) (get_job-Single id _ _ h'),
            )
            h',
        cancel_target_pending r.state,
      )

  after_cancel-cancelled :
      (id : ℕ) (r : Row) (o : Outcome (RestJob Json)) (s : Store)
      → Single id r s
      → (after_cancel loads no_output hex base_url id (o, s)).0 ≡ ok tt
      → Single id (mark_deleted r) (after_cancel loads no_output hex base_url id (o, s)).1
  after_cancel-cancelled id r (raised e) s h done = ground arith
  after_cancel-cancelled id r (ok reply) s h done =
      rw (get_job-Single id r s h, after_cancel) (Single-set_var id r s h mark_deleted (λ r. refl))

  delete_job_by_id-found :
      (id : ℕ) (s : Store)
      → get_job id s ≡ some id
      → get_job id (cancel_transitions id s) ≡ some id
      → delete_job_by_id loads no_output hex base_url id s
        ≡ after_cancel loads no_output hex base_url id (
          internal_job_to_rest_job loads no_output hex base_url id (cancel_transitions id s),
          cancel_transitions id s,
        )
  unfolding delete_job_by_id
  delete_job_by_id-found id s h h' =
      rw
        (
          cancel_job_by_id-found id s h,
          get_job_by_id-found id (cancel_transitions id s) h',
          delete_job_by_id,
        )
        refl

  -- A delete request that succeeds marks the job for deletion and does what a cancel request does: a
  -- job in a final state or pending cancellation stays where it is, and any other goes to CANCELLED or to a
  -- state pending cancellation. Its other columns are unchanged: the row itself is left for the back
  -- end to remove.
  pub delete_job_by_id-Single :
      (id : ℕ) (r : Row) (s : Store)
      → Single id r s
      → (delete_job_by_id loads no_output hex base_url id s).0 ≡ ok tt
      → Single id
          (mark_deleted (with_state (cancel_target r.state) r))
          (delete_job_by_id loads no_output hex base_url id s).1
  delete_job_by_id-Single id r s h done =
      let s' = cancel_transitions id s in
      let reply = internal_job_to_rest_job loads no_output hex base_url id s' in
      let h' = Single-cancel_transitions id r s h in
      let e = delete_job_by_id-found id s (get_job-Single id r s h) (get_job-Single id _ _ h') in
      rw e (after_cancel-cancelled id _ reply s' h' (rw (← e) done))

  created-store : (o : Option ℕ) (s : Store) → (created loads no_output hex base_url o s).1 ≡ s
  created-store none s = refl
  created-store (some job) s = refl

  post_job-store :
      (uuid time : ℕ) (name workflow job_input : String) (s : Store)
      → (post_job loads no_output hex base_url uuid time name workflow job_input s).1
        ≡ create_job uuid time name workflow job_input s
  unfolding post_job
  post_job-store uuid time name workflow job_input s = created-store _ _

  -- What a client is told of a job that it has just posted.
  abbrev pub posted : ℕ → String → String → Json → RestJob Json
  posted uuid name workflow input = record {
    id = uuid;
    name = name;
    workflow = workflow;
    input = input;
    state = "Waiting";
    output = no_output;
    log = base_url ++ ("/jobs/" ++ (hex uuid ++ "/log"));
  }

  internal_job_to_rest_job-new :
      (uuid : ℕ) (name workflow job_input : String) (input : Json) (s : Store)
      → Single uuid (new_row uuid name workflow job_input) s
      → loads job_input ≡ some input
      → internal_job_to_rest_job loads no_output hex base_url uuid s
        ≡ ok (posted uuid name workflow input)
  unfolding internal_job_to_rest_job get_var to_cwl_state_string
  internal_job_to_rest_job-new uuid name workflow job_input input s h e = rw (h, e) refl

  -- A job that is posted under a new id, with an input that can be read, is answered as Waiting, with the
  -- name, the workflow and the input that were sent and no output; asking for it afterwards gives the
  -- same answer; and it is in SUBMITTED, from where the back end takes it.
  pub post_job-posted :
      (uuid time : ℕ) (name workflow job_input : String) (input : Json) (s : Store)
      → rows uuid s ≡ []
      → loads job_input ≡ some input
      → ((post_job loads no_output hex base_url uuid time name workflow job_input s).0
          ≡ ok (posted uuid name workflow input))
        × ((get_job_by_id loads no_output hex base_url uuid
              (post_job loads no_output hex base_url uuid time name workflow job_input s).1).0
            ≡ ok (posted uuid name workflow input))
        × (get_var
              (λ r. r.state)
              uuid
              (post_job loads no_output hex base_url uuid time name workflow job_input s).1
            ≡ some submitted)
  unfolding post_job
  post_job-posted uuid time name workflow job_input input s free e =
      let after = create_job uuid time name workflow job_input s in
      let one : Single uuid (new_row uuid name workflow job_input) after =
        rw (rows-create_job uuid time uuid name workflow job_input s, free, ==_refl uuid) refl in
      let there = get_job-Single uuid _ after one in
      let told = internal_job_to_rest_job-new uuid name workflow job_input input after one e in
      (
        rw (there, post_job) told,
        rw (post_job-store uuid time name workflow job_input s)
            (rw (get_job_by_id-found uuid after there) told),
        rw (post_job-store uuid time name workflow job_input s)
            (get_var-Single uuid _ after one (λ r. r.state)),
      )
