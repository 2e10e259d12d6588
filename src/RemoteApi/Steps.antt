-- ===== src/RemoteApi/Steps.antt =====
-- What becomes of the steps of a workflow document.
use Prim.Native.String.{◌++◌}
use mathlib.Core.Option.{some-injective}
use text.Mathlib.Text.{◌==◌ as str_eq}
use simple_cwl_xenon_service.Prelude.{
  ◌≡◌, refl, sym, ◌∙◌, ap, subst, String, some, inl, inr, Bool-cases, arith,
}
use simple_cwl_xenon_service.Exception.{ok, bind-ok, ok-injective}
use simple_cwl_xenon_service.FileSystem.{FilePath, child}
use simple_cwl_xenon_service.Text.{split}
use simple_cwl_xenon_service.Text.Laws.{join-split}
use simple_cwl_xenon_service.Value.{Value, str, Entries, no_entries, dict_entry, lookup, get_item}
use simple_cwl_xenon_service.Value.Laws.{get_item-set_item}
use simple_cwl_xenon_service.RemoteApi.Translate.{
  head_part, translate_run, translate_run_value, translate_step, translate_steps,
}

module _ (remote_api_dir : FilePath) (show_path : FilePath → String) where
  -- The step file in the directory of the step's project, which the first part of its name gives.
  abbrev pub step_location : String → String
  step_location run =
      show_path (child (child remote_api_dir (head_part (split b'/' run))) "steps") ++ ("/" ++ run)

  translate_run-location :
      (run : String) → translate_run remote_api_dir show_path run ≡ step_location run
  unfolding translate_run
  translate_run-location run = rw (join-split "/" run) refl

  abbrev pub IsTranslated : Value → Value → Type 0
  IsTranslated step step' =
      (run : String) × (get_item "run" step ≡ ok (str run))
      × (get_item "run" step' ≡ ok (str (step_location run)))

  translate_run_value-str :
      (v v' : Value)
      → translate_run_value remote_api_dir show_path v ≡ ok v'
      → (run : String) × (v ≡ str run) × (v' ≡ str (step_location run))
  translate_run_value-str (str run) v' e =
      (run, refl, sym (ok-injective _ v' e) ∙ ap str (translate_run-location run))
  translate_run_value-str _ v' e = ground arith

  translate_step-IsTranslated :
      (step step' : Value)
      → translate_step remote_api_dir show_path step ≡ ok step'
      → IsTranslated step step'
  unfolding translate_step
  translate_step-IsTranslated step step' e =
      let (v, got, e₁) = bind-ok (get_item "run" step) _ step' e in
      let (v', translated, set) =
        bind-ok (translate_run_value remote_api_dir show_path v) _ step' e₁ in
      let (run, is_str, location) = translate_run_value-str v v' translated in
      (run, got ∙ ap ok is_str, get_item-set_item "run" v' step step' set ∙ ap ok location)

-- If the translation of the steps of a workflow returns, then every step is still there under its
-- name, its `run` was a text, and is now that text behind the `steps` directory of the project that the
-- text's first part names.
pub translate_steps-IsTranslated :
    (remote_api_dir : FilePath) (show_path : FilePath → String) (name : String)
    (steps steps' : Entries) (step : Value)
    → translate_steps remote_api_dir show_path steps ≡ ok steps'
    → lookup name steps ≡ some step
    → (step' : Value) × (lookup name steps' ≡ some step')
      × IsTranslated remote_api_dir show_path step step'
unfolding translate_steps lookup
translate_steps-IsTranslated dir show name no_entries steps' step e h = ground arith
translate_steps-IsTranslated dir show name (dict_entry k v steps) steps' step e h =
    let (v', translated, e₁) = bind-ok (translate_step dir show v) _ steps' e in
    let (rest, translated_rest, e₂) = bind-ok (translate_steps dir show steps) _ steps' e₁ in
    let at_rest = translate_steps-IsTranslated dir show name steps rest step translated_rest in
    subst (λ x. (step' : Value) × (lookup name x ≡ some step') × IsTranslated dir show step step')
      (ok-injective _ steps' e₂)
      (elim (Bool-cases (str_eq k name)) [
        | inl same ↦ (
          v',
          rw same refl,
          subst (λ x. IsTranslated dir show x v') (some-injective v step (rw same at h))
              (translate_step-IsTranslated dir show v v' translated),
        )
        | inr other ↦ rw other (at_rest (rw other at h))
      ])
