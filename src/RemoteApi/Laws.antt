-- ===== src/RemoteApi/Laws.antt =====
-- RemoteApi moves no job.
use simple_cwl_xenon_service.Prelude.{String, Bool, true, false, Option, List, [], ◌∷◌}
use simple_cwl_xenon_service.World.{Site}
use simple_cwl_xenon_service.World.Quiet.{Quiet, Quiet-bind, Quiet-ask, Quiet-pure, quiet_rules}
use simple_cwl_xenon_service.RemoteApi.{
  Api, translate_workflow, describe, list_projects, get_projects,
}

module _ (site : Site) (api : Api) where
  pub translate_workflow-Quiet :
      (content : Option String) → Quiet (translate_workflow site api content)
  unfolding translate_workflow
  translate_workflow-Quiet content = search quiet_rules depth 10

  describe-Quiet : (directory : Bool) (name : String) → Quiet (describe site api directory name)
  unfolding describe
  describe-Quiet false name = search quiet_rules
  describe-Quiet true name = search quiet_rules depth 8

  list_projects-Quiet : (names : List String) → Quiet (list_projects site api names)
  unfolding list_projects
  list_projects-Quiet [] = search quiet_rules
  list_projects-Quiet (name ∷ names) =
      let rest = list_projects-Quiet names in
      Quiet-bind _ _ (Quiet-ask _ _) (λ directory.
        Quiet-bind _ _ (describe-Quiet directory name)
          (λ here. Quiet-bind _ _ rest (λ lines. Quiet-pure _)))

  pub get_projects-Quiet : Quiet (get_projects site api)
  unfolding get_projects
  get_projects-Quiet = search (quiet_rules, list_projects-Quiet) depth 8
