-- ===== src/RemoteApi/Attempts.antt =====
-- How the installation deals with errors of the network and with waiting.
use simple_cwl_xenon_service.Prelude.{ℕ, zero, suc, List, ◌∷◌}
use simple_cwl_xenon_service.FileSystem.{FilePath, exists}
use simple_cwl_xenon_service.World.{World, Call, access}

-- The calls after that many more looks at a path.
abbrev pub looks : ℕ → FilePath → List Call → List Call
looks zero path calls = calls
looks (suc n) path calls = looks n path (access (exists path) ∷ calls)
