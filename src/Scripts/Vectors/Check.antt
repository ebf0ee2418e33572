-- ===== src/Scripts/Vectors/Check.antt =====
-- The whole of scripts/validate-vectors.mjs after the schemas, up to its list of problems. How the
-- traceability document is rendered (`JSON.stringify`) is a parameter, as is the file on disk.
use nebula_token.Common.{Option, none, some, List, [], ◌∷◌, ◌++◌, if◌then◌else◌, Text, same_text}
use nebula_token.Scripts.Texts.{trim}
use nebula_token.Scripts.Version.{then_do}
use nebula_token.Scripts.Vectors.{
  TestVectors, BehaviorVectors, Problem, trace_missing, trace_stale, check_counts, check_ids,
}
use nebula_token.Scripts.Vectors.Citations.{defined_in, check_citations, check_version}
use nebula_token.Scripts.Vectors.Constants.{check_constants}
use nebula_token.Scripts.Vectors.Scenarios.{check_scenarios}
use nebula_token.Scripts.Vectors.Trace.{Traceability, build}

module _ (stringify : Traceability → Text) where
  -- The eighth section.
  unfoldable pub check_trace : Option Text → Text → TestVectors → BehaviorVectors → List Problem
  check_trace none spec tv bv = trace_missing ∷ []
  check_trace (some on_disk) spec tv bv =
      if same_text (trim on_disk) (trim (stringify (build tv bv (defined_in spec))))
      then []
      else trace_stale ∷ []

  -- `problems`; nothing where the script throws.
  unfoldable pub validate :
      Option Text → Text → TestVectors → BehaviorVectors → Option (List Problem)
  validate trace spec tv bv = then_do (check_scenarios bv) λ scenarios. some (
      check_counts tv bv
      ++ (check_ids tv bv
          ++ (check_citations spec tv bv
              ++ (check_version spec tv bv
                  ++ (check_constants spec tv ++ (scenarios ++ check_trace trace spec tv bv))))))
