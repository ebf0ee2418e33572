-- ===== src/Scripts/Examples/Compiled.antt =====
-- What scripts/check-examples.mjs promises where it finds no problem.
use nebula_token.Common.{
  ℕ, ◌≡◌, true, false, Option, none, some, List, [], ◌∷◌, ◌++◌, All, Text, ◌+◌,
}
use nebula_token.Codec.Split.{split}
use nebula_token.Scripts.Examples.RunLine.{IsRunLine, IsInner}
use nebula_token.Scripts.Regex.{text, test}
use nebula_token.Scripts.Texts.{ends_with, includes, trim, any}
use nebula_token.Scripts.Members.{IsIn}
use nebula_token.Scripts.Examples.{job_line, is_block_mark, is_command, Template, rel_of}

-- The commands that the lines of a job run: those of a `run:` line that opens no block, and the
-- lines of a block.
pub data Runs (body : List Text) (t : Text) : Type 0 where
  at_once :
      (l : Text) (indent : ℕ)
      → IsIn l body
      → IsRunLine l indent t
      → is_block_mark t ≡ false
      → Runs body t
  in_scalar :
      (before inner after : List Text) (opener l mark : Text) (indent : ℕ)
      → body ≡ before ++ (opener ∷ (inner ++ (l ∷ after)))
      → IsRunLine opener indent mark
      → is_block_mark mark ≡ true
      → All (IsInner (indent + 2)) (inner ++ (l ∷ []))
      → t ≡ trim l
      → Runs body t

-- A block is open: some line before, with only lines of the block between, opened it.
pub data Opened (block : Option ℕ) (past : List Text) : Type 0 where
  closed : block ≡ none → Opened block past
  opened :
      (before inner : List Text) (opener mark : Text) (indent : ℕ)
      → past ≡ before ++ (opener ∷ inner)
      → IsRunLine opener indent mark
      → is_block_mark mark ≡ true
      → All (IsInner (indent + 2)) inner
      → block ≡ some (indent + 2)
      → Opened block past

-- A command that CI runs in a job: no comment, and run by the lines of the job, which are what stands
-- between its head and the next one.
abbrev pub IsRun : Text → Text → Text → Type 0
IsRun ci job t =
    (before : List Text) × (body : List Text) × (after : List Text) × (split b'\n' ci
      ≡ before ++ ((text "  " ++ (job ++ text ":")) ∷ (body ++ after)))
    × All (λ l. test job_line l ≡ false) body
    × Runs body t
    × (is_command t ≡ true)

-- A package whose templates CI compiles.
abbrev pub IsCompiled : (Text → Option (List Text)) → Text → Template → Type 0
IsCompiled listing ci spec =
    ((names : List Text) × (listing (rel_of spec) ≡ some names)
      × ((f : Text) × IsIn f names × (any (λ e. ends_with e f) spec.ext ≡ true)))
    × ((t : Text) × IsRun ci spec.pkg t × (includes spec.command t ≡ true))
