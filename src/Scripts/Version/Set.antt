-- ===== src/Scripts/Version/Set.antt =====
-- What `set` of scripts/version.mjs leaves alone.
use nebula_token.Common.{
  ◌≡◌, refl, ◌∙◌, true, false, not, Option-cases, Bool-cases, inl, inr, List, [], ◌∷◌, all, arith,
  Text, same_text, same_text_iff,
}
use nebula_token.Scripts.Regex.{test}
use nebula_token.Scripts.Version.{
  Files, Site, Tables, set, set_sites, write_file, write_version, then_do,
}

write_file-other :
    (path s : Text) (files : Files) (other : Text)
    → same_text path other ≡ false
    → write_file path s files other ≡ files other
unfolding write_file
write_file-other path s files other ne =
    ground (arith, ne, same_text_iff other path, same_text_iff path other)

set_sites-others :
    (v : Text) (sites : List Site) (files : Files) (other : Text)
    → all (λ t. not (same_text t.file other)) sites ≡ true
    → (set_sites v sites files).1 other ≡ files other
unfolding set_sites
set_sites-others v [] files other h = refl
set_sites-others v (t ∷ sites) files other h =
    elim (Option-cases (then_do (files t.file) (write_version t.pattern v))) [
      | inl stop ↦ rw (stop, set_sites) refl
      | inr (after, go) ↦
          rw (go, set_sites)
            (set_sites-others v sites (write_file t.file after files) other (ground (arith, h))
              ∙ write_file-other t.file after files other (ground (arith, h)))
    ]

-- `set`, whether it comes to its end or throws on the way, leaves every file alone that is not the
-- file of a versioned site.
pub set-others :
    (tables : Tables) (v : Text) (files : Files) (other : Text)
    → all (λ t. not (same_text t.file other)) tables.versioned ≡ true
    → (set tables v files).1 other ≡ files other
unfolding set
set-others tables v files other h = elim (Bool-cases (test tables.semver v)) [
  | inl good ↦ rw (good, set) (set_sites-others v tables.versioned files other h)
  | inr bad ↦ rw (bad, set) refl
]
