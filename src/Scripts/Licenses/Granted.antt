-- ===== src/Scripts/Licenses/Granted.antt =====
-- What scripts/check-licenses.mjs promises where it finds no problem.
use nebula_token.Common.{◌≡◌, true, false, ◌||◌, some, List, [], ◌∷◌, All, Text}
use nebula_token.Scripts.Members.{IsIn}
use nebula_token.Scripts.Regex.{text, test}
use nebula_token.Scripts.Texts.{includes}
use nebula_token.Scripts.Licenses.{
  str, Json, spdx, Platform, packages, markers, body_sha, licence_body, mit, dual, licence_file,
  entry_of, dir_of, entries_of,
}
use nebula_token.Scripts.Licenses.Parsed.{lock_files}
use nebula_token.Scripts.Licenses.Declared.{IsDeclared}

-- The root LICENSE: all markers, the body of the known digest, and no word of another licence.
pub record IsApache (sha_text : Text → Text) (root : Text) : Type 0 where
  pub marked : All (λ m. includes m root ≡ true) markers
  pub body : (b : Text) × (licence_body root ≡ some b) × (sha_text b ≡ body_sha)
  pub owner : includes (text "Copyright 2026 Matteo Teodori") root ≡ true
  pub filled_in :
      (includes (text "[yyyy]") root ≡ false)
      × (includes (text "[name of copyright owner]") root ≡ false)
  pub one_grant : (test mit root || test dual root) ≡ false
  pub line_feeds : includes (text "\r") root ≡ false

-- The names of the files of other licences, and of copies in another form.
abbrev other_licences : List Text
other_licences =
    text "LICENSE-MIT" ∷ text "LICENSE-APACHE" ∷ text "LICENSE.txt" ∷ text "COPYING" ∷ []

-- No file of a directory has such a name.
abbrev pub IsOnlyLicence : Platform → (Text → Text) → List Text → Type 0
IsOnlyLicence os path entries =
    (e : Text) → IsIn e entries → IsIn e other_licences → os.is_file (path e) ≡ false

-- A package with a LICENSE of the same digest as the root's, and no file of another licence.
abbrev pub IsGranted : Platform → Text → Type 0
IsGranted os pkg =
    (entries : List Text) × (os.listing (dir_of pkg) ≡ some entries)
    × ((s : Text) × (os.files (entry_of (dir_of pkg) licence_file) ≡ some s))
    × (os.sha_file (entry_of (dir_of pkg) licence_file) ≡ os.sha_file licence_file)
    × IsOnlyLicence os (entry_of (dir_of pkg)) entries

-- A lock file that is there has the licence in its own entry.
abbrev IsLocked : Platform → Text → Type 0
IsLocked os rel =
    (t : Text)
    → os.files rel ≡ some t
    → (json : Json) × (os.json t ≡ some json) × (json.root_entry ≡ some (some (str spdx)))

-- What the script promises of the repository.
pub record IsLicensed (os : Platform) (root : Text) : Type 0 where
  pub root_there : os.files licence_file ≡ some root
  pub apache : IsApache os.sha_text root
  pub granted : All (IsGranted os) packages
  pub root_only : IsOnlyLicence os (λ e. e) (entries_of (os.listing []))
  pub manifests : IsDeclared os
  pub locks : All (IsLocked os) lock_files
