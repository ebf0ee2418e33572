-- ===== src/Scripts/Licenses/Declared.antt =====
-- What the checks of the manifests establish.
use nebula_token.Common.{
  ◌≡◌, refl, ap, ◌⊎◌, inl, inr, Bool, true, false, not, ◌||◌, Option, none, some, Option-cases,
  List, [], ◌∷◌, ◌==◌, Bool-cases, arith, length, Text, append-eq-empty, same_text_iff, map,
}
use nebula_token.Codec.Split.{split}
use nebula_token.Scripts.Regex.{text, test, match_all, first_groups}
use mathlib.Core.Path.{subst}
use nebula_token.Scripts.Texts.{any, trim}
use nebula_token.Scripts.Members.{IsIn, contains_iff}
use nebula_token.Scripts.Runtime.{group_one, strip_xml_comments}
use nebula_token.Scripts.Licenses.{
  Value, str, array, other, Json, Platform, What, Problem, spdx, licence_file, licence_word,
  unless_holds,
}
use nebula_token.Scripts.Licenses.Payload.{
  stale_name, check_includes, check_list, toml_list, ruby_list,
}
use nebula_token.Scripts.Licenses.Manifests.{
  is_spdx, list_of, licence_string, python_files, rust_files, element, packed_item, last_part,
  check_python, check_rust, check_csharp, check_java, check_ruby, check_elixir, check_block,
  check_blocks, check_resources, block, ruby_licence, ruby_files, elixir_licences, elixir_files,
  ruby_or_none, is_only_spdx,
}
use nebula_token.Scripts.Licenses.Parsed.{
  only_composer, check_attributes, ignored_paths, is_spdx_value, check_files, check_typescript,
  check_php_license, check_php, with_manifest, check_manifests,
}

pub unless_holds-true : (b : Bool) (rel : Text) (w : What) → unless_holds b rel w ≡ [] → b ≡ true
unless_holds-true true rel w h = refl
unless_holds-true false rel w h = cc

pub false_of_not : (b : Bool) → not b ≡ true → b ≡ false
false_of_not true h = cc
false_of_not false h = refl

-- A list that names the licence, and no file of the licences before it.
abbrev pub IsShipping : List Text → Type 0
IsShipping list =
    (IsIn licence_file list ⊎ IsIn (text "/LICENSE") list) × (any (test stale_name) list ≡ false)

or_cases : (a b : Bool) → (a || b) ≡ true → (a ≡ true) ⊎ (b ≡ true)
or_cases true b h = inl refl
or_cases false b h = inr h

check_includes-IsShipping :
    (rel label : Text) (list : List Text) → check_includes rel label list ≡ [] → IsShipping list
unfolding check_includes
check_includes-IsShipping rel label list h =
    let (a, b) = append-eq-empty _ _ h in
    (
      elim (or_cases _ _ (unless_holds-true _ _ _ a)) [
        | inl k ↦ inl ((contains_iff _ list).0 k)
        | inr k ↦ inr ((contains_iff _ list).0 k)
      ],
      false_of_not _ (unless_holds-true _ _ _ b),
    )

check_list-IsShipping :
    (rel label : Text) (o : Option (List Text))
    → check_list rel label o ≡ []
    → (list : List Text) × (o ≡ some list) × IsShipping list
unfolding check_list
check_list-IsShipping rel label none h = cc
check_list-IsShipping rel label (some list) h =
    (list, refl, check_includes-IsShipping rel label list h)

is_spdx-eq : (o : Option Text) → is_spdx o ≡ true → o ≡ some spdx
is_spdx-eq none h = cc
is_spdx-eq (some t) h = ap some ((same_text_iff t spdx).0 h)

pub is_spdx_value-eq : (o : Option Value) → is_spdx_value o ≡ true → o ≡ some (str spdx)
is_spdx_value-eq (some (str t)) h = ap (λ x. some (str x)) ((same_text_iff t spdx).0 h)
is_spdx_value-eq (some (array list)) h = cc
is_spdx_value-eq (some other) h = cc
is_spdx_value-eq none h = cc

with_manifest-some :
    (os : Platform) (rel : Text) (check : Text → List Problem)
    → with_manifest os rel check ≡ []
    → (t : Text) × (os.files rel ≡ some t) × (check t ≡ [])
unfolding with_manifest
with_manifest-some os rel check h = elim (Option-cases (os.files rel)) [
  | inl n ↦ cc (rw (n, with_manifest) at h)
  | inr (t, e) ↦ (t, e, rw (e, with_manifest) at h)
]

-- A list of files that a manifest declares under some pattern ships the licence.
abbrev IsListed : Option (List Text) → Type 0
IsListed o = (list : List Text) × (o ≡ some list) × IsShipping list

abbrev IsRust : Platform → Text → Type 0
IsRust os rel =
    (t : Text) × (os.files rel ≡ some t)
    × (group_one licence_string t ≡ some spdx)
    × IsListed (list_of toml_list (group_one rust_files t))

with-IsRust :
    (os : Platform) (rel : Text) → with_manifest os rel (check_rust rel) ≡ [] → IsRust os rel
unfolding check_rust
with-IsRust os rel h =
    let (t, e, k) = with_manifest-some os rel (check_rust rel) h in
    let (a, b) = append-eq-empty _ _ k in
    let (c, d) = append-eq-empty _ _ b in
    (t, e, is_spdx-eq _ (unless_holds-true _ _ _ a), check_list-IsShipping rel _ _ d)

abbrev IsPython : Platform → Text → Type 0
IsPython os rel =
    (t : Text) × (os.files rel ≡ some t)
    × (group_one licence_string t ≡ some spdx)
    × IsListed (list_of toml_list (group_one python_files t))

with-IsPython :
    (os : Platform) (rel : Text) → with_manifest os rel (check_python rel) ≡ [] → IsPython os rel
unfolding check_python
with-IsPython os rel h =
    let (t, e, k) = with_manifest-some os rel (check_python rel) h in
    let (a, b) = append-eq-empty _ _ k in
    let (c, d) = append-eq-empty _ _ b in
    let (f, g) = append-eq-empty _ _ d in
    (t, e, is_spdx-eq _ (unless_holds-true _ _ _ c), check_list-IsShipping rel _ _ f)

abbrev IsCsharp : Platform → Text → Type 0
IsCsharp os rel =
    (t : Text) × (os.files rel ≡ some t)
    × (group_one (element (text "PackageLicenseExpression")) (strip_xml_comments t) ≡ some spdx)
    × IsShipping (
        map (λ s. last_part (split b'/' s))
          (first_groups (match_all packed_item (strip_xml_comments t))))

with-IsCsharp :
    (os : Platform) (rel : Text) → with_manifest os rel (check_csharp rel) ≡ [] → IsCsharp os rel
unfolding check_csharp
with-IsCsharp os rel h =
    let (t, e, k) = with_manifest-some os rel (check_csharp rel) h in
    let (a, b) = append-eq-empty _ _ k in
    let (c, d) = append-eq-empty _ _ b in
    (t, e, is_spdx-eq _ (unless_holds-true _ _ _ a), check_includes-IsShipping rel _ _ d)

abbrev IsTypescript : Platform → Text → Type 0
IsTypescript os rel =
    (t : Text) × (json : Json) × (list : List Text) × (os.files rel ≡ some t)
    × (os.json t ≡ some json)
    × (json.license ≡ some (str spdx))
    × (json.files ≡ some (array list))
    × IsShipping list

check_files-IsShipping :
    (rel : Text) (o : Option Value)
    → check_files rel o ≡ []
    → (list : List Text) × (o ≡ some (array list)) × IsShipping list
unfolding check_files
check_files-IsShipping rel none h = cc
check_files-IsShipping rel (some (str t)) h = cc
check_files-IsShipping rel (some other) h = cc
check_files-IsShipping rel (some (array list)) h =
    (list, refl, check_includes-IsShipping rel _ list h)

check_typescript-some :
    (rel : Text) (o : Option Json)
    → check_typescript rel o ≡ []
    → (json : Json) × (list : List Text) × (o ≡ some json)
      × (json.license ≡ some (str spdx))
      × (json.files ≡ some (array list))
      × IsShipping list
unfolding check_typescript
check_typescript-some rel none h = cc
check_typescript-some rel (some json) h =
    let (a, b) = append-eq-empty _ _ h in
    let (list, e, s) = check_files-IsShipping rel json.files b in
    (json, list, refl, is_spdx_value-eq json.license (unless_holds-true _ _ _ a), e, s)

with-IsTypescript :
    (os : Platform) (rel : Text)
    → with_manifest os rel (λ t. check_typescript rel (os.json t)) ≡ []
    → IsTypescript os rel
with-IsTypescript os rel h =
    let (t, e, k) = with_manifest-some os rel _ h in
    let (json, list, d, l, f, s) = check_typescript-some rel (os.json t) k in
    (t, json, list, e, d, l, f, s)

abbrev IsPhp : Platform → Text → Type 0
IsPhp os rel =
    (t : Text) × (json : Json) × (os.files rel ≡ some t)
    × (os.json t ≡ some json)
    × (json.license ≡ some (str spdx))
    × (any (test licence_word) json.excluded ≡ false)
    × (os.composers ≡ text "composer.json" ∷ [])
    × (os.export_ignored (text "LICENSE") ≡ false)
    × (os.export_ignored (text "packages/php/LICENSE") ≡ false)

only_composer-eq : (l : List Text) → only_composer l ≡ true → l ≡ text "composer.json" ∷ []
only_composer-eq (c ∷ []) h = ap (λ x. x ∷ []) ((same_text_iff c (text "composer.json")).0 h)
only_composer-eq [] h = cc
only_composer-eq (c ∷ d ∷ l) h = cc

check_attributes-kept :
    (os : Platform) (o : Option Text)
    → check_attributes os o ≡ []
    → (os.export_ignored (text "LICENSE") ≡ false)
      × (os.export_ignored (text "packages/php/LICENSE") ≡ false)
unfolding check_attributes ignored_paths
check_attributes-kept os none h = cc
check_attributes-kept os (some t) h = elim (Bool-cases (os.export_ignored (text "LICENSE"))) [
  | inl k ↦ cc (rw k at h)
  | inr k ↦ elim (Bool-cases (os.export_ignored (text "packages/php/LICENSE"))) [
    | inl j ↦ cc (rw (k, j) at h)
    | inr j ↦ (k, j)
  ]
]

check_php_license-str :
    (rel : Text) (o : Option Value) → check_php_license rel o ≡ [] → o ≡ some (str spdx)
unfolding check_php_license
check_php_license-str rel (some (array list)) h = cc
check_php_license-str rel (some (str t)) h =
    is_spdx_value-eq (some (str t)) (unless_holds-true _ _ _ h)
check_php_license-str rel (some other) h = is_spdx_value-eq (some other) (unless_holds-true _ _ _ h)
check_php_license-str rel none h = is_spdx_value-eq none (unless_holds-true _ _ _ h)

check_php-some :
    (os : Platform) (rel : Text) (o : Option Json)
    → check_php os rel o ≡ []
    → (json : Json) × (o ≡ some json)
      × (json.license ≡ some (str spdx))
      × (any (test licence_word) json.excluded ≡ false)
      × (os.composers ≡ text "composer.json" ∷ [])
      × (os.export_ignored (text "LICENSE") ≡ false)
      × (os.export_ignored (text "packages/php/LICENSE") ≡ false)
unfolding check_php
check_php-some os rel none h = cc
check_php-some os rel (some json) h =
    let (a, b) = append-eq-empty _ _ h in
    let (c, d) = append-eq-empty _ _ b in
    let (e, f) = append-eq-empty _ _ d in
    let (root_kept, copy_kept) = check_attributes-kept os _ f in
    (
      json,
      refl,
      check_php_license-str rel json.license a,
      false_of_not _ (unless_holds-true _ _ _ c),
      only_composer-eq os.composers (unless_holds-true _ _ _ e),
      root_kept,
      copy_kept,
    )

with-IsPhp :
    (os : Platform) (rel : Text)
    → with_manifest os rel (λ t. check_php os rel (os.json t)) ≡ []
    → IsPhp os rel
with-IsPhp os rel h =
    let (t, e, k) = with_manifest-some os rel _ h in
    let (json, d, l, x, c, r, p) = check_php-some os rel (os.json t) k in
    (t, json, e, d, l, x, c, r, p)

abbrev IsRuby : Platform → Text → Type 0
IsRuby os rel =
    (t : Text) × (os.files rel ≡ some t)
    × (group_one ruby_licence t ≡ some spdx)
    × IsListed (list_of ruby_list (group_one ruby_files t))

with-IsRuby :
    (os : Platform) (rel : Text) → with_manifest os rel (check_ruby rel) ≡ [] → IsRuby os rel
unfolding check_ruby
with-IsRuby os rel h =
    let (t, e, k) = with_manifest-some os rel (check_ruby rel) h in
    let (a, b) = append-eq-empty _ _ k in
    let (c, d) = append-eq-empty _ _ b in
    (t, e, is_spdx-eq _ (unless_holds-true _ _ _ c), check_list-IsShipping rel _ _ d)

abbrev IsElixir : Platform → Text → Type 0
IsElixir os rel =
    (t : Text) × (os.files rel ≡ some t)
    × (ruby_or_none (group_one elixir_licences t) ≡ spdx ∷ [])
    × IsListed (list_of ruby_list (group_one elixir_files t))

is_only_spdx-eq : (l : List Text) → is_only_spdx l ≡ true → l ≡ spdx ∷ []
is_only_spdx-eq (c ∷ []) h = ap (λ x. x ∷ []) ((same_text_iff c spdx).0 h)
is_only_spdx-eq [] h = cc
is_only_spdx-eq (c ∷ d ∷ l) h = cc

with-IsElixir :
    (os : Platform) (rel : Text) → with_manifest os rel (check_elixir rel) ≡ [] → IsElixir os rel
unfolding check_elixir
with-IsElixir os rel h =
    let (t, e, k) = with_manifest-some os rel (check_elixir rel) h in
    let (a, b) = append-eq-empty _ _ k in
    (t, e, is_only_spdx-eq _ (unless_holds-true _ _ _ a), check_list-IsShipping rel _ _ b)

-- A POM: one licence block, which has the name, the bundle's licence, and two lists of resources.
abbrev IsJava : Platform → Text → Type 0
IsJava os rel =
    (t : Text) × (b : Text) × (first second : Text) × (os.files rel ≡ some t)
    × (first_groups (match_all (block (text "license")) (strip_xml_comments t)) ≡ b ∷ [])
    × (group_one (element (text "name")) b ≡ some spdx)
    × (group_one (element (text "Bundle-License")) (strip_xml_comments t) ≡ some spdx)
    × (first_groups (match_all (block (text "includes")) (strip_xml_comments t))
        ≡ first ∷ second ∷ [])
    × IsShipping (map trim (first_groups (match_all (element (text "include")) first)))
    × IsShipping (map trim (first_groups (match_all (element (text "include")) second)))

one_of : (l : List Text) → (length l == 1) ≡ true → (b : Text) × (l ≡ b ∷ [])
one_of [] h = cc
one_of (b ∷ []) h = (b, refl)
one_of (b ∷ c ∷ l) h = absurd (ground arith)

two_of : (l : List Text) → (length l == 2) ≡ true → (b c : Text) × (l ≡ b ∷ c ∷ [])
two_of [] h = cc
two_of (b ∷ []) h = cc
two_of (b ∷ c ∷ []) h = (b, c, refl)
two_of (b ∷ c ∷ d ∷ l) h = absurd (ground arith)

check_block-name :
    (rel b : Text) (l : List Text)
    → l ≡ b ∷ []
    → check_blocks rel l ≡ []
    → group_one (element (text "name")) b ≡ some spdx
unfolding check_blocks check_block
check_block-name rel b l e h =
    let (k, _) = append-eq-empty _ _ (subst (λ x. check_blocks rel x ≡ []) e h) in
    let (a, _) = append-eq-empty _ _ k in is_spdx-eq _ (unless_holds-true _ _ _ a)

check_resources-both :
    (rel b c : Text) (l : List Text)
    → l ≡ b ∷ c ∷ []
    → check_resources rel l ≡ []
    → IsShipping (map trim (first_groups (match_all (element (text "include")) b)))
      × IsShipping (map trim (first_groups (match_all (element (text "include")) c)))
unfolding check_resources
check_resources-both rel b c l e h =
    let (a, k) = append-eq-empty _ _ (subst (λ x. check_resources rel x ≡ []) e h) in
    let (d, _) = append-eq-empty _ _ k in
    (check_includes-IsShipping rel _ _ a, check_includes-IsShipping rel _ _ d)

with-IsJava :
    (os : Platform) (rel : Text) → with_manifest os rel (check_java rel) ≡ [] → IsJava os rel
unfolding check_java
with-IsJava os rel h =
    let (t, e, k) = with_manifest-some os rel (check_java rel) h in
    let (a, a') = append-eq-empty _ _ k in
    let (b, b') = append-eq-empty _ _ a' in
    let (c, c') = append-eq-empty _ _ b' in
    let (d, d') = append-eq-empty _ _ c' in
    let (f, _) = append-eq-empty _ _ d' in
    let (only, one) = one_of _ (unless_holds-true _ _ _ a) in
    let (first, second, two) = two_of _ (unless_holds-true _ _ _ d) in
    let (ships, also) = check_resources-both rel first second _ two f in
    (
      t,
      only,
      first,
      second,
      e,
      one,
      check_block-name rel only _ one b,
      is_spdx-eq _ (unless_holds-true _ _ _ c),
      two,
      ships,
      also,
    )

-- What the manifests declare; that of Dart declares nothing.
pub record IsDeclared (os : Platform) : Type 0 where
  pub typescript : IsTypescript os (text "packages/typescript/package.json")
  pub python : IsPython os (text "packages/python/pyproject.toml")
  pub rust : IsRust os (text "packages/rust/Cargo.toml")
  pub php : IsPhp os (text "composer.json")
  pub java : IsJava os (text "packages/java/pom.xml")
  pub ruby : IsRuby os (text "packages/ruby/nebula-token.gemspec")
  pub elixir : IsElixir os (text "packages/elixir/mix.exs")
  pub csharp : IsCsharp os (text "packages/csharp/src/NebulaToken/NebulaToken.csproj")

pub check_manifests-IsDeclared : (os : Platform) → check_manifests os ≡ [] → IsDeclared os
unfolding check_manifests
check_manifests-IsDeclared os h =
    let (a, a') = append-eq-empty _ _ h in
    let (b, b') = append-eq-empty _ _ a' in
    let (c, c') = append-eq-empty _ _ b' in
    let (d, d') = append-eq-empty _ _ c' in
    let (e, e') = append-eq-empty _ _ d' in
    let (f, f') = append-eq-empty _ _ e' in
    let (g, g') = append-eq-empty _ _ f' in
    let (i, i') = append-eq-empty _ _ g' in
    record {
      java = with-IsJava os _ d;
      ruby = with-IsRuby os _ i;
      elixir = with-IsElixir os _ i';
      typescript = with-IsTypescript os _ a;
      python = with-IsPython os _ b;
      rust = with-IsRust os _ c;
      php = with-IsPhp os _ e;
      csharp = with-IsCsharp os _ f;
    }
