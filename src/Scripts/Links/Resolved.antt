-- ===== src/Scripts/Links/Resolved.antt =====
-- What scripts/check-links.mjs promises of the pages where it finds no broken link.
use nebula_token.Common.{
  ◌≡◌, refl, ◌∙◌, ap, ◌⊎◌, inl, inr, Bool, Bool-cases, true, false, not, ◌||◌, Option, some,
  Option-cases, some_injective, List, [], ◌∷◌, All, Text, is_empty, append-eq-empty,
}
use nebula_token.Codec.Split.{split}
use nebula_token.Scripts.Regex.{text}
use nebula_token.Scripts.Texts.{starts_with, ends_with, drop}
use nebula_token.Scripts.Members.{IsIn, contains_iff}
use nebula_token.Scripts.Links.{
  Platform, Link, Problem, Report, join, is_external, unless_found, path_part, anchor_part,
  own_anchor, far_anchor, path_link, check_link, check_links,
}
use nebula_token.Scripts.Links.Pages.{anchors_of, links_in, check_file, check_files}

module _ (os : Platform) (anchors : Text → List Text) where
  -- An anchor after a path: none, or of something that is no Markdown file, or one of its own.
  pub data IsAnchored (clean target_abs anchor : Text) : Type 0 where
    no_anchor : is_empty anchor ≡ true → IsAnchored clean target_abs anchor
    not_a_page :
        (not (os.is_file target_abs) || not (ends_with (text ".md") clean)) ≡ true
        → IsAnchored clean target_abs anchor
    anchored :
        (want : Text)
        → os.decode anchor ≡ some want
        → IsIn want (anchors target_abs)
        → IsAnchored clean target_abs anchor

  -- The path of a link without its fragment and its query.
  abbrev pub clean_of : Link → Option Text
  clean_of link = os.decode (path_part (split b'?' (path_part (split b'#' link.target))))

  -- A link that resolves.
  pub data IsResolved (file : Text) (link : Link) : Type 0 where
    external : is_external link.target ≡ true → IsResolved file link
    in_page :
        (want : Text)
        → starts_with (text "#") link.target ≡ true
        → os.decode (drop 1 link.target) ≡ some want
        → (want ≡ []) ⊎ IsIn want (anchors (os.absolute file))
        → IsResolved file link
    no_path : clean_of link ≡ some [] → IsResolved file link
    in_repository :
        (clean : Text)
        → clean_of link ≡ some clean
        → starts_with (text "..") (os.relative (os.resolve (os.absolute file) clean)) ≡ false
        → os.exists (os.resolve (os.absolute file) clean) ≡ true
        → IsAnchored clean
            (os.resolve (os.absolute file) clean)
            (anchor_part (split b'#' link.target))
        → IsResolved file link

  -- A report that is there and has no problem.
  abbrev IsClean : Option Report → Type 0
  IsClean o = (r : Report) × (o ≡ some r) × (r.problems ≡ [])

  unless_found-none : (found : Bool) (p : Problem) → unless_found found p ≡ [] → found ≡ true
  unless_found-none true p h = refl
  unless_found-none false p h = cc

  empty_or : (s : Text) (b : Bool) → (is_empty s || b) ≡ true → (s ≡ []) ⊎ (b ≡ true)
  empty_or [] b h = inl refl
  empty_or (c ∷ s) b h = inr h

  own_anchor-IsResolved :
      (file : Text) (link : Link) (r : Report)
      → starts_with (text "#") link.target ≡ true
      → own_anchor os anchors file link ≡ some r
      → r.problems ≡ []
      → IsResolved file link
  unfolding own_anchor
  own_anchor-IsResolved file link r hash e h =
      elim (Option-cases (os.decode (drop 1 link.target))) [
        | inl n ↦ cc (rw n at e)
        | inr (want, d) ↦
            let shape = some_injective (rw d at e) in
            let found = unless_found-none _ _ (ap (λ x. x.problems) shape ∙ h) in
            in_page want hash d (elim (empty_or want _ found) [
              | inl z ↦ inl z
              | inr k ↦ inr ((contains_iff want _).0 k)
            ])
      ]

  far_anchor-IsAnchored :
      (file : Text) (link : Link) (clean target_abs anchor : Text) (r : Report)
      → far_anchor os anchors file link clean target_abs anchor ≡ some r
      → r.problems ≡ []
      → IsAnchored clean target_abs anchor
  unfolding far_anchor
  far_anchor-IsAnchored file link clean target_abs anchor r e h =
      let other = not (os.is_file target_abs) || not (ends_with (text ".md") clean) in
      elim (Bool-cases (is_empty anchor)) [
        | inl z ↦ no_anchor z
        | inr z ↦ elim (Bool-cases other) [
          | inl o ↦ not_a_page o
          | inr o ↦ elim (Option-cases (os.decode anchor)) [
            | inl n ↦ cc (rw (z, o, n) at e)
            | inr (want, d) ↦
                let shape = some_injective (rw (z, o, d) at e) in
                anchored want d
                  ((contains_iff want _).0 (unless_found-none _ _ (ap (λ x. x.problems) shape ∙ h)))
          ]
        ]
      ]

  path_link-IsResolved :
      (file : Text) (link : Link) (clean : Text) (r : Report)
      → clean_of link ≡ some clean
      → path_link os anchors file link clean (anchor_part (split b'#' link.target)) ≡ some r
      → r.problems ≡ []
      → IsResolved file link
  unfolding path_link
  path_link-IsResolved file link [] r d e h = no_path d
  path_link-IsResolved file link (c ∷ s) r d e h =
      let target_abs = os.resolve (os.absolute file) (c ∷ s) in
      elim (Bool-cases (starts_with (text "..") (os.relative target_abs))) [
        | inl out ↦ cc (ap (λ x. x.problems) (some_injective (rw out at e)), h)
        | inr inside ↦ elim (Bool-cases (os.exists target_abs)) [
          | inr gone ↦ cc (ap (λ x. x.problems) (some_injective (rw (inside, gone) at e)), h)
          | inl there ↦
              in_repository (c ∷ s) d inside there
                (far_anchor-IsAnchored file link (c ∷ s) target_abs _ r (rw (inside, there) at e) h)
        ]
      ]

  check_link-IsResolved :
      (file : Text) (link : Link) (r : Report)
      → check_link os anchors file link ≡ some r
      → r.problems ≡ []
      → IsResolved file link
  unfolding check_link
  check_link-IsResolved file link r e h = elim (Bool-cases (is_external link.target)) [
    | inl out ↦ external out
    | inr inner ↦ elim (Bool-cases (starts_with (text "#") link.target)) [
      | inl hash ↦ own_anchor-IsResolved file link r hash (rw (inner, hash) at e) h
      | inr path ↦ elim (Option-cases (clean_of link)) [
        | inl n ↦ cc (rw (inner, path, n) at e)
        | inr (clean, d) ↦ path_link-IsResolved file link clean r d (rw (inner, path, d) at e) h
      ]
    ]
  ]

  check_links-All :
      (file : Text) (links : List Link) (r : Report)
      → check_links os anchors file links ≡ some r
      → r.problems ≡ []
      → All (IsResolved file) links
  unfolding check_links join
  check_links-All file [] r e h = tt
  check_links-All file (link ∷ links) r e h =
      elim (Option-cases (check_link os anchors file link)) [
        | inl n ↦ cc (rw n at e)
        | inr (own, a) ↦ elim (Option-cases (check_links os anchors file links)) [
          | inl n ↦ cc (rw (a, n) at e)
          | inr (rest, b) ↦
              let shape = ap (λ x. x.problems) (some_injective (rw (a, b) at e)) in
              let (p, q) = append-eq-empty own.problems rest.problems (shape ∙ h) in
              (check_link-IsResolved file link own a p, check_links-All file links rest b q)
        ]
      ]

-- A page that can be read, and whose links all resolve.
abbrev pub IsPage : Platform → Text → Type 0
IsPage os file =
    (s : Text) × (os.read (os.absolute file) ≡ some s)
    × All (IsResolved os (anchors_of os) file) (links_in s)

check_file-IsPage :
    (os : Platform) (file : Text) (r : Report)
    → check_file os file ≡ some r
    → r.problems ≡ []
    → IsPage os file
unfolding check_file
check_file-IsPage os file r e h = elim (Option-cases (os.read (os.absolute file))) [
  | inl n ↦ cc (ap (λ x. x.problems) (some_injective (rw (n, check_file) at e)), h)
  | inr (s, d) ↦
      (s, d, check_links-All os (anchors_of os) file (links_in s) r (rw (d, check_file) at e) h)
]

-- Where the script comes to its end with no problem, every page can be read, and each of its links
-- is external, or names an anchor of the page itself, or has an empty path, or a path that exists
-- inside the repository, with an anchor (if it has one, and is a Markdown file) of that page.
pub check_files-IsPage :
    (os : Platform) (files : List Text) (r : Report)
    → check_files os files ≡ some r
    → r.problems ≡ []
    → All (IsPage os) files
unfolding check_files join
check_files-IsPage os [] r e h = tt
check_files-IsPage os (file ∷ files) r e h = elim (Option-cases (check_file os file)) [
  | inl n ↦ cc (rw n at e)
  | inr (own, a) ↦ elim (Option-cases (check_files os files)) [
    | inl n ↦ cc (rw (a, n) at e)
    | inr (rest, b) ↦
        let shape = ap (λ x. x.problems) (some_injective (rw (a, b) at e)) in
        let (p, q) = append-eq-empty own.problems rest.problems (shape ∙ h) in
        (check_file-IsPage os file own a p, check_files-IsPage os files rest b q)
  ]
]
