-- ===== src/Scripts/Regex.antt =====
-- The regular expressions that the scripts use, on UTF-16 code units: JavaScript's backtracking
-- matcher for classes, greedy and lazy repetition of a class, groups, alternatives and anchors.
pub mod Exact
pub mod Shape
pub mod Finds
use Prim.Native.Nat.{ℕ, zero, suc, ◌-◌}
use Prim.Native.String.{String}
use nebula_token.Common.{
  Bool, true, false, not, ◌||◌, ◌&&◌, Option, none, some, List, [], ◌∷◌, ◌++◌, ◌==◌, leb, ltb,
  if◌then◌else◌, Text, length,
}
pub use nebula_token.Common.{text}

pub data Regex : Type 0 where
  empty line_start line_end text_start text_end : Regex
  one many many_lazy : (ℕ → Bool) → Regex
  both either : Regex → Regex → Regex
  group star ahead : Regex → Regex
  word_boundary : Regex

-- Where the matcher stands: the text before, last unit first, the text after, and the groups that
-- are closed, in their order.
pub record Place : Type 0 where
  pub before : Text
  pub rest : Text
  pub groups : List Text

abbrev pub is_line_terminator : ℕ → Bool
is_line_terminator c = c == 10 || (c == 13 || (c == 0x2028 || c == 0x2029))

abbrev pub at_line_start : Text → Bool
at_line_start [] = true
at_line_start (c ∷ before) = is_line_terminator c

abbrev pub at_line_end : Text → Bool
at_line_end [] = true
at_line_end (c ∷ rest) = is_line_terminator c

abbrev pub at_end : Text → Bool
at_end [] = true
at_end (c ∷ rest) = false

abbrev pub or_else {ℓ} : {A : Type ℓ} → Option A → Option A → Option A
or_else (some a) b = some a
or_else none b = b

-- One unit that passes the test.
abbrev pub take_one : (ℕ → Bool) → Text → Text → List Text → (Place → Option Place) → Option Place
take_one test before [] groups k = none
take_one test before (c ∷ rest) groups k =
    if test c then k (record { before = c ∷ before; rest = rest; groups = groups }) else none

-- As many units as pass the test, then fewer.
abbrev pub take_many : (ℕ → Bool) → Text → Text → List Text → (Place → Option Place) → Option Place
take_many test before [] groups k = k (record { before = before; rest = []; groups = groups })
take_many test before (c ∷ rest) groups k =
    let here = k (record { before = before; rest = c ∷ rest; groups = groups }) in
    let more = take_many test (c ∷ before) rest groups k in
    if test c then or_else more here else here

-- As few units as possible, then more.
abbrev pub take_few : (ℕ → Bool) → Text → Text → List Text → (Place → Option Place) → Option Place
take_few test before [] groups k = k (record { before = before; rest = []; groups = groups })
take_few test before (c ∷ rest) groups k =
    let here = k (record { before = before; rest = c ∷ rest; groups = groups }) in
    let more = take_few test (c ∷ before) rest groups k in
    if test c then or_else here more else here

abbrev pub first_units : ℕ → Text → Text
first_units zero s = []
first_units (suc n) [] = []
first_units (suc n) (c ∷ s) = c ∷ first_units n s

-- The text between two places.
abbrev pub between : Place → Place → Text
between p q = first_units (length p.rest - length q.rest) p.rest

-- `\w`
abbrev pub is_word : ℕ → Bool
is_word c =
    (leb b'0' c && leb c b'9')
    || ((leb b'A' c && leb c b'Z') || ((leb b'a' c && leb c b'z') || c == b'_'))

abbrev word_first : Text → Bool
word_first [] = false
word_first (c ∷ s) = is_word c

-- One of the two units beside the place is a word character, and the other is not.
abbrev at_boundary : Text → Text → Bool
at_boundary before rest = if word_first before then not (word_first rest) else word_first rest

-- A group repeated as often as it goes, each time over at least one unit; `n` bounds the times.
abbrev repeat :
    ℕ
    → (Place → (Place → Option Place) → Option Place)
    → Place
    → (Place → Option Place)
    → Option Place
repeat zero body p k = k p
repeat (suc n) body p k =
    let more =
      body p (λ q. if ltb (length q.rest) (length p.rest) then repeat n body q k else none) in
    or_else more (k p)

unfoldable pub try_at : Regex → Place → (Place → Option Place) → Option Place
try_at empty p k = k p
try_at line_start p k = if at_line_start p.before then k p else none
try_at line_end p k = if at_line_end p.rest then k p else none
try_at text_start p k = if at_end p.before then k p else none
try_at text_end p k = if at_end p.rest then k p else none
try_at (one test) p k = take_one test p.before p.rest p.groups k
try_at (many test) p k = take_many test p.before p.rest p.groups k
try_at (many_lazy test) p k = take_few test p.before p.rest p.groups k
try_at (both r s) p k = try_at r p λ q. try_at s q k
try_at (either r s) p k = or_else (try_at r p k) (try_at s p k)
try_at (star r) p k = repeat (length p.rest) (λ q j. try_at r q j) p k
try_at (ahead r) p k = elim (try_at r p some) [ none ↦ none | some q ↦ k p ]
try_at word_boundary p k = if at_boundary p.before p.rest then k p else none
try_at (group r) p k = try_at r p λ q. k (record q { groups = q.groups ++ (between p q ∷ []) })

-- One result of `matchAll`: the text before it, its groups, and the text after it.
pub record Match : Type 0 where
  pub before : Text
  pub groups : List Text
  pub after : Text

-- `text.matchAll(pattern)`; the number is how many units of the last match are still to be passed.
unfoldable pub scan : Regex → Text → Text → ℕ → List Match
scan r before [] zero = elim (try_at r (record { before = before; rest = []; groups = [] }) some) [
  | none ↦ []
  | some q ↦ record { before = before; groups = q.groups; after = q.rest } ∷ []
]
scan r before [] (suc n) = []
scan r before (c ∷ rest) (suc n) = scan r (c ∷ before) rest n
scan r before (c ∷ rest) zero =
    elim (try_at r (record { before = before; rest = c ∷ rest; groups = [] }) some) [
      | none ↦ scan r (c ∷ before) rest zero
      | some q ↦
          record { before = before; groups = q.groups; after = q.rest }
          ∷ scan r (c ∷ before) rest (length rest - length q.rest)
    ]

unfoldable pub match_all : Regex → Text → List Match
match_all r s = scan r [] s 0

-- `matches.map((m) => m[1])`
abbrev pub first_groups : List Match → List Text
first_groups [] = []
first_groups (m ∷ ms) = elim m.groups [ [] ↦ first_groups ms | a ∷ rest ↦ a ∷ first_groups ms ]

-- `text.match(pattern)` with no `g` flag.
abbrev pub first_match : Regex → Text → Option Match
first_match r s = elim (match_all r s) [ [] ↦ none | m ∷ ms ↦ some m ]

-- `pattern.test(text)`
abbrev pub test : Regex → Text → Bool
test r s = elim (match_all r s) [ [] ↦ false | m ∷ ms ↦ true ]

-- What the patterns are built from.
abbrev pub literal : Text → Regex
literal [] = empty
literal (c ∷ s) = both (one (λ d. d == c)) (literal s)

abbrev pub lit : String → Regex
lit s = literal (text s)

-- A class, once or more.
abbrev pub some_of : (ℕ → Bool) → Regex
some_of p = both (one p) (many p)

abbrev pub is_digit : ℕ → Bool
is_digit c = leb b'0' c && leb c b'9'

-- `\s`
abbrev pub is_space : ℕ → Bool
is_space c =
    (leb 9 c && leb c 13)
    || (c == 32
        || (c == 0xa0
            || (c == 0x1680
                || ((leb 0x2000 c && leb c 0x200a)
                    || (c == 0x2028
                        || (c == 0x2029
                            || (c == 0x202f || (c == 0x205f || (c == 0x3000 || c == 0xfeff)))))))))

-- `\S`
abbrev pub not_space : ℕ → Bool
not_space c = not (is_space c)

-- A letter in either case, as under the flag `i`; `c` is the small one.
abbrev pub any_case : ℕ → Regex
any_case c =
    if leb b'a' c && leb c b'z' then one (λ d. d == c || d == c - 32) else one (λ d. d == c)

abbrev pub literal_i : Text → Regex
literal_i [] = empty
literal_i (c ∷ s) = both (any_case c) (literal_i s)

abbrev pub lit_i : String → Regex
lit_i s = literal_i (text s)

-- `[^c]`
abbrev pub other_than : ℕ → ℕ → Bool
other_than c d = not (d == c)

-- `.`
abbrev pub in_line : ℕ → Bool
in_line c = not (is_line_terminator c)

-- `(?:r)?`
abbrev pub optional : Regex → Regex
optional r = either r empty

-- `p{0,n}`
abbrev pub up_to : ℕ → (ℕ → Bool) → Regex
up_to zero p = empty
up_to (suc n) p = optional (both (one p) (up_to n p))

-- `p{n}`
abbrev pub exactly : ℕ → (ℕ → Bool) → Regex
exactly zero p = empty
exactly (suc n) p = both (one p) (exactly n p)

-- `^p{n}$`
abbrev pub all_of : ℕ → (ℕ → Bool) → Regex
all_of n p = both text_start (both (exactly n p) text_end)
