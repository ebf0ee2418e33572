-- ===== src/Scripts/Runtime/Written.antt =====
-- After `--write`, the table in SUPPORT.md is current.
use nebula_token.Common.{
  ◌+◌, ◌-◌, ◌≤◌, ◌≡◌, refl, sym, ◌∙◌, ap, ap₂, inl, inr, Bool, Bool-cases, true, false, some, List,
  [], ◌++◌, arith, Text, length, length-append, same_text, same_text_refl,
}
use mathlib.Core.Path.{subst}
use mathlib.Core.List.{append-nil, append_assoc}
use nebula_token.Scripts.Regex.{first_units}
use nebula_token.Scripts.Texts.{drop, cut_at, join_text}
use nebula_token.Scripts.Version.{Files, write_file}
use nebula_token.Scripts.Runtime.{Row}
use nebula_token.Scripts.Runtime.Support.{
  begin_mark, end_mark, table_lines, table, index_of, slice, splice, support_file, check_support,
}
use nebula_token.Scripts.Occurs.{
  cut_at-behind, cut_at-split, cut_at-first, cut_at-longer, first_units-append, drop-append,
}

index_of-cut_at : (n s b f : Text) → cut_at n s ≡ some (b, f) → index_of n s ≡ some (length b)
unfolding index_of
index_of-cut_at n s b f h = rw (h, index_of) refl

splice-eq :
    (t s b f e g : Text)
    → cut_at begin_mark s ≡ some (b, f)
    → cut_at end_mark s ≡ some (e, g)
    → splice t s
      ≡ some (
        slice (length b) (length e + length end_mark) s,
        first_units (length b) s ++ (t ++ drop (length e + length end_mark) s),
      )
unfolding splice
splice-eq t s b f e g h k =
    rw (index_of-cut_at begin_mark s b f h, index_of-cut_at end_mark s e g k, splice) refl

-- The rest of a table, after the first mark.
table_rest : (rows : List Row) → (rest : Text) × (table rows ≡ begin_mark ++ rest)
unfolding table table_lines join_text
table_rest rows = (_, refl)

module _ (rows : List Row) (w s b f e g : Text)
    (ends : cut_at end_mark (table rows) ≡ some (w, end_mark))
    (first : cut_at begin_mark s ≡ some (b, f)) (last : cut_at end_mark s ≡ some (e, g))
    (ordered : length b ≤ length e) where
  abbrev behind : Text
  behind = drop (length e + length end_mark) s

  -- The rewritten text.
  abbrev written : Text
  written = b ++ (table rows ++ behind)

  -- The text is split at the first mark.
  split_begin : (r : Text) × (f ≡ begin_mark ++ r) × (s ≡ b ++ f)
  split_begin = cut_at-split begin_mark s b f first

  old_shape : s ≡ b ++ (begin_mark ++ split_begin.0)
  old_shape = split_begin.2 ∙ ap (λ x. b ++ x) split_begin.1

  new_shape : table rows ++ behind ≡ begin_mark ++ ((table_rest rows).0 ++ behind)
  new_shape =
      ap (λ t. t ++ behind) (table_rest rows).1 ∙ append_assoc begin_mark (table_rest rows).0 behind

  begin_found : cut_at begin_mark written ≡ some (b, table rows ++ behind)
  begin_found =
      ap (λ t. cut_at begin_mark (b ++ t)) new_shape
      ∙ cut_at-behind begin_mark b begin_mark split_begin.0 _ b f [] _ (omega arith)
          (ap (cut_at begin_mark) (sym old_shape) ∙ first) (omega arith) (cut_at-first _ _ _)
      ∙ ap₂ (λ x y. some (x, y)) (append-nil b) (sym new_shape)

  end_found : cut_at end_mark written ≡ some (b ++ w, end_mark ++ behind)
  end_found =
      ap (λ t. cut_at end_mark (b ++ t)) new_shape
      ∙ cut_at-behind end_mark b begin_mark split_begin.0 _ e g w _ (omega arith)
          (ap (cut_at end_mark) (sym old_shape) ∙ last) ordered
          (ap (cut_at end_mark) (sym new_shape) ∙ cut_at-longer _ _ (table rows) w behind ends)

  -- What stands between its marks is the table.
  written-slice : slice (length b) (length (b ++ w) + length end_mark) written ≡ table rows
  unfolding slice
  written-slice =
      let size = ap length (cut_at-split end_mark (table rows) w end_mark ends).2 in
      let count : length (b ++ w) + length end_mark - length b ≡ length (table rows) =
        omega (arith, size, length-append w end_mark, length-append b w) in
      ap₂ first_units count (drop-append b (table rows ++ behind))
      ∙ first_units-append (table rows) behind

  written-splice : (t : Text) × (splice (table rows) written ≡ some (table rows, t))
  written-splice =
      let after = length (b ++ w) + length end_mark in
      let t = first_units (length b) written ++ (table rows ++ drop after written) in
      (
        t,
        splice-eq (table rows) written b _ (b ++ w) _ begin_found end_found
            ∙ ap (λ x. some (x, t)) written-slice,
      )

  old-splice :
      splice (table rows) s ≡ some (slice (length b) (length e + length end_mark) s, written)
  old-splice =
      splice-eq (table rows) s b f e g first last
      ∙ ap
          (λ x. some (slice (length b) (length e + length end_mark) s, x ++ (table rows ++ behind)))
          (ap (first_units (length b)) split_begin.2 ∙ first_units-append b f)

check_support-same :
    (write : Bool) (rows : List Row) (files : Files) (s current rewritten : Text)
    → files support_file ≡ some s
    → splice (table rows) s ≡ some (current, rewritten)
    → same_text current (table rows) ≡ true
    → check_support write rows files ≡ ([], files)
unfolding check_support
check_support-same write rows files s current rewritten h k c = rw (h, k, c, check_support) refl

check_support-differs :
    (rows : List Row) (files : Files) (s current rewritten : Text)
    → files support_file ≡ some s
    → splice (table rows) s ≡ some (current, rewritten)
    → same_text current (table rows) ≡ false
    → check_support true rows files ≡ ([], write_file support_file rewritten files)
unfolding check_support
check_support-differs rows files s current rewritten h k c = rw (h, k, c, check_support) refl

write_file-read : (path s : Text) (files : Files) → write_file path s files path ≡ some s
unfolding write_file
write_file-read path s files = rw (same_text_refl path) refl

-- After a run with `--write` on a SUPPORT.md whose first end mark stands behind its first begin
-- mark, a check of the same rows finds the table current, and a second run changes nothing. The
-- text of the table is to hold the end mark at its end only.
pub check_support-write :
    (rows : List Row) (files : Files) (w s b f e g : Text)
    → files support_file ≡ some s
    → cut_at end_mark (table rows) ≡ some (w, end_mark)
    → cut_at begin_mark s ≡ some (b, f)
    → cut_at end_mark s ≡ some (e, g)
    → length b ≤ length e
    → (write : Bool)
    → check_support write rows (check_support true rows files).1
      ≡ ([], (check_support true rows files).1)
check_support-write rows files w s b f e g h ends first last ordered write =
    let current = slice (length b) (length e + length end_mark) s in
    let old = old-splice rows w s b f e g ends first last ordered in
    let again : Files → Type 0 = λ left. check_support write rows left ≡ ([], left) in
    elim (Bool-cases (same_text current (table rows))) [
      | inl c ↦
          subst again (sym (ap (λ x. x.1) (check_support-same true rows files s current _ h old c)))
            (check_support-same write rows files s current _ h old c)
      | inr c ↦
          let (t, new) = written-splice rows w s b f e g ends first last ordered in
          subst again (sym (ap (λ x. x.1) (check_support-differs rows files s current _ h old c))) (
            check_support-same write rows _ _ (table rows) t (write_file-read support_file _ files)
              new (same_text_refl (table rows)))
    ]
