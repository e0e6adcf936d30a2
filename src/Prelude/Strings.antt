-- ===== src/Prelude/Strings.antt =====
-- Functions of Go's package strings on texts. An index counts code points where Go counts bytes, and
-- every index is only used to cut the text that it was found in.
use Prim.Native.Nat.{ℕ, suc}
use mathlib.Core.Bool.{Bool, true, false}
use mathlib.Core.List.{[], ◌∷◌}
use mathlib.Core.Option.{Option, none, some}
use herdr_pal.Prelude.Tests.{◌==◌, nat_eq, if◌then◌else◌}
use herdr_pal.Prelude.Text.{Text}

-- `strings.CutPrefix`
unfoldable pub cut_prefix : Text → Text → Option Text
cut_prefix [] s = some s
cut_prefix (c ∷ p) [] = none
cut_prefix (c ∷ p) (d ∷ s) = let rest = cut_prefix p s in if c == d then rest else none

-- `strings.TrimPrefix(s, p)`
unfoldable pub drop_prefix : Text → Text → Text
unfolding cut_prefix
drop_prefix p s = elim (cut_prefix p s) [ none ↦ s | some rest ↦ rest ]

-- `strings.HasPrefix`
unfoldable pub has_prefix : Text → Text → Bool
unfolding cut_prefix
has_prefix p s = elim (cut_prefix p s) [ none ↦ false | some rest ↦ true ]

-- `strings.Index`, of a pattern that is not empty.
unfoldable pub index_of : Text → Text → Option ℕ
unfolding has_prefix
index_of p [] = none
index_of p (c ∷ s) =
    let later = index_of p s in
    if has_prefix p (c ∷ s) then some 0 else elim later [ none ↦ none | some i ↦ some (suc i) ]

-- `strings.LastIndex`, of a pattern that is not empty.
unfoldable pub last_index_of : Text → Text → Option ℕ
unfolding has_prefix
last_index_of p [] = none
last_index_of p (c ∷ s) =
    let later = last_index_of p s in
    elim later [ some i ↦ some (suc i) | none ↦ if has_prefix p (c ∷ s) then some 0 else none ]
