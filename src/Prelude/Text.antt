-- ===== src/Prelude/Text.antt =====
-- Go strings as the lists of their code points. Every text of the model is valid UTF-8.
use Prim.Native.Char.{code}
use Prim.Native.Nat.{ℕ, ◌+◌}
use Prim.Native.String.{String}
use mathlib.Core.Bool.{Bool, ◌&&◌, ◌||◌}
use mathlib.Core.Path.{◌≡◌, refl}
use mathlib.Core.List.{List, [], ◌∷◌, reverse}
use native.Mathlib.Omega.{arith}
use native.Mathlib.Decide.{ℕ_discrete}
use herdr_pal.Prelude.Tests.{Eq, ◌==◌, ltb, leb, if◌then◌else◌, nat_eq}

abbrev pub Text : Type 0
Text = List ℕ

unfoldable pub Text-discrete : Discrete Text
Text-discrete = hlevel ℕ_discrete

instance abbrev pub text_eq : Eq Text
text_eq = record { dec = Text-discrete }

abbrev pub codes : String → Text
codes String.[] = []
codes (String.◌∷◌ letter rest) = code letter ∷ codes rest

-- `unicode.IsSpace`: the code points with the property White_Space.
unfoldable pub is_space : ℕ → Bool
is_space c =
    (leb 0x09 c && leb c 0x0d)
    || c == 0x20
    || c == 0x85
    || c == 0xa0
    || c == 0x1680
    || (leb 0x2000 c && leb c 0x200a)
    || c == 0x2028
    || c == 0x2029
    || c == 0x202f
    || c == 0x205f
    || c == 0x3000

-- `unicode.IsControl`: the category Cc.
unfoldable pub is_control : ℕ → Bool
is_control c = ltb c 0x20 || (leb 0x7f c && leb c 0x9f)

unfoldable pub trim_left : Text → Text
unfolding is_space
trim_left [] = []
trim_left (c ∷ s) = if is_space c then trim_left s else c ∷ s

-- `strings.TrimSpace`
unfoldable pub trim_space : Text → Text
unfolding trim_left
trim_space s = reverse (trim_left (reverse (trim_left s)))

pub nonblank : (t : Text) → (trim_space t == []) ≡ Bool.false → ¬ (t ≡ [])
unfolding trim_space
nonblank t n p = ground (arith, n, p)

-- The bytes of a code point in UTF-8.
unfoldable pub rune_len : ℕ → ℕ
rune_len c = if ltb c 0x80 then 1 else if ltb c 0x800 then 2 else if ltb c 0x10000 then 3 else 4

-- `len(s)`
unfoldable pub byte_len : Text → ℕ
unfolding rune_len
byte_len [] = 0
byte_len (c ∷ s) = rune_len c + byte_len s

-- `a < b` on strings: lexicographic, where the order of bytes is the order of code points.
unfoldable pub text_lt : Text → Text → Bool
text_lt s [] = Bool.false
text_lt [] (d ∷ t) = Bool.true
text_lt (c ∷ s) (d ∷ t) = ltb c d || (c == d && text_lt s t)

abbrev sample : Text
sample = codes "  a b "

trim_sample : trim_space sample ≡ codes "a b"
unfolding trim_space ℕ_discrete
trim_sample = refl
