-- ===== src/Base/Chars.antt =====
-- Python's str methods on texts. ASCII is written out; what the Unicode database says of the other
-- code points is a table that the definitions take as an argument, one code point at a time.
pub mod Laws
use mt_shards_back_test.Base.Tests.{ltb, leb, ◌==◌, if◌then◌else◌}
use mt_shards_back_test.Base.Texts.{Text, starts_with}
use mt_shards_back_test.Base.Lists.{length}
use Prim.Native.Nat.{ℕ, ◌+◌}
use mathlib.Core.Bool.{Bool, true, false, ◌&&◌, ◌||◌, not}
use mathlib.Core.List.{List, [], ◌∷◌, ◌++◌}

pub record CharTable : Type 0 where
  pub lower_wide : ℕ → Text
  pub space_wide : ℕ → Bool

abbrev pub is_lower : ℕ → Bool
is_lower c = leb 97 c && leb c 122

abbrev pub is_upper : ℕ → Bool
is_upper c = leb 65 c && leb c 90

abbrev pub is_digit : ℕ → Bool
is_digit c = leb 48 c && leb c 57

unfoldable pub lower_char : CharTable → ℕ → Text
lower_char u c =
    if ltb c 128 then (if is_upper c then (c + 32) ∷ [] else c ∷ []) else u.lower_wide c

-- s.lower()
unfoldable pub lower : CharTable → Text → Text
lower u [] = []
lower u (c ∷ s) = lower_char u c ++ lower u s

unfoldable pub is_space : CharTable → ℕ → Bool
is_space u c = if ltb c 128 then (leb 9 c && leb c 13) || (leb 28 c && leb c 32) else u.space_wide c

unfoldable pub lstrip : (ℕ → Bool) → Text → Text
lstrip p [] = []
lstrip p (c ∷ s) = let rest = lstrip p s in if p c then rest else c ∷ s

abbrev pub is_empty : Text → Bool
is_empty [] = true
is_empty (c ∷ s) = false

unfoldable pub rstrip : (ℕ → Bool) → Text → Text
rstrip p [] = []
rstrip p (c ∷ s) = let rest = rstrip p s in if is_empty rest && p c then [] else c ∷ rest

-- s.strip()
unfoldable pub strip : CharTable → Text → Text
unfolding lstrip rstrip
strip u s = rstrip (is_space u) (lstrip (is_space u) s)

abbrev pub dot : ℕ
dot = 46

abbrev pub on_head : ℕ → List Text → List Text
on_head c [] = (c ∷ []) ∷ []
on_head c (l ∷ ls) = (c ∷ l) ∷ ls

-- s.split(".")
unfoldable pub split_dots : Text → List Text
split_dots [] = [] ∷ []
split_dots (c ∷ s) = let rest = split_dots s in if c == dot then [] ∷ rest else on_head c rest

-- s.endswith(p)
unfoldable pub ends_with : Text → Text → Bool
ends_with [] p = is_empty p
ends_with (c ∷ s) p =
    let rest = ends_with s p in if length (c ∷ s) == length p then starts_with (c ∷ s) p else rest
