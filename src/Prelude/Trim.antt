-- ===== src/Prelude/Trim.antt =====
-- Texts without the white space at both ends (`strings.TrimSpace`).
use Prim.Native.Char.{Char, code}
use Prim.Native.Nat.{ℕ}
use Prim.Native.String.{String, [] as empty, ◌∷◌ as ◌∷ᵗ◌}
use mathlib.Core.Bool.{Bool, ◌&&◌, ◌||◌}
use mathlib.Core.List.{List, [], ◌∷◌, reverse}
use propeller.Prelude.Tests.{leb, ◌==◌, if◌then◌else◌}

-- `unicode.IsSpace`.
unfoldable pub is_space : ℕ → Bool
is_space c =
    (leb 9 c && leb c 13)
    || c == 32
    || c == 0x85
    || c == 0xA0
    || c == 0x1680
    || (leb 0x2000 c && leb c 0x200A)
    || c == 0x2028
    || c == 0x2029
    || c == 0x202F
    || c == 0x205F
    || c == 0x3000

letters : String → List Char
letters empty = []
letters (c ∷ᵗ s) = c ∷ letters s

text_of : List Char → String
text_of [] = empty
text_of (c ∷ cs) = c ∷ᵗ text_of cs

drop_spaces : List Char → List Char
unfolding is_space
drop_spaces [] = []
drop_spaces (c ∷ s) = if is_space (code c) then drop_spaces s else c ∷ s

unfoldable pub trim_space : String → String
unfolding drop_spaces letters text_of
trim_space s = text_of (reverse (drop_spaces (reverse (drop_spaces (letters s)))))
