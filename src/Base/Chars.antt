-- ===== src/Base/Chars.antt =====
-- Rust's characters as code points: their length in UTF-8, white space, `trim` and `to_lowercase` as
-- far as it is compared with ASCII text.
use Prim.Native.Nat.{ℕ, ◌+◌}
use mathlib.Core.Bool.{Bool, ◌&&◌, ◌||◌}
use mathlib.Core.List.{[], ◌∷◌, map}
use nmstate.Base.Tests.{ltb, leb, if◌then◌else◌}
use nmstate.Base.Lists.{is_empty}
use nmstate.Base.Equality.{contains, nat_eq}
use nmstate.Base.Strings.{Text}

-- `char::len_utf8`
unfoldable pub len_utf8 : ℕ → ℕ
len_utf8 c = if ltb c 128 then 1 else if ltb c 2048 then 2 else if ltb c 65536 then 3 else 4

-- `str::len`
unfoldable pub byte_length : Text → ℕ
unfolding len_utf8
byte_length [] = 0
byte_length (c ∷ cs) = len_utf8 c + byte_length cs

-- `char::is_whitespace`
unfoldable pub is_whitespace : ℕ → Bool
is_whitespace c =
    leb 9 c && leb c 13
    || leb 8192 c && leb c 8202
    || contains (32 ∷ 133 ∷ 160 ∷ 5760 ∷ 8232 ∷ 8233 ∷ 8239 ∷ 8287 ∷ 12288 ∷ []) c

unfoldable pub trim_start : Text → Text
unfolding is_whitespace
trim_start [] = []
trim_start (c ∷ cs) = let rest = trim_start cs in if is_whitespace c then rest else c ∷ cs

unfoldable pub trim_end : Text → Text
unfolding is_whitespace
trim_end [] = []
trim_end (c ∷ cs) =
    let rest = trim_end cs in if is_empty rest && is_whitespace c then [] else c ∷ rest

unfoldable pub trim : Text → Text
unfolding trim_start trim_end
trim s = trim_end (trim_start s)

abbrev pub to_lower_ascii : ℕ → ℕ
to_lower_ascii c = if leb 65 c && leb c 90 then c + 32 else c

-- `to_lowercase`, on text that is then compared with ASCII letters.
unfoldable pub to_lowercase : Text → Text
to_lowercase s = map to_lower_ascii s
