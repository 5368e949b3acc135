-- ===== src/Base/Text.antt =====
-- The methods of Rust's `str` that the program uses, over the native text. `to_lowercase` is the
-- ASCII part of Rust's: a letter outside ASCII stays as it is.
use Prim.Native.Nat.{ℕ, ◌-◌}
use Prim.Native.Char.{Char, code}
use Prim.Native.String.{String, [], ◌∷◌, char_at}
use mathlib.Core.Bool.{Bool, true, ◌&&◌, ◌||◌}
use text.Mathlib.Text.{◌==◌ as str_eq, starts_with}
use codex_provider.Base.Tests.{ltb, leb, ◌==◌, if◌then◌else◌}

abbrev pub is_empty : String → Bool
is_empty s = str_eq s ""

-- `char::is_whitespace`, by code point.
unfoldable pub is_whitespace : ℕ → Bool
is_whitespace c =
    (leb 9 c && leb c 13)
    || c == 32
    || c == 0x85
    || c == 0xa0
    || c == 0x1680
    || (leb 0x2000 c && leb c 0x200a)
    || c == 0x2028
    || c == 0x2029
    || c == 0x202f
    || c == 0x205f
    || c == 0x3000

-- `char::is_control`, by code point.
unfoldable pub is_control : ℕ → Bool
is_control c = ltb c 32 || (leb 127 c && leb c 159)

unfoldable pub trim_start : String → String
unfolding is_whitespace
trim_start [] = []
trim_start (c ∷ s) = if is_whitespace (code c) then trim_start s else c ∷ s

unfoldable pub trim_end : String → String
unfolding is_whitespace
trim_end [] = []
trim_end (c ∷ s) =
    let rest = trim_end s in if is_empty rest && is_whitespace (code c) then [] else c ∷ rest

unfoldable pub trim : String → String
unfolding trim_start trim_end
trim s = trim_end (trim_start s)

lower_char : Char → Char
lower_char c =
    if leb b'A' (code c) && leb (code c) b'Z'
    then char_at "abcdefghijklmnopqrstuvwxyz" (code c - b'A')
    else c

unfoldable pub to_lowercase : String → String
unfolding lower_char
to_lowercase [] = []
to_lowercase (c ∷ s) = lower_char c ∷ to_lowercase s

unfoldable pub filter_chars : (ℕ → Bool) → String → String
filter_chars p [] = []
filter_chars p (c ∷ s) = if p (code c) then c ∷ filter_chars p s else filter_chars p s

unfoldable pub all_chars : (ℕ → Bool) → String → Bool
all_chars p [] = true
all_chars p (c ∷ s) = p (code c) && all_chars p s

-- `contains`, on texts.
unfoldable pub contains : String → String → Bool
contains [] t = is_empty t
contains (c ∷ s) t = starts_with (c ∷ s) t || contains s t

-- `str::ends_with`.
unfoldable pub ends_with : String → String → Bool
ends_with suffix [] = str_eq suffix ""
ends_with suffix (c ∷ s) = str_eq suffix (c ∷ s) || ends_with suffix s
