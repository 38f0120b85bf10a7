-- ===== src/Base/Text.antt =====
-- Texts: the tests that the program makes on identifiers.
use Prim.Native.Nat.{ℕ}
use Prim.Native.Char.{code}
use Prim.Native.String.{String}
use mathlib.Core.Bool.{Bool, true, false, not, ◌&&◌, ◌||◌}
use mathlib.Core.Option.{Option, none, some}
use mathlib.Core.List.{List, [], ◌∷◌}
use mathlib.Core.Logic.{inl, inr}
use mu_5x_fibonacci_trading.Base.Tests.{leb, ◌==◌, Bool-cases}
pub use text.Mathlib.Text.{◌==◌ as str_eq}
pub use text.Mathlib.TextEquality.{eq_iff}
pub use text.Mathlib.TextPositions.{eq_refl}

-- The code points of a text.
abbrev pub codes : String → List ℕ
codes String.[] = []
codes (String.◌∷◌ c s) = code c ∷ codes s

abbrev pub contains_text : String → List String → Bool
contains_text s [] = false
contains_text s (t ∷ ts) = str_eq s t || contains_text s ts

-- `==` of two values that may be None.
abbrev pub same_option : Option String → Option String → Bool
same_option none none = true
same_option (some a) (some b) = str_eq a b
same_option _ _ = false

-- `str.isspace` of a code point: what `str.strip` takes off.
abbrev pub is_space : ℕ → Bool
is_space c =
    (leb 9 c && leb c 13)
    || (leb 28 c && leb c 32)
    || c == 133
    || c == 160
    || c == 5760
    || (leb 8192 c && leb c 8202)
    || c == 8232
    || c == 8233
    || c == 8239
    || c == 8287
    || c == 12288

abbrev pub last_code : ℕ → List ℕ → ℕ
last_code c [] = c
last_code c (d ∷ ds) = last_code d ds

abbrev pub contains_code : ℕ → List ℕ → Bool
contains_code c [] = false
contains_code c (d ∷ ds) = c == d || contains_code c ds

-- Non-empty, equal to its own `strip()`, on one line.
token_codes : List ℕ → Bool
token_codes [] = false
token_codes (c ∷ cs) =
    not (is_space c)
    && not (is_space (last_code c cs))
    && not (contains_code 10 (c ∷ cs))
    && not (contains_code 13 (c ∷ cs))

-- `_require_token` passes.
unfoldable pub is_token : String → Bool
unfolding token_codes
is_token s = token_codes (codes s)

-- `[0-9a-f]{n}` matches the whole of the code points.
abbrev pub is_hex : ℕ → Bool
is_hex c = (leb b'0' c && leb c b'9') || (leb b'a' c && leb c b'f')

abbrev pub all_hex : List ℕ → Bool
all_hex [] = true
all_hex (c ∷ cs) = is_hex c && all_hex cs

abbrev pub count_codes : List ℕ → ℕ
count_codes [] = 0
count_codes (c ∷ cs) = Prim.Native.Nat.suc (count_codes cs)

-- `re.fullmatch(r"[0-9a-f]{n}", value)`
unfoldable pub is_hex_text : ℕ → String → Bool
is_hex_text n s = all_hex (codes s) && count_codes (codes s) == n

unfoldable pub String-discrete : Discrete String
unfolding Bool-cases
String-discrete a b = elim (Bool-cases (str_eq a b)) [
  | inl same ↦ yes ((eq_iff a b).0 same)
  | inr other ↦ no (λ p. cc (other, (eq_iff a b).1 p))
]
