-- ===== src/Base/Text.antt =====
-- Texts: Python's `s + t`, `s[:n]`, which counts characters, tests for one of several texts, and a
-- dict with text keys, which is the list of the pairs that it was built from.
use Prim.Native.Nat.{ℕ, zero, suc}
use Prim.Native.Char.{code}
use Prim.Native.String.{String, ◌++◌ as string_append}
use mathlib.Core.Bool.{Bool, true, false, ◌&&◌, ◌||◌}
use mathlib.Core.Option.{Option, none, some}
use mathlib.Core.List.{List, [], ◌∷◌}
use text.Mathlib.Text.{find?}
use realxianyu.Base.Tests.{◌==◌, string_eq, if◌then◌else◌, is_some, ltb}

unfoldable pub text_append : String → String → String
text_append s t = string_append s t

unfoldable pub text_take : ℕ → String → String
text_take zero s = String.[]
text_take (suc n) String.[] = String.[]
text_take (suc n) (String.◌∷◌ c s) = String.◌∷◌ c (text_take n s)

-- Python's str.strip and str.lower, which follow the Unicode tables
pub record Casing : Type 0 where
  pub strip : String → String
  pub lower : String → String

-- any(k in t for k in kws)
abbrev pub any_keyword : String → List String → Bool
any_keyword t [] = false
any_keyword t (kw ∷ kws) = is_some (find? t kw) || any_keyword t kws

-- t in {…}
abbrev pub one_of : String → List String → Bool
one_of t [] = false
one_of t (x ∷ xs) = t == x || one_of t xs

abbrev pub nonempty : String → Option String
nonempty t = if t == "" then none else some t

-- str.isascii
unfoldable pub is_ascii : String → Bool
is_ascii String.[] = true
is_ascii (String.◌∷◌ c s) = ltb (code c) 128 && is_ascii s

-- str(o or "")
abbrev pub or_empty : Option String → String
or_empty none = ""
or_empty (some t) = t

-- s or t
abbrev pub or_text : String → String → String
or_text s t = if s == "" then t else s

-- d.get(k): a later pair with the same key has replaced an earlier one
unfoldable pub dict_get {ℓ} : {A : Type ℓ} → String → List (String × A) → Option A
dict_get k [] = none
dict_get k ((k', v) ∷ rest) =
    let later = dict_get k rest in if is_some later then later else if k' == k then some v else none

abbrev before : String → Option (String × String) → Option (String × String)
before c none = none
before c (some (s, t)) = some (string_append c s, t)

-- s.split(sep, 1) for a separator of one character, none without one
unfoldable pub split_once : String → String → Option (String × String)
split_once sep String.[] = none
split_once sep (String.◌∷◌ c s) =
    let rest = split_once sep s in
    let first = String.◌∷◌ c String.[] in
    if first == sep then some (String.[], s) else before first rest
