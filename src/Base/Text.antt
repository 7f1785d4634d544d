-- ===== src/Base/Text.antt =====
-- Python's `str` as its code points, and the methods of `str` that the services call.
use Prim.Native.Char.{code}
use poi_hub.Base.Tests.{leb, eqb, if◌then◌else◌}
use poi_hub.Base.Rows.{length}
use Prim.Native.Nat.{ℕ, zero, suc, ◌+◌, ◌≤◌}
use Prim.Native.String.{String}
use mathlib.Core.Bool.{Bool, true, false, ◌&&◌, ◌||◌}
use mathlib.Core.List.{List, [], ◌∷◌, ◌++◌}
use native.Mathlib.Omega.{arith}

abbrev pub codes : String → List ℕ
codes String.[] = []
codes (String.◌∷◌ c s) = code c ∷ codes s

-- `value[:n]`
unfoldable pub prefix : ℕ → String → String
prefix zero s = String.[]
prefix (suc n) String.[] = String.[]
prefix (suc n) (String.◌∷◌ c s) = String.◌∷◌ c (prefix n s)

-- `str.isspace` of one code point
unfoldable is_space : ℕ → Bool
is_space c =
    (leb 9 c && leb c 13)
    || (leb 28 c && leb c 32)
    || eqb c 0x85
    || eqb c 0xa0
    || eqb c 0x1680
    || (leb 0x2000 c && leb c 0x200a)
    || eqb c 0x2028
    || eqb c 0x2029
    || eqb c 0x202f
    || eqb c 0x205f
    || eqb c 0x3000

-- `not value.strip()`
unfoldable pub is_blank : List ℕ → Bool
unfolding is_space
is_blank [] = true
is_blank (c ∷ cs) = is_space c && is_blank cs

unfoldable drop_spaces : List ℕ → List ℕ
unfolding is_space
drop_spaces [] = []
drop_spaces (c ∷ cs) = let rest = drop_spaces cs in if is_space c then rest else c ∷ cs

-- without the blanks at the end
unfoldable drop_spaces_end : List ℕ → List ℕ
unfolding is_blank is_space
drop_spaces_end [] = []
drop_spaces_end (c ∷ cs) =
    let rest = drop_spaces_end cs in if is_blank (c ∷ cs) then [] else c ∷ rest

-- `value.strip()`
unfoldable pub strip : List ℕ → List ℕ
unfolding drop_spaces drop_spaces_end
strip cs = drop_spaces_end (drop_spaces cs)

-- the code points outside ASCII that fold to a text with an ASCII letter
unfoldable fold_wide : ℕ → List ℕ
fold_wide c =
    if eqb c 0xdf || eqb c 0x1e9e
    then b's' ∷ b's' ∷ []
    else if eqb c 0x130
    then b'i' ∷ 0x307 ∷ []
    else if eqb c 0x149
    then 0x2bc ∷ b'n' ∷ []
    else if eqb c 0x17f
    then b's' ∷ []
    else if eqb c 0x1f0
    then b'j' ∷ 0x30c ∷ []
    else if eqb c 0x1e96
    then b'h' ∷ 0x331 ∷ []
    else if eqb c 0x1e97
    then b't' ∷ 0x308 ∷ []
    else if eqb c 0x1e98
    then b'w' ∷ 0x30a ∷ []
    else if eqb c 0x1e99
    then b'y' ∷ 0x30a ∷ []
    else if eqb c 0x1e9a
    then b'a' ∷ 0x2be ∷ []
    else if eqb c 0x212a
    then b'k' ∷ []
    else if eqb c 0xfb00
    then b'f' ∷ b'f' ∷ []
    else if eqb c 0xfb01
    then b'f' ∷ b'i' ∷ []
    else if eqb c 0xfb02
    then b'f' ∷ b'l' ∷ []
    else if eqb c 0xfb03
    then b'f' ∷ b'f' ∷ b'i' ∷ []
    else if eqb c 0xfb04
    then b'f' ∷ b'f' ∷ b'l' ∷ []
    else if eqb c 0xfb05 || eqb c 0xfb06
    then b's' ∷ b't' ∷ []
    else c ∷ []

unfoldable fold_code : ℕ → List ℕ
unfolding fold_wide
fold_code c =
    if leb 65 c && leb c 90 then (c + 32) ∷ [] else if leb c 127 then c ∷ [] else fold_wide c

-- `str.casefold`, as far as the comparison with an ASCII text can tell: all other code points outside
-- ASCII fold to such code points, and are left as they are.
unfoldable pub casefold : List ℕ → List ℕ
unfolding fold_code
casefold [] = []
casefold (c ∷ cs) = fold_code c ++ casefold cs

unfoldable pub same_text : List ℕ → List ℕ → Bool
same_text [] [] = true
same_text (a ∷ as') (b ∷ bs) = eqb a b && same_text as' bs
same_text _ _ = false

unfoldable pub starts_with : List ℕ → List ℕ → Bool
starts_with [] cs = true
starts_with (p ∷ ps) [] = false
starts_with (p ∷ ps) (c ∷ cs) = eqb p c && starts_with ps cs

-- `part in value`
unfoldable pub occurs_in : List ℕ → List ℕ → Bool
unfolding starts_with
occurs_in part [] = starts_with part []
occurs_in part (c ∷ cs) = starts_with part (c ∷ cs) || occurs_in part cs

length-drop_spaces : (cs : List ℕ) → length (drop_spaces cs) ≤ length cs
unfolding drop_spaces
length-drop_spaces [] = omega arith
length-drop_spaces (c ∷ cs) = ground (arith, length-drop_spaces cs)

-- `f"{s}{t}"`
unfoldable pub concat : String → String → String
concat String.[] t = t
concat (String.◌∷◌ c s) t = String.◌∷◌ c (concat s t)

unfoldable blank_text : String → Bool
unfolding is_space
blank_text String.[] = true
blank_text (String.◌∷◌ c s) = is_space (code c) && blank_text s

unfoldable lstrip_text : String → String
unfolding is_space
lstrip_text String.[] = String.[]
lstrip_text (String.◌∷◌ c s) =
    let rest = lstrip_text s in if is_space (code c) then rest else String.◌∷◌ c s

unfoldable rstrip_text : String → String
unfolding is_space blank_text
rstrip_text String.[] = String.[]
rstrip_text (String.◌∷◌ c s) =
    let rest = rstrip_text s in if blank_text (String.◌∷◌ c s) then String.[] else String.◌∷◌ c rest

-- `value.strip()` of a text
unfoldable pub strip_text : String → String
unfolding lstrip_text rstrip_text
strip_text s = rstrip_text (lstrip_text s)

-- `len(value)`
abbrev pub text_length : String → ℕ
text_length String.[] = 0
text_length (String.◌∷◌ c s) = suc (text_length s)

-- `value[n:]`
unfoldable pub drop_text : ℕ → String → String
drop_text zero s = s
drop_text (suc n) String.[] = String.[]
drop_text (suc n) (String.◌∷◌ c s) = drop_text n s

only_slashes : String → Bool
only_slashes String.[] = true
only_slashes (String.◌∷◌ c s) = eqb (code c) b'/' && only_slashes s

-- `value.rstrip("/")`
unfoldable pub rstrip_slash : String → String
unfolding only_slashes
rstrip_slash String.[] = String.[]
rstrip_slash (String.◌∷◌ c s) =
    let rest = rstrip_slash s in
    if only_slashes (String.◌∷◌ c s) then String.[] else String.◌∷◌ c rest
