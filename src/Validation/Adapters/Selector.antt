-- ===== src/Validation/Adapters/Selector.antt =====
-- app/backend/ot_demo/modules/validation/source_adapters.py and determination.py: the parts of a
-- selector and their roots.
use Prim.Native.Char.{Char, code}
use ot_engineering_demonstra.Base.{
  String, ◌==◌, ℕ, nat_eq, leb, Bool, false, ◌&&◌, ◌||◌, zero, suc, List, [], ◌∷◌, map,
  if◌then◌else◌,
}

-- `str.isspace` of one character
abbrev pub is_space : Char → Bool
is_space c =
    let n = code c in
    (leb 9 n && leb n 13)
    || (leb 28 n && leb n 32)
    || nat_eq n 133
    || nat_eq n 160
    || nat_eq n 5760
    || (leb 8192 n && leb n 8202)
    || nat_eq n 8232
    || nat_eq n 8233
    || nat_eq n 8239
    || nat_eq n 8287
    || nat_eq n 12288

abbrev strip_left : String → String
strip_left String.[] = ""
strip_left (String.◌∷◌ c s) = if is_space c then strip_left s else String.◌∷◌ c s

abbrev strip_right : String → String
strip_right String.[] = ""
strip_right (String.◌∷◌ c s) =
    let rest = strip_right s in if rest == "" && is_space c then "" else String.◌∷◌ c rest

-- `s.strip()`
abbrev pub strip : String → String
strip s = strip_right (strip_left s)

-- `s.split(c, 1)[0]`
abbrev pub before : ℕ → String → String
before n String.[] = ""
before n (String.◌∷◌ c s) = if nat_eq (code c) n then "" else String.◌∷◌ c (before n s)

abbrev starts_with_char : ℕ → String → Bool
starts_with_char n String.[] = false
starts_with_char n (String.◌∷◌ c s) = nat_eq (code c) n

abbrev tail : String → String
tail String.[] = ""
tail (String.◌∷◌ c s) = s

abbrev starts_with_plus : String → Bool
starts_with_plus s =
    starts_with_char 32 s && starts_with_char 43 (tail s) && starts_with_char 32 (tail (tail s))

abbrev prepend : Char → List String → List String
prepend c [] = String.◌∷◌ c "" ∷ []
prepend c (p ∷ ps) = String.◌∷◌ c p ∷ ps

-- `s.split(" + ")`: `skip` characters of a separator are still to be passed over.
abbrev split_from : ℕ → String → List String
split_from skip String.[] = "" ∷ []
split_from (suc skip) (String.◌∷◌ c s) = split_from skip s
split_from zero (String.◌∷◌ c s) =
    let after = split_from 2 s in
    let rest = split_from 0 s in
    if starts_with_plus (String.◌∷◌ c s) then "" ∷ after else prepend c rest

abbrev pub split_plus : String → List String
split_plus s = split_from 0 s

-- `part.strip().split(".", 1)[0].split("[", 1)[0]` of each part
unfoldable pub selector_roots : String → List String
selector_roots selector = map (λ part. before 91 (before 46 (strip part))) (split_plus selector)
