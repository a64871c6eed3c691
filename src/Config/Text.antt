-- ===== src/Config/Text.antt =====
-- src/config.rs: the functions on texts that the parser uses, on lists of code points.
use elden_ring_windowed_hdr.Common.{
  ℕ, ◌+◌, Bool, false, ◌&&◌, ◌||◌, Option, none, some, List, [], ◌∷◌, map, leb, ◌==◌, if◌then◌else◌,
  same_bytes,
}

-- `char::is_whitespace`: the property White_Space
abbrev pub is_whitespace : ℕ → Bool
is_whitespace c =
    (leb 9 c && leb c 13)
    || (c == 0x20
        || (c == 0x85
            || (c == 0xA0
                || (c == 0x1680
                    || ((leb 0x2000 c && leb c 0x200A)
                        || (c == 0x2028
                            || (c == 0x2029 || (c == 0x202F || (c == 0x205F || c == 0x3000)))))))))

abbrev pub trim_start : List ℕ → List ℕ
trim_start [] = []
trim_start (c ∷ s) = let rest = trim_start s in if is_whitespace c then rest else c ∷ s

-- one more code point in front of a text whose end is trimmed
abbrev pub before_trimmed : ℕ → List ℕ → List ℕ
before_trimmed c [] = if is_whitespace c then [] else c ∷ []
before_trimmed c (d ∷ s) = c ∷ d ∷ s

abbrev pub trim_end : List ℕ → List ℕ
trim_end [] = []
trim_end (c ∷ s) = before_trimmed c (trim_end s)

abbrev pub trim : List ℕ → List ℕ
trim s = trim_end (trim_start s)

-- `to_ascii_lowercase` of a code point, and of a text
abbrev pub to_lowercase : ℕ → ℕ
to_lowercase c = if leb 65 c && leb c 90 then c + 32 else c

abbrev pub to_ascii_lowercase : List ℕ → List ℕ
to_ascii_lowercase s = map to_lowercase s

unfoldable pub eq_ignore_ascii_case : List ℕ → List ℕ → Bool
eq_ignore_ascii_case s t = same_bytes (to_ascii_lowercase s) (to_ascii_lowercase t)

-- `trim_start_matches('\u{feff}')`
abbrev pub strip_marks : List ℕ → List ℕ
strip_marks [] = []
strip_marks (c ∷ s) = let rest = strip_marks s in if c == 0xFEFF then rest else c ∷ s

-- the first part of `split([';', '#'])`
abbrev pub before_comment : List ℕ → List ℕ
before_comment [] = []
before_comment (c ∷ s) =
    let rest = before_comment s in if c == b';' || c == b'#' then [] else c ∷ rest

abbrev with_first : ℕ → Option (List ℕ × List ℕ) → Option (List ℕ × List ℕ)
with_first c none = none
with_first c (some (k, v)) = some (c ∷ k, v)

-- `split_once('=')`
abbrev pub split_once : List ℕ → Option (List ℕ × List ℕ)
split_once [] = none
split_once (c ∷ s) =
    let rest = split_once s in if c == b'=' then some ([], s) else with_first c rest

abbrev pub with_char : ℕ → List (List ℕ) → List (List ℕ)
with_char c [] = (c ∷ []) ∷ []
with_char c (l ∷ ls) = (c ∷ l) ∷ ls

abbrev pub starts_with : ℕ → List ℕ → Bool
starts_with c [] = false
starts_with c (d ∷ s) = d == c

-- `str::lines`: a line ends at a line feed, with the carriage return before it
abbrev pub lines : List ℕ → List (List ℕ)
lines [] = []
lines (c ∷ s) =
    let rest = lines s in
    if c == 10 then [] ∷ rest else if c == 13 && starts_with 10 s then rest else with_char c rest

abbrev pub cons_some : ℕ → Option (List ℕ) → Option (List ℕ)
cons_some c none = none
cons_some c (some s) = some (c ∷ s)

-- all but the last code point, if that is a closing bracket
abbrev pub without_bracket : List ℕ → Option (List ℕ)
without_bracket [] = none
without_bracket (c ∷ []) = if c == b']' then some [] else none
without_bracket (c ∷ d ∷ s) = cons_some c (without_bracket (d ∷ s))

-- the text between the brackets of a line that starts and ends with them
abbrev pub bracketed : List ℕ → Option (List ℕ)
bracketed [] = none
bracketed (c ∷ s) = let rest = without_bracket s in if c == b'[' then rest else none
