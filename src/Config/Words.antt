-- ===== src/Config/Words.antt =====
-- src/config.rs: what the functions on texts do to words of ASCII letters and to blanks.
use elden_ring_windowed_hdr.Common.{
  ℕ, ◌≡◌, refl, ap, ◌∙◌, Bool, true, false, not, ◌&&◌, ◌||◌, some, List, [], ◌∷◌, ◌++◌, leb, ◌==◌,
  arith,
}
use elden_ring_windowed_hdr.Config.Text.{
  trim_start, before_trimmed, trim_end, trim, to_ascii_lowercase, strip_marks, before_comment,
  split_once, lines, cons_some, without_bracket,
}

-- an ASCII letter or an underscore
abbrev pub is_word : ℕ → Bool
is_word c = (leb 65 c && leb c 90) || ((leb 97 c && leb c 122) || c == b'_')

-- a space or a tab
abbrev pub is_blank : ℕ → Bool
is_blank c = c == 32 || c == 9

-- neither ends a line, nor starts a comment
abbrev pub is_clean : ℕ → Bool
is_clean c =
    not (c == 10) && (not (c == 13) && (not (c == b';') && (not (c == b'#') && not (c == 0xFEFF))))

abbrev pub all : (ℕ → Bool) → List ℕ → Bool
all test [] = true
all test (c ∷ s) = test c && all test s

pub all-append :
    (test : ℕ → Bool) (s t : List ℕ)
    → all test s ≡ true
    → all test t ≡ true
    → all test (s ++ t) ≡ true
all-append test [] t hs ht = ht
all-append test (c ∷ s) t hs ht = ground (arith, hs, all-append test s t (ground (arith, hs)) ht)

pub word-clean : (s : List ℕ) → all is_word s ≡ true → all is_clean s ≡ true
word-clean [] h = refl
word-clean (c ∷ s) h = ground (arith, h, word-clean s (ground (arith, h)))

pub blank-clean : (s : List ℕ) → all is_blank s ≡ true → all is_clean s ≡ true
blank-clean [] h = refl
blank-clean (c ∷ s) h = ground (arith, h, blank-clean s (ground (arith, h)))

pub word-lowercase : (s : List ℕ) → all is_word (to_ascii_lowercase s) ≡ true → all is_word s ≡ true
word-lowercase [] h = refl
word-lowercase (c ∷ s) h = ground (arith, h, word-lowercase s (ground (arith, h)))

pub trim_start-blank : (p s : List ℕ) → all is_blank p ≡ true → trim_start (p ++ s) ≡ trim_start s
trim_start-blank [] s h = refl
trim_start-blank (c ∷ p) s h = ground (arith, h, trim_start-blank p s (ground (arith, h)))

pub trim_start-word : (c : ℕ) (s : List ℕ) → is_word c ≡ true → trim_start (c ∷ s) ≡ c ∷ s
trim_start-word c s h = ground (arith, h)

trim_end-only_blank : (t : List ℕ) → all is_blank t ≡ true → trim_end t ≡ []
trim_end-only_blank [] h = refl
trim_end-only_blank (c ∷ t) h = ground (arith, h, trim_end-only_blank t (ground (arith, h)))

pub trim_end-blank : (s t : List ℕ) → all is_blank t ≡ true → trim_end (s ++ t) ≡ trim_end s
trim_end-blank [] t h = trim_end-only_blank t h
trim_end-blank (c ∷ s) t h = ap (before_trimmed c) (trim_end-blank s t h)

pub trim_end-word : (c : ℕ) (s : List ℕ) → all is_word (c ∷ s) ≡ true → trim_end (c ∷ s) ≡ c ∷ s
trim_end-word c [] h = ground (arith, h)
trim_end-word c (d ∷ s) h = ap (before_trimmed c) (trim_end-word d s (ground (arith, h)))

abbrev pub is_cons : List ℕ → Bool
is_cons [] = false
is_cons (c ∷ s) = true

pub is_cons-append : (s w : List ℕ) → is_cons w ≡ true → is_cons (s ++ w) ≡ true
is_cons-append [] w h = h
is_cons-append (c ∷ s) w h = refl

before_trimmed-cons : (c : ℕ) (w : List ℕ) → is_cons w ≡ true → before_trimmed c w ≡ c ∷ w
before_trimmed-cons c [] h = absurd (ground (arith, h))
before_trimmed-cons c (d ∷ w) h = refl

-- a front is kept where something is left behind it
pub trim_end-front :
    (s x w : List ℕ) → trim_end x ≡ w → is_cons w ≡ true → trim_end (s ++ x) ≡ s ++ w
trim_end-front [] x w e h = e
trim_end-front (c ∷ s) x w e h =
    ap (before_trimmed c) (trim_end-front s x w e h)
    ∙ before_trimmed-cons c (s ++ w) (is_cons-append s w h)

pub before_comment-append :
    (s t : List ℕ) → all is_clean s ≡ true → before_comment (s ++ (b';' ∷ t)) ≡ s
before_comment-append [] t h = refl
before_comment-append (c ∷ s) t h = ground (arith, h, before_comment-append s t (ground (arith, h)))

pub before_comment-clean : (s : List ℕ) → all is_clean s ≡ true → before_comment s ≡ s
before_comment-clean [] h = refl
before_comment-clean (c ∷ s) h = ground (arith, h, before_comment-clean s (ground (arith, h)))

pub strip_marks-append :
    (s t : List ℕ) → all is_clean s ≡ true → strip_marks t ≡ t → strip_marks (s ++ t) ≡ s ++ t
strip_marks-append [] t h e = e
strip_marks-append (c ∷ s) t h e = ground (arith, h)

abbrev pub is_key : ℕ → Bool
is_key c = not (c == b'=')

pub split_once-front :
    (s x k v : List ℕ)
    → all is_key s ≡ true
    → split_once x ≡ some (k, v)
    → split_once (s ++ x) ≡ some (s ++ k, v)
split_once-front [] x k v h e = e
split_once-front (c ∷ s) x k v h e =
    ground (arith, h, split_once-front s x k v (ground (arith, h)) e)

pub word-key : (s : List ℕ) → all is_word s ≡ true → all is_key s ≡ true
word-key [] h = refl
word-key (c ∷ s) h = ground (arith, h, word-key s (ground (arith, h)))

pub blank-key : (s : List ℕ) → all is_blank s ≡ true → all is_key s ≡ true
blank-key [] h = refl
blank-key (c ∷ s) h = ground (arith, h, blank-key s (ground (arith, h)))

-- what a line holds
abbrev pub is_inline : ℕ → Bool
is_inline c = not (c == 10) && not (c == 13)

pub clean-inline : (s : List ℕ) → all is_clean s ≡ true → all is_inline s ≡ true
clean-inline [] h = refl
clean-inline (c ∷ s) h = ground (arith, h, clean-inline s (ground (arith, h)))

pub lines-append : (s t : List ℕ) → all is_inline s ≡ true → lines (s ++ (10 ∷ t)) ≡ s ∷ lines t
lines-append [] t h = refl
lines-append (c ∷ s) t h = ground (arith, h, lines-append s t (ground (arith, h)))

pub trim-word : (s : List ℕ) → all is_word s ≡ true → trim s ≡ s
trim-word [] h = refl
trim-word (c ∷ s) h = ap trim_end (trim_start-word c s (ground (arith, h))) ∙ trim_end-word c s h

pub without_bracket-append : (s : List ℕ) → without_bracket (s ++ (b']' ∷ [])) ≡ some s
without_bracket-append [] = refl
without_bracket-append (c ∷ []) = refl
without_bracket-append (c ∷ d ∷ s) = ap (cons_some c) (without_bracket-append (d ∷ s))
