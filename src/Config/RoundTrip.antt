-- ===== src/Config/RoundTrip.antt =====
-- src/config.rs: a file that names a mode, however it is spelled and spaced, gives that mode.
use elden_ring_windowed_hdr.Common.{
  ℕ, ◌≡◌, refl, ap, ◌∙◌, Bool, true, false, not, none, some, List, [], ◌∷◌, ◌++◌, if◌then◌else◌,
  arith, same_bytes, Result, ok, ◌>>=◌,
}
use elden_ring_windowed_hdr.Config.Modes.{
  codes, Mode, observe, unlock_hdr_menu, emulate_hdr_fullscreen_state, emulate_hdr_and_set_pq,
  windowed_hdr, as_str, Config, default_config,
}
use elden_ring_windowed_hdr.Config.Text.{
  trim_end, trim, to_ascii_lowercase, eq_ignore_ascii_case, strip_marks, before_comment, split_once,
  lines, bracketed,
}
use elden_ring_windowed_hdr.Config.Parse.{
  ConfigError, Parser, set_mode, parse_entry, parse_assignment, parse_trimmed, parse_line,
  parse_lines, parse,
}
use elden_ring_windowed_hdr.Config.Words.{
  is_word, is_blank, is_clean, all, all-append, word-clean, blank-clean, word-lowercase,
  trim_start-blank, trim_start-word, trim_end-blank, trim_end-word, trim_end-front,
  before_comment-append, before_comment-clean, is_cons, is_cons-append, strip_marks-append,
  split_once-front, word-key, blank-key, is_inline, clean-inline, lines-append, trim-word,
  without_bracket-append,
}

as_str-word : (m : Mode) → all is_word (as_str m) ≡ true
as_str-word observe = refl
as_str-word unlock_hdr_menu = refl
as_str-word emulate_hdr_fullscreen_state = refl
as_str-word emulate_hdr_and_set_pq = refl
as_str-word windowed_hdr = refl

set_mode-as_str :
    (number : ℕ) (m : Mode) (config : Config)
    → set_mode number (as_str m) config ≡ ok (record config { mode = m })
unfolding same_bytes
set_mode-as_str number observe config = refl
set_mode-as_str number unlock_hdr_menu config = refl
set_mode-as_str number emulate_hdr_fullscreen_state config = refl
set_mode-as_str number emulate_hdr_and_set_pq config = refl
set_mode-as_str number windowed_hdr config = refl

-- the parser in the section of the mode
abbrev in_hdr : Config → Parser
in_hdr c = record { config = c; section = codes "hdr" }

parse_entry-mode :
    (number : ℕ) (key value : List ℕ) (m : Mode) (c : Config)
    → to_ascii_lowercase (trim key) ≡ codes "mode"
    → to_ascii_lowercase (trim value) ≡ as_str m
    → parse_entry number key value (in_hdr c) ≡ ok (in_hdr (record c { mode = m }))
unfolding same_bytes eq_ignore_ascii_case
parse_entry-mode number key value m c spelled chosen =
    let known : eq_ignore_ascii_case (trim key) (codes "mode") ≡ true =
      ap (λ s. same_bytes s (codes "mode")) spelled in
    let set : set_mode number (to_ascii_lowercase (trim value)) c ≡ ok (record c { mode = m }) =
      ap (λ s. set_mode number s c) chosen ∙ set_mode-as_str number m c in
    go (eq_ignore_ascii_case (trim key) (codes "mode")) known
      (set_mode number (to_ascii_lowercase (trim value)) c) set
  where
    go :
        (b : Bool)
        → b ≡ true
        → (o : Result ConfigError Config) → o ≡ ok (record c { mode = m })
        → (if not b then ok (in_hdr c) else (o >>= λ d. ok (in_hdr d)))
          ≡ ok (in_hdr (record c { mode = m }))
    go b t o e = rw (t, e)

-- the line that names a section
abbrev pub section_line : List ℕ → List ℕ
section_line section = b'[' ∷ (section ++ (b']' ∷ []))

parse_line-section :
    (number : ℕ) (section : List ℕ) (p : Parser)
    → all is_word section ≡ true
    → parse_line number (section_line section) p
      ≡ ok (record p { section = to_ascii_lowercase section })
unfolding parse_line
parse_line-section number section p word =
    let clean : all is_clean (section_line section) ≡ true =
      all-append is_clean section (b']' ∷ []) (word-clean section word) refl in
    let line : trim (before_comment (section_line section)) ≡ section_line section =
      ap trim (before_comment-clean (section_line section) clean)
      ∙ trim_end-front (b'[' ∷ section) (b']' ∷ []) (b']' ∷ []) refl refl in
    ap (λ l. parse_trimmed number l p) line
    ∙ rw (without_bracket-append section, parse_trimmed, bracketed, trim-word section word)

-- A line that assigns a value to a key, between blanks; a comment follows it.
module _ (p q r t : List ℕ) (k v : ℕ) (key value : List ℕ) (blank_p : all is_blank p ≡ true)
    (blank_q : all is_blank q ≡ true) (blank_r : all is_blank r ≡ true)
    (blank_t : all is_blank t ≡ true) (word_key : all is_word (k ∷ key) ≡ true)
    (word_value : all is_word (v ∷ value) ≡ true) where
  abbrev assignment : List ℕ
  assignment = p ++ ((k ∷ key) ++ (q ++ (b'=' ∷ (r ++ ((v ∷ value) ++ t)))))

  abbrev trimmed : List ℕ
  trimmed = (k ∷ key) ++ (q ++ (b'=' ∷ (r ++ (v ∷ value))))

  clean-assignment : all is_clean assignment ≡ true
  clean-assignment = all-append is_clean p _ (blank-clean p blank_p) (
      all-append is_clean (k ∷ key) _ (word-clean (k ∷ key) word_key) (
        all-append is_clean q _ (blank-clean q blank_q) (
          all-append is_clean r ((v ∷ value) ++ t) (blank-clean r blank_r) (
            all-append is_clean (v ∷ value) t (word-clean (v ∷ value) word_value)
              (blank-clean t blank_t)))))

  trim-assignment : trim assignment ≡ trimmed
  trim-assignment =
      let tail = b'=' ∷ (r ++ ((v ∷ value) ++ t)) in
      let kept = b'=' ∷ (r ++ (v ∷ value)) in
      ap trim_end (
        trim_start-blank p ((k ∷ key) ++ (q ++ tail)) blank_p
        ∙ trim_start-word k (key ++ (q ++ tail)) (ground (arith, word_key)))
      ∙ trim_end-front (k ∷ key) (q ++ tail) (q ++ kept)
          (trim_end-front q tail kept
            (trim_end-front (b'=' ∷ r) ((v ∷ value) ++ t) (v ∷ value)
              (trim_end-blank (v ∷ value) t blank_t ∙ trim_end-word v value word_value) refl)
            refl)
          (is_cons-append q kept refl)

  split_once-trimmed : split_once trimmed ≡ some ((k ∷ key) ++ (q ++ []), r ++ (v ∷ value))
  split_once-trimmed =
      split_once-front (k ∷ key) _ (q ++ []) (r ++ (v ∷ value)) (word-key (k ∷ key) word_key)
        (split_once-front q _ [] (r ++ (v ∷ value)) (blank-key q blank_q) refl)

  trim-key : trim ((k ∷ key) ++ (q ++ [])) ≡ k ∷ key
  trim-key =
      ap trim_end (trim_start-word k (key ++ (q ++ [])) (ground (arith, word_key)))
      ∙ trim_end-blank (k ∷ key) (q ++ []) (all-append is_blank q [] blank_q refl)
      ∙ trim_end-word k key word_key

  trim-value : trim (r ++ (v ∷ value)) ≡ v ∷ value
  trim-value =
      ap trim_end
        (trim_start-blank r _ blank_r ∙ trim_start-word v value (ground (arith, word_value)))
      ∙ trim_end-word v value word_value

  bracketed-trimmed : bracketed trimmed ≡ none
  bracketed-trimmed = ground (arith, word_key)

  parse_line-assignment :
      (number : ℕ) (comment : List ℕ) (m : Mode) (c : Config)
      → to_ascii_lowercase (k ∷ key) ≡ codes "mode"
      → to_ascii_lowercase (v ∷ value) ≡ as_str m
      → parse_line number (assignment ++ (b';' ∷ comment)) (in_hdr c)
        ≡ ok (in_hdr (record c { mode = m }))
  unfolding parse_line eq_ignore_ascii_case same_bytes
  parse_line-assignment number comment m c lower_key lower_value =
      let line : trim (before_comment (strip_marks (assignment ++ (b';' ∷ comment)))) ≡ trimmed =
        ap (λ s. trim (before_comment s))
          (strip_marks-append assignment (b';' ∷ comment) clean-assignment refl)
        ∙ ap trim (before_comment-append assignment comment clean-assignment)
        ∙ trim-assignment in
      ap (λ l. parse_trimmed number l (in_hdr c)) line
      ∙ rw (bracketed-trimmed, parse_trimmed, split_once-trimmed, parse_assignment)
          (parse_entry-mode number ((k ∷ key) ++ (q ++ [])) (r ++ (v ∷ value)) m c
            (ap to_ascii_lowercase trim-key ∙ lower_key)
            (ap to_ascii_lowercase trim-value ∙ lower_value))

as_str-cons : (m : Mode) → is_cons (as_str m) ≡ true
as_str-cons observe = refl
as_str-cons unlock_hdr_menu = refl
as_str-cons emulate_hdr_fullscreen_state = refl
as_str-cons emulate_hdr_and_set_pq = refl
as_str-cons windowed_hdr = refl

abbrev in_section : List ℕ → Parser
in_section section = record { config = default_config; section = section }

abbrev start : Parser
start = in_section []

-- A file that has the section and, in it, one entry, its key and its mode in letters of any case,
-- with blanks around the key and the mode and a comment behind them, is parsed to that mode, and
-- not taken for a request of the retired mode.
pub parse-as_str :
    (m : Mode) (section key value p q r t comment : List ℕ)
    → to_ascii_lowercase section ≡ codes "hdr"
    → to_ascii_lowercase key ≡ codes "mode"
    → to_ascii_lowercase value ≡ as_str m
    → all is_blank p ≡ true
    → all is_blank q ≡ true
    → all is_blank r ≡ true
    → all is_blank t ≡ true
    → all is_inline comment ≡ true
    → parse (
        section_line section
        ++ (10
            ∷ (((p ++ (key ++ (q ++ (b'=' ∷ (r ++ (value ++ t)))))) ++ (b';' ∷ comment))
                ++ (10 ∷ []))))
      ≡ ok (record { mode = m; retired_force_pq_requested = false })
unfolding parse
parse-as_str m section [] value p q r t comment hs hk hv bp bq br bt hc =
    absurd (ground (arith, ap is_cons hk))
parse-as_str m section (k ∷ key) [] p q r t comment hs hk hv bp bq br bt hc =
    absurd (ground (arith, ap is_cons hv, as_str-cons m))
parse-as_str m section (k ∷ key) (v ∷ value) p q r t comment hs hk hv bp bq br bt hc =
    let section_word = word-lowercase section (ap (all is_word) hs) in
    let key_word = word-lowercase (k ∷ key) (ap (all is_word) hk) in
    let value_word = word-lowercase (v ∷ value) (ap (all is_word) hv ∙ as_str-word m) in
    let body = assignment p q r t k v key value bp bq br bt key_word value_word in
    let body_clean = clean-assignment p q r t k v key value bp bq br bt key_word value_word in
    let two : lines (section_line section ++ (10 ∷ ((body ++ (b';' ∷ comment)) ++ (10 ∷ []))))
        ≡ section_line section ∷ (body ++ (b';' ∷ comment)) ∷ [] =
      lines-append (section_line section) _ (
        all-append is_inline section (b']' ∷ [])
          (clean-inline section (word-clean section section_word)) refl)
      ∙ ap (λ ls. section_line section ∷ ls)
          (lines-append (body ++ (b';' ∷ comment)) []
            (all-append is_inline body (b';' ∷ comment) (clean-inline body body_clean) hc)) in
    ap (λ ls. parse_lines 1 ls start >>= λ s. ok s.config) two
    ∙ ap (λ o. (o >>= λ s. parse_lines 2 ((body ++ (b';' ∷ comment)) ∷ []) s) >>= λ s. ok s.config)
        (parse_line-section 1 section start section_word ∙ ap (λ n. ok (in_section n)) hs)
    ∙ ap (λ o. (o >>= λ s. ok s) >>= λ s. ok s.config)
        (parse_line-assignment p q r t k v key value bp bq br bt key_word value_word 2 comment m
          default_config hk hv)
