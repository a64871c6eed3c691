-- ===== src/Config/Parse.antt =====
-- src/config.rs: `Config::parse`.
use elden_ring_windowed_hdr.Common.{
  ℕ, suc, Bool, true, false, not, ◌||◌, Option, none, some, List, [], ◌∷◌, if◌then◌else◌,
  same_bytes, Result, ok, err, ◌>>=◌,
}
use elden_ring_windowed_hdr.Config.Modes.{
  codes, observe, unlock_hdr_menu, emulate_hdr_fullscreen_state, emulate_hdr_and_set_pq,
  windowed_hdr, Config, default_config,
}
use elden_ring_windowed_hdr.Config.Text.{
  trim, to_ascii_lowercase, eq_ignore_ascii_case, strip_marks, before_comment, split_once, lines,
  bracketed,
}

-- the errors, with the number of the line
pub data ConfigError : Type 0 where
  invalid_syntax : ℕ → ConfigError
  unknown_mode : ℕ → ConfigError

-- the variables of `parse`
pub record Parser : Type 0 where
  pub config : Config
  pub section : List ℕ

-- the match on the requested mode
abbrev pub set_mode : ℕ → List ℕ → Config → Result ConfigError Config
set_mode number requested config =
    if same_bytes requested (codes "observe")
    then ok (record config { mode = observe })
    else if same_bytes requested (codes "unlock_hdr_menu")
    then ok (record config { mode = unlock_hdr_menu })
    else if same_bytes requested (codes "emulate_hdr_fullscreen_state")
    then ok (record config { mode = emulate_hdr_fullscreen_state })
    else if same_bytes requested (codes "emulate_hdr_and_set_pq")
    then ok (record config { mode = emulate_hdr_and_set_pq })
    else if same_bytes requested (codes "windowed_hdr")
    then ok (record config { mode = windowed_hdr })
    else if same_bytes requested (codes "force_pq_if_hdr10")
    then ok (record config { mode = observe; retired_force_pq_requested = true })
    else err (unknown_mode number)

-- a line with a key and a value
abbrev pub parse_entry : ℕ → List ℕ → List ℕ → Parser → Result ConfigError Parser
parse_entry number key value p =
    if not (same_bytes p.section (codes "hdr"))
      || not (eq_ignore_ascii_case (trim key) (codes "mode"))
    then ok p
    else (set_mode number (to_ascii_lowercase (trim value)) p.config >>= λ config.
        ok (record p { config = config }))

abbrev pub parse_assignment : ℕ → List ℕ → Parser → Result ConfigError Parser
parse_assignment number line p = elim (split_once line) [
  | none ↦ err (invalid_syntax number)
  | some (key, value) ↦ parse_entry number key value p
]

-- a line without its comment and the blanks around it
abbrev pub parse_trimmed : ℕ → List ℕ → Parser → Result ConfigError Parser
parse_trimmed number [] p = ok p
parse_trimmed number (c ∷ line) p = elim (bracketed (c ∷ line)) [
  | some name ↦ ok (record p { section = to_ascii_lowercase (trim name) })
  | none ↦ parse_assignment number (c ∷ line) p
]

-- one round of the loop
unfoldable pub parse_line : ℕ → List ℕ → Parser → Result ConfigError Parser
parse_line number line p = parse_trimmed number (trim (before_comment (strip_marks line))) p

abbrev pub parse_lines : ℕ → List (List ℕ) → Parser → Result ConfigError Parser
parse_lines number [] p = ok p
parse_lines number (l ∷ ls) p = parse_line number l p >>= λ q. parse_lines (suc number) ls q

unfoldable pub parse : List ℕ → Result ConfigError Config
parse text = parse_lines 1 (lines text) (record { config = default_config; section = [] }) >>= λ p.
    ok p.config

pub data LoadError : Type 0 where
  cannot_create : LoadError
  cannot_read : LoadError
  bad_config : ConfigError → LoadError

-- `load_or_create`: whether the path exists, whether a write of the default file succeeds, and
-- what a read gives
unfoldable pub load_or_create :
    (exists written : Bool) → Option (List ℕ) → Result LoadError (Config × Bool)
load_or_create false written text =
    if not written then err cannot_create else ok (default_config, true)
load_or_create true written none = err cannot_read
load_or_create true written (some text) = elim (parse text) [
  | err e ↦ err (bad_config e)
  | ok c ↦ ok (c, false)
]
