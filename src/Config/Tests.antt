-- ===== src/Config/Tests.antt =====
-- Runs of the parser on concrete files, those of the tests of src/config.rs among them.
use elden_ring_windowed_hdr.Common.{◌≡◌, refl, true, false, [], ◌∷◌, ◌++◌, ok, err, same_bytes}
use elden_ring_windowed_hdr.Config.Modes.{codes, unlock_hdr_menu, windowed_hdr}
use elden_ring_windowed_hdr.Config.Text.{eq_ignore_ascii_case}
use elden_ring_windowed_hdr.Config.Parse.{parse_line, parse, unknown_mode, invalid_syntax}
use elden_ring_windowed_hdr.Config.RoundTrip.{section_line, parse-as_str}

parse_menu :
    parse (0xFEFF ∷ codes "[HDR]\nMODE = Unlock_HDR_Menu ; test")
    ≡ ok (record { mode = unlock_hdr_menu; retired_force_pq_requested = false })
unfolding parse parse_line eq_ignore_ascii_case same_bytes
parse_menu = refl

parse_empty : parse [] ≡ ok (record { mode = windowed_hdr; retired_force_pq_requested = false })
unfolding parse
parse_empty = refl

parse_unknown : parse (codes "[HDR]\nmode=force_everything") ≡ err (unknown_mode 2)
unfolding parse parse_line eq_ignore_ascii_case same_bytes
parse_unknown = refl

parse_other :
    parse (codes "[OTHER]\nmode=bad\n[HDR]\nfuture_key=42")
    ≡ ok (record { mode = windowed_hdr; retired_force_pq_requested = false })
unfolding parse parse_line eq_ignore_ascii_case same_bytes
parse_other = refl

parse_no_value : parse (codes "[HDR]\nmode\n") ≡ err (invalid_syntax 2)
unfolding parse parse_line same_bytes
parse_no_value = refl

-- A later mode replaces the one that the retired mode stands for, and the request is still noted.
parse_retired_then_windowed :
    parse (codes "[HDR]\nmode=force_pq_if_hdr10\r\nmode=windowed_hdr")
    ≡ ok (record { mode = windowed_hdr; retired_force_pq_requested = true })
unfolding parse parse_line eq_ignore_ascii_case same_bytes
parse_retired_then_windowed = refl

parse-as_str_example :
    parse (
      section_line (codes "Hdr")
      ++ (10
          ∷ ((([]
                  ++ (codes "MODE"
                      ++ (codes "\t"
                          ++ (b'=' ∷ (codes " " ++ (codes "Unlock_HDR_Menu" ++ codes "  "))))))
                ++ (b';' ∷ codes " test=1; [x]"))
              ++ (10 ∷ []))))
    ≡ ok (record { mode = unlock_hdr_menu; retired_force_pq_requested = false })
parse-as_str_example =
    parse-as_str unlock_hdr_menu (codes "Hdr") (codes "MODE") (codes "Unlock_HDR_Menu") []
      (codes "\t") (codes " ") (codes "  ") (codes " test=1; [x]") refl refl refl refl refl refl
      refl refl
