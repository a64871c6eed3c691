-- ===== src/Config/Modes.antt =====
-- src/config.rs: `Mode`, its texts, and `Config`. A text is the list of its code points.
use Prim.Native.Char.{code}
use Prim.Native.String.{String}
use elden_ring_windowed_hdr.Common.{ℕ, Bool, false, List, [], ◌∷◌}

-- the code points of a text
abbrev pub codes : String → List ℕ
codes String.[] = []
codes (String.◌∷◌ c s) = code c ∷ codes s

pub data Mode : Type 0 where
  observe : Mode
  unlock_hdr_menu : Mode
  emulate_hdr_fullscreen_state : Mode
  emulate_hdr_and_set_pq : Mode
  windowed_hdr : Mode

abbrev pub as_str : Mode → List ℕ
as_str observe = codes "observe"
as_str unlock_hdr_menu = codes "unlock_hdr_menu"
as_str emulate_hdr_fullscreen_state = codes "emulate_hdr_fullscreen_state"
as_str emulate_hdr_and_set_pq = codes "emulate_hdr_and_set_pq"
as_str windowed_hdr = codes "windowed_hdr"

pub record Config : Type 0 where
  pub mode : Mode
  pub retired_force_pq_requested : Bool

-- `Config::default`
abbrev pub default_config : Config
default_config = record { mode = windowed_hdr; retired_force_pq_requested = false }
