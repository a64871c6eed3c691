-- ===== src/Compat/Resolve.antt =====
-- src/game_compat.rs: `resolve`, the whole bundle of targets.
use elden_ring_windowed_hdr.Common.{
  ℕ, Bool, ◌&&◌, Option, none, some, List, [], ◌∷◌, length, ◌==◌, if◌then◌else◌, Result, ok, ◌>>=◌,
  ◌>>◌, guard, same_bytes,
}
use elden_ring_windowed_hdr.Compat.Image.{
  LoadedImage, CompatError, callers, unexpected_rva, unexpected_entries, checked_sub, bytes_at,
}
use elden_ring_windowed_hdr.Compat.Scan.{find_signature, find_direct_calls_to, require_unique}
use elden_ring_windowed_hdr.Compat.Targets.{menu_gate_body_matches, resolve_security_cookie}
use elden_ring_windowed_hdr.Compat.Vtable.{VtableMatch, resolve_menu_gate_vtable}
use elden_ring_windowed_hdr.Compat.Builds.{
  availability_signature, graphics_config_signature, backend_actual_signature, KnownTargets,
  KnownBuild, known_build,
}

pub record GameTargets : Type 0 where
  pub menu_gate_vtable_rva : ℕ
  pub menu_gate_complete_object_locator_rva : ℕ
  pub menu_gate_invoke_rva : ℕ
  pub menu_gate_entries : List ℕ
  pub menu_gate_invoke_bytes : List ℕ
  pub common_availability_rva : ℕ
  pub common_availability_prologue : List ℕ
  pub security_cookie_rva : ℕ
  pub graphics_config_apply_rva : ℕ
  pub graphics_config_apply_prologue : List ℕ
  pub backend_actual_query_rva : ℕ
  pub backend_actual_query_prologue : List ℕ

-- the comparisons of `verify_known_targets` on the RVAs
abbrev pub same_rvas : KnownTargets → GameTargets → Bool
same_rvas e t =
    e.menu_gate_vtable_rva == t.menu_gate_vtable_rva
    && (e.menu_gate_complete_object_locator_rva == t.menu_gate_complete_object_locator_rva
        && (e.menu_gate_invoke_rva == t.menu_gate_invoke_rva
            && (e.common_availability_rva == t.common_availability_rva
                && (e.security_cookie_rva == t.security_cookie_rva
                    && (e.graphics_config_apply_rva == t.graphics_config_apply_rva
                        && e.backend_actual_query_rva == t.backend_actual_query_rva)))))

unfoldable pub verify_known_targets : KnownBuild → GameTargets → Result CompatError (Unit {0})
verify_known_targets build t =
    guard (same_rvas build.expected t) unexpected_rva
    >> guard (same_bytes build.expected.menu_gate_entries t.menu_gate_entries) unexpected_entries

-- one round of the loop over the direct callers, given the hits of the rounds behind it
abbrev pub gate_hit :
    LoadedImage → ℕ → Option ℕ → Result CompatError (List ℕ) → Result CompatError (List ℕ)
gate_hit image availability_rva none rest = rest
gate_hit image availability_rva (some gate_rva) rest =
    menu_gate_body_matches image gate_rva availability_rva >>= λ hit.
    rest >>= λ gates. ok (if hit then gate_rva ∷ gates else gates)

abbrev pub gate_hits : LoadedImage → ℕ → List ℕ → Result CompatError (List ℕ)
gate_hits image availability_rva [] = ok []
gate_hits image availability_rva (call_rva ∷ calls) =
    gate_hit image availability_rva (checked_sub call_rva 4)
      (gate_hits image availability_rva calls)

-- the gate, from the direct callers
unfoldable pub find_gate : LoadedImage → ℕ → Result CompatError ℕ
find_gate image availability_rva = find_direct_calls_to image availability_rva >>= λ direct_callers.
    guard (length direct_callers == 2) callers
    >> (gate_hits image availability_rva direct_callers >>= λ hits. require_unique hits)

abbrev pub check_build : Option KnownBuild → GameTargets → Result CompatError GameTargets
check_build none t = ok t
check_build (some build) t = verify_known_targets build t >>= λ _. ok t

-- from the unique signatures on
unfoldable pub bundle : LoadedImage → ℕ → ℕ → VtableMatch → ℕ → ℕ → Result CompatError GameTargets
bundle image availability_rva gate_rva vtable config_rva backend_rva =
    bytes_at image availability_rva 14 >>= λ availability_prologue.
    resolve_security_cookie image availability_rva >>= λ cookie_rva.
    bytes_at image gate_rva 19 >>= λ gate_bytes. bytes_at image config_rva 14 >>= λ config_prologue.
    bytes_at image backend_rva 14 >>= λ backend_prologue. ok (record {
      menu_gate_vtable_rva = vtable.rva;
      menu_gate_complete_object_locator_rva = vtable.complete_object_locator_rva;
      menu_gate_invoke_rva = gate_rva;
      menu_gate_entries = vtable.entries;
      menu_gate_invoke_bytes = gate_bytes;
      common_availability_rva = availability_rva;
      common_availability_prologue = availability_prologue;
      security_cookie_rva = cookie_rva;
      graphics_config_apply_rva = config_rva;
      graphics_config_apply_prologue = config_prologue;
      backend_actual_query_rva = backend_rva;
      backend_actual_query_prologue = backend_prologue;
    })

-- `resolve` once the main image is known
unfoldable pub resolve : LoadedImage → ℕ → List ℕ → Result CompatError GameTargets
resolve image executable_size executable_hash =
    find_signature image availability_signature >>= λ availability_hits.
    require_unique availability_hits >>= λ availability_rva.
    find_gate image availability_rva >>= λ gate_rva.
    resolve_menu_gate_vtable image gate_rva >>= λ vtable.
    find_signature image graphics_config_signature >>= λ config_hits.
    require_unique config_hits >>= λ config_rva.
    find_signature image backend_actual_signature >>= λ backend_hits.
    require_unique backend_hits >>= λ backend_rva.
    bundle image availability_rva gate_rva vtable config_rva backend_rva >>= λ t.
    check_build (known_build executable_size executable_hash) t
