-- ===== src/Compat/Resolved.antt =====
-- src/game_compat.rs: what a resolved bundle of targets has been checked for.
use elden_ring_windowed_hdr.Common.{
  ℕ, ◌≤◌, ◌≡◌, ap, subst, Bool, true, false, Option, none, some, List, [], ◌∷◌, length, ◌==◌,
  if◌then◌else◌, arith, ok, bind-ok, bind-then, guard-ok, same_bytes, same_bytes_sound,
}
use elden_ring_windowed_hdr.Compat.Image.{
  LoadedImage, callers, unexpected_rva, checked_sub, bytes_at,
}
use elden_ring_windowed_hdr.Compat.Scan.{find_signature, find_direct_calls_to, require_unique}
use elden_ring_windowed_hdr.Compat.Targets.{menu_gate_body_matches, resolve_security_cookie}
use elden_ring_windowed_hdr.Compat.Vtable.{VtableMatch, resolve_menu_gate_vtable}
use elden_ring_windowed_hdr.Patch.Memory.{read}
use elden_ring_windowed_hdr.Compat.Layout.{bytes_at_sound}
use elden_ring_windowed_hdr.Compat.Scan.{Signature}
use elden_ring_windowed_hdr.Compat.Exact.{Match, unique_target}
use elden_ring_windowed_hdr.Compat.Caller.{IsGate, LoadsCookie, IsGate-sound, cookie_sound}
use elden_ring_windowed_hdr.Compat.References.{loads_of}
use elden_ring_windowed_hdr.Compat.Rtti.{HasEntries, HasLocator, HasName}
use elden_ring_windowed_hdr.Compat.Validated.{resolve_menu_gate_vtable_lem}
use elden_ring_windowed_hdr.Compat.Builds.{
  availability_signature, graphics_config_signature, backend_actual_signature, KnownBuild,
  known_build,
}
use elden_ring_windowed_hdr.Compat.Resolve.{
  GameTargets, same_rvas, verify_known_targets, gate_hit, gate_hits, find_gate, check_build, bundle,
  resolve,
}

require_unique-single : (hits : List ℕ) (rva : ℕ) → require_unique hits ≡ ok rva → hits ≡ rva ∷ []
unfolding require_unique
require_unique-single [] rva h = absurd (ground (arith, h))
require_unique-single (x ∷ []) rva h =
    let same : x ≡ rva = ground (arith, h) in ap (λ y. y ∷ []) same
require_unique-single (x ∷ y ∷ more) rva h = absurd (ground (arith, h))

-- The signature matches there, in an executable section, and nowhere else.
abbrev pub OnlyMatch : LoadedImage → Signature → ℕ → Type 0
OnlyMatch image g rva = Match image g rva × ((r : ℕ) → Match image g r → r ≡ rva)

-- What the bundle says of the image: each of the three functions is where its signature matches,
-- and matches only there; the gate calls the availability function; the vtable, which two
-- instructions at least refer to, has the gate for its third entry, and before its entries the
-- locator, which leads to the name of the menu's lambda; the cookie is the one that the
-- availability function loads; the bytes are those of the image.
abbrev pub Resolved : LoadedImage → GameTargets → Type 0
Resolved image t =
    OnlyMatch image availability_signature t.common_availability_rva
    × OnlyMatch image graphics_config_signature t.graphics_config_apply_rva
    × OnlyMatch image backend_actual_signature t.backend_actual_query_rva
    × IsGate image t.menu_gate_invoke_rva t.common_availability_rva
    × (2 ≤ loads_of image t.menu_gate_vtable_rva image.sections)
    × HasEntries image t.menu_gate_vtable_rva t.menu_gate_invoke_rva t.menu_gate_entries
    × HasLocator image t.menu_gate_vtable_rva t.menu_gate_complete_object_locator_rva
    × ((name : List ℕ) × HasName image t.menu_gate_complete_object_locator_rva name)
    × LoadsCookie image t.common_availability_rva t.security_cookie_rva
    × (t.common_availability_prologue ≡ read image.memory t.common_availability_rva 14)
    × (t.graphics_config_apply_prologue ≡ read image.memory t.graphics_config_apply_rva 14)
    × (t.backend_actual_query_prologue ≡ read image.memory t.backend_actual_query_rva 14)
    × (t.menu_gate_invoke_bytes ≡ read image.memory t.menu_gate_invoke_rva 19)

-- The bundle has the RVAs and entries of a known build.
abbrev pub SameAs : KnownBuild → GameTargets → Type 0
SameAs build t =
    (build.expected.menu_gate_vtable_rva ≡ t.menu_gate_vtable_rva)
    × (build.expected.menu_gate_complete_object_locator_rva
        ≡ t.menu_gate_complete_object_locator_rva)
    × (build.expected.menu_gate_invoke_rva ≡ t.menu_gate_invoke_rva)
    × (build.expected.menu_gate_entries ≡ t.menu_gate_entries)
    × (build.expected.common_availability_rva ≡ t.common_availability_rva)
    × (build.expected.security_cookie_rva ≡ t.security_cookie_rva)
    × (build.expected.graphics_config_apply_rva ≡ t.graphics_config_apply_rva)
    × (build.expected.backend_actual_query_rva ≡ t.backend_actual_query_rva)

verify_known_targets-SameAs :
    (build : KnownBuild) (t : GameTargets) → verify_known_targets build t ≡ ok tt → SameAs build t
unfolding verify_known_targets
verify_known_targets-SameAs build t h =
    let (rvas, h1) = guard-ok (same_rvas build.expected t) unexpected_rva _ tt h in
    let entries : same_bytes build.expected.menu_gate_entries t.menu_gate_entries ≡ true =
      ground (arith, h1) in
    (
      ground (arith, rvas),
      ground (arith, rvas),
      ground (arith, rvas),
      same_bytes_sound build.expected.menu_gate_entries t.menu_gate_entries entries,
      ground (arith, rvas),
      ground (arith, rvas),
      ground (arith, rvas),
      ground (arith, rvas),
    )

-- Every gate that is taken from the callers has the body of the gate.
module _ (image : LoadedImage) (availability_rva : ℕ) where
  abbrev Gates : List ℕ → Type 0
  Gates [] = Unit {0}
  Gates (g ∷ gates) = (menu_gate_body_matches image g availability_rva ≡ ok true) × Gates gates

  picked :
      (hit : Bool) (g : ℕ) (more : List ℕ)
      → menu_gate_body_matches image g availability_rva ≡ ok hit
      → Gates more
      → Gates (if hit then g ∷ more else more)
  picked true g more matched others = (matched, others)
  picked false g more matched others = others

  gate_hits-Gates :
      (calls gates : List ℕ) → gate_hits image availability_rva calls ≡ ok gates → Gates gates
  gate_hits-Gates [] gates h = let same : [] ≡ gates = ground (arith, h) in subst Gates same tt
  gate_hits-Gates (c ∷ calls) gates h =
      go (checked_sub c 4) h λ more e. gate_hits-Gates calls more e
    where
      go :
          (o : Option ℕ)
          → gate_hit image availability_rva o (gate_hits image availability_rva calls) ≡ ok gates
          → ((more : List ℕ) → gate_hits image availability_rva calls ≡ ok more → Gates more)
          → Gates gates
      go none e rest = rest gates e
      go (some g) e rest =
          let (hit, matched, e1) =
            bind-ok (menu_gate_body_matches image g availability_rva) _ gates e in
          let (more, others, e2) = bind-ok (gate_hits image availability_rva calls) _ gates e1 in
          let same : (if hit then g ∷ more else more) ≡ gates = ground (arith, e2) in
          subst Gates same (picked hit g more matched (rest more others))

  find_gate-body :
      (gate_rva : ℕ)
      → find_gate image availability_rva ≡ ok gate_rva
      → menu_gate_body_matches image gate_rva availability_rva ≡ ok true
  unfolding find_gate
  find_gate-body gate_rva h =
      let (direct_callers, found, h1) =
        bind-ok (find_direct_calls_to image availability_rva) _ gate_rva h in
      let (two, h2) = guard-ok (length direct_callers == 2) callers _ gate_rva h1 in
      let (hits, gates, only) =
        bind-ok (gate_hits image availability_rva direct_callers) _ gate_rva h2 in
      (subst Gates (require_unique-single hits gate_rva only)
        (gate_hits-Gates direct_callers hits gates)).0

check_build-SameAs :
    (o : Option KnownBuild) (t u : GameTargets)
    → check_build o t ≡ ok u
    → (t ≡ u) × ((build : KnownBuild) → o ≡ some build → SameAs build t)
check_build-SameAs none t u h = (ground (arith, h), λ build e. absurd (ground (arith, e)))
check_build-SameAs (some b) t u h =
    let (done, verified, same) = bind-ok (verify_known_targets b t) _ u h in
    (
      ground (arith, same),
      λ build e.
          let it : b ≡ build = ground (arith, e) in
          subst (λ x. SameAs x t) it (verify_known_targets-SameAs b t verified),
    )

-- What was found, in the image.
abbrev Found : LoadedImage → ℕ → ℕ → VtableMatch → ℕ → ℕ → Type 0
Found image a gate vtable c b =
    OnlyMatch image availability_signature a
    × OnlyMatch image graphics_config_signature c
    × OnlyMatch image backend_actual_signature b
    × IsGate image gate a
    × (2 ≤ loads_of image vtable.rva image.sections)
    × HasEntries image vtable.rva gate vtable.entries
    × HasLocator image vtable.rva vtable.complete_object_locator_rva
    × ((name : List ℕ) × HasName image vtable.complete_object_locator_rva name)

-- the bundle has what was found, and the bytes and the cookie that belong to it
bundle-Resolved :
    (image : LoadedImage) (a gate : ℕ) (vtable : VtableMatch) (c b : ℕ) (t : GameTargets)
    → Found image a gate vtable c b
    → bundle image a gate vtable c b ≡ ok t
    → Resolved image t
unfolding bundle
bundle-Resolved image a gate vtable c b t found h =
    bind-then (bytes_at image a 14) _ t h λ a_bytes a_read h1.
      bind-then (resolve_security_cookie image a) _ t h1 λ cookie cookie_found h2.
        bind-then (bytes_at image gate 19) _ t h2 λ gate_bytes gate_read h3.
          bind-then (bytes_at image c 14) _ t h3 λ c_bytes c_read h4.
            bind-then (bytes_at image b 14) _ t h4 λ b_bytes b_read h5.
              let made : GameTargets = record {
                menu_gate_vtable_rva = vtable.rva;
                menu_gate_complete_object_locator_rva = vtable.complete_object_locator_rva;
                menu_gate_invoke_rva = gate;
                menu_gate_entries = vtable.entries;
                menu_gate_invoke_bytes = gate_bytes;
                common_availability_rva = a;
                common_availability_prologue = a_bytes;
                security_cookie_rva = cookie;
                graphics_config_apply_rva = c;
                graphics_config_apply_prologue = c_bytes;
                backend_actual_query_rva = b;
                backend_actual_query_prologue = b_bytes;
              } in
              let same : made ≡ t = ground (arith, h5) in
              let (a_only, c_only, b_only, calls, loads, entries, locator, name) = found in
              subst (Resolved image) same (
                a_only,
                c_only,
                b_only,
                calls,
                loads,
                entries,
                locator,
                name,
                cookie_sound image a cookie cookie_found,
                bytes_at_sound image a 14 a_bytes a_read,
                bytes_at_sound image c 14 c_bytes c_read,
                bytes_at_sound image b 14 b_bytes b_read,
                bytes_at_sound image gate 19 gate_bytes gate_read,
              )

found_vtable :
    (image : LoadedImage) (gate : ℕ) (vtable : VtableMatch)
    → resolve_menu_gate_vtable image gate ≡ ok vtable
    → (2 ≤ loads_of image vtable.rva image.sections)
      × HasEntries image vtable.rva gate vtable.entries
      × HasLocator image vtable.rva vtable.complete_object_locator_rva
      × ((name : List ℕ) × HasName image vtable.complete_object_locator_rva name)
found_vtable image gate vtable h =
    let (count, twice, entries, locator, name, only) =
      resolve_menu_gate_vtable_lem image gate vtable h in
    (subst (λ n. 2 ≤ n) count twice, entries, locator, (vtable.rtti_name, name))

-- In a bundle that is resolved, each of the three functions is where its signature matches, in an
-- executable section, and matches only there; the bytes of the gate are a call of the availability
-- function between the expected ones; at least two instructions of the executable sections load
-- the address of the vtable, whose six slots point to the entries, of which the third is the gate,
-- and the slot before them to the locator, which names itself and leads to the name of the menu's
-- lambda; the cookie is where the prologue of the availability function loads from, in data; the
-- bytes are those of the image. In a known build the RVAs and the entries are the ones that are
-- recorded for it.
pub resolve_lem :
    (image : LoadedImage) (size : ℕ) (hash : List ℕ) (t : GameTargets)
    → resolve image size hash ≡ ok t
    → Resolved image t
      × ((build : KnownBuild) → known_build size hash ≡ some build → SameAs build t)
unfolding resolve
resolve_lem image size hash t h =
    bind-then (find_signature image availability_signature) _ t h λ a_hits a_found h1.
      bind-then (require_unique a_hits) _ t h1 λ a a_only h2.
        bind-then (find_gate image a) _ t h2 λ gate gate_found h3.
          bind-then (resolve_menu_gate_vtable image gate) _ t h3 λ vtable vtable_found h4.
            bind-then (find_signature image graphics_config_signature) _ t h4 λ c_hits c_found h5.
              bind-then (require_unique c_hits) _ t h5 λ c c_only h6.
                bind-then (find_signature image backend_actual_signature) _ t h6
                  λ b_hits b_found h7. bind-then (require_unique b_hits) _ t h7 λ b b_only h8.
                    bind-then (bundle image a gate vtable c b) _ t h8 λ u bundled h9.
                      let (same, known) = check_build-SameAs (known_build size hash) u t h9 in
                      let (loads, entries, locator, name) =
                        found_vtable image gate vtable vtable_found in
                      let resolved =
                        bundle-Resolved image a gate vtable c b u
                          (
                            unique_target image availability_signature a_hits a (omega arith)
                                a_found a_only,
                            unique_target image graphics_config_signature c_hits c (omega arith)
                                c_found c_only,
                            unique_target image backend_actual_signature b_hits b (omega arith)
                                b_found b_only,
                            IsGate-sound image gate a (find_gate-body image a gate gate_found),
                            loads,
                            entries,
                            locator,
                            name,
                          )
                          bundled in
                      (
                        subst (Resolved image) same resolved,
                        λ build e. subst (SameAs build) same (known build e),
                      )
