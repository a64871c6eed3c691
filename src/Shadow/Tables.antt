-- ===== src/Shadow/Tables.antt =====
-- src/dxgi.rs: which method of which interface is hooked: `shadow_replacement`, and the lists that
-- `patch_factory` and `patch_swap_chain` install.
use elden_ring_windowed_hdr.Common.{
  ℕ, ◌≡◌, refl, Bool, true, false, Option, none, some, List, [], ◌∷◌, ◌++◌, ltb, ◌==◌,
  if◌then◌else◌, arith,
}

pub data ShadowKind : Type 0 where
  factory : ShadowKind
  swap_chain : ShadowKind

abbrev pub same_kind : ShadowKind → ShadowKind → Bool
same_kind factory factory = true
same_kind factory swap_chain = false
same_kind swap_chain factory = false
same_kind swap_chain swap_chain = true

pub same_kind_refl : (k : ShadowKind) → same_kind k k ≡ true
same_kind_refl factory = refl
same_kind_refl swap_chain = refl

-- the functions of the module that stand in hooked slots
pub data Hook : Type 0 where
  factory_query_interface factory_release create_swap_chain create_swap_chain_for_hwnd : Hook
  create_swap_chain_for_core_window create_swap_chain_for_composition : Hook
  swap_chain_query_interface swap_chain_release present set_fullscreen_state resize_buffers : Hook
  resize_target present1 check_color_space_support set_color_space1 resize_buffers1 : Hook
  set_hdr_metadata : Hook

-- `VtableHook`; the replacement is the address of the function
pub record VtableHook : Type 0 where
  pub index : ℕ
  pub hook : Hook

abbrev factory_slot : ℕ → Option Hook
factory_slot index =
    if index == 0
    then some factory_query_interface
    else if index == 2
    then some factory_release
    else if index == 10
    then some create_swap_chain
    else if index == 15
    then some create_swap_chain_for_hwnd
    else if index == 16
    then some create_swap_chain_for_core_window
    else if index == 24
    then some create_swap_chain_for_composition
    else none

abbrev swap_chain_slot : ℕ → Option Hook
swap_chain_slot index =
    if index == 0
    then some swap_chain_query_interface
    else if index == 2
    then some swap_chain_release
    else if index == 8
    then some present
    else if index == 10
    then some set_fullscreen_state
    else if index == 13
    then some resize_buffers
    else if index == 14
    then some resize_target
    else if index == 22
    then some present1
    else if index == 37
    then some check_color_space_support
    else if index == 38
    then some set_color_space1
    else if index == 39
    then some resize_buffers1
    else if index == 40
    then some set_hdr_metadata
    else none

-- `shadow_replacement`, before the address is taken
unfoldable pub shadow_replacement : ShadowKind → ℕ → Option Hook
shadow_replacement factory index = factory_slot index
shadow_replacement swap_chain index = swap_chain_slot index

-- the list of `patch_factory`
unfoldable pub factory_hooks : ℕ → List VtableHook
factory_hooks entry_count =
    record { index = 0; hook = factory_query_interface }
    ∷ record { index = 2; hook = factory_release }
    ∷ record { index = 10; hook = create_swap_chain }
    ∷ (if ltb 24 entry_count
        then record { index = 15; hook = create_swap_chain_for_hwnd }
          ∷ record { index = 16; hook = create_swap_chain_for_core_window }
          ∷ record { index = 24; hook = create_swap_chain_for_composition }
          ∷ []
        else [])

-- the list of `patch_swap_chain`
unfoldable pub swap_chain_hooks : ℕ → List VtableHook
swap_chain_hooks entry_count =
    record { index = 0; hook = swap_chain_query_interface }
    ∷ record { index = 2; hook = swap_chain_release }
    ∷ record { index = 8; hook = present }
    ∷ record { index = 10; hook = set_fullscreen_state }
    ∷ record { index = 13; hook = resize_buffers }
    ∷ record { index = 14; hook = resize_target }
    ∷ ((if ltb 22 entry_count then record { index = 22; hook = present1 } ∷ [] else [])
        ++ ((if ltb 38 entry_count
              then record { index = 37; hook = check_color_space_support }
                ∷ record { index = 38; hook = set_color_space1 }
                ∷ []
              else [])
            ++ ((if ltb 39 entry_count
                  then record { index = 39; hook = resize_buffers1 } ∷ []
                  else [])
                ++ (if ltb 40 entry_count
                    then record { index = 40; hook = set_hdr_metadata } ∷ []
                    else []))))

unfoldable pub hooks_of : ShadowKind → ℕ → List VtableHook
hooks_of factory entry_count = factory_hooks entry_count
hooks_of swap_chain entry_count = swap_chain_hooks entry_count

-- The interfaces whose tables are known: `factory_vtable_len` and `swap_chain_vtable_len`, by the
-- name that the IID stands for.
pub data Interface : ShadowKind → Type 0 where
  factory0 factory1 factory2 factory3 factory4 factory5 factory6 factory7 : Interface factory
  swap_chain0 swap_chain1 swap_chain2 swap_chain3 swap_chain4 : Interface swap_chain

unfoldable pub vtable_len : {k : ShadowKind} → Interface k → ℕ
vtable_len factory0 = 12
vtable_len factory1 = 14
vtable_len factory2 = 25
vtable_len factory3 = 26
vtable_len factory4 = 28
vtable_len factory5 = 29
vtable_len factory6 = 30
vtable_len factory7 = 32
vtable_len swap_chain0 = 18
vtable_len swap_chain1 = 29
vtable_len swap_chain2 = 36
vtable_len swap_chain3 = 40
vtable_len swap_chain4 = 41

-- the hook that a list installs at an index
abbrev pub listed : List VtableHook → ℕ → Option Hook
listed [] i = none
listed (h ∷ hooks) i = if i == h.index then some h.hook else listed hooks i

-- The list installed for an interface has, at every index of its table, exactly the function that
-- `shadow_replacement` gives for that index.
pub hooks_agree :
    {k : ShadowKind} (f : Interface k) (i : ℕ)
    → listed (hooks_of k (vtable_len f)) i
      ≡ (if ltb i (vtable_len f) then shadow_replacement k i else none)
unfolding hooks_of factory_hooks swap_chain_hooks shadow_replacement vtable_len
hooks_agree factory0 i = ground arith
hooks_agree factory1 i = ground arith
hooks_agree factory2 i = ground arith
hooks_agree factory3 i = ground arith
hooks_agree factory4 i = ground arith
hooks_agree factory5 i = ground arith
hooks_agree factory6 i = ground arith
hooks_agree factory7 i = ground arith
hooks_agree swap_chain0 i = ground arith
hooks_agree swap_chain1 i = ground arith
hooks_agree swap_chain2 i = ground arith
hooks_agree swap_chain3 i = ground arith
hooks_agree swap_chain4 i = ground arith
