-- ===== src/Lib.antt =====
-- A mod that lets Elden Ring run HDR in a window. It is loaded into the game, patches a few of the
-- game's functions, shadows the vtables of DXGI objects, and switches the swap chain between the
-- color space it had and HDR10/PQ.
--
-- The parts and their files:
--   * ColorSpace: `ManagedColorSpaceState` of src/dxgi.rs, one per swap chain. Machine has the
--     record and a function for each method; Lifecycle has the calls that reach it as a step
--     relation, with the transitions that were begun and not finished, since the source releases
--     its lock between the two. Debt, Ownership and Settled hold the invariants, Races two
--     interleavings.
--   * SwapChains: the rest of the state of src/dxgi.rs and the hooks that change it. Registry has
--     the statics (the active swap chain with its revision, and SWAP_CHAIN_STATES as an
--     association list), Hooks the hooks, Device what DXGI answers and the inspection of a swap
--     chain. Frame has the calls as a data type, Lifecycles runs of them, Revision the counter of
--     the active swap chain, Present what a Present does.
--   * GameHdr: the hooks of src/game_hdr.rs. Statics has one record for the statics of each hook,
--     Hooks the menu's predicate and the availability query, Query the backend query and the copy
--     of the settings, Candidate the cache of inspections, which
--     may be older than the present state of the output. Override has what an override means for
--     the swap chain, Backing what it and an answer rest on, Throttle the amount of logging.
--   * Patch: `write_memory` of src/windows.rs on the bytes of the process (Memory), and the inline
--     hooks of src/game_hdr.rs (Install, and Availability for the one whose trampoline is
--     relocated), with what a successful and a failed installation leave (Success, Failure).
--   * Compat: the search for the game's functions in src/game_compat.rs. Image has the sections and
--     the bounded reads, Scan the searches, Targets the checks of the code that was found, Vtable
--     the search for the vtable of the menu's gate, Builds the signatures and the known builds,
--     Resolve the whole bundle. Layout has what the reads and tests say of the bytes and sections;
--     Exact, Caller, References, Described, Rtti, Validated and Resolved hold what the searches
--     and checks guarantee.
--   * Shadow: the shadow vtables of src/dxgi.rs. Tables has the hooks of each interface, Records the
--     records and generations and how a hook finds the function it calls through, Install the
--     installation and the expansion. Writes has what the loops over the hooks do to a table,
--     Fresh a first installation, Sound, Published and Preserve what holds of the records at all
--     times, Reach and Expand what follows for a hook and for an expansion.
--   * Windows: the memory queries and the clone of a region of src/windows.rs (Regions), and the loop
--     of `range_is_readable` (Readable).
--   * Config: src/config.rs. Modes has the modes, Text the functions on texts, Parse the parser;
--     Words and RoundTrip have what it does to a spelled and spaced mode.
--   * Init: src/lib.rs. Start has the byte and the threads that race for it, Wait the initializer,
--     Initialize the choice of the hooks; Finished and Enabled have what they guarantee.
--   * Sha256: src/sha256.rs, with the padding of the whole message as the reference.
--   * Common: names and lemmas that all of them share.
--
-- The hooks of src/game_hdr.rs call the registry of src/dxgi.rs: the backend query notes the active
-- swap chain, inspects it through the cache, and requests the managed color space, which the next
-- Present applies. Override states this over GameHdr and SwapChains together.
--
-- Numbers are native natural numbers; counters of the source that wrap do so here at 2 ^ 64, and
-- words of SHA-256 at 2 ^ 32. A pointer is its address, 0 is null. The
-- loops are recursion on the bytes, sections or calls that they go through, and `whole_blocks` of
-- Sha256 on a count of blocks that covers its input. Two run on fuel: the walk of
-- `range_is_readable` has a round for each byte of the range, since each round goes on by a byte at
-- least, and the initializer's wait a round for each poll up to one after its 15 seconds, which
-- comes since time passes; how long a poll sleeps does not matter.
--
-- What DXGI, Windows, the file system, the game's functions and other threads answer is an argument
-- of the definitions: `Device`, `Os`, `ShadowOs`, `Query`, `Outcome`, `Reads`, `Answers`, and results
-- of the original functions. Where the linker puts the functions is the argument `address`.
-- Locks are flags that tell whether they are poisoned. The texts of the log are left out.
--
-- Not modelled: the import table and the AGS hook of src/dxgi.rs, and its hooks that only forward
-- and log; the reading of the sections from the headers in src/game_compat.rs; `install_menu_gate` in
-- src/game_hdr.rs; the calls of src/windows.rs that only pass on to the system; src/logger.rs, which
-- writes lines to a file. How an installation of Init ends is an argument there and not tied to the
-- installations of Patch.
pub mod Common
pub mod ColorSpace
pub mod Sha256
pub mod SwapChains
pub mod GameHdr
pub mod Patch
pub mod Config
pub mod Init
pub mod Windows
pub mod Compat
pub mod Shadow
