-- ===== src/Sha256/Hex.antt =====
-- src/sha256.rs: `to_hex` and `file_hex`. A text is the list of its code points.
use elden_ring_windowed_hdr.Common.{
  ℕ, ◌+◌, ◌-◌, ◌*◌, ◌/◌, ◌%◌, ◌<◌, ◌≡◌, refl, ap, ap₂, ◌∙◌, true, Option, none, some, List, [], ◌∷◌,
  ◌++◌, get_or, leb, ◌==◌, ==_iff, if◌then◌else◌, arith, inl, inr, Option-cases, holds_below,
  holds_below_sound,
}
use elden_ring_windowed_hdr.Sha256.Hasher.{Sha256, new, update, finalize}
use elden_ring_windowed_hdr.Sha256.Chunks.{updates, flatten}
use elden_ring_windowed_hdr.Sha256.Padding.{digest_of, finalize-updates}

-- b"0123456789ABCDEF"
abbrev pub hex_digits : List ℕ
hex_digits =
    b'0' ∷ b'1' ∷ b'2' ∷ b'3' ∷ b'4' ∷ b'5' ∷ b'6' ∷ b'7' ∷ b'8' ∷ b'9' ∷ b'A' ∷ b'B' ∷ b'C' ∷ b'D'
    ∷ b'E' ∷ b'F' ∷ []

-- `HEX[(byte >> 4)]` and `HEX[(byte & 0x0f)]`
unfoldable pub to_hex : List ℕ → List ℕ
to_hex [] = []
to_hex (byte ∷ bytes) =
    get_or hex_digits (byte / 16) 0 ∷ get_or hex_digits (byte % 16) 0 ∷ to_hex bytes

-- What `File::read` returns, call by call: an error, no bytes at the end, or some bytes.
pub data Reads : Type 0 where
  fails : Reads
  ends : Reads
  reads : (byte : ℕ) → (bytes : List ℕ) → Reads → Reads

-- The loop of `file_hex`; `none` is the error that `?` passes on.
hash_reads : Sha256 → Reads → Option Sha256
hash_reads hash fails = none
hash_reads hash ends = some hash
hash_reads hash (reads byte bytes rest) = hash_reads (update hash (byte ∷ bytes)) rest

hex_of : Option Sha256 → Option (List ℕ)
hex_of none = none
hex_of (some hash) = some (to_hex (finalize hash))

-- `opened` is `none` where `File::open` fails
unfoldable pub file_hex : Option Reads → Option (List ℕ)
unfolding hash_reads hex_of
file_hex none = none
file_hex (some r) = hex_of (hash_reads new r)

abbrev pub prepend : List ℕ → Option (List ℕ) → Option (List ℕ)
prepend xs none = none
prepend xs (some ys) = some (xs ++ ys)

-- What a file's reads amount to, if none of them fails.
abbrev pub contents : Reads → Option (List ℕ)
contents fails = none
contents ends = some []
contents (reads byte bytes rest) = prepend (byte ∷ bytes) (contents rest)

abbrev chunks_of : Reads → List (List ℕ)
chunks_of fails = []
chunks_of ends = []
chunks_of (reads byte bytes rest) = (byte ∷ bytes) ∷ chunks_of rest

abbrev hashed : Sha256 → List (List ℕ) → Option (List ℕ) → Option Sha256
hashed h chunks none = none
hashed h chunks (some t) = some (updates h chunks)

hashed-prepend :
    (h : Sha256) (c : List ℕ) (chunks : List (List ℕ)) (t : Option (List ℕ))
    → hashed (update h c) chunks t ≡ hashed h (c ∷ chunks) (prepend c t)
unfolding updates
hashed-prepend h c chunks none = refl
hashed-prepend h c chunks (some t) = refl

hash_reads_lem : (r : Reads) (h : Sha256) → hash_reads h r ≡ hashed h (chunks_of r) (contents r)
unfolding hash_reads updates
hash_reads_lem fails h = refl
hash_reads_lem ends h = refl
hash_reads_lem (reads byte bytes rest) h =
    hash_reads_lem rest (update h (byte ∷ bytes))
    ∙ hashed-prepend h (byte ∷ bytes) (chunks_of rest) (contents rest)

flatten-chunks_of : (r : Reads) (t : List ℕ) → contents r ≡ some t → flatten (chunks_of r) ≡ t
flatten-chunks_of fails t e = cc
flatten-chunks_of ends t e = cc
flatten-chunks_of (reads byte bytes rest) t e = elim (Option-cases (contents rest)) [
  | inl n ↦ ground arith
  | inr s ↦ ground (arith, flatten-chunks_of rest s.0 s.1)
]

-- the digest of a text in hexadecimal
abbrev pub hex_digest : Option (List ℕ) → Option (List ℕ)
hex_digest none = none
hex_digest (some t) = some (to_hex (digest_of t))

-- However the reads cut an opened file, `file_hex` returns the digest of its whole contents in
-- hexadecimal, and an error exactly if a read fails.
pub file_hex_lem : (r : Reads) → file_hex (some r) ≡ hex_digest (contents r)
unfolding file_hex
file_hex_lem r = ap hex_of (hash_reads_lem r new) ∙ of (contents r) refl
  where
    of : (o : Option (List ℕ)) → contents r ≡ o → hex_of (hashed new (chunks_of r) o) ≡ hex_digest o
    of none e = refl
    of (some t) e =
        ap (λ d. some (to_hex d))
          (finalize-updates (chunks_of r) ∙ ap digest_of (flatten-chunks_of r t e))

-- the value of an upper-case hexadecimal digit
abbrev pub hex_value : ℕ → ℕ
hex_value c = if leb c b'9' then c - b'0' else c - 55

pub from_hex : List ℕ → List ℕ
from_hex [] = []
from_hex (c ∷ []) = []
from_hex (c ∷ d ∷ text) = (hex_value c * 16 + hex_value d) ∷ from_hex text

abbrev pub AreBytes : List ℕ → Type 0
AreBytes [] = Unit
AreBytes (b ∷ bs) = (b < 256) × AreBytes bs

digits_table : holds_below (λ d. hex_value (get_or hex_digits d 0) == d) 16 ≡ true
unfolding holds_below
digits_table = refl

hex_value_digit : (d : ℕ) → d < 16 → hex_value (get_or hex_digits d 0) ≡ d
hex_value_digit d h = (==_iff _ d).0 (holds_below_sound _ 16 d h digits_table)

-- The hexadecimal text of any bytes reads back as those bytes.
pub from_hex-to_hex : (bytes : List ℕ) → AreBytes bytes → from_hex (to_hex bytes) ≡ bytes
unfolding from_hex to_hex
from_hex-to_hex [] h = refl
from_hex-to_hex (b ∷ bs) h =
    ap₂ ◌∷◌
      (ap₂ (λ x y. x * 16 + y) (hex_value_digit (b / 16) (omega arith))
          (hex_value_digit (b % 16) (omega arith))
        ∙ omega arith)
      (from_hex-to_hex bs h.1)
