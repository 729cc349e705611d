-- ===== src/Metainfo/Key.antt =====
-- The keys that parser/parser.c asks for.
use bite_bit_bitten.Common.{ℕ, List, [], ◌∷◌, ◌++◌}

abbrev pub announce : List ℕ
announce = b'a' ∷ b'n' ∷ b'n' ∷ b'o' ∷ b'u' ∷ b'n' ∷ b'c' ∷ b'e' ∷ []

abbrev pub announce_list : List ℕ
announce_list = announce ++ b'-' ∷ b'l' ∷ b'i' ∷ b's' ∷ b't' ∷ []

abbrev pub info : List ℕ
info = b'i' ∷ b'n' ∷ b'f' ∷ b'o' ∷ []

abbrev pub created_by : List ℕ
created_by = b'c' ∷ b'r' ∷ b'e' ∷ b'a' ∷ b't' ∷ b'e' ∷ b'd' ∷ b' ' ∷ b'b' ∷ b'y' ∷ []

abbrev pub comment : List ℕ
comment = b'c' ∷ b'o' ∷ b'm' ∷ b'm' ∷ b'e' ∷ b'n' ∷ b't' ∷ []

abbrev pub creation_date : List ℕ
creation_date =
    b'c' ∷ b'r' ∷ b'e' ∷ b'a' ∷ b't' ∷ b'i' ∷ b'o' ∷ b'n' ∷ b' ' ∷ b'd' ∷ b'a' ∷ b't' ∷ b'e' ∷ []

abbrev pub name : List ℕ
name = b'n' ∷ b'a' ∷ b'm' ∷ b'e' ∷ []

abbrev pub length : List ℕ
length = b'l' ∷ b'e' ∷ b'n' ∷ b'g' ∷ b't' ∷ b'h' ∷ []

abbrev pub pieces : List ℕ
pieces = b'p' ∷ b'i' ∷ b'e' ∷ b'c' ∷ b'e' ∷ b's' ∷ []

abbrev pub piece_length : List ℕ
piece_length = b'p' ∷ b'i' ∷ b'e' ∷ b'c' ∷ b'e' ∷ b' ' ∷ length

abbrev pub files : List ℕ
files = b'f' ∷ b'i' ∷ b'l' ∷ b'e' ∷ b's' ∷ []

abbrev pub path : List ℕ
path = b'p' ∷ b'a' ∷ b't' ∷ b'h' ∷ []
