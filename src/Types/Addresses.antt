-- ===== src/Types/Addresses.antt =====
-- The addresses of one end of a link: backend/types/addrs.go.
use kubendt.Prelude.{String, Bool, true, false, List, [], ◌∷◌, trim_space, is_empty, if◌then◌else◌}

abbrev pub Addrs : Type 0
Addrs = List String

-- The addresses of a single value, none for a blank one.
unfoldable pub one_addr : String → Addrs
one_addr s = let t = trim_space s in if is_empty t then [] else t ∷ []

-- The address that Meshnet wires, "" when the end has none.
unfoldable pub first : Addrs → String
first [] = ""
first (a ∷ rest) = a

-- The addresses that the platform sets.
unfoldable pub extra : Addrs → List String
extra [] = []
extra (a ∷ rest) = rest

unfoldable pub no_addrs : Addrs → Bool
no_addrs [] = true
no_addrs (a ∷ rest) = false

-- The list that UnmarshalJSON makes of an array of texts.
unfoldable pub many_addrs : List String → Addrs
many_addrs [] = []
many_addrs (s ∷ rest) =
    let t = trim_space s in if is_empty t then many_addrs rest else t ∷ many_addrs rest
