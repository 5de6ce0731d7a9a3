-- ===== src/Auth/Sessions/Roles.antt =====
-- The roles of a session survive the table.
use Prim.Native.Char.{code}
use Prim.Native.String.append
use kubendt.Prelude.{
  String, eqb, ◌≡◌, refl, Bool, true, false, List, [], ◌∷◌, not, ◌&&◌, is_empty, append, All, arith,
}
use kubendt.Auth.Sessions.{join_roles, split_comma, split_roles}

abbrev pub no_comma : String → Bool
no_comma String.[] = true
no_comma (String.◌∷◌ c s) = not (eqb (code c) b',') && no_comma s

split_comma_plain : (r : String) → no_comma r ≡ true → split_comma r ≡ r ∷ []
unfolding split_comma
split_comma_plain String.[] h = refl
split_comma_plain (String.◌∷◌ c s) h = ground (arith, h, split_comma_plain s)

split_comma-append :
    (r t : String) → no_comma r ≡ true → split_comma (append r (append "," t)) ≡ r ∷ split_comma t
unfolding split_comma
split_comma-append String.[] t h = rw (append.nil, append.cons, append.nil) refl
split_comma-append (String.◌∷◌ c s) t h =
    let tail : no_comma s ≡ true = ground (arith, h) in
    rw append.cons (ground (arith, h, split_comma-append s t tail))

split_comma-join_roles :
    (r : String) (rest : List String)
    → All (λ s. no_comma s ≡ true) (r ∷ rest)
    → split_comma (join_roles (r ∷ rest)) ≡ r ∷ rest
unfolding join_roles
split_comma-join_roles r [] (h, _) = split_comma_plain r h
split_comma-join_roles r (next ∷ rest) (h, hs) =
    rw (split_comma-append r (join_roles (next ∷ rest)) h, split_comma-join_roles next rest hs) refl

pub split_roles-join_roles :
    (r : String) (rest : List String)
    → All (λ s. no_comma s ≡ true) (r ∷ rest)
    → is_empty (join_roles (r ∷ rest)) ≡ false
    → split_roles (join_roles (r ∷ rest)) ≡ r ∷ rest
unfolding split_roles
split_roles-join_roles r rest h e = rw e (split_comma-join_roles r rest h)
