-- ===== src/Links/LinkName.antt =====
-- Which link names pass: ValidateLinkName.
use Prim.Native.String.{len}
use kubendt.Prelude.{
  ℕ, String, ◌≡◌, refl, List, [], ◌∷◌, ◌≤◌, ◌≢◌, ◌⊎◌, ◌↔◌, inl, inr, arith, All, is_empty,
  trim_space, codes, ok, Bool-cases, is_empty→eq, eq_iff, string_eq,
}
use kubendt.Links.{check_runes, validate_link_name}

-- Printable ASCII other than a slash, a double quote and a backslash.
abbrev pub IsPlain : ℕ → Type 0
IsPlain r = (0x20 ≤ r) × (r ≤ 0x7e) × (r ≢ 0x2f) × (r ≢ 0x22) × (r ≢ 0x5c)

pub record IsLinkName (name : String) : Type 0 where
  pub short : len name ≤ 16
  pub trimmed : trim_space name ≡ name
  pub plain : All IsPlain (codes name)

check_runes_sound : (rs : List ℕ) (i : ℕ) → check_runes rs i ≡ ok tt → All IsPlain rs
unfolding check_runes
check_runes_sound [] i h = tt
check_runes_sound (r ∷ rs) i h = ground (arith, check_runes_sound rs i)

check_runes_complete : (rs : List ℕ) (i : ℕ) → All IsPlain rs → check_runes rs i ≡ ok tt
unfolding check_runes
check_runes_complete [] i h = refl
check_runes_complete (r ∷ rs) i h = ground (arith, check_runes_complete rs i)

validate_link_name_sound :
    (name : String) (i : ℕ) → validate_link_name name i ≡ ok tt → (name ≡ "") ⊎ IsLinkName name
unfolding validate_link_name
validate_link_name_sound name i h = elim (Bool-cases (is_empty name)) [
  | inl e ↦ inl (is_empty→eq name e)
  | inr e ↦ inr (record {
    short = ground (arith, h, e);
    trimmed = ground (arith, h, e, eq_iff (trim_space name) name);
    plain = check_runes_sound (codes name) i (ground (arith, h, e));
  })
]

validate_link_name_complete :
    (name : String) (i : ℕ) → (name ≡ "") ⊎ IsLinkName name → validate_link_name name i ≡ ok tt
unfolding validate_link_name
validate_link_name_complete name i (inl e) = rw e
validate_link_name_complete name i (inr v) =
    ground (arith, eq_iff (trim_space name) name, check_runes_complete (codes name) i v.plain)

-- A link name passes exactly when it is empty, or has at most 16 bytes, no white space at its ends
-- and only printable ASCII characters other than the slash, the double quote and the backslash.
pub validate_link_name_iff :
    (name : String) (i : ℕ) → (validate_link_name name i ≡ ok tt) ↔ ((name ≡ "") ⊎ IsLinkName name)
validate_link_name_iff name i =
    (validate_link_name_sound name i, validate_link_name_complete name i)
