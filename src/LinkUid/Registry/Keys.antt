-- ===== src/LinkUid/Registry/Keys.antt =====
-- The keys that keep an owner from being inserted twice tell different identifiers apart.
use kubendt.Prelude.{
  no_bar, before_bar, before_bar-append, after_bar, after_bar-append, ℕ, suc, String, ◌≡◌, ◌≢◌,
  refl, ap, true, ℤ, pos, negsuc, append, show, show_int, all_digit_chars, all_digit_chars-show,
  AllDigits, show-AllDigits, is_digit, arith, show_injective, sym, ◌∙◌,
}
use Prim.Native.String.append
use kubendt.LinkUid.{LinkUidOwner}
use kubendt.LinkUid.Registry.{owner_key}

no_bar-digits : (s : String) → AllDigits s → no_bar s ≡ true
unfolding is_digit
no_bar-digits String.[] h = refl
no_bar-digits (String.◌∷◌ c s) h = rw (no_bar-digits s h.1) (ground (arith, h.0))

no_bar-show_int : (u : ℤ) → no_bar (show_int u) ≡ true
unfolding show_int
no_bar-show_int (pos n) = no_bar-digits _ (show-AllDigits n)
no_bar-show_int (negsuc n) = rw (append.cons, append.nil) (no_bar-digits _ (show-AllDigits (suc n)))

not_negative : (n : ℕ) (s : String) → show n ≢ append "-" s
unfolding all_digit_chars is_digit
not_negative n s h =
    let digits : all_digit_chars (append "-" s) ≡ true =
      sym (ap all_digit_chars h) ∙ all_digit_chars-show n in
    let clash = rw append.cons at digits in cc

abbrev rest_of : String → String
rest_of String.[] = ""
rest_of (String.◌∷◌ c s) = s

rest_of-minus : (s : String) → rest_of (append "-" s) ≡ s
rest_of-minus s = rw (append.cons, append.nil) refl

show_int_injective : (a b : ℤ) → show_int a ≡ show_int b → a ≡ b
unfolding show_int
show_int_injective (pos a) (pos b) h = ap pos (show_injective a b h)
show_int_injective (pos a) (negsuc b) h = absurd (not_negative a (show (suc b)) h)
show_int_injective (negsuc a) (pos b) h = absurd (not_negative b (show (suc a)) (sym h))
show_int_injective (negsuc a) (negsuc b) h =
    let same : show (suc a) ≡ show (suc b) =
      sym (rest_of-minus (show (suc a))) ∙ ap rest_of h ∙ rest_of-minus (show (suc b)) in
    ap negsuc (omega (arith, show_injective (suc a) (suc b) same))

before_bar-owner_key : (o : LinkUidOwner) → before_bar (owner_key o) ≡ show_int o.uid
unfolding owner_key
before_bar-owner_key o = before_bar-append _ _ (no_bar-show_int o.uid)

pub owner_key-uid : (a b : LinkUidOwner) → owner_key a ≡ owner_key b → a.uid ≡ b.uid
owner_key-uid a b h =
    show_int_injective a.uid b.uid
      (cc (before_bar-owner_key a, before_bar-owner_key b, ap before_bar h))

before_bar-namespace :
    (o : LinkUidOwner)
    → no_bar o.namespace ≡ true
    → before_bar (after_bar (owner_key o)) ≡ o.namespace
unfolding owner_key
before_bar-namespace o h =
    rw (after_bar-append (show_int o.uid) _ (no_bar-show_int o.uid))
      (before_bar-append o.namespace _ h)

pub owner_key-namespace :
    (a b : LinkUidOwner)
    → no_bar a.namespace ≡ true
    → no_bar b.namespace ≡ true
    → owner_key a ≡ owner_key b
    → a.namespace ≡ b.namespace
owner_key-namespace a b p q h =
    sym (before_bar-namespace a p) ∙ ap (λ k. before_bar (after_bar k)) h ∙ before_bar-namespace b q
