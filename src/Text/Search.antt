-- ===== src/Text/Search.antt =====
-- What a longer text contains.
use markets_service.Base.{◌≡◌, refl, true, [], ◌∷◌, ◌++◌, arith}
use markets_service.Text.{Text, has_prefix, contains, is_empty}

has_prefix-append : (s t p : Text) → has_prefix s p ≡ true → has_prefix (s ++ t) p ≡ true
unfolding has_prefix
has_prefix-append [] [] [] h = refl
has_prefix-append [] (c ∷ t) [] h = refl
has_prefix-append [] t (d ∷ p) h = absurd (cc)
has_prefix-append (c ∷ s) t [] h = refl
has_prefix-append (c ∷ s) t (d ∷ p) h = ground (arith, has_prefix-append s t p)

contains-empty : (t p : Text) → is_empty p ≡ true → contains t p ≡ true
unfolding contains has_prefix
contains-empty [] [] h = refl
contains-empty (c ∷ t) [] h = refl
contains-empty t (d ∷ p) h = absurd (cc)

pub contains-append_before : (s t p : Text) → contains s p ≡ true → contains (s ++ t) p ≡ true
unfolding contains
contains-append_before [] t p h = contains-empty t p h
contains-append_before (c ∷ s) t p h =
    ground (arith, contains-append_before s t p, has_prefix-append (c ∷ s) t p)

pub contains-append_after : (s t p : Text) → contains t p ≡ true → contains (s ++ t) p ≡ true
unfolding contains
contains-append_after [] t p h = h
contains-append_after (c ∷ s) t p h = ground (arith, contains-append_after s t p h)
