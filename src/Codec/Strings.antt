-- ===== src/Codec/Strings.antt =====
-- codec/codec.go: the equality of the strings that are keys.
use clove.Prelude.{ℕ, ◌≡◌, true, false, List, [], ◌∷◌, refl, arith}
use clove.Codec.Value.{str_eq}

pub str_eq_refl : (s : List ℕ) → str_eq s s ≡ true
unfolding str_eq
str_eq_refl [] = refl
str_eq_refl (a ∷ s) = ground (arith, str_eq_refl s)

pub str_eq_sound : (s t : List ℕ) → str_eq s t ≡ true → s ≡ t
unfolding str_eq
str_eq_sound [] [] h = refl
str_eq_sound [] (b ∷ t) h = absurd (cc)
str_eq_sound (a ∷ s) [] h = absurd (cc)
str_eq_sound (a ∷ s) (b ∷ t) h = ground (arith, str_eq_sound s t)

pub not_both : (i j k : List ℕ) → str_eq i k ≡ false → str_eq i j ≡ true → str_eq k j ≡ true → ⊥
not_both i j k h a b = absurd (cc (rw (str_eq_sound i j a, str_eq_sound k j b) at h, str_eq_refl j))
