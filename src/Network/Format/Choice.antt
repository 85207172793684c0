-- ===== src/Network/Format/Choice.antt =====
-- network/packet.go: what `DetermineFromBuffer` may choose.
use clove.Prelude.{
  ℕ, ◌≤◌, ◌≡◌, ◌⊎◌, inl, inr, Bool, true, false, Option, none, some, Bool-cases, List, [], ◌∷◌, All,
  leb, leb→le, if◌then◌else◌, arith, refl,
}
use mathlib.Core.Path.{subst}
use clove.Base.Buffer.{Buffer}
use clove.Network.Packet.{PacketType, type_eq}
use clove.Network.Format.{
  PacketFormat, FormatManager, determine_from_buffer, determine_loop, choose, is_score, score_gt,
}

-- A default format, or one that scores 90 or more on the bytes.
abbrev pub IsAcceptable : Buffer → PacketFormat → Type 0
IsAcceptable b f =
    (f.is_default ≡ true) ⊎ ((s : ℕ) × (f.parser.test_match_score b ≡ some s) × (90 ≤ s))

is_score-some : (o : Option ℕ) → is_score 100 o ≡ true → o ≡ some 100
is_score-some none h = cc
is_score-some (some s) h = ground arith

module _ (P : PacketFormat → Type 0) (b : Buffer) where
  abbrev IsUsable : PacketFormat → Type 0
  IsUsable f = P f × (type_eq f.format_type PacketType.unix_msg ≡ false)

  abbrev IsChosen : Option PacketFormat → Type 0
  IsChosen none = Unit {0}
  IsChosen (some f) = IsUsable f × IsAcceptable b f

  abbrev IsBest : Option PacketFormat → Option ℕ → Type 0
  IsBest none prev = Unit {0}
  IsBest (some f) prev = IsUsable f × (f.parser.test_match_score b ≡ prev)

  abbrev IsFallback : Option PacketFormat → Type 0
  IsFallback none = Unit {0}
  IsFallback (some f) = IsUsable f × (f.is_default ≡ true)

  choose-IsChosen :
      (prev : Option ℕ) (dst def : Option PacketFormat)
      → IsBest dst prev
      → IsFallback def
      → IsChosen (choose prev dst def)
  choose-IsChosen none dst none hd hf = tt
  choose-IsChosen none dst (some f) hd (u, e) = (u, inl e)
  choose-IsChosen (some s) none def hd hf = elim (Bool-cases (leb 90 s)) [
    | inl e ↦ rw e tt
    | inr e ↦ rw e tt
  ]
  choose-IsChosen (some s) (some f) def (u, e) hf = elim (Bool-cases (leb 90 s)) [
    | inl h ↦ rw h (u, inr (s, e, leb→le 90 s h))
    | inr h ↦ rw h tt
  ]

  best_score :
      (f : PacketFormat) → is_score 100 (f.parser.test_match_score b) ≡ true → IsAcceptable b f
  best_score f h = inr (100, is_score-some (f.parser.test_match_score b) h, omega arith)

  if-IsChosen :
      (c : Bool) (x y : Option PacketFormat)
      → (c ≡ true → IsChosen x)
      → (c ≡ false → IsChosen y)
      → IsChosen (if c then x else y)
  if-IsChosen true x y hx hy = hx refl
  if-IsChosen false x y hx hy = hy refl

  determine_loop-IsChosen :
      (pfs : List PacketFormat) (prev : Option ℕ) (dst def : Option PacketFormat)
      → All P pfs
      → IsBest dst prev
      → IsFallback def
      → IsChosen (determine_loop b pfs prev dst def)
  unfolding determine_loop
  determine_loop-IsChosen [] prev dst def h hd hf = choose-IsChosen prev dst def hd hf
  determine_loop-IsChosen (pf ∷ pfs) prev dst def (hp, h) hd hf =
      let score = pf.parser.test_match_score b in
      let skip = determine_loop-IsChosen pfs prev dst def h hd hf in
      if-IsChosen (type_eq pf.format_type PacketType.unix_msg) _ _ (λ u. skip)
        λ u.
          if-IsChosen pf.is_default _ _
            (λ d. determine_loop-IsChosen pfs prev dst (some pf) h hd ((hp, u), d))
            λ d.
              if-IsChosen (is_score 100 score) _ _ (λ s. ((hp, u), best_score pf s))
                λ s.
                  if-IsChosen (score_gt score prev) _ _
                    (λ g. determine_loop-IsChosen pfs score (some pf) def h ((hp, u), refl) hf)
                    λ g. skip

-- A format that `DetermineFromBuffer` chooses has every property that all formats of the manager
-- have (so it is one of them), is not of the kind for descriptors, and is a default or scores 90 or
-- more on the buffer.
pub determine_from_buffer-IsAcceptable :
    (P : PacketFormat → Type 0) (m : FormatManager) (b : Buffer) (f : PacketFormat)
    → All P m.sorted_formats
    → determine_from_buffer m b ≡ some f
    → P f × (type_eq f.format_type PacketType.unix_msg ≡ false) × IsAcceptable b f
unfolding determine_from_buffer
determine_from_buffer-IsAcceptable P m b f h e =
    let ((p, u), a) : IsChosen P b (some f) =
      subst (IsChosen P b) e
        (determine_loop-IsChosen P b m.sorted_formats none none none h tt tt) in
    (p, u, a)
