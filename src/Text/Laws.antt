-- ===== src/Text/Laws.antt =====
-- Laws of the methods of `str`: each test against the text that it looks for.
use pulld.Base.{
  ℕ, ◌≡◌, refl, ◌≢◌, ◌↔◌, true, false, ◌||◌, none, some, [], ◌∷◌, ◌++◌, reverse, arith, ◌==◌,
  ==_refl, Bool-cases, Option-cases, inl, inr,
}
use mathlib.Core.List.{reverse-append, reverse-reverse}
use pulld.Text.{
  Text, text_eq, strip_prefix, starts_with, strip_suffix, contains, split_once, rsplit_once,
}

pub text_eq_refl : (s : Text) → text_eq s s ≡ true
text_eq_refl [] = refl
text_eq_refl (c ∷ s) = ground (arith, text_eq_refl s)

pub text_eq_sound : (s t : Text) → text_eq s t ≡ true → s ≡ t
text_eq_sound [] [] h = refl
text_eq_sound [] (d ∷ t) h = cc
text_eq_sound (c ∷ s) [] h = cc
text_eq_sound (c ∷ s) (d ∷ t) h = ground (arith, text_eq_sound s t)

pub text_eq_iff : (s t : Text) → (text_eq s t ≡ true) ↔ (s ≡ t)
text_eq_iff s t = (text_eq_sound s t, λ e. rw e (text_eq_refl t))

pub text_eq_sym : (s t : Text) → text_eq s t ≡ false → text_eq t s ≡ false
text_eq_sym s t h = ground (arith, text_eq_iff s t, text_eq_iff t s)

pub strip_prefix-append : (p s : Text) → strip_prefix (p ++ s) p ≡ some s
unfolding strip_prefix
strip_prefix-append [] s = refl
strip_prefix-append (c ∷ p) s = rw (==_refl c) (strip_prefix-append p s)

pub strip_prefix-eq-some : (s p r : Text) → strip_prefix s p ≡ some r → s ≡ p ++ r
unfolding strip_prefix
strip_prefix-eq-some s [] r h = ground arith
strip_prefix-eq-some [] (c ∷ p) r h = cc
strip_prefix-eq-some (d ∷ s) (c ∷ p) r h = ground (arith, strip_prefix-eq-some s p r)

pub starts_with-append : (p s : Text) → starts_with (p ++ s) p ≡ true
unfolding starts_with
starts_with-append p s = rw (strip_prefix-append p s)

pub starts_with-split : (s p : Text) → starts_with s p ≡ true → (r : Text) × (s ≡ p ++ r)
unfolding starts_with
starts_with-split s p h = elim (Option-cases (strip_prefix s p)) [
  | inl e ↦ absurd (cc)
  | inr (r, e) ↦ (r, strip_prefix-eq-some s p r e)
]

pub strip_suffix-append : (s p : Text) → strip_suffix (s ++ p) p ≡ some s
unfolding strip_suffix
strip_suffix-append s p =
    rw
      (
        strip_suffix,
        reverse-append s p,
        strip_prefix-append (reverse p) (reverse s),
        reverse-reverse s,
      )
      refl

pub contains-append : (s t : Text) (c : ℕ) → contains s c ≡ true → contains (s ++ t) c ≡ true
unfolding contains
contains-append [] t c h = cc
contains-append (d ∷ s) t c h = ground (arith, contains-append s t c)

pub contains_right : (s t : Text) (c : ℕ) → contains t c ≡ true → contains (s ++ t) c ≡ true
unfolding contains
contains_right [] t c h = h
contains_right (d ∷ s) t c h = ground (arith, contains_right s t c)

pub contains-cons : (d : ℕ) (s : Text) (c : ℕ) → contains (d ∷ s) c ≡ ((d == c) || contains s c)
unfolding contains
contains-cons d s c = refl

pub contains-++ : (s t : Text) (c : ℕ) → contains (s ++ t) c ≡ (contains s c || contains t c)
unfolding contains
contains-++ [] t c = refl
contains-++ (d ∷ s) t c = ground (arith, contains-++ s t c)

-- A text that lacks a character of the prefix does not begin with it.
pub starts_with-lacks :
    (s p : Text) (c : ℕ) → contains p c ≡ true → contains s c ≡ false → starts_with s p ≡ false
starts_with-lacks s p c h n = elim (Bool-cases (starts_with s p)) [
  | inr e ↦ e
  | inl e ↦ let (r, whole) = starts_with-split s p e in absurd (cc (contains-append p r c h, whole))
]

pub contains_here : (c : ℕ) (t : Text) → contains (c ∷ t) c ≡ true
unfolding contains
contains_here c t = ground arith

-- A cut at the first occurrence puts together again, and the left part lacks the character.
pub split_once-eq-some :
    (s : Text) (c : ℕ) (a b : Text)
    → split_once s c ≡ some (a, b)
    → (s ≡ a ++ c ∷ b) × (contains a c ≡ false)
unfolding split_once contains
split_once-eq-some [] c a b h = cc
split_once-eq-some (d ∷ s) c a b h = elim (Bool-cases (d == c)) [
  | inl e ↦ ground arith
  | inr e ↦ elim (Option-cases (split_once s c)) [
    | inl n ↦ ground arith
    | inr ((a', b'), f) ↦ ground (arith, split_once-eq-some s c a' b' f)
  ]
]

pub split_once-append :
    (a b : Text) (c : ℕ) → contains a c ≡ false → split_once (a ++ c ∷ b) c ≡ some (a, b)
unfolding split_once contains
split_once-append [] b c h = ground arith
split_once-append (d ∷ a) b c h = ground (arith, split_once-append a b c)

pub split_once-eq-none : (s : Text) (c : ℕ) → contains s c ≡ false → split_once s c ≡ none
unfolding split_once contains
split_once-eq-none [] c h = refl
split_once-eq-none (d ∷ s) c h = ground (arith, split_once-eq-none s c)

split_once-ne-none : (s : Text) (c : ℕ) → contains s c ≡ true → split_once s c ≢ none
unfolding split_once contains
split_once-ne-none [] c h = cc
split_once-ne-none (d ∷ s) c h = ground (arith, split_once-ne-none s c)

pub split_once-none : (s : Text) (c : ℕ) → split_once s c ≡ none → contains s c ≡ false
split_once-none s c e = elim (Bool-cases (contains s c)) [
  | inl h ↦ absurd (split_once-ne-none s c h e)
  | inr h ↦ h
]

rsplit_once-none : (s : Text) (c : ℕ) → rsplit_once s c ≡ none → contains s c ≡ false
unfolding rsplit_once contains
rsplit_once-none [] c h = refl
rsplit_once-none (d ∷ s) c h = ground (arith, rsplit_once-none s c)

pub contains-of-split_once :
    (s : Text) (c : ℕ)
    → contains s c ≡ true
    → (a : Text) × (b : Text) × (split_once s c ≡ some (a, b))
contains-of-split_once s c h = elim (Option-cases (split_once s c)) [
  | inl e ↦ absurd (split_once-ne-none s c h e)
  | inr ((a, b), e) ↦ (a, b, e)
]

pub rsplit_once-eq-none : (s : Text) (c : ℕ) → contains s c ≡ false → rsplit_once s c ≡ none
unfolding rsplit_once contains
rsplit_once-eq-none [] c h = refl
rsplit_once-eq-none (d ∷ s) c h = ground (arith, rsplit_once-eq-none s c)

-- The parts of a cut at the last occurrence, and the only way to cut there.
pub rsplit_once-append :
    (a b : Text) (c : ℕ) → contains b c ≡ false → rsplit_once (a ++ c ∷ b) c ≡ some (a, b)
unfolding rsplit_once
rsplit_once-append [] b c h = ground (arith, rsplit_once-eq-none b c h)
rsplit_once-append (d ∷ a) b c h = rw (rsplit_once-append a b c h)

pub rsplit_once-eq-some :
    (s : Text) (c : ℕ) (a b : Text)
    → rsplit_once s c ≡ some (a, b)
    → (s ≡ a ++ c ∷ b) × (contains b c ≡ false)
unfolding rsplit_once contains
rsplit_once-eq-some [] c a b h = cc
rsplit_once-eq-some (d ∷ s) c a b h = elim (Option-cases (rsplit_once s c)) [
  | inl n ↦ ground (arith, rsplit_once-none s c n)
  | inr ((a', b'), f) ↦ ground (arith, rsplit_once-eq-some s c a' b' f)
]
