-- ===== src/Text/Suffix.antt =====
-- strings.HasSuffix against what it means.
use Prim.Native.String
use Prim.Native.String.{[], ◌∷◌}
use text.Mathlib.TextLemmas.{nil-append, cons-append}
use nexlog_server.Base.{
  String, ◌≡◌, refl, sym, ◌∙◌, ap, true, arith, inl, inr, Bool-cases, eq_iff, ◌==◌,
}
use nexlog_server.Text.{has_suffix}

-- The text ends in `p`.
abbrev pub EndsIn : String → String → Type 0
EndsIn p s = (stem : String) × (s ≡ String.◌++◌ stem p)

whole : (p s : String) → (s == p) ≡ true → EndsIn p s
whole p s same = ("", (eq_iff s p).0 same ∙ sym (nil-append p))

pub EndsIn-has_suffix : (s p : String) → has_suffix s p ≡ true → EndsIn p s
unfolding has_suffix
EndsIn-has_suffix [] p h = whole p "" (ground (arith, eq_iff p "", eq_iff "" p))
EndsIn-has_suffix (c ∷ s) p h = elim (Bool-cases ((c ∷ s) == p)) [
  | inl same ↦ whole p (c ∷ s) same
  | inr other ↦
      let (stem, e) = EndsIn-has_suffix s p (rw other at h) in
      (c ∷ stem, ap (λ x. c ∷ x) e ∙ sym (cons-append c stem p))
]

has_suffix_self : (p : String) → has_suffix p p ≡ true
unfolding has_suffix
has_suffix_self [] = (eq_iff "" "").1 refl
has_suffix_self (c ∷ p) = rw ((eq_iff (c ∷ p) (c ∷ p)).1 refl) refl

pub has_suffix-append : (stem p : String) → has_suffix (String.◌++◌ stem p) p ≡ true
unfolding has_suffix
has_suffix-append [] p = ap (λ s. has_suffix s p) (nil-append p) ∙ has_suffix_self p
has_suffix-append (c ∷ stem) p =
    ap (λ s. has_suffix s p) (cons-append c stem p) ∙ ground (arith, has_suffix-append stem p)
