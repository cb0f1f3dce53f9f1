-- ===== src/Text/Laws.antt =====
-- Laws of the text functions that the components use.
use Prim.Native.Char.{code}
use Prim.Native.String
use Prim.Native.String.{[], ◌∷◌}
use text.Mathlib.TextEquality.{Char-path}
use text.Mathlib.TextLemmas.{nil-append, cons-append}
use nexlog_server.Base.{String, ◌≡◌, ap, some, Bool-cases, inl, inr, arith, nat_eq}
use nexlog_server.Text.{strip_prefix}

-- What is left of a prefix: the text is the prefix and the rest.
pub strip_prefix_sound : (p s t : String) → strip_prefix p s ≡ some t → s ≡ String.◌++◌ p t
unfolding strip_prefix
strip_prefix_sound [] s t h = rw nil-append (ground arith)
strip_prefix_sound (c ∷ p) [] t h = cc
strip_prefix_sound (c ∷ p) (d ∷ s) t h = elim (Bool-cases (nat_eq (code c) (code d))) [
  | inl same ↦
      rw (cons-append, Char-path c d (ground arith))
        (ap (λ r. d ∷ r) (strip_prefix_sound p s t (rw same at h)))
  | inr other ↦ cc
]

pub strip_prefix-append : (p t : String) → strip_prefix p (String.◌++◌ p t) ≡ some t
unfolding strip_prefix
strip_prefix-append [] t = rw nil-append
strip_prefix-append (c ∷ p) t = rw cons-append (ground (arith, strip_prefix-append p t))
