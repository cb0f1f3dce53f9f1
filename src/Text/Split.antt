-- ===== src/Text/Split.antt =====
-- strings.Split of texts that a separator joins.
use Prim.Native.Char.{Char, code}
use Prim.Native.String
use Prim.Native.String.{[], ◌∷◌}
use mathlib.Core.List.{[], ◌∷◌}
use text.Mathlib.TextLemmas.{nil-append, cons-append}
use nexlog_server.Base.{ℕ, String, ◌≡◌, refl, ◌∙◌, ap, false, List, All, arith, nat_eq}
use nexlog_server.Text.{has_char, split, grow}

-- The texts with the separator between them.
unfoldable pub join_with : Char → List String → String
join_with c [] = ""
join_with c (s ∷ []) = s
join_with c (s ∷ t ∷ l) = String.◌++◌ s (c ∷ join_with c (t ∷ l))

split-plain : (n : ℕ) (s : String) → has_char n s ≡ false → split n s ≡ s ∷ []
unfolding split has_char
split-plain n [] h = refl
split-plain n (d ∷ s) h =
    let other : nat_eq (code d) n ≡ false = ground arith in
    let rest : has_char n s ≡ false = ground arith in
    rw (other, split) (ap (grow d) (split-plain n s rest))

split-separator :
    (c : Char) (s t : String)
    → has_char (code c) s ≡ false
    → split (code c) (String.◌++◌ s (c ∷ t)) ≡ s ∷ split (code c) t
unfolding split has_char
split-separator c [] t h = rw nil-append (ground arith)
split-separator c (d ∷ s) t h =
    let other : nat_eq (code d) (code c) ≡ false = ground arith in
    let rest : has_char (code c) s ≡ false = ground arith in
    rw (cons-append, other, split) (ap (grow d) (split-separator c s t rest))

-- Texts without the separator are what a split of the joined text gives back.
pub split-join_with :
    (c : Char) (s : String) (l : List String)
    → All (λ t. has_char (code c) t ≡ false) (s ∷ l)
    → split (code c) (join_with c (s ∷ l)) ≡ s ∷ l
unfolding join_with
split-join_with c s [] (h, hs) = split-plain (code c) s h
split-join_with c s (t ∷ l) (h, hs) =
    split-separator c s (join_with c (t ∷ l)) h ∙ ap (λ r. s ∷ r) (split-join_with c t l hs)
