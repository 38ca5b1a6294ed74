-- ===== src/Base/Text.antt =====
-- Texts as lists of code points or bytes, with what the sources use of the Go packages `strings`,
-- `bytes` and `unicode`: equality, prefixes, `TrimSpace`, `ToLower`, `Split` and `SplitN`.
use Prim.Native.Nat.{ℕ, ◌+◌}
use Prim.Native.Char.{code}
use Prim.Native.String.{String}
use mathlib.Core.Path.{◌≡◌, refl, sym, ◌∙◌, subst}
use mathlib.Core.Logic.{◌≢◌, ◌↔◌, inl, inr}
use mathlib.Core.Bool.{Bool, true, false, ◌&&◌, ◌||◌}
use mathlib.Core.Option.{Option, none, some}
use mathlib.Core.List.{List, [], ◌∷◌, ◌++◌, reverse}
use native.Mathlib.Omega.{arith}
use codewire.Base.Lists.{All}
use codewire.Base.Tests.{==_refl, ==_iff, if_cases, leb, ◌==◌, if◌then◌else◌, Bool-cases}

abbrev pub Text : Type 0
Text = List ℕ

-- The code points of a literal: its bytes, where it is ASCII.
abbrev pub codes : String → Text
codes String.[] = []
codes (String.◌∷◌ c s) = code c ∷ codes s

infix 50 ◌=ᵗ◌
-- Go's `==` on strings, and `bytes.Equal`.
unfoldable pub ◌=ᵗ◌ : Text → Text → Bool
[] =ᵗ [] = true
[] =ᵗ (d ∷ t) = false
(c ∷ s) =ᵗ [] = false
(c ∷ s) =ᵗ (d ∷ t) = (c == d) && (s =ᵗ t)

pub =ᵗ-refl : (s : Text) → (s =ᵗ s) ≡ true
unfolding ◌=ᵗ◌
=ᵗ-refl [] = refl
=ᵗ-refl (c ∷ s) = ground (arith, =ᵗ-refl s)

pub eq_of_=ᵗ : (s t : Text) → (s =ᵗ t) ≡ true → s ≡ t
unfolding ◌=ᵗ◌
eq_of_=ᵗ [] [] h = refl
eq_of_=ᵗ [] (d ∷ t) h = cc
eq_of_=ᵗ (c ∷ s) [] h = cc
eq_of_=ᵗ (c ∷ s) (d ∷ t) h = ground (arith, eq_of_=ᵗ s t)

pub =ᵗ_iff : (s t : Text) → ((s =ᵗ t) ≡ true) ↔ (s ≡ t)
=ᵗ_iff s t = (eq_of_=ᵗ s t, λ e. rw e (=ᵗ-refl t))

pub =ᵗ_of_ne : (s t : Text) → s ≢ t → (s =ᵗ t) ≡ false
=ᵗ_of_ne s t h = elim (Bool-cases (s =ᵗ t)) [ inl e ↦ absurd (h (eq_of_=ᵗ s t e)) | inr e ↦ e ]

pub ne_of_=ᵗ : (s t : Text) → (s =ᵗ t) ≡ false → s ≢ t
ne_of_=ᵗ s t h e = absurd (let r = (=ᵗ_iff s t).1 e in cc)

-- `unicode.IsSpace`.
unfoldable pub is_space : ℕ → Bool
is_space c =
    (leb 9 c && leb c 13)
    || (c == 32)
    || (c == 0x85)
    || (c == 0xa0)
    || (c == 0x1680)
    || (leb 0x2000 c && leb c 0x200a)
    || (c == 0x2028)
    || (c == 0x2029)
    || (c == 0x202f)
    || (c == 0x205f)
    || (c == 0x3000)

unfoldable pub trim_left : Text → Text
unfolding is_space
trim_left [] = []
trim_left (c ∷ s) = if is_space c then trim_left s else c ∷ s

unfoldable pub trim_right : Text → Text
unfolding is_space ◌=ᵗ◌
trim_right [] = []
trim_right (c ∷ s) = let r = trim_right s in if is_space c && (r =ᵗ []) then [] else c ∷ r

-- `strings.TrimSpace`.
unfoldable pub trim_space : Text → Text
unfolding trim_left trim_right
trim_space s = trim_right (trim_left s)

-- `unicode.ToLower`, on the code points whose image is ASCII; the others stand for themselves,
-- which no comparison with an ASCII keyword can tell apart from Go's table.
unfoldable pub to_lower_rune : ℕ → ℕ
to_lower_rune c =
    if leb b'A' c && leb c b'Z'
    then c + 32
    else if c == 0x212a
    then b'k'
    else if c == 0x130
    then b'i'
    else c

-- `strings.ToLower`.
unfoldable pub to_lower : Text → Text
unfolding to_lower_rune
to_lower [] = []
to_lower (c ∷ s) = to_lower_rune c ∷ to_lower s

-- `strings.HasPrefix(s, p)`.
unfoldable pub has_prefix : Text → Text → Bool
has_prefix s [] = true
has_prefix [] (d ∷ p) = false
has_prefix (c ∷ s) (d ∷ p) = (c == d) && has_prefix s p

-- `strings.HasSuffix(s, p)`.
unfoldable pub has_suffix : Text → Text → Bool
unfolding has_prefix
has_suffix s p = has_prefix (reverse s) (reverse p)

-- `strings.Contains(s, p)`.
unfoldable pub contains : Text → Text → Bool
unfolding has_prefix
contains [] p = has_prefix [] p
contains (c ∷ s) p = has_prefix (c ∷ s) p || contains s p

-- The text before the first `sep` and, where there is one, the text after it.
unfoldable pub cut : ℕ → Text → Text × Option Text
cut sep [] = ([], none)
cut sep (c ∷ s) = let (a, b) = cut sep s in if c == sep then ([], some s) else (c ∷ a, b)

-- A code point put before the first part.
push_first : ℕ → List Text → List Text
push_first c [] = (c ∷ []) ∷ []
push_first c (a ∷ parts) = (c ∷ a) ∷ parts

-- `strings.Split(s, sep)` at a separator of one code point.
unfoldable pub split : ℕ → Text → List Text
unfolding push_first
split sep [] = [] ∷ []
split sep (c ∷ s) = let rest = split sep s in if c == sep then [] ∷ rest else push_first c rest

trim_right-trim_right : (s : Text) → trim_right (trim_right s) ≡ trim_right s
unfolding trim_right
trim_right-trim_right [] = refl
trim_right-trim_right (c ∷ s) = elim (Bool-cases (is_space c && (trim_right s =ᵗ []))) [
  | inl e ↦ rw e
  | inr e ↦ rw e (rw (trim_right-trim_right s, e))
]

trim_left-trim_right-trim_left :
    (s : Text) → trim_left (trim_right (trim_left s)) ≡ trim_right (trim_left s)
unfolding trim_left
trim_left-trim_right-trim_left [] = unfold trim_right in refl
trim_left-trim_right-trim_left (c ∷ s) = elim (Bool-cases (is_space c)) [
  | inl e ↦ rw e (trim_left-trim_right-trim_left s)
  | inr e ↦ rw e (unfold trim_right in rw e (rw e))
]

pub trim_space-trim_space : (s : Text) → trim_space (trim_space s) ≡ trim_space s
unfolding trim_space
trim_space-trim_space s =
    rw (trim_left-trim_right-trim_left s) (trim_right-trim_right (trim_left s))

split-append :
    (sep : ℕ) (a s : Text) → All (λ c. c ≢ sep) a → split sep (a ++ sep ∷ s) ≡ a ∷ split sep s
unfolding split
split-append sep [] s h = rw (==_refl sep)
split-append sep (c ∷ a) s h = ground (arith, split-append sep a s h.1)

split_whole : (sep : ℕ) (a : Text) → All (λ c. c ≢ sep) a → split sep a ≡ a ∷ []
unfolding split
split_whole sep [] h = refl
split_whole sep (c ∷ a) h = ground (arith, split_whole sep a h.1)

-- Three parts that are joined with a separator which is in none of them.
pub split_three :
    (sep : ℕ) (a b c : Text)
    → All (λ x. x ≢ sep) a
    → All (λ x. x ≢ sep) b
    → All (λ x. x ≢ sep) c
    → split sep (a ++ sep ∷ (b ++ sep ∷ c)) ≡ a ∷ b ∷ c ∷ []
split_three sep a b c h k l =
    rw (split-append sep a (b ++ sep ∷ c) h, split-append sep b c k, split_whole sep c l)

-- The parts of a text have no separator, and joined with it they are the text.
abbrev joined : ℕ → List Text → Text
joined sep [] = []
joined sep (t ∷ []) = t
joined sep (t ∷ u ∷ us) = t ++ sep ∷ joined sep (u ∷ us)

joined-push_first : (sep c : ℕ) (ts : List Text) → joined sep (push_first c ts) ≡ c ∷ joined sep ts
unfolding push_first
joined-push_first sep c [] = refl
joined-push_first sep c (t ∷ []) = refl
joined-push_first sep c (t ∷ u ∷ us) = refl

All-push_first :
    (sep c : ℕ) (ts : List Text)
    → c ≢ sep
    → All (All (λ x. x ≢ sep)) ts
    → All (All (λ x. x ≢ sep)) (push_first c ts)
unfolding push_first
All-push_first sep c [] n h = ((n, tt), tt)
All-push_first sep c (t ∷ ts) n h = ((n, h.0), h.1)

joined-nil_push :
    (sep c : ℕ) (ts : List Text)
    → joined sep ([] ∷ push_first c ts) ≡ sep ∷ joined sep (push_first c ts)
unfolding push_first
joined-nil_push sep c [] = refl
joined-nil_push sep c (t ∷ ts) = refl

joined-nil : (sep : ℕ) (s : Text) → joined sep ([] ∷ split sep s) ≡ sep ∷ joined sep (split sep s)
unfolding split
joined-nil sep [] = refl
joined-nil sep (c ∷ s) =
    if_cases (λ ts. joined sep ([] ∷ ts) ≡ sep ∷ joined sep ts) (c == sep) (λ e. refl)
      (λ e. joined-nil_push sep c (split sep s))

abbrev Splits : ℕ → Text → List Text → Type 0
Splits sep s ts = (joined sep ts ≡ s) × All (All (λ x. x ≢ sep)) ts

split-Splits : (sep : ℕ) (s : Text) → Splits sep s (split sep s)
unfolding split
split-Splits sep [] = (refl, (tt, tt))
split-Splits sep (c ∷ s) =
    let (whole, parts) = split-Splits sep s in
    if_cases (Splits sep (c ∷ s)) (c == sep)
      (λ e. (joined-nil sep s ∙ rw (whole, (==_iff c sep).0 e) refl, (tt, parts)))
      (λ e. (
        joined-push_first sep c (split sep s) ∙ rw whole refl,
        All-push_first sep c (split sep s) (λ k. ground arith) parts,
      ))

-- A text that splits in three.
pub three_split :
    (sep : ℕ) (s a b c : Text)
    → split sep s ≡ a ∷ b ∷ c ∷ []
    → (s ≡ a ++ sep ∷ (b ++ sep ∷ c))
      × All (λ x. x ≢ sep) a
      × All (λ x. x ≢ sep) b
      × All (λ x. x ≢ sep) c
three_split sep s a b c h =
    let (whole, parts) = subst (Splits sep s) h (split-Splits sep s) in
    (sym whole, parts.0, parts.1.0, parts.1.1.0)

trim_space_test : trim_space (codes "  ab c \n") ≡ codes "ab c"
unfolding trim_space
trim_space_test = refl

split_test : split b'.' (codes "a.bc.") ≡ codes "a" ∷ codes "bc" ∷ [] ∷ []
unfolding split
split_test = refl
