-- ===== src/Terminal/Kitty.antt =====
-- internal/terminal/detach.go, the Kitty keyboard protocol: `parseKitty` and the two key tests.
use codewire.Base.{
  ℕ, ◌+◌, ◌-◌, ◌*◌, ◌^◌, Bool, false, ◌&&◌, Option, none, some, [], ◌∷◌, ltb, leb, ◌==◌,
  if◌then◌else◌, length, take, drop, ◌≡◌, refl, true, arith, ==_refl, ◌↔◌, ◌++◌, length-append,
  zero, suc, ap,
}
use codewire.Base.Text.{Text, cut}

-- The digits of `strconv.ParseUint(s, 10, 32)`; a value that leaves 32 bits is an error.
parse_digits : ℕ → Text → Option ℕ
parse_digits n [] = some n
parse_digits n (c ∷ s) =
    let m = n * 10 + (c - b'0') in
    let rest = parse_digits m s in if leb b'0' c && leb c b'9' && ltb m (2 ^ 32) then rest else none

pub parse_uint32 : Text → Option ℕ
unfolding parse_digits
parse_uint32 [] = none
parse_uint32 (c ∷ s) = parse_digits 0 (c ∷ s)

-- The modifier field: the part between the first and the second `;`, up to its first `:`.
modifier : Option Text → Option ℕ
unfolding parse_uint32 cut
modifier none = some 1
modifier (some s) = parse_uint32 (cut b':' (cut b';' s).0).0

unfoldable pub parse_kitty : Text → Option (ℕ × ℕ)
unfolding parse_uint32 modifier cut
parse_kitty params =
    let (first, rest) = cut b';' params in
    elim (parse_uint32 (cut b':' first).0) [
      | none ↦ none
      | some cp ↦ elim (modifier rest) [ none ↦ none | some m ↦ some (cp, m) ]
    ]

is_key : ℕ → ℕ → Option (ℕ × ℕ) → Bool
is_key cp m none = false
is_key cp m (some (c, n)) = (c == cp) && (n == m)

-- `isKittyCtrlB`: code point 98 with modifier 5.
unfoldable pub is_kitty_ctrl_b : Text → Bool
unfolding parse_kitty is_key
is_kitty_ctrl_b params = is_key 98 5 (parse_kitty params)

-- `isKittyD`: code point 100 with modifier 1, in a buffer `ESC [ params u`.
unfoldable pub is_kitty_d : Text → Bool
unfolding parse_kitty is_key
is_kitty_d buf =
    if ltb (length buf) 4
    then false
    else is_key 100 1 (parse_kitty (take (length buf - 3) (drop 2 buf)))

modifier-none : (rest : Option Text) (m : ℕ) → rest ≡ none → m ≡ 1 → modifier rest ≡ some m
unfolding modifier
modifier-none rest m e f = rw (e, f) refl

modifier-some :
    (rest : Option Text) (r : Text) (m : ℕ)
    → rest ≡ some r
    → parse_uint32 (cut b':' (cut b';' r).0).0 ≡ some m
    → modifier rest ≡ some m
unfolding modifier
modifier-some rest r m e f = rw e f

-- A key of the protocol, with its modifier: the code point is the number before the first `:` of the
-- first field, the modifier that of the second field, or 1 where there is none.
pub data IsKey (cp m : ℕ) (params : Text) : Type 0 where
  one_field :
      parse_uint32 (cut b':' (cut b';' params).0).0 ≡ some cp
      → (cut b';' params).1 ≡ none
      → m ≡ 1
      → IsKey cp m params
  fields :
      (rest : Text)
      → parse_uint32 (cut b':' (cut b';' params).0).0 ≡ some cp
      → (cut b';' params).1 ≡ some rest
      → parse_uint32 (cut b':' (cut b';' rest).0).0 ≡ some m
      → IsKey cp m params

parsed-IsKey :
    (cp m : ℕ) (params : Text) (first : Text) (rest : Option Text) (c n : Option ℕ)
    → cut b';' params ≡ (first, rest)
    → parse_uint32 (cut b':' first).0 ≡ c
    → modifier rest ≡ n
    → is_key cp m
        (elim c [ none ↦ none | some cp ↦ elim n [ none ↦ none | some m ↦ some (cp, m) ] ])
      ≡ true
    → IsKey cp m params
unfolding is_key modifier
parsed-IsKey cp m params first none (some c) (some n) e f g h =
    one_field (rw (e, f) (ground arith)) (rw e refl) (ground arith)
parsed-IsKey cp m params first (some r) (some c) (some n) e f g h =
    fields r (rw (e, f) (ground arith)) (rw e refl) (rw g (ground arith))
parsed-IsKey cp m params first rest none n e f g h = cc
parsed-IsKey cp m params first rest (some c) none e f g h = cc

is_key-IsKey :
    (cp m : ℕ) (params : Text) → is_key cp m (parse_kitty params) ≡ true → IsKey cp m params
unfolding parse_kitty
is_key-IsKey cp m params h = parsed-IsKey cp m params _ _ _ _ refl refl refl h

keyed :
    (cp m : ℕ) (c n : Option ℕ)
    → c ≡ some cp
    → n ≡ some m
    → is_key cp m
        (elim c [ none ↦ none | some cp ↦ elim n [ none ↦ none | some m ↦ some (cp, m) ] ])
      ≡ true
unfolding is_key
keyed cp m c n e f = rw (e, f) (simp ==_refl)

IsKey-is_key :
    (cp m : ℕ) (params : Text) → IsKey cp m params → is_key cp m (parse_kitty params) ≡ true
unfolding parse_kitty
IsKey-is_key cp m params (one_field e f g) = keyed cp m _ _ e (modifier-none _ m f g)
IsKey-is_key cp m params (fields r e f g) = keyed cp m _ _ e (modifier-some _ r m f g)

-- The two tests, in terms of the fields.
pub is_kitty_ctrl_b_iff : (params : Text) → (is_kitty_ctrl_b params ≡ true) ↔ IsKey 98 5 params
unfolding is_kitty_ctrl_b
is_kitty_ctrl_b_iff params = (is_key-IsKey 98 5 params, IsKey-is_key 98 5 params)

not-IsKey : (cp m : ℕ) → ¬ IsKey cp m []
unfolding parse_uint32 cut
not-IsKey cp m (one_field e f g) = cc
not-IsKey cp m (fields r e f g) = cc

take_front : (n : ℕ) (t u : Text) → n ≡ length t → take n (t ++ u) ≡ t
take_front zero [] u h = refl
take_front zero (c ∷ t) u h = absurd (omega arith)
take_front (suc n) [] u h = absurd (omega arith)
take_front (suc n) (c ∷ t) u h = ap (◌∷◌ c) (take_front n t u (omega arith))

pub is_kitty_d_iff :
    (inner : Text) → (is_kitty_d (0x1b ∷ b'[' ∷ (inner ++ b'u' ∷ [])) ≡ true) ↔ IsKey 100 1 inner
unfolding is_kitty_d
is_kitty_d_iff [] = (λ h. cc, λ k. absurd (not-IsKey 100 1 k))
is_kitty_d_iff (c ∷ inner) =
    let text = c ∷ (inner ++ b'u' ∷ []) in
    let whole : take (suc (suc (length text)) - 3) text ≡ c ∷ inner =
      take_front (suc (suc (length text)) - 3) (c ∷ inner) (b'u' ∷ [])
        (omega (arith, length-append inner (b'u' ∷ []))) in
    let long : ltb (suc (suc (length text))) 4 ≡ false =
      ground (arith, length-append inner (b'u' ∷ [])) in
    rw (long, whole) (is_key-IsKey 100 1 (c ∷ inner), IsKey-is_key 100 1 (c ∷ inner))
