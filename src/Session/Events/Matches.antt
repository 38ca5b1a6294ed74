-- ===== src/Session/Events/Matches.antt =====
-- internal/session/events.go: which events a subscription takes.
use codewire.Base.{
  ℕ, Bool, true, false, ◌&&◌, ◌||◌, not, ◌≡◌, ◌↔◌, ◌⊎◌, inl, inr, refl, Option, none, some, List,
  [], ◌∷◌, arith, ==_iff, Any, or_iff,
}
use codewire.Base.Text.{Text, ◌=ᵗ◌, =ᵗ_iff}
use codewire.Session.Events.{Subscription, has_text, has_common, is_empty, is_other, matches}

has_text_iff : (t : Text) (l : List Text) → (has_text t l ≡ true) ↔ Any (λ u. t ≡ u) l
unfolding has_text
has_text_iff t [] = (λ h. absurd cc, λ h. absurd h)
has_text_iff t (u ∷ rest) = or_iff (t =ᵗ u) (has_text t rest) (=ᵗ_iff t u) (has_text_iff t rest)

has_common_iff :
    (l tags : List Text) → (has_common l tags ≡ true) ↔ Any (λ t. Any (λ u. t ≡ u) tags) l
unfolding has_common
has_common_iff [] tags = (λ h. absurd cc, λ h. absurd h)
has_common_iff (t ∷ rest) tags =
    or_iff (has_text t tags) (has_common rest tags) (has_text_iff t tags) (has_common_iff rest tags)

is_empty_iff : (l : List Text) → (is_empty l ≡ true) ↔ (l ≡ [])
unfolding is_empty
is_empty_iff [] = (λ h. refl, λ h. refl)
is_empty_iff (t ∷ rest) = (λ h. absurd cc, λ h. absurd cc)

same_session_iff :
    (o : Option ℕ) (id : ℕ) → (not (is_other o id) ≡ true) ↔ ((o ≡ none) ⊎ (o ≡ some id))
unfolding is_other
same_session_iff none id = (λ h. inl refl, λ h. refl)
same_session_iff (some j) id =
    (λ h. inr (ground (arith, ==_iff j id)), λ h. ground (arith, ==_iff j id))

-- The three filters of `matches`, in one test.
matches_all :
    (s : Subscription) (id : ℕ) (tags : List Text) (type : Text)
    → matches s id tags type ≡ (
        not (is_other s.session_id id)
        && ((is_empty s.tags || has_common s.tags tags)
            && (is_empty s.event_types || has_text type s.event_types)))
unfolding matches
matches_all s id tags type = ground arith

and_iff :
    {P Q : Type 0} (x y : Bool) → (x ≡ true) ↔ P → (y ≡ true) ↔ Q → ((x && y) ≡ true) ↔ (P × Q)
and_iff true y p q = (λ h. (p.0 refl, q.0 h), λ h. q.1 h.1)
and_iff false y p q = (λ h. absurd cc, λ h. absurd (let e = p.1 h.0 in cc))

-- A subscription takes an event exactly if it is of its session or names none, has one of its
-- tags or names none, and is of one of its types or names none.
pub matches_iff :
    (s : Subscription) (id : ℕ) (tags : List Text) (type : Text)
    → (matches s id tags type ≡ true) ↔ (
        ((s.session_id ≡ none) ⊎ (s.session_id ≡ some id))
        × (((s.tags ≡ []) ⊎ Any (λ t. Any (λ u. t ≡ u) tags) s.tags)
            × ((s.event_types ≡ []) ⊎ Any (λ u. type ≡ u) s.event_types)))
matches_iff s id tags type = rw (matches_all s id tags type) (
    and_iff _ _ (same_session_iff s.session_id id) (
      and_iff _ _ (or_iff _ _ (is_empty_iff s.tags) (has_common_iff s.tags tags))
        (or_iff _ _ (is_empty_iff s.event_types) (has_text_iff type s.event_types))))
