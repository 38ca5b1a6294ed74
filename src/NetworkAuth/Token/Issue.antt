-- ===== src/NetworkAuth/Token/Issue.antt =====
-- internal/networkauth/runtime.go: issuing the three kinds of tokens.
use codewire.Base.{
  ℕ, ◌+◌, Bool, true, false, ◌&&◌, not, Option, none, some, List, [], ◌∷◌, ◌==◌, if◌then◌else◌,
}
use codewire.Base.Text.{Text, ◌=ᵗ◌, trim_space}
use codewire.Base.Result.{Result, err, ◌>>◌, guard}
use codewire.Base.Json.{Json}
use codewire.NetworkAuth.{
  IssuerState, Header, RuntimeClaims, SenderDelegationClaims, ObserverDelegationClaims,
  resolve_network_id, default_runtime_ttl, default_sender_ttl, default_observer_ttl,
  runtime_token_prefix, sender_token_prefix, observer_token_prefix, runtime_kind,
  sender_delegation_kind, observer_delegation_kind,
}
use codewire.NetworkAuth.Token.{Crypto, AuthError, state_nil, required, sign_claims}

unfoldable pub is_blank : Text → Bool
is_blank s = trim_space s =ᵗ []

unfoldable pub is_none : {A : Type 0} → Option A → Bool
is_none none = true
is_none (some a) = false

unfoldable pub is_empty : {A : Type 0} → List A → Bool
is_empty [] = true
is_empty (a ∷ rest) = false

unfoldable pub issued : Text → IssuerState → Text → ℕ → ℕ → ℕ → Header
issued kind s jti now ttl default_ttl = record {
  kind = kind;
  network_id = resolve_network_id s.network_id;
  issuer = s.issuer;
  key_id = s.key_id;
  issued_at = now;
  expires_at = now + (if ttl == 0 then default_ttl else ttl);
  jti = jti;
}

module _ (crypto : Crypto) where
  -- `SignRuntimeCredential`.
  unfoldable pub sign_runtime_credential :
      Json RuntimeClaims
      → Option IssuerState
      → Text
      → Text
      → ℕ
      → ℕ
      → Text
      → Result AuthError (Text × RuntimeClaims)
  unfolding is_blank issued
  sign_runtime_credential json none subject_kind subject_id now ttl jti = err state_nil
  sign_runtime_credential json (some s) subject_kind subject_id now ttl jti = do
    guard (not (is_blank subject_kind)) required
    guard (not (is_blank subject_id)) required
    sign_claims crypto json runtime_token_prefix s (record {
      header = issued runtime_kind s jti now ttl default_runtime_ttl;
      subject_kind = subject_kind;
      subject_id = subject_id;
    })

  -- `SignSenderDelegation`.
  unfoldable pub sign_sender_delegation :
      Json SenderDelegationClaims
      → Option IssuerState
      → Text
      → Option ℕ
      → Text
      → List Text
      → List Text
      → Text
      → ℕ
      → ℕ
      → Text
      → Result AuthError (Text × SenderDelegationClaims)
  unfolding is_blank issued is_none is_empty
  sign_sender_delegation json none source_node id name groups verbs audience now ttl jti =
      err state_nil
  sign_sender_delegation json (some s) source_node id name groups verbs audience now ttl jti = do
    guard (not (is_blank source_node)) required
    guard (not (is_none id && is_blank name)) required
    guard (not (is_empty verbs)) required
    sign_claims crypto json sender_token_prefix s (record {
      header = issued sender_delegation_kind s jti now ttl default_sender_ttl;
      source_node = trim_space source_node;
      from_session_id = id;
      from_session_name = trim_space name;
      source_groups = groups;
      verbs = verbs;
      audience_node = trim_space audience;
    })

  -- `SignObserverDelegation`.
  unfoldable pub sign_observer_delegation :
      Json ObserverDelegationClaims
      → Option IssuerState
      → Text
      → Option ℕ
      → Text
      → List Text
      → Text
      → Text
      → ℕ
      → ℕ
      → Text
      → Result AuthError (Text × ObserverDelegationClaims)
  unfolding is_blank issued is_none is_empty
  sign_observer_delegation json none target id name verbs audience_kind audience_id now ttl jti =
      err state_nil
  sign_observer_delegation json (some s) target id name verbs audience_kind audience_id now ttl
        jti =
      do
        guard (not (is_blank target)) required
        guard (not (is_none id && is_blank name)) required
        guard (not (is_empty verbs)) required
        guard (not (is_blank audience_kind)) required
        guard (not (is_blank audience_id)) required
        sign_claims crypto json observer_token_prefix s (record {
          header = issued observer_delegation_kind s jti now ttl default_observer_ttl;
          target_node = trim_space target;
          session_id = id;
          session_name = trim_space name;
          verbs = verbs;
          audience_subject_kind = trim_space audience_kind;
          audience_subject_id = trim_space audience_id;
        })
