-- ===== src/NetworkAuth.antt =====
-- internal/networkauth: the signed credentials of one network, and their verification.
-- Times and durations are nanoseconds; a duration that is not positive is 0.
pub mod BundleCache
pub mod Replay
pub mod Token
use codewire.Base.{ℕ, ◌+◌, ◌*◌, ◌^◌, ◌≡◌, refl, Option, List}
use codewire.Base.Text.{Text, codes, trim_space}

abbrev pub second : ℕ
second = 10 ^ 9

abbrev pub minute : ℕ
minute = 60 * second

abbrev pub max_clock_skew : ℕ
max_clock_skew = 30 * second

abbrev pub default_bundle_validity : ℕ
default_bundle_validity = 15 * minute

abbrev pub default_runtime_ttl : ℕ
default_runtime_ttl = 5 * minute

abbrev pub default_sender_ttl : ℕ
default_sender_ttl = 2 * minute

abbrev pub default_observer_ttl : ℕ
default_observer_ttl = 10 * minute

abbrev pub runtime_token_prefix : Text
runtime_token_prefix = codes "cwrt1"

abbrev pub sender_token_prefix : Text
sender_token_prefix = codes "cwsd1"

abbrev pub observer_token_prefix : Text
observer_token_prefix = codes "cwog1"

abbrev pub algorithm_ed25519 : Text
algorithm_ed25519 = codes "Ed25519"

abbrev pub runtime_kind : Text
runtime_kind = codes "runtime"

abbrev pub sender_delegation_kind : Text
sender_delegation_kind = codes "sender"

abbrev pub observer_delegation_kind : Text
observer_delegation_kind = codes "observer"

pub record VerifierKey : Type 0 where
  pub key_id : Text
  pub algorithm : Text
  pub public_key : Text

pub record VerifierBundle : Type 0 where
  pub network_id : Text
  pub issuer : Text
  pub keys : List VerifierKey
  pub version : ℕ
  pub expires_at : ℕ

pub record IssuerState : Type 0 where
  pub network_id : Text
  pub issuer : Text
  pub key_id : Text
  pub private_key : Text
  pub public_key : Text
  pub created_at : ℕ
  pub version : ℕ

-- The fields that the three kinds of claims have in common.
pub record Header : Type 0 where
  pub kind : Text
  pub network_id : Text
  pub issuer : Text
  pub key_id : Text
  pub issued_at : ℕ
  pub expires_at : ℕ
  pub jti : Text

pub record RuntimeClaims : Type 0 where
  pub header : Header
  pub open header use *
  pub subject_kind : Text
  pub subject_id : Text

pub record SenderDelegationClaims : Type 0 where
  pub header : Header
  pub open header use *
  pub source_node : Text
  pub from_session_id : Option ℕ
  pub from_session_name : Text
  pub source_groups : List Text
  pub verbs : List Text
  pub audience_node : Text

pub record ObserverDelegationClaims : Type 0 where
  pub header : Header
  pub open header use *
  pub target_node : Text
  pub session_id : Option ℕ
  pub session_name : Text
  pub verbs : List Text
  pub audience_subject_kind : Text
  pub audience_subject_id : Text

-- `ResolveNetworkID`.
unfoldable pub resolve_network_id : Text → Text
resolve_network_id raw = trim_space raw
