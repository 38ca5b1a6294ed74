-- ===== src/NetworkAuth/Token/Toy.antt =====
-- Tokens of a toy issuer: base64 shifts every code, a signature is the key before the payload, and
-- claims are packed field by field.
use codewire.Base.{
  ℕ, zero, suc, ◌+◌, ◌-◌, ◌≡◌, refl, ap, ◌∙◌, Option, none, some, List, [], ◌∷◌, ◌++◌, arith,
}
use codewire.Base.Text.{Text, codes, ◌=ᵗ◌, =ᵗ-refl}
use codewire.Base.Json.{Json}
use codewire.NetworkAuth.{
  IssuerState, RuntimeClaims, SenderDelegationClaims, ObserverDelegationClaims,
}
use codewire.NetworkAuth.Token.{Crypto}
use codewire.NetworkAuth.Token.RoundTrip.{IsSound, IsJson}
use codewire.NetworkAuth.Token.Parts.{HasNoDot}

-- Fields, each ended by a zero.
abbrev pub push : ℕ → List Text → List Text
push c [] = (c ∷ []) ∷ []
push c (t ∷ ts) = (c ∷ t) ∷ ts

abbrev pub pack_field : Text → Text → Text
pack_field [] rest = 0 ∷ rest
pack_field (c ∷ t) rest = suc c ∷ pack_field t rest

abbrev pub pack : List Text → Text
pack [] = []
pack (t ∷ ts) = pack_field t (pack ts)

abbrev pub unpack : Text → List Text
unpack [] = []
unpack (zero ∷ r) = [] ∷ unpack r
unpack (suc c ∷ r) = push c (unpack r)

unpack-pack_field : (t r : Text) → unpack (pack_field t r) ≡ t ∷ unpack r
unpack-pack_field [] r = refl
unpack-pack_field (c ∷ t) r = rw (unpack-pack_field t r)

unpack-pack : (ts : List Text) → unpack (pack ts) ≡ ts
unpack-pack [] = refl
unpack-pack (t ∷ ts) = unpack-pack_field t (pack ts) ∙ ap (◌∷◌ t) (unpack-pack ts)

abbrev pub number : Option ℕ → Text
number none = []
number (some n) = n ∷ []

abbrev pub to_number : Text → Option ℕ
to_number [] = none
to_number (n ∷ t) = some n

to_number-number : (o : Option ℕ) → to_number (number o) ≡ o
to_number-number none = refl
to_number-number (some n) = refl

abbrev pub times : ℕ → ℕ → Text
times a b = a ∷ b ∷ []

abbrev pub runtime_fields : RuntimeClaims → List Text
runtime_fields c =
    c.kind
    ∷ c.network_id
    ∷ c.issuer
    ∷ c.key_id
    ∷ times c.issued_at c.expires_at
    ∷ c.jti
    ∷ c.subject_kind
    ∷ c.subject_id
    ∷ []

abbrev pub to_runtime : List Text → Option RuntimeClaims
to_runtime (k ∷ n ∷ i ∷ d ∷ (a ∷ b ∷ []) ∷ j ∷ sk ∷ si ∷ []) = some (record {
  header = record {
    kind = k;
    network_id = n;
    issuer = i;
    key_id = d;
    issued_at = a;
    expires_at = b;
    jti = j;
  };
  subject_kind = sk;
  subject_id = si;
})
to_runtime _ = none

abbrev pub runtime_json : Json RuntimeClaims
runtime_json = record {
  marshal = λ c. some (pack (runtime_fields c));
  unmarshal = λ t. to_runtime (unpack t);
}

pub runtime_json-IsJson : IsJson runtime_json
runtime_json-IsJson c p h =
    let e : pack (runtime_fields c) ≡ p = cc in
    rw (← e) (ap to_runtime (unpack-pack (runtime_fields c)))

abbrev pub sender_fields : SenderDelegationClaims → List Text
sender_fields c =
    c.kind
    ∷ c.network_id
    ∷ c.issuer
    ∷ c.key_id
    ∷ times c.issued_at c.expires_at
    ∷ c.jti
    ∷ c.source_node
    ∷ number c.from_session_id
    ∷ c.from_session_name
    ∷ pack c.source_groups
    ∷ pack c.verbs
    ∷ c.audience_node
    ∷ []

abbrev pub to_sender : List Text → Option SenderDelegationClaims
to_sender (k ∷ n ∷ i ∷ d ∷ (a ∷ b ∷ []) ∷ j ∷ sn ∷ fi ∷ fn ∷ g ∷ v ∷ an ∷ []) = some (record {
  header = record {
    kind = k;
    network_id = n;
    issuer = i;
    key_id = d;
    issued_at = a;
    expires_at = b;
    jti = j;
  };
  source_node = sn;
  from_session_id = to_number fi;
  from_session_name = fn;
  source_groups = unpack g;
  verbs = unpack v;
  audience_node = an;
})
to_sender _ = none

abbrev pub sender_json : Json SenderDelegationClaims
sender_json = record {
  marshal = λ c. some (pack (sender_fields c));
  unmarshal = λ t. to_sender (unpack t);
}

pub sender_json-IsJson : IsJson sender_json
sender_json-IsJson c p h =
    let e : pack (sender_fields c) ≡ p = cc in
    rw (← e) (
      ap to_sender (unpack-pack (sender_fields c))
      ∙ rw (to_number-number c.from_session_id, unpack-pack c.source_groups, unpack-pack c.verbs))

abbrev pub observer_fields : ObserverDelegationClaims → List Text
observer_fields c =
    c.kind
    ∷ c.network_id
    ∷ c.issuer
    ∷ c.key_id
    ∷ times c.issued_at c.expires_at
    ∷ c.jti
    ∷ c.target_node
    ∷ number c.session_id
    ∷ c.session_name
    ∷ pack c.verbs
    ∷ c.audience_subject_kind
    ∷ c.audience_subject_id
    ∷ []

abbrev pub to_observer : List Text → Option ObserverDelegationClaims
to_observer (k ∷ n ∷ i ∷ d ∷ (a ∷ b ∷ []) ∷ j ∷ tn ∷ si ∷ sn ∷ v ∷ ak ∷ ai ∷ []) = some (record {
  header = record {
    kind = k;
    network_id = n;
    issuer = i;
    key_id = d;
    issued_at = a;
    expires_at = b;
    jti = j;
  };
  target_node = tn;
  session_id = to_number si;
  session_name = sn;
  verbs = unpack v;
  audience_subject_kind = ak;
  audience_subject_id = ai;
})
to_observer _ = none

abbrev pub observer_json : Json ObserverDelegationClaims
observer_json = record {
  marshal = λ c. some (pack (observer_fields c));
  unmarshal = λ t. to_observer (unpack t);
}

pub observer_json-IsJson : IsJson observer_json
observer_json-IsJson c p h =
    let e : pack (observer_fields c) ≡ p = cc in
    rw (← e) (
      ap to_observer (unpack-pack (observer_fields c))
      ∙ rw (to_number-number c.session_id, unpack-pack c.verbs))

abbrev pub shift : Text → Text
shift [] = []
shift (c ∷ t) = (c + 100) ∷ shift t

abbrev pub unshift : Text → Text
unshift [] = []
unshift (c ∷ t) = (c - 100) ∷ unshift t

unshift-shift : (t : Text) → unshift (shift t) ≡ t
unshift-shift [] = refl
unshift-shift (c ∷ t) = ground (arith, unshift-shift t)

shift-HasNoDot : (t : Text) → HasNoDot (shift t)
shift-HasNoDot [] = tt
shift-HasNoDot (c ∷ t) = (omega arith, shift-HasNoDot t)

abbrev pub toy : Crypto
toy = record {
  encode_base64 = shift;
  decode_base64 = λ t. some (unshift t);
  sign = λ private payload. private ++ payload;
  verify = λ public payload signature. signature =ᵗ (public ++ payload);
}

abbrev pub issuer : IssuerState
issuer = record {
  network_id = codes " net ";
  issuer = codes "relay:net";
  key_id = codes "kid_1";
  private_key = shift (codes "k");
  public_key = shift (codes "k");
  created_at = 0;
  version = 1;
}

pub issuer-IsSound : IsSound toy issuer
issuer-IsSound = record {
  decode_encode = λ t. ap some (unshift-shift t);
  no_dot = shift-HasNoDot;
  public = codes "k";
  public_decodes = refl;
  public_non_empty = λ e. cc;
  verify_sign = λ private payload e.
      let f : codes "k" ≡ private = cc in rw (← f) (=ᵗ-refl (codes "k" ++ payload));
}
