-- ===== src/Relay/Grants/Issuer.antt =====
-- internal/relay/network_auth.go: the issuer state of a network that `loadOrCreateIssuerState` gives.
use codewire.Base.{not, ◌≡◌, ◌≢◌, refl, sym, ◌∙◌, ap, Option, some, List, [], if_cases, ℕ}
use codewire.Base.Text.{Text, codes, ◌=ᵗ◌, trim_space, trim_space-trim_space, ne_of_=ᵗ, eq_of_=ᵗ}
use codewire.Base.Result.{Result, ok, guard, or_fail, ok_injective, or_fail-eq-ok}
use codewire.Base.Action.{Action, follow_cases}
use codewire.NetworkAuth.{IssuerState, resolve_network_id}
use codewire.Relay.{StoreError, GroupBinding}
use codewire.Relay.Membership.{AuthIdentity, HttpError, internal_error}
use codewire.Relay.Groups.{internal, internal_result}
use codewire.Relay.Groups.Steps.{internal_state}
use codewire.Relay.Grants.{
  GrantStore, Libraries, NewKeys, new_issuer_state, network_auth_namespace, network_auth_issuer_key,
}
use codewire.Relay.Grants.Handlers.{create_issuer_state, load_or_create_issuer_state}
use codewire.Relay.Grants.Allowed.{internal_result-ok}

module _ {ℓ} {S : Type ℓ} (st : GrantStore S) (lib : Libraries) where
  -- What the storage keeps as the issuer of a network.
  abbrev kept_issuer : Text → S → Result StoreError Text
  kept_issuer network_id s =
      (st.kv_get (trim_space network_id) (codes "relay.networkauth") (codes "issuer.current") s).0

  -- The issuer that the storage has for a network, or where it has none, a new one with the new keys.
  pub data IssuerOf (keys : NewKeys) (network_id : Text) (s : S) (state : IssuerState)
      : Type 0 where
    held :
        (raw : Text)
        → kept_issuer network_id s ≡ ok raw
        → raw ≢ []
        → lib.issuer_json.unmarshal raw ≡ some state
        → IssuerOf keys network_id s state
    made :
        kept_issuer network_id s ≡ ok []
        → state.network_id ≡ trim_space network_id
        → state.key_id ≡ keys.key_id
        → state.private_key ≡ keys.private_key
        → state.public_key ≡ keys.public_key
        → IssuerOf keys network_id s state

-- The keys and values and the networks are apart from the groups.
pub record KeepsGroups {ℓ} {S : Type ℓ} (st : GrantStore S) : Type ℓ where
  pub kv_get :
      (a b c n d e : Text) (s : S)
      → (st.store.group_bindings_for_session n d e (st.kv_get a b c s).1).0
        ≡ (st.store.group_bindings_for_session n d e s).0
  pub kv_set :
      (a b c v n d e : Text) (s : S)
      → (st.store.group_bindings_for_session n d e (st.kv_set a b c v s).1).0
        ≡ (st.store.group_bindings_for_session n d e s).0
  pub network_ensure :
      (a n d e : Text) (s : S)
      → (st.store.group_bindings_for_session n d e (st.network_ensure a s).1).0
        ≡ (st.store.group_bindings_for_session n d e s).0

module _ {ℓ} {S : Type ℓ} (st : GrantStore S) (lib : Libraries) (identity : Option AuthIdentity)
    (now : ℕ) where
  created :
      (network_id : Text) (keys : NewKeys) (t : S) (state : IssuerState)
      → (create_issuer_state st lib identity now network_id keys t).0 ≡ ok state
      → new_issuer_state network_id keys now ≡ state
  unfolding create_issuer_state
  created network_id keys t state =
      let Q : Result HttpError IssuerState × S → Type 0 =
        λ y. y.0 ≡ ok state → new_issuer_state network_id keys now ≡ state in
      follow_cases Q (internal (st.network_ensure network_id) t) _ (λ e h k. cc)
        (λ u h.
          follow_cases Q
            (
              or_fail (lib.issuer_json.marshal (new_issuer_state network_id keys now))
                  internal_error,
              _,
            )
            _ (λ e i k. cc)
            (λ encoded i.
              follow_cases Q
                (internal
                  (st.kv_set network_id network_auth_namespace network_auth_issuer_key encoded) _)
                _ (λ e j k. cc) (λ v j k. ok_injective _ _ k)))

  pub load-IssuerOf :
      (network_id : Text) (keys : NewKeys) (s : S) (state : IssuerState)
      → (load_or_create_issuer_state st lib identity now network_id keys s).0 ≡ ok state
      → IssuerOf st lib keys network_id s state
  unfolding load_or_create_issuer_state resolve_network_id internal new_issuer_state
  load-IssuerOf network_id keys s state =
      let n = trim_space network_id in
      let Q : Result HttpError IssuerState × S → Type 0 =
        λ y. y.0 ≡ ok state → IssuerOf st lib keys network_id s state in
      let x = st.kv_get n network_auth_namespace network_auth_issuer_key s in
      follow_cases Q (guard (not (n =ᵗ [])) internal_error, s) _ (λ e h k. cc)
        (λ u h.
          follow_cases Q (internal_result x) _ (λ e i k. cc)
            (λ raw i.
              if_cases (λ (m : Action S HttpError IssuerState). Q (m (internal_result x).1))
                (raw =ᵗ [])
                (λ c k.
                  let same = created n keys (internal_result x).1 state k in
                  made (internal_result-ok x raw i ∙ ap ok (eq_of_=ᵗ raw [] c))
                    (sym (ap (λ (z : IssuerState). z.network_id) same)
                      ∙ trim_space-trim_space network_id)
                    (sym (ap (λ (z : IssuerState). z.key_id) same))
                    (sym (ap (λ (z : IssuerState). z.private_key) same))
                    (sym (ap (λ (z : IssuerState). z.public_key) same)))
                (λ c k.
                  held raw (internal_result-ok x raw i) (ne_of_=ᵗ raw [] c)
                    (or_fail-eq-ok _ internal_error state k))))

  -- The load of an issuer leaves the groups of a session as they are.
  pub load-groups :
      (keeps : KeepsGroups st) (network_id : Text) (keys : NewKeys) (n d e : Text) (s : S)
      → (st.store.group_bindings_for_session n d e
          (load_or_create_issuer_state st lib identity now network_id keys s).1).0
        ≡ (st.store.group_bindings_for_session n d e s).0
  unfolding load_or_create_issuer_state create_issuer_state internal
  load-groups keeps network_id keys n d e s =
      let groups : S → Result StoreError (List GroupBinding) =
        λ t. (st.store.group_bindings_for_session n d e t).0 in
      let Q : Result HttpError IssuerState × S → Type 0 = λ y. groups y.1 ≡ groups s in
      let net = resolve_network_id network_id in
      let get = st.kv_get net network_auth_namespace network_auth_issuer_key s in
      let got : groups (internal_result get).1 ≡ groups s =
        ap groups (internal_state get)
        ∙ keeps.kv_get net network_auth_namespace network_auth_issuer_key n d e s in
      follow_cases Q (guard (not (net =ᵗ [])) internal_error, s) _ (λ f h. refl)
        (λ u h.
          follow_cases Q (internal_result get) _ (λ f i. got)
            (λ raw i.
              if_cases (λ (m : Action S HttpError IssuerState). Q (m (internal_result get).1))
                (raw =ᵗ [])
                (λ c.
                  let ensure = st.network_ensure net (internal_result get).1 in
                  let ensured : groups (internal_result ensure).1 ≡ groups s =
                    ap groups (internal_state ensure)
                    ∙ keeps.network_ensure net n d e (internal_result get).1
                    ∙ got in
                  follow_cases Q (internal_result ensure) _ (λ f j. ensured)
                    (λ v j.
                      follow_cases Q
                        (
                          or_fail (lib.issuer_json.marshal (new_issuer_state net keys now))
                              internal_error,
                          (internal_result ensure).1,
                        )
                        _ (λ f k. ensured)
                        (λ encoded k.
                          let set =
                            st.kv_set net network_auth_namespace network_auth_issuer_key encoded
                              (internal_result ensure).1 in
                          let stored : groups (internal_result set).1 ≡ groups s =
                            ap groups (internal_state set)
                            ∙ keeps.kv_set net network_auth_namespace network_auth_issuer_key
                                encoded n d e (internal_result ensure).1
                            ∙ ensured in
                          follow_cases Q (internal_result set) _ (λ f l. stored) (λ w l. stored))))
                (λ c. got)))
