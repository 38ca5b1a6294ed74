-- ===== src/Relay/Groups/Safety.antt =====
-- internal/relay/groups.go: the changes that the handlers make.
use codewire.Base.{ℕ, not, ◌≡◌, refl, ◌∙◌, ◌⊎◌, inl, inr, Option, none, some, List, [], ◌∷◌}
use codewire.Base.Text.{Text, codes, ◌=ᵗ◌, trim_space}
use codewire.Base.Result.{guard, or_fail}
use codewire.Relay.{Group, Store}
use codewire.Relay.Membership.{
  AuthIdentity, bad_request, unauthorized, conflict, not_found, required_network_id,
  membership_subject,
}
use codewire.Relay.Groups.{
  GroupCreateRequest, GroupMemberRequest, GroupPolicyRequest, normalize_group_messages_policy,
  normalize_group_debug_policy, validate_group_name, is_given, is_admin, created_by_of, internal,
  answer,
}
use codewire.Relay.Groups.Handlers.{
  groups_create, list_responses, groups_list, group_bindings, load_group_response, groups_get,
  groups_delete, group_members_add, group_members_remove, group_policy_set, new_group, new_member,
  new_policy,
}
use codewire.Relay.Groups.Changes.{
  ReadsKeep, Call, create, list_all, bindings, get, delete, add_member, remove_member, set_policy,
  serve, header_of, Change, created, deleted, added, removed, policy_set,
}
use codewire.Relay.Groups.Entitled.{demand_owner_cases, session_scope_cases}
use codewire.Relay.Groups.Steps.{
  internal_state, answer_state, pure_cases, state_cases, answer_cases, read_cases,
}

module _ {ℓ} {S : Type ℓ} (st : Store S) (keeps : ReadsKeep st) (identity : Option AuthIdentity)
    (now : ℕ) (s : S) where
  abbrev Safe : Text → S → Type ℓ
  Safe header t = Change st identity now header s t ⊎ (t ≡ s)

  create-Safe :
      (header : Text) (body : Option GroupCreateRequest)
      → Safe header (groups_create st identity now body s).1
  unfolding groups_create
  create-Safe header body =
      let P = Safe header in
      pure_cases P (guard (is_given identity) unauthorized) _ s (inr refl) (λ u.
        pure_cases P (or_fail body (bad_request (codes "bad request"))) _ s (inr refl) (λ req.
          pure_cases P (required_network_id req.network_id) _ s (inr refl) (λ n.
            pure_cases P (validate_group_name req.name) _ s (inr refl) (λ v.
              demand_owner_cases st keeps identity now (λ y. P y.1) n s _ (λ e. inr refl)
                (λ own.
                  pure_cases P (created_by_of (is_admin identity) (membership_subject identity)) _ s
                    (inr refl)
                    (λ who.
                      let g = new_group n req.name who now in
                      let done = inl (created g (unfold new_group in own) refl) in
                      let t = (st.group_create g s).1 in
                      answer_cases P (codes "group already exists") conflict (st.group_create g) s _
                        done
                        (λ w.
                          read_cases P (st.group_policy_get n g.name) t _
                            (keeps.group_policy_get n g.name t) done (λ p. done))))))))

  list_responses_safe : (n : Text) (gs : List Group) → (list_responses st identity now n gs s).1 ≡ s
  unfolding list_responses
  list_responses_safe n [] = refl
  list_responses_safe n (g ∷ gs) =
      read_cases (λ t. t ≡ s) (st.group_policy_get n g.name) s _ (keeps.group_policy_get n g.name s)
        refl
        (λ p.
          state_cases (λ t. t ≡ s) (list_responses st identity now n gs s) s _
            (list_responses_safe n gs) refl (λ rest. refl))

  list_safe : (raw : Text) → (groups_list st identity now raw s).1 ≡ s
  unfolding groups_list
  list_safe raw =
      let P : S → Type ℓ = λ t. t ≡ s in
      pure_cases P (guard (is_given identity) unauthorized) _ s refl (λ u.
        pure_cases P (required_network_id raw) _ s refl (λ n.
          demand_owner_cases st keeps identity now (λ y. P y.1) n s _ (λ e. refl)
            (λ own.
              read_cases P (st.group_list n) s _ (keeps.group_list n s) refl
                (λ gs. list_responses_safe n gs))))

  bindings_safe : (header raw d e : Text) → (group_bindings st identity now header raw d e s).1 ≡ s
  unfolding group_bindings internal
  bindings_safe header raw d e =
      let P : S → Type ℓ = λ t. t ≡ s in
      pure_cases P (guard (not (trim_space e =ᵗ [])) (bad_request (codes "session_name required")))
        _ s refl
        (λ u.
          session_scope_cases st keeps identity now (λ y. P y.1) header raw (trim_space d) s _
            (λ f. refl)
            (λ n g may.
              internal_state (st.group_bindings_for_session n g (trim_space e) s)
              ∙ keeps.group_bindings_for_session n g (trim_space e) s))

  load_safe : (n g : Text) (o : Option Group) → (load_group_response st identity now n g o s).1 ≡ s
  unfolding load_group_response
  load_safe n g none = refl
  load_safe n g (some x) =
      read_cases (λ t. t ≡ s) (st.group_member_list n g) s _ (keeps.group_member_list n g s) refl
        (λ ms.
          read_cases (λ t. t ≡ s) (st.group_policy_get n g) s _ (keeps.group_policy_get n g s) refl
            (λ p. refl))

  get_safe : (raw g : Text) → (groups_get st identity now raw g s).1 ≡ s
  unfolding groups_get
  get_safe raw g =
      let P : S → Type ℓ = λ t. t ≡ s in
      pure_cases P (guard (is_given identity) unauthorized) _ s refl (λ u.
        pure_cases P (required_network_id raw) _ s refl (λ n.
          pure_cases P (validate_group_name (trim_space g)) _ s refl (λ v.
            demand_owner_cases st keeps identity now (λ y. P y.1) n s _ (λ e. refl)
              (λ own.
                read_cases P (st.group_get n (trim_space g)) s _
                  (keeps.group_get n (trim_space g) s) refl (λ o. load_safe n (trim_space g) o)))))

  delete-Safe : (header raw g : Text) → Safe header (groups_delete st identity now raw g s).1
  unfolding groups_delete answer
  delete-Safe header raw g =
      let P = Safe header in
      pure_cases P (guard (is_given identity) unauthorized) _ s (inr refl) (λ u.
        pure_cases P (required_network_id raw) _ s (inr refl) (λ n.
          pure_cases P (validate_group_name (trim_space g)) _ s (inr refl) (λ v.
            demand_owner_cases st keeps identity now (λ y. P y.1) n s _ (λ e. inr refl)
              (λ own. inl (
                deleted n (trim_space g) own (
                  answer_state (codes "group not found") not_found
                    (st.group_delete n (trim_space g) s)))))))

  add-Safe :
      (header g : Text) (body : Option GroupMemberRequest)
      → Safe header (group_members_add st identity now header g body s).1
  unfolding group_members_add
  add-Safe header g body =
      let P = Safe header in
      pure_cases P (validate_group_name (trim_space g)) _ s (inr refl) (λ u.
        pure_cases P (or_fail body (bad_request (codes "bad request"))) _ s (inr refl) (λ req.
          pure_cases P
            (guard (not (trim_space req.session_name =ᵗ []))
              (bad_request (codes "session_name required")))
            _ s (inr refl)
            (λ v.
              session_scope_cases st keeps identity now (λ y. P y.1) header req.network_id
                (trim_space req.node_name) s _ (λ f. inr refl)
                (λ n d may.
                  let m = new_member n (trim_space g) d (trim_space req.session_name) now in
                  let done = inl (added m (unfold new_member in may) refl) in
                  answer_cases P (codes "group not found") not_found (st.group_member_add m) s _
                    done (λ w. done)))))

  remove-Safe :
      (header g raw d e : Text)
      → Safe header (group_members_remove st identity now header g raw d e s).1
  unfolding group_members_remove answer
  remove-Safe header g raw d e =
      let P = Safe header in
      pure_cases P (validate_group_name (trim_space g)) _ s (inr refl) (λ u.
        pure_cases P
          (guard (not (trim_space e =ᵗ [])) (bad_request (codes "session_name required"))) _ s
          (inr refl)
          (λ v.
            session_scope_cases st keeps identity now (λ y. P y.1) header raw (trim_space d) s _
              (λ f. inr refl)
              (λ n node may. inl (
                removed n (trim_space g) node (trim_space e) may (
                  answer_state (codes "group member not found") not_found
                    (st.group_member_remove n (trim_space g) node (trim_space e) s))))))

  policy-Safe :
      (header g : Text) (body : Option GroupPolicyRequest)
      → Safe header (group_policy_set st identity now g body s).1
  unfolding group_policy_set
  policy-Safe header g body =
      let P = Safe header in
      pure_cases P (guard (is_given identity) unauthorized) _ s (inr refl) (λ u.
        pure_cases P (validate_group_name (trim_space g)) _ s (inr refl) (λ v.
          pure_cases P (or_fail body (bad_request (codes "bad request"))) _ s (inr refl) (λ req.
            pure_cases P (required_network_id req.network_id) _ s (inr refl) (λ n.
              pure_cases P (normalize_group_messages_policy req.messages_policy) _ s (inr refl)
                (λ a.
                  pure_cases P (normalize_group_debug_policy req.debug_policy) _ s (inr refl) (λ b.
                    demand_owner_cases st keeps identity now (λ y. P y.1) n s _ (λ e. inr refl)
                      (λ own.
                        let p = new_policy n (trim_space g) a b now in
                        let done = inl (policy_set p (unfold new_policy in own) refl) in
                        answer_cases P (codes "group not found") not_found (st.group_policy_set p) s
                          _ done (λ w. done))))))))

  -- On every storage whose reads leave it as it is, a request to a handler of groups leaves the
  -- storage as it is or is one change by someone who may make it: creating and deleting a group
  -- and setting its policy by an owner of that network, adding and removing a session of a node
  -- by an owner of the network or by that node itself.
  pub serve-Change :
      (c : Call)
      → Change st identity now (header_of c) s (serve st identity now c s)
        ⊎ (serve st identity now c s ≡ s)
  unfolding serve header_of
  serve-Change (create body) = create-Safe [] body
  serve-Change (list_all n) = inr (list_safe n)
  serve-Change (bindings h n d e) = inr (bindings_safe h n d e)
  serve-Change (get n g) = inr (get_safe n g)
  serve-Change (delete n g) = delete-Safe [] n g
  serve-Change (add_member h g body) = add-Safe h g body
  serve-Change (remove_member h g n d e) = remove-Safe h g n d e
  serve-Change (set_policy g body) = policy-Safe [] g body
