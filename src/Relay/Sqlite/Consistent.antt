-- ===== src/Relay/Sqlite/Consistent.antt =====
-- internal/store/sqlite.go: the tables of groups, their members and their policies.
use codewire.Base.{
  ℕ, ◌≡◌, refl, true, false, ◌&&◌, List, ◌∷◌, arith, if_cases, All, All-map, All-zip,
}
use codewire.Base.Text.{Text, ◌=ᵗ◌, =ᵗ_iff, =ᵗ-refl}
use codewire.Base.Result.{Result}
use codewire.Relay.{Group, GroupMember, GroupPolicy, StoreError}
use codewire.Relay.Rows.{has_row}
use codewire.Relay.Sqlite.{
  Tables, is_group, is_of_group, is_binding, is_policy, default_policy, ensure_network,
  group_create, group_delete, group_member_add, group_member_remove, group_policy_set,
}
use codewire.Relay.Sqlite.Rules.{
  All-delete, All-deleted, has_row_cons, has_row_here, has_row-delete, All-insert_or_ignore,
  has_row-insert_or_ignore, has_row_inserted, has_row-upsert, All-upsert,
}

-- The group of a member, or of a policy, is there.
abbrev pub Grouped : List Group → GroupMember → Type 0
Grouped groups m = has_row (is_group m.network_id m.group_name) groups ≡ true

abbrev pub PolicyGrouped : List Group → GroupPolicy → Type 0
PolicyGrouped groups p = has_row (is_group p.network_id p.group_name) groups ≡ true

-- The policy of a group is there.
abbrev pub Governed : List GroupPolicy → Group → Type 0
Governed policies g = has_row (is_policy g.network_id g.name) policies ≡ true

-- Members and policies are of groups that are there, and every group has a policy.
pub record IsConsistent (t : Tables) : Type 0 where
  pub grouped : All (Grouped t.groups) t.group_members
  pub policies_grouped : All (PolicyGrouped t.groups) t.policies
  pub governed : All (Governed t.policies) t.groups

is_group_refl : (g : Group) → is_group g.network_id g.name g ≡ true
unfolding is_group
is_group_refl g = rw (=ᵗ-refl g.network_id, =ᵗ-refl g.name) refl

is_policy_refl : (p : GroupPolicy) → is_policy p.network_id p.group_name p ≡ true
unfolding is_policy
is_policy_refl p = rw (=ᵗ-refl p.network_id, =ᵗ-refl p.group_name) refl

-- A group other than the one that is deleted.
apart_groups :
    (n name n' name' : Text) (g : Group)
    → ((n' =ᵗ n) && (name' =ᵗ name)) ≡ false
    → is_group n' name' g ≡ true
    → is_group n name g ≡ false
unfolding is_group
apart_groups n name n' name' g h k = ground (
  arith,
  =ᵗ_iff g.network_id n,
  =ᵗ_iff g.name name,
  =ᵗ_iff g.network_id n',
  =ᵗ_iff g.name name',
  =ᵗ_iff n' n,
  =ᵗ_iff name' name,
)

apart_policies :
    (n name n' name' : Text) (p : GroupPolicy)
    → ((n' =ᵗ n) && (name' =ᵗ name)) ≡ false
    → is_policy n' name' p ≡ true
    → is_policy n name p ≡ false
unfolding is_policy
apart_policies n name n' name' p h k = ground (
  arith,
  =ᵗ_iff p.network_id n,
  =ᵗ_iff p.group_name name,
  =ᵗ_iff p.network_id n',
  =ᵗ_iff p.group_name name',
  =ᵗ_iff n' n,
  =ᵗ_iff name' name,
)

pub group_create-IsConsistent :
    (now : ℕ) (g : Group) (t : Tables) → IsConsistent t → IsConsistent (group_create now g t).1
unfolding group_create default_policy ensure_network
group_create-IsConsistent now g t h =
    if_cases (λ (x : Result StoreError (Unit {0}) × Tables). IsConsistent x.1)
      (has_row (is_group g.network_id g.name) t.groups) (λ c. h)
      (λ c. record {
        grouped =
            All-map (Grouped t.groups) (Grouped (g ∷ t.groups)) t.group_members
              (λ m k. has_row_cons _ g t.groups k) h.grouped;
        policies_grouped =
            All-insert_or_ignore (PolicyGrouped (g ∷ t.groups)) (is_policy g.network_id g.name)
              (default_policy g) t.policies
              (has_row_here (is_group g.network_id g.name) g t.groups (is_group_refl g))
              (All-map (PolicyGrouped t.groups) (PolicyGrouped (g ∷ t.groups)) t.policies
                (λ p k. has_row_cons _ g t.groups k) h.policies_grouped);
        governed = (
          has_row_inserted (is_policy g.network_id g.name) (default_policy g) t.policies
              (is_policy_refl (default_policy g)),
          All-map (Governed t.policies) _ t.groups
              (λ x k.
                has_row-insert_or_ignore _ (is_policy g.network_id g.name) (default_policy g)
                  t.policies k)
              h.governed,
        );
      })

pub group_delete-IsConsistent :
    (n name : Text) (t : Tables) → IsConsistent t → IsConsistent (group_delete n name t).1
unfolding group_delete is_of_group is_policy is_group
group_delete-IsConsistent n name t h =
    if_cases (λ (x : Result StoreError (Unit {0}) × Tables). IsConsistent x.1)
      (has_row (is_group n name) t.groups)
      (λ c. record {
        grouped =
            All-map (λ m. Grouped t.groups m × (is_of_group n name m ≡ false)) _ _
              (λ m (k, l).
                has_row-delete _ (is_group n name) t.groups
                  (λ g. apart_groups n name m.network_id m.group_name g l) k)
              (All-zip _ _ _
                (All-delete (Grouped t.groups) (is_of_group n name) t.group_members h.grouped)
                (All-deleted (is_of_group n name) t.group_members));
        policies_grouped =
            All-map (λ p. PolicyGrouped t.groups p × (is_policy n name p ≡ false)) _ _
              (λ p (k, l).
                has_row-delete _ (is_group n name) t.groups
                  (λ g. apart_groups n name p.network_id p.group_name g l) k)
              (All-zip _ _ _
                (All-delete (PolicyGrouped t.groups) (is_policy n name) t.policies
                  h.policies_grouped)
                (All-deleted (is_policy n name) t.policies));
        governed =
            All-map (λ g. Governed t.policies g × (is_group n name g ≡ false)) _ _
              (λ g (k, l).
                has_row-delete _ (is_policy n name) t.policies
                  (λ p. apart_policies n name g.network_id g.name p l) k)
              (All-zip _ _ _
                (All-delete (Governed t.policies) (is_group n name) t.groups h.governed)
                (All-deleted (is_group n name) t.groups));
      })
      (λ c. h)

pub group_member_add-IsConsistent :
    (m : GroupMember) (t : Tables) → IsConsistent t → IsConsistent (group_member_add m t).1
unfolding group_member_add
group_member_add-IsConsistent m t h =
    if_cases (λ (x : Result StoreError (Unit {0}) × Tables). IsConsistent x.1)
      (has_row (is_group m.network_id m.group_name) t.groups)
      (λ c. record {
        grouped = All-insert_or_ignore (Grouped t.groups) _ m t.group_members c h.grouped;
        policies_grouped = h.policies_grouped;
        governed = h.governed;
      })
      (λ c. h)

pub group_member_remove-IsConsistent :
    (n name d e : Text) (t : Tables)
    → IsConsistent t
    → IsConsistent (group_member_remove n name d e t).1
unfolding group_member_remove
group_member_remove-IsConsistent n name d e t h =
    if_cases (λ (x : Result StoreError (Unit {0}) × Tables). IsConsistent x.1)
      (has_row (is_binding n name d e) t.group_members)
      (λ c. record {
        grouped = All-delete (Grouped t.groups) (is_binding n name d e) t.group_members h.grouped;
        policies_grouped = h.policies_grouped;
        governed = h.governed;
      })
      (λ c. h)

pub group_policy_set-IsConsistent :
    (p : GroupPolicy) (t : Tables) → IsConsistent t → IsConsistent (group_policy_set p t).1
unfolding group_policy_set
group_policy_set-IsConsistent p t h =
    if_cases (λ (x : Result StoreError (Unit {0}) × Tables). IsConsistent x.1)
      (has_row (is_group p.network_id p.group_name) t.groups)
      (λ c. record {
        grouped = h.grouped;
        policies_grouped =
            All-upsert (PolicyGrouped t.groups) (is_policy p.network_id p.group_name) _ p t.policies
              (λ r k. k) c h.policies_grouped;
        governed =
            All-map (Governed t.policies) _ t.groups
              (λ g k.
                has_row-upsert _ (is_policy p.network_id p.group_name) _ p t.policies
                  (λ r. unfold is_policy in refl) k)
              h.governed;
      })
      (λ c. h)
