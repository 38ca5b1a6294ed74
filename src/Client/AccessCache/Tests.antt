-- ===== src/Client/AccessCache/Tests.antt =====
-- internal/client/access_cache.go on three grants, with a relay that has revoked the one that expires
-- last, and a disk that keeps the grants under a number.
use codewire.Base.{
  ℕ, ◌≤◌, true, false, ◌≡◌, refl, ◌⊎◌, Option, none, some, List, [], ◌∷◌, ◌==◌, if◌then◌else◌, All,
  Any,
}
use codewire.Base.Text.{Text, codes, ◌=ᵗ◌, trim_space}
use codewire.Base.Json.{Json}
use codewire.Base.Result.{ok, err}
use codewire.NetworkAuth.{resolve_network_id}
use codewire.Client.AccessCache.{
  AcceptedAccessGrant, contents, Disk, not_found, prune_accepted_grants, parse_file, load_file,
  save_file, wrote, list_accepted_access_grants, accepted_grant_matches_session,
  accepted_grant_allows_verb,
}
use codewire.Client.AccessCache.Resolve.{
  answered, Relay, Wanted, suits, drops, auth_network, resolve_accepted_access_grant,
}
use codewire.Client.AccessCache.Pick.{resolve_accepted_access_grant-latest}

abbrev grant : Text → ℕ → AcceptedAccessGrant
grant id expires_at = record {
  token = id;
  grant_id = id;
  network_id = codes "net";
  target_node = codes "node";
  session_id = some 3;
  session_name = [];
  verbs = codes "msg.read" ∷ [];
  audience_subject_kind = codes "client";
  audience_subject_id = codes "user:1";
  accepted_at = 1;
  expires_at = expires_at;
}

abbrev three : List AcceptedAccessGrant
three = grant (codes "a") 20 ∷ grant (codes "b") 90 ∷ grant (codes "c") 60 ∷ []

abbrev left : List AcceptedAccessGrant
left = grant (codes "b") 90 ∷ grant (codes "c") 60 ∷ []

-- The text of the three is 3, that of what is left when the first has expired is 2.
abbrev decode : Text → Option (List AcceptedAccessGrant)
decode [] = none
decode (n ∷ s) = some (if n == 3 then three else left)

abbrev json : Json (List AcceptedAccessGrant)
json = record { marshal = λ gs. some (2 ∷ []); unmarshal = decode }

abbrev disk : Disk Text
disk = record { read_file = contents; mkdir_all = λ s. (true, s); write_file = λ t s. (true, t) }

abbrev relay : Relay
relay = record {
  has_auth = λ network. true;
  get_access_grant = λ network id.
      answered
        (some (record { revoked_at = if id =ᵗ codes "b" then some 25 else none; expires_at = 60 }));
  looked_at = λ id. 31;
}

abbrev wanted : Wanted
wanted = record {
  network_id = codes "net";
  target_node = codes "node";
  session_id = some 3;
  session_name = [];
  verb = codes "msg.read";
}

three_listed : list_accepted_access_grants disk json 30 (3 ∷ []) ≡ (ok left, 2 ∷ [])
unfolding list_accepted_access_grants load_file parse_file prune_accepted_grants save_file wrote
three_listed = refl

resolve_accepted_access_grant-latest_example :
    All (λ g. 30 ≤ g.expires_at) left
    × (Any
          (λ g.
            (suits wanted g ≡ true)
            × (drops relay (auth_network relay (codes "net")) g ≡ false)
            × ((resolve_accepted_access_grant disk json relay wanted 30 (3 ∷ [])).0 ≡ ok g.token)
            × All
                (λ h.
                  suits wanted h ≡ true
                  → drops relay (auth_network relay (codes "net")) h ≡ false
                  → h.expires_at ≤ g.expires_at)
                left)
          left
        ⊎ (((resolve_accepted_access_grant disk json relay wanted 30 (3 ∷ [])).0 ≡ err not_found)
            × All
                (λ h.
                  suits wanted h ≡ true → drops relay (auth_network relay (codes "net")) h ≡ true)
                left))
resolve_accepted_access_grant-latest_example =
    resolve_accepted_access_grant-latest disk json relay wanted 30 (3 ∷ []) (2 ∷ []) left
      three_listed

resolve_test : (resolve_accepted_access_grant disk json relay wanted 30 (3 ∷ [])).0 ≡ ok (codes "c")
unfolding resolve_accepted_access_grant ◌=ᵗ◌ resolve_network_id trim_space
    accepted_grant_matches_session accepted_grant_allows_verb
resolve_test = refl
