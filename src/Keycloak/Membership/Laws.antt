-- ===== src/Keycloak/Membership/Laws.antt =====
-- What the Keycloak admin API promises of group membership, and which changes of it are called edits.
use holos_substrate.Base.{◌≡◌, ◌≢◌, ◌⊎◌, Bool, true, false, none, List, ok}
use holos_substrate.Base.Text.{Text}
use holos_substrate.Keycloak.Membership.{Group, MembershipClient, contains_group_id}

-- `member s u g` says whether the user `u` is in the group `g` in the state `s`. Reading changes no
-- membership. A call for one user and group changes no other membership, and that one only towards
-- what it asks for, also when it fails.
pub record IsKeycloak {S : Type 0} (kc : MembershipClient S) (member : S → Text → Text → Bool)
    : Type 0 where
  pub get_group :
      (p : Text) (s : S) (u g : Text) → member (kc.get_group_by_path p s).1 u g ≡ member s u g
  pub find :
      (e : Text) (s : S) (u g : Text) → member (kc.find_user_by_email e s).1 u g ≡ member s u g
  pub list : (v : Text) (s : S) (u g : Text) → member (kc.list_user_groups v s).1 u g ≡ member s u g
  pub listed :
      (v : Text) (s : S) (groups : List Group)
      → (kc.list_user_groups v s).0 ≡ ok groups
      → (g : Text) → contains_group_id groups g ≡ member s v g
  pub add_other :
      (v h : Text) (s : S) (u g : Text)
      → ((u ≢ v) ⊎ (g ≢ h))
      → member (kc.add_user_to_group v h s).1 u g ≡ member s u g
  pub add_keeps :
      (v h : Text) (s : S) (u g : Text)
      → member s u g ≡ true
      → member (kc.add_user_to_group v h s).1 u g ≡ true
  pub added :
      (v h : Text) (s : S)
      → (kc.add_user_to_group v h s).0 ≡ none
      → member (kc.add_user_to_group v h s).1 v h ≡ true
  pub remove_other :
      (v h : Text) (s : S) (u g : Text)
      → ((u ≢ v) ⊎ (g ≢ h))
      → member (kc.remove_user_from_group_if_member v h s).1 u g ≡ member s u g
  pub remove_keeps :
      (v h : Text) (s : S) (u g : Text)
      → member s u g ≡ false
      → member (kc.remove_user_from_group_if_member v h s).1 u g ≡ false
  pub removed :
      (v h : Text) (s : S)
      → (kc.remove_user_from_group_if_member v h s).0 ≡ none
      → member (kc.remove_user_from_group_if_member v h s).1 v h ≡ false
