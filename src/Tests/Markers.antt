-- ===== src/Tests/Markers.antt =====
-- The theorem about the owner marker of internal/controller/quay/repository_controller.go at a
-- description that looks like the marker of another resource.
use holos_substrate.Base.{◌≡◌, refl, false, some, none}
use holos_substrate.Base.Text.{text, contains}
use holos_substrate.Quay.Marker.{
  Repository, RepositoryOwnership, marked_description, description_ownership, description_owner,
  description_without_owner,
}
use holos_substrate.Quay.Marker.Described.{marked_description-recovered}

abbrev mimic : Repository
mimic = record { uid = text "4f1c"; description = text "holos-owner: created:77aa" }

abbrev mimic_owner : RepositoryOwnership
mimic_owner = record { token = text "4f1c"; created = false }

test_unmarked : description_owner mimic.description ≡ text "77aa"
unfolding description_owner
test_unmarked = refl

test_garbled : description_ownership (text "holos-owner: renamed:77aa") ≡ none
unfolding description_ownership
test_garbled = refl

marked_description-recovered_example :
    (description_ownership (marked_description mimic false) ≡ some mimic_owner)
    × (description_owner (marked_description mimic false) ≡ mimic.uid)
    × (description_without_owner (marked_description mimic false) ≡ mimic.description)
unfolding contains
marked_description-recovered_example = marked_description-recovered mimic false refl refl
