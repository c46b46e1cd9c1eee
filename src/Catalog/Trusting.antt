-- ===== src/Catalog/Trusting.antt =====
-- catalog_service.py `trust`.
use owlmatic.Prelude.{
  ◌≡◌, refl, String, some, List, [], ◌∷◌, arith, eq_iff, ◌==◌, string_eq, if◌then◌else◌,
}
use owlmatic.Domain.{Profile}
use owlmatic.Catalog.Registry.{find_profile, put_profile}

pub find_profile-put :
    (name n : String) (p : Profile) (profiles : List (String × Profile))
    → find_profile n (put_profile name p profiles)
      ≡ (if name == n then some p else find_profile n profiles)
unfolding find_profile put_profile
find_profile-put name n p [] = refl
find_profile-put name n p ((k, q) ∷ profiles) =
    ground (arith, eq_iff k name, eq_iff k n, eq_iff name n, find_profile-put name n p profiles)
