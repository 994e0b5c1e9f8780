-- ===== src/Api/Laws.antt =====
-- pkg/apis/authzed/v1alpha1/types.go: what the comparisons of statuses and versions decide.
use spicedb_operator.Base.{
  List, Option, String, [], arith, eq_iff, eq_refl, eqb, none, refl, some, true, ℕ, ◌==◌, ◌↔◌, ◌∷◌,
  ◌≡◌,
}
use spicedb_operator.Api.Version.{Version, equal_texts, version_equals}
use spicedb_operator.Api.Condition.{Condition, equal_conditions}
use spicedb_operator.Api.Cluster.{ClusterStatus, equal_versions, status_equals}

pub equal_texts_iff : (xs ys : List String) → (equal_texts xs ys ≡ true) ↔ (xs ≡ ys)
unfolding equal_texts
equal_texts_iff [] [] = (λ _. refl, λ _. refl)
equal_texts_iff [] (y ∷ ys) = ground arith
equal_texts_iff (x ∷ xs) [] = ground arith
equal_texts_iff (x ∷ xs) (y ∷ ys) = ground (arith, eq_iff x y, equal_texts_iff xs ys)

equal_versions_refl : (vs : List Version) → equal_versions vs vs ≡ true
unfolding equal_versions
equal_versions_refl [] = refl
equal_versions_refl (v ∷ vs) = ground (
  arith,
  eq_refl v.name,
  eq_refl v.channel,
  equal_texts_iff v.attributes v.attributes,
  equal_versions_refl vs,
)

equal_conditions_refl : (cs : List Condition) → equal_conditions cs cs ≡ true
unfolding equal_conditions
equal_conditions_refl [] = refl
equal_conditions_refl (c ∷ cs) = ground (
  arith,
  eq_refl c.type_name,
  eq_refl c.status,
  eq_refl c.reason,
  eq_refl c.message.format,
  equal_texts_iff c.message.args c.message.args,
  equal_conditions_refl cs,
)

version_equals_refl : (v : Option Version) → version_equals v v ≡ true
unfolding version_equals
version_equals_refl none = refl
version_equals_refl (some v) =
    ground (arith, eq_refl v.name, eq_refl v.channel, equal_texts_iff v.attributes v.attributes)

eqb_refl : (n : ℕ) → eqb n n ≡ true
eqb_refl n = ground arith

-- `Equals` of a status with itself says whether its two migration hashes are one: the code compares
-- the current hash of the one with the target hash of the other. So a status whose migration is not
-- finished is never equal to itself.
pub status_equals_self :
    (s : ClusterStatus) → status_equals s s ≡ (s.current_migration_hash == s.target_migration_hash)
unfolding status_equals
status_equals_self s = ground (
  arith,
  eqb_refl s.observed_generation,
  eq_refl s.target_migration_hash,
  eq_refl s.secret_hash,
  eq_refl s.image,
  eq_refl s.migration,
  eq_refl s.phase,
  version_equals_refl s.current_version,
  equal_versions_refl s.available_versions,
  equal_conditions_refl s.conditions,
)
