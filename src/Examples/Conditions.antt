-- ===== src/Examples/Conditions.antt =====
-- A list of conditions edited by type: what k8s.io/apimachinery documents can hold.
use spicedb_operator.Base.{
  List, Option, String, [], arith, eq_iff, eq_refl, if◌then◌else◌, none, refl, some, test_of_ne,
  ◌==◌, ◌∷◌, ◌≡◌, ◌≢◌,
}
use spicedb_operator.Api.Condition.{Condition, ConditionOps}
use spicedb_operator.Controller.Types.{Env}

unfoldable pub find_in : List Condition → String → Option Condition
find_in [] t = none
find_in (c ∷ cs) t = if c.type_name == t then some c else find_in cs t

unfoldable pub set_in : List Condition → Condition → List Condition
set_in [] new = new ∷ []
set_in (c ∷ cs) new = if c.type_name == new.type_name then new ∷ cs else c ∷ set_in cs new

unfoldable pub remove_from : List Condition → String → List Condition
remove_from [] t = []
remove_from (c ∷ cs) t = let rest = remove_from cs t in if c.type_name == t then rest else c ∷ rest

pub find-set : (cs : List Condition) (c : Condition) → find_in (set_in cs c) c.type_name ≡ some c
unfolding find_in set_in
find-set [] c = ground (arith, eq_refl c.type_name)
find-set (d ∷ cs) c = ground (arith, eq_refl c.type_name, find-set cs c)

pub find-set_other :
    (cs : List Condition) (c : Condition) (t : String)
    → c.type_name ≢ t
    → find_in (set_in cs c) t ≡ find_in cs t
unfolding find_in set_in
find-set_other [] c t h = ground (arith, test_of_ne c.type_name t h)
find-set_other (d ∷ cs) c t h = ground (
  arith,
  test_of_ne c.type_name t h,
  eq_iff d.type_name c.type_name,
  eq_iff d.type_name t,
  find-set_other cs c t h,
)

pub find-remove : (cs : List Condition) (t : String) → find_in (remove_from cs t) t ≡ none
unfolding find_in remove_from
find-remove [] t = refl
find-remove (d ∷ cs) t = ground (arith, find-remove cs t)

pub find-remove_other :
    (cs : List Condition) (t u : String) → t ≢ u → find_in (remove_from cs t) u ≡ find_in cs u
unfolding find_in remove_from
find-remove_other [] t u h = refl
find-remove_other (d ∷ cs) t u h = ground (
  arith,
  test_of_ne t u h,
  eq_iff d.type_name t,
  eq_iff d.type_name u,
  find-remove_other cs t u h,
)

abbrev pub condition_list : ConditionOps
condition_list = record {
  find = find_in;
  set = set_in;
  remove = remove_from;
  find-set_self = find-set;
  find-set_other = find-set_other;
  find-remove_self = find-remove;
  find-remove_other = find-remove_other;
}

abbrev pub plain_env : Env
plain_env = record {
  conditions = condition_list;
  secure_equal = λ a b. a == b;
  hash_equal = λ a b. a == b;
  show_number = λ n. "n";
  secure_equal_iff = eq_iff;
  hash_equal_iff = eq_iff;
}
