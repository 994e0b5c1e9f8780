-- ===== src/Config/Keys/Sets.antt =====
-- The two spellings of a set of labels or annotations (`metadataSetKey` in pkg/config/keys.go).
use Prim.Native.Char.{Char, char}
use text.Mathlib.TextLemmas.{cons≢nil}
use spicedb_operator.Base.{
  List, String, [], ap, arith, eq_iff, false, inl, inr, none, refl, some, sym, test_of_ne, ◌==◌,
  ◌∙◌, ◌∷◌, ◌≡◌, ◌⊎◌,
}
use spicedb_operator.Base.Map.{Map, insert, lookup}
use spicedb_operator.Base.Text.{joined, split}
use spicedb_operator.Base.Text.Laws.{Lacks, Lacks-joined, cut-joined, split-joined, split_whole}
use spicedb_operator.Config.Keys.{found_set, pop_set, read_entries, read_pairs, read_set}
use spicedb_operator.Config.Values.{RawConfig, Scalar, leaf, object, str}

-- The concatenation of two maps; `++` is that of texts here.
infixr 65 ◌+++◌
abbrev ◌+++◌ : Map String → Map String → Map String
[] +++ b = b
(x ∷ a) +++ b = x ∷ (a +++ b)

abbrev pub comma : Char
comma = char 44 tt

abbrev pub equals : Char
equals = char 61 tt

append_nil : (a : Map String) → a +++ [] ≡ a
append_nil [] = refl
append_nil (x ∷ a) = ap (λ r. x ∷ r) (append_nil a)

-- One entry, and the entries, as the text of a set.
unfoldable pub print_pair : String → String → String
print_pair k v = joined k (String.◌∷◌ equals v)

unfoldable pub print_set : Map String → String
print_set [] = ""
print_set ((k, v) ∷ []) = print_pair k v
print_set ((k, v) ∷ (e ∷ m)) = joined (print_pair k v) (String.◌∷◌ comma (print_set (e ∷ m)))

-- The object with the entries.
unfoldable pub set_object : Map String → Map Scalar
set_object [] = []
set_object ((k, v) ∷ m) = (k, str v) ∷ set_object m

-- The entries can be told apart in the text.
abbrev pub Writable : Map String → Type 0
Writable [] = Unit
Writable ((k, v) ∷ m) = Lacks b'=' k × Lacks b',' k × Lacks b',' v × Writable m

abbrev pub Fresh : String → Map String → Type 0
Fresh k [] = Unit
Fresh k ((j, v) ∷ m) = ((j == k) ≡ false) × Fresh k m

-- No key stands twice.
abbrev pub Keyed : Map String → Type 0
Keyed [] = Unit
Keyed ((k, v) ∷ m) = Fresh k m × Keyed m

-- The parts of a printed set are its entries.
parts : Map String → List String
parts [] = []
parts ((k, v) ∷ m) = print_pair k v ∷ parts m

split-print_set :
    (e : String × String) (m : Map String)
    → Writable (e ∷ m)
    → split b',' (print_set (e ∷ m)) ≡ parts (e ∷ m)
unfolding print_set print_pair parts
split-print_set (k, v) [] (_, hk, hv, _) =
    split_whole b',' (joined k (String.◌∷◌ equals v))
      (Lacks-joined b',' k (String.◌∷◌ equals v) hk (refl, hv))
split-print_set (k, v) (e ∷ m) (_, hk, hv, rest) =
    split-joined b',' comma (joined k (String.◌∷◌ equals v)) (print_set (e ∷ m)) refl
      (Lacks-joined b',' k (String.◌∷◌ equals v) hk (refl, hv))
    ∙ ap (λ ps. print_pair k v ∷ ps) (split-print_set e m rest)

-- Each entry is read, onto those before.
insert_all : Map String → Map String → Map String
insert_all acc [] = acc
insert_all acc ((k, v) ∷ m) = insert_all (insert k v acc) m

read_pairs-parts :
    (object_type metadata_type : String) (m acc : Map String)
    → Writable m
    → read_pairs object_type metadata_type acc (parts m) ≡ (insert_all acc m, [])
unfolding read_pairs parts print_pair insert_all
read_pairs-parts o t [] acc h = refl
read_pairs-parts o t ((k, v) ∷ m) acc (hk, _, _, h) =
    rw (cut-joined b'=' equals k v refl hk, read_pairs-parts o t m (insert k v acc) h)

read_entries-object :
    (object_type metadata_type : String) (m acc : Map String)
    → read_entries object_type metadata_type acc (set_object m) ≡ (insert_all acc m, [])
unfolding read_entries set_object insert_all
read_entries-object o t [] acc = refl
read_entries-object o t ((k, v) ∷ m) acc = read_entries-object o t m (insert k v acc)

insert-Fresh : (k v : String) (m : Map String) → Fresh k m → insert k v m ≡ m +++ ((k, v) ∷ [])
unfolding insert
insert-Fresh k v [] h = refl
insert-Fresh k v ((j, w) ∷ m) (other, h) = rw (other, insert-Fresh k v m h)

Fresh-append : (k : String) (a b : Map String) → Fresh k a → Fresh k b → Fresh k (a +++ b)
Fresh-append k [] b h g = g
Fresh-append k ((j, v) ∷ a) b (other, h) g = (other, Fresh-append k a b h g)

-- The keys of the entries are new.
AllFresh : Map String → Map String → Type 0
AllFresh acc [] = Unit
AllFresh acc ((k, v) ∷ m) = Fresh k acc × AllFresh acc m

AllFresh-snoc :
    (k v : String) (acc m : Map String)
    → AllFresh acc m
    → Fresh k m
    → AllFresh (acc +++ ((k, v) ∷ [])) m
unfolding AllFresh
AllFresh-snoc k v acc [] h f = tt
AllFresh-snoc k v acc ((j, w) ∷ m) (h, hs) (other, f) = (
  Fresh-append j acc ((k, v) ∷ []) h (ground (arith, eq_iff j k, eq_iff k j), tt),
  AllFresh-snoc k v acc m hs f,
)

append_one : (e : String × String) (acc m : Map String) → (acc +++ (e ∷ [])) +++ m ≡ acc +++ (e ∷ m)
append_one e [] m = refl
append_one e (x ∷ acc) m = ap (λ r. x ∷ r) (append_one e acc m)

insert_all-append : (m acc : Map String) → Keyed m → AllFresh acc m → insert_all acc m ≡ acc +++ m
unfolding insert_all AllFresh
insert_all-append [] acc h f = sym (append_nil acc)
insert_all-append ((k, v) ∷ m) acc (new, h) (f, fs) = rw (insert-Fresh k v acc f) (
    insert_all-append m (acc +++ ((k, v) ∷ [])) h (AllFresh-snoc k v acc m fs new)
    ∙ append_one (k, v) acc m)

AllFresh-nil : (m : Map String) → AllFresh [] m
unfolding AllFresh
AllFresh-nil [] = tt
AllFresh-nil ((k, v) ∷ m) = (tt, AllFresh-nil m)

insert_all-Keyed : (m : Map String) → Keyed m → insert_all [] m ≡ m
insert_all-Keyed m h = insert_all-append m [] h (AllFresh-nil m)

print_set-ne-nil : (e : String × String) (m : Map String) → (print_set (e ∷ m) == "") ≡ false
unfolding print_set print_pair
print_set-ne-nil (String.[], v) [] = test_of_ne _ "" cons≢nil
print_set-ne-nil (String.[], v) (e ∷ m) = test_of_ne _ "" cons≢nil
print_set-ne-nil (String.◌∷◌ c k, v) [] = test_of_ne _ "" cons≢nil
print_set-ne-nil (String.◌∷◌ c k, v) (e ∷ m) = test_of_ne _ "" cons≢nil

read_set-print_set :
    (object_type metadata_type key : String) (m : Map String)
    → Writable m
    → Keyed m
    → read_set object_type metadata_type key (leaf (str (print_set m))) ≡ ((m, []), none)
unfolding read_set print_set
read_set-print_set o t key [] h k = refl
read_set-print_set o t key (e ∷ m) h k = rw (
  print_set-ne-nil e m,
  split-print_set e m h,
  read_pairs-parts o t (e ∷ m) [] h,
  insert_all-Keyed (e ∷ m) k,
)

-- A set whose keys are distinct and lack the separators, and whose values lack the comma, is read
-- back whole, without warnings, from its text `k=v,k2=v2` and from its object.
pub pop_set-print_set :
    (object_type metadata_type key : String) (config : RawConfig) (m : Map String)
    → Writable m
    → Keyed m
    → (lookup key config ≡ some (leaf (str (print_set m))))
      ⊎ (lookup key config ≡ some (object (set_object m)))
    → ((pop_set object_type metadata_type key config).value ≡ (m, []))
      × ((pop_set object_type metadata_type key config).error ≡ none)
unfolding pop_set found_set read_set
pop_set-print_set o t key config m h k found = (ap (λ r. r.0) read, ap (λ r. r.1) read)
  where
    from_text : read_set o t key (leaf (str (print_set m))) ≡ ((m, []), none)
    from_text = read_set-print_set o t key m h k

    from_object : read_set o t key (object (set_object m)) ≡ ((m, []), none)
    from_object =
        ap (λ r. (r, none))
          (read_entries-object o t m [] ∙ ap (λ x. (x, [])) (insert_all-Keyed m k))

    read : found_set o t key (lookup key config) ≡ ((m, []), none)
    read = elim found [
      | inl e ↦ ap (found_set o t key) e ∙ from_text
      | inr e ↦ ap (found_set o t key) e ∙ from_object
    ]
