-- ===== src/Map.antt =====
-- `BTreeMap<String, V>` and `HashMap<String, V>` as association lists in key order, with one
-- entry for each key that is inserted. The program's listings go through the maps in this order.
use Prim.Native.String.{compare}
use mathlib.Core.Option
use text.Mathlib.Text.{is_lt}
use tauri_connector.Prelude.{
  any, Bool, String, ◌≡◌, refl, Bool, true, false, Option, none, some, List, [], ◌∷◌, map, arith,
  str_eq, eq_iff, eq_refl, if◌then◌else◌, any, keep, is_empty,
}

abbrev pub has_key : String → List String → Bool
has_key k = any (λ j. str_eq j k)

abbrev pub Map {ℓ} : Type ℓ → Type ℓ
Map V = List (String × V)

module _ {ℓ} {V : Type ℓ} where
  abbrev pub key : String × V → String
  key e = e.0

  abbrev pub value : String × V → V
  value e = e.1

  -- m.get(k)
  unfoldable pub get : String → Map V → Option V
  get k [] = none
  get k ((j, v) ∷ m) = if str_eq j k then some v else get k m

  -- m.remove(k)
  unfoldable pub remove : String → Map V → Map V
  remove k [] = []
  remove k ((j, v) ∷ m) = let rest = remove k m in if str_eq j k then rest else (j, v) ∷ rest

  -- puts an entry with a new key in its place
  unfoldable pub place : String → V → Map V → Map V
  place k v [] = (k, v) ∷ []
  place k v ((j, w) ∷ m) = if is_lt (compare k j) then (k, v) ∷ (j, w) ∷ m else (j, w) ∷ place k v m

  -- m.insert(k, v)
  unfoldable pub insert : String → V → Map V → Map V
  unfolding place remove
  insert k v m = place k v (remove k m)

  -- *m.get_mut(k) = f(...): changes the value under a key that is there
  unfoldable pub modify : String → (V → V) → Map V → Map V
  modify k f [] = []
  modify k f ((j, v) ∷ m) = if str_eq j k then (j, f v) ∷ m else (j, v) ∷ modify k f m

  -- removes each of the keys
  unfoldable pub remove_all : List String → Map V → Map V
  unfolding remove
  remove_all [] m = m
  remove_all (k ∷ ks) m = remove_all ks (remove k m)

  abbrev pub keys : Map V → List String
  keys = map (λ e. e.0)

  -- No key has two entries.
  abbrev pub IsDistinct : Map V → Type ℓ
  IsDistinct [] = Unit
  IsDistinct ((k, v) ∷ m) = (get k m ≡ none) × IsDistinct m

module _ {ℓ} {V : Type ℓ} where
  pub get-remove :
      (k j : String) (m : Map V) → get j (remove k m) ≡ (if str_eq k j then none else get j m)
  unfolding get remove
  get-remove k j [] = ground arith
  get-remove k j ((i, w) ∷ m) = ground (arith, eq_iff k j, eq_iff i k, eq_iff i j, get-remove k j m)

  get-place :
      (k j : String) (v : V) (m : Map V)
      → get k m ≡ none
      → get j (place k v m) ≡ (if str_eq k j then some v else get j m)
  unfolding get place
  get-place k j v [] h = refl
  get-place k j v ((i, w) ∷ m) h =
      ground (arith, eq_iff k j, eq_iff i k, eq_iff i j, get-place k j v m)

  get-remove_self : (k : String) (m : Map V) → get k (remove k m) ≡ none
  get-remove_self k m = rw (get-remove, eq_refl)

  pub get-insert :
      (k j : String) (v : V) (m : Map V)
      → get j (insert k v m) ≡ (if str_eq k j then some v else get j m)
  get-insert k j v m =
      unfold insert in
      ground (arith, get-place k j v (remove k m) (get-remove_self k m), get-remove k j m)

  pub get-modify :
      (k j : String) (f : V → V) (m : Map V)
      → get j (modify k f m) ≡ (if str_eq k j then Option.map f (get j m) else get j m)
  unfolding get modify
  get-modify k j f [] = ground arith
  get-modify k j f ((i, w) ∷ m) =
      ground (arith, eq_iff k j, eq_iff i k, eq_iff i j, get-modify k j f m)

  pub remove_absent : (k : String) (m : Map V) → get k m ≡ none → remove k m ≡ m
  unfolding get remove
  remove_absent k [] h = refl
  remove_absent k ((i, w) ∷ m) h = ground (arith, remove_absent k m)

  pub get-remove_all :
      (ks : List String) (k : String) (m : Map V)
      → get k (remove_all ks m) ≡ (if has_key k ks then none else get k m)
  unfolding remove_all
  get-remove_all [] k m = refl
  get-remove_all (j ∷ ks) k m = ground (arith, get-remove_all ks k (remove j m), get-remove j k m)

  pub remove-IsDistinct : (k : String) (m : Map V) → IsDistinct m → IsDistinct (remove k m)
  unfolding remove
  remove-IsDistinct k [] d = tt
  remove-IsDistinct k ((j, v) ∷ m) d =
      ground (arith, remove-IsDistinct k m, get-remove k j m, eq_iff j k)

  place-IsDistinct :
      (k : String) (v : V) (m : Map V) → get k m ≡ none → IsDistinct m → IsDistinct (place k v m)
  unfolding get place
  place-IsDistinct k v [] h d = (refl, tt)
  place-IsDistinct k v ((j, w) ∷ m) h d =
      ground (arith, place-IsDistinct k v m, get-place k j v m, eq_iff j k, eq_iff k j)

  pub insert-IsDistinct :
      (k : String) (v : V) (m : Map V) → IsDistinct m → IsDistinct (insert k v m)
  unfolding insert
  insert-IsDistinct k v m d =
      place-IsDistinct k v (remove k m) (get-remove_self k m) (remove-IsDistinct k m d)

  pub modify-IsDistinct :
      (k : String) (f : V → V) (m : Map V) → IsDistinct m → IsDistinct (modify k f m)
  unfolding modify
  modify-IsDistinct k f [] d = tt
  modify-IsDistinct k f ((j, v) ∷ m) d =
      ground (arith, modify-IsDistinct k f m, get-modify k j f m, eq_iff j k)

  pub remove_all-IsDistinct :
      (ks : List String) (m : Map V) → IsDistinct m → IsDistinct (remove_all ks m)
  unfolding remove_all
  remove_all-IsDistinct [] m d = d
  remove_all-IsDistinct (k ∷ ks) m d =
      remove_all-IsDistinct ks (remove k m) (remove-IsDistinct k m d)

  -- A key is among the keys that a test selects if its own entry passes the test.
  pub has_key-keep :
      (p : String × V → Bool) (k : String) (m : Map V)
      → IsDistinct m
      → has_key k (keys (keep p m)) ≡ (elim (get k m) [ none ↦ false | some v ↦ p (k, v) ])
  unfolding get
  has_key-keep p k [] d = refl
  has_key-keep p k ((j, v) ∷ m) d = ground (arith, has_key-keep p k m, eq_iff j k)

  -- Removing what a test selects leaves exactly the entries that fail it.
  pub get-remove_kept :
      (p : String × V → Bool) (k : String) (m : Map V)
      → IsDistinct m
      → get k (remove_all (keys (keep p m)) m)
        ≡ (elim (get k m) [ none ↦ none | some v ↦ if p (k, v) then none else some v ])
  get-remove_kept p k m d =
      ground (arith, get-remove_all (keys (keep p m)) k m, has_key-keep p k m d)

  -- Where a test of values fails at every entry, it fails at each value that is found.
  pub none_kept :
      (p : V → Bool) (k : String) (m : Map V) (v : V)
      → is_empty (keep (λ e. p e.1) m) ≡ true
      → get k m ≡ some v
      → p v ≡ false
  unfolding get
  none_kept p k [] v e h = cc
  none_kept p k ((j, w) ∷ m) v e h = ground (arith, none_kept p k m v)

pub ruleset map_laws = (get-insert, get-remove, get-modify)
