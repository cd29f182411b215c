-- ===== src/Json/Edit.antt =====
-- Changes of a `serde_json::Value` in place. Its objects are maps in key order.
use Prim.Native.String.{compare}
use text.Mathlib.Text.{is_lt}
use tauri_connector.Json.{
  Value, null, bool, num, other, str, arr, obj, Fields, end, field, Items, no_items, item,
  find_field,
}
use tauri_connector.Prelude.{
  String, ◌≡◌, refl, ap, false, none, some, str_eq, eq_iff, if◌then◌else◌, arith,
}
use mathlib.Core.Option

-- object.insert(name, value)
unfoldable pub put_field : String → Value → Fields → Fields
put_field k v end = field k v end
put_field k v (field j w fs) =
    let rest = put_field k v fs in
    if str_eq k j
    then field k v fs
    else if is_lt (compare k j)
    then field k v (field j w fs)
    else field j w rest

-- object.remove(name)
unfoldable pub remove_field : String → Fields → Fields
remove_field k end = end
remove_field k (field j w fs) =
    let rest = remove_field k fs in if str_eq j k then rest else field j w rest

-- a change of what `object.get_mut(name)` leads to
unfoldable pub modify_field : String → (Value → Value) → Fields → Fields
modify_field k f end = end
modify_field k f (field j w fs) =
    let rest = modify_field k f fs in if str_eq j k then field j (f w) rest else field j w rest

-- the same on a value that is an object; any other value is left as it is
abbrev pub edit : (Fields → Fields) → Value → Value
edit f (obj fs) = obj (f fs)
edit f null = null
edit f (bool b) = bool b
edit f (num n) = num n
edit f (other s) = other s
edit f (str s) = str s
edit f (arr vs) = arr vs

-- array.push(value) and array.pop()
abbrev pub push_item : Value → Items → Items
push_item v no_items = item v no_items
push_item v (item w vs) = item w (push_item v vs)

abbrev pub drop_last : Items → Items
drop_last no_items = no_items
drop_last (item v no_items) = no_items
drop_last (item v (item w vs)) = item v (drop_last (item w vs))

abbrev pub edit_array : (Items → Items) → Value → Value
edit_array f (arr vs) = arr (f vs)
edit_array f (obj fs) = obj fs
edit_array f null = null
edit_array f (bool b) = bool b
edit_array f (num n) = num n
edit_array f (other s) = other s
edit_array f (str s) = str s

pub find_field-put_field :
    (k j : String) (v : Value) (fs : Fields)
    → find_field j (put_field k v fs) ≡ (if str_eq k j then some v else find_field j fs)
unfolding find_field put_field
find_field-put_field k j v end = refl
find_field-put_field k j v (field i w fs) =
    ground (arith, eq_iff k j, eq_iff i j, eq_iff k i, find_field-put_field k j v fs)

pub find_field-remove_field :
    (k j : String) (fs : Fields)
    → find_field j (remove_field k fs) ≡ (if str_eq k j then none else find_field j fs)
unfolding find_field remove_field
find_field-remove_field k j end = ground arith
find_field-remove_field k j (field i w fs) =
    ground (arith, eq_iff k j, eq_iff i j, eq_iff i k, find_field-remove_field k j fs)

pub find_field-modify_field :
    (k j : String) (f : Value → Value) (fs : Fields)
    → find_field j (modify_field k f fs)
      ≡ (if str_eq k j then Option.map f (find_field j fs) else find_field j fs)
unfolding find_field modify_field
find_field-modify_field k j f end = ground arith
find_field-modify_field k j f (field i w fs) =
    ground (arith, eq_iff k j, eq_iff i j, eq_iff i k, find_field-modify_field k j f fs)

pub remove_field-put_field :
    (k : String) (v : Value) (fs : Fields) → remove_field k (put_field k v fs) ≡ remove_field k fs
unfolding put_field remove_field
remove_field-put_field k v end = ground (arith, eq_iff k k)
remove_field-put_field k v (field i w fs) =
    ground (arith, eq_iff k i, eq_iff i k, eq_iff k k, remove_field-put_field k v fs)

pub put_field-twice :
    (k : String) (u v : Value) (fs : Fields) → put_field k v (put_field k u fs) ≡ put_field k v fs
unfolding put_field
put_field-twice k u v end = ground (arith, eq_iff k k)
put_field-twice k u v (field i w fs) =
    ground (arith, eq_iff k i, eq_iff k k, put_field-twice k u v fs)

-- changes under different names commute
pub modify_field-put_field :
    (k j : String) (f : Value → Value) (v : Value) (fs : Fields)
    → str_eq k j ≡ false
    → modify_field k f (put_field j v fs) ≡ put_field j v (modify_field k f fs)
unfolding modify_field put_field
modify_field-put_field k j f v end h = ground (arith, eq_iff j k, eq_iff k j)
modify_field-put_field k j f v (field i w fs) h =
    ground
      (arith, eq_iff k j, eq_iff j k, eq_iff i k, eq_iff j i, modify_field-put_field k j f v fs h)

pub modify_field-remove_field :
    (k j : String) (f : Value → Value) (fs : Fields)
    → modify_field k f (remove_field j fs) ≡ remove_field j (modify_field k f fs)
unfolding modify_field remove_field
modify_field-remove_field k j f end = refl
modify_field-remove_field k j f (field i w fs) =
    ground (arith, eq_iff i j, eq_iff i k, modify_field-remove_field k j f fs)

pub modify_field-modify_field :
    (k j : String) (f g : Value → Value) (fs : Fields)
    → str_eq k j ≡ false
    → modify_field k f (modify_field j g fs) ≡ modify_field j g (modify_field k f fs)
unfolding modify_field
modify_field-modify_field k j f g end h = refl
modify_field-modify_field k j f g (field i w fs) h =
    ground (arith, eq_iff i j, eq_iff i k, eq_iff k j, modify_field-modify_field k j f g fs h)

pub modify_field-twice :
    (k : String) (f g : Value → Value) (fs : Fields)
    → modify_field k f (modify_field k g fs) ≡ modify_field k (λ v. f (g v)) fs
unfolding modify_field
modify_field-twice k f g end = refl
modify_field-twice k f g (field i w fs) = ground (arith, modify_field-twice k f g fs)

drop_last-push_item : (v : Value) (vs : Items) → drop_last (push_item v vs) ≡ vs
drop_last-push_item v no_items = refl
drop_last-push_item v (item w no_items) = refl
drop_last-push_item v (item w (item u vs)) = ap (item w) (drop_last-push_item v (item u vs))

pub edit_array-pushed : (v w : Value) → edit_array drop_last (edit_array (push_item v) w) ≡ w
edit_array-pushed v (arr vs) = ap arr (drop_last-push_item v vs)
edit_array-pushed v (obj fs) = refl
edit_array-pushed v null = refl
edit_array-pushed v (bool b) = refl
edit_array-pushed v (num n) = refl
edit_array-pushed v (other s) = refl
edit_array-pushed v (str s) = refl

pub modify_field-same :
    (k : String) (f g : Value → Value) (fs : Fields)
    → ((v : Value) → f v ≡ g v)
    → modify_field k f fs ≡ modify_field k g fs
unfolding modify_field
modify_field-same k f g end h = refl
modify_field-same k f g (field i w fs) h = rw (h w, modify_field-same k f g fs h) refl

pub modify_field-id :
    (k : String) (f : Value → Value) (fs : Fields)
    → ((v : Value) → f v ≡ v)
    → modify_field k f fs ≡ fs
unfolding modify_field
modify_field-id k f end h = refl
modify_field-id k f (field i w fs) h = rw (h w, modify_field-id k f fs h) (ground arith)

-- a change that makes up for the one before it
pub edit-edit :
    (f g h : Fields → Fields) (v : Value)
    → ((fs : Fields) → f (g fs) ≡ h fs)
    → edit f (edit g v) ≡ edit h v
edit-edit f g h (obj fs) e = ap obj (e fs)
edit-edit f g h (arr vs) e = refl
edit-edit f g h null e = refl
edit-edit f g h (bool b) e = refl
edit-edit f g h (num n) e = refl
edit-edit f g h (other s) e = refl
edit-edit f g h (str s) e = refl
