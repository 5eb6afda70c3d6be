-- ===== src/Audit/Laws.antt =====
-- What `field_changes` reports: exactly the keys whose values differ, with those values.
use in_work_marketing_os_bac.Base.{
  String, true, false, Option, none, some, List, [], ◌∷◌, ◌||◌, str_eq, if◌then◌else◌, ◌≡◌, refl,
  ap, contains, arith, eq_iff,
}
use in_work_marketing_os_bac.Model.Tables.{
  Text, Value, Change, null, typed, member, number, flag, listed,
}
use in_work_marketing_os_bac.Audit.{
  text_eq, texts_eq, value_eq, Dict, get, keys, union_keys, changed, or_none, field_changes,
}

pub text_eq_sound : (s t : Text) → text_eq s t ≡ true → s ≡ t
text_eq_sound [] [] h = refl
text_eq_sound [] (b ∷ t) h = cc
text_eq_sound (a ∷ s) [] h = cc
text_eq_sound (a ∷ s) (b ∷ t) h = ground (arith, text_eq_sound s t)

pub text_eq_refl : (s : Text) → text_eq s s ≡ true
text_eq_refl [] = refl
text_eq_refl (a ∷ s) = ground (arith, text_eq_refl s)

pub texts_eq_sound : (s t : List Text) → texts_eq s t ≡ true → s ≡ t
texts_eq_sound [] [] h = refl
texts_eq_sound [] (b ∷ t) h = cc
texts_eq_sound (a ∷ s) [] h = cc
texts_eq_sound (a ∷ s) (b ∷ t) h = ground (arith, texts_eq_sound s t, text_eq_sound a b)

pub texts_eq_refl : (s : List Text) → texts_eq s s ≡ true
texts_eq_refl [] = refl
texts_eq_refl (a ∷ s) = ground (arith, texts_eq_refl s, text_eq_refl a)

-- The comparison of the diff is equality.
pub value_eq_sound : (a b : Value) → value_eq a b ≡ true → a ≡ b
unfolding value_eq
value_eq_sound null null h = refl
value_eq_sound (typed s) (typed t) h = ap typed (text_eq_sound s t h)
value_eq_sound (member s) (member t) h = ap member ((eq_iff s t).0 h)
value_eq_sound (number a) (number b) h = ground arith
value_eq_sound (flag true) (flag true) h = refl
value_eq_sound (flag false) (flag false) h = refl
value_eq_sound (listed s) (listed t) h = ap listed (texts_eq_sound s t h)
value_eq_sound a b h = cc

pub value_eq_refl : (a : Value) → value_eq a a ≡ true
unfolding value_eq
value_eq_refl null = refl
value_eq_refl (typed s) = text_eq_refl s
value_eq_refl (member s) = (eq_iff s s).1 refl
value_eq_refl (number a) = ground arith
value_eq_refl (flag true) = refl
value_eq_refl (flag false) = refl
value_eq_refl (listed s) = texts_eq_refl s

-- The entry of a key in the diff, if it has one.
find_field : String → List Change → Option Change
find_field key [] = none
find_field key (c ∷ cs) = if str_eq c.field key then some c else find_field key cs

pub entry : String → Option (List Change) → Option Change
unfolding find_field
entry key none = none
entry key (some cs) = find_field key cs

abbrev pub diff_at : Dict → Dict → String → Option Change
diff_at before after key =
    if value_eq (get before key) (get after key)
    then none
    else some (record { field = key; before = get before key; after = get after key })

find_field-changed :
    (before after : Dict) (key : String) (ks : List String)
    → find_field key (changed before after ks)
      ≡ (if contains str_eq key ks then diff_at before after key else none)
unfolding find_field changed
find_field-changed before after key [] = refl
find_field-changed before after key (k ∷ ks) =
    ground (arith, eq_iff k key, find_field-changed before after key ks)

contains-union_keys :
    (key : String) (before after : List String)
    → contains str_eq key (union_keys before after)
      ≡ (contains str_eq key before || contains str_eq key after)
unfolding union_keys
contains-union_keys key before [] = ground arith
contains-union_keys key before (k ∷ after) =
    ground (arith, eq_iff k key, contains-union_keys key before after)

get-null : (d : Dict) (key : String) → contains str_eq key (keys d) ≡ false → get d key ≡ null
unfolding get keys
get-null [] key h = refl
get-null ((k, v) ∷ d) key h = ground (arith, get-null d key)

entry-or_none : (key : String) (cs : List Change) → entry key (or_none cs) ≡ find_field key cs
unfolding entry
entry-or_none key [] = refl
entry-or_none key (c ∷ cs) = refl

-- The diff has an entry for a key exactly when the two values differ, and then it holds both.
entry-field_changes :
    (before after : Dict) (key : String)
    → entry key (field_changes before after) ≡ diff_at before after key
unfolding field_changes
entry-field_changes before after key = ground (
  arith,
  entry-or_none key (changed before after (union_keys (keys before) (keys after))),
  find_field-changed before after key (union_keys (keys before) (keys after)),
  contains-union_keys key (keys before) (keys after),
  get-null before key,
  get-null after key,
  value_eq_refl null,
)

-- No diff at all means that no value differs.
field_changes_none :
    (before after : Dict)
    → field_changes before after ≡ none
    → (key : String) → get before key ≡ get after key
unfolding entry
field_changes_none before after h key =
    value_eq_sound _ _ (ground (arith, entry-field_changes before after key))
