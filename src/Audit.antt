-- ===== src/Audit.antt =====
-- app/services/audit_service.py: the before/after diffs of the audit trail. A dict is the list of
-- its items; a missing key reads as None.
pub mod Laws
use in_work_marketing_os_bac.Base.{
  ℕ, String, Bool, true, false, Option, none, some, List, [], ◌∷◌, ◌++◌, ◌&&◌, not, str_eq, ◌==◌,
  if◌then◌else◌, map, contains, keep_if,
}
use in_work_marketing_os_bac.Model.Tables.{
  Text, Value, Change, null, typed, member, number, flag, listed,
}

abbrev pub text_eq : Text → Text → Bool
text_eq [] [] = true
text_eq (a ∷ s) (b ∷ t) = a == b && text_eq s t
text_eq _ _ = false

abbrev pub texts_eq : List Text → List Text → Bool
texts_eq [] [] = true
texts_eq (a ∷ s) (b ∷ t) = text_eq a b && texts_eq s t
texts_eq _ _ = false

abbrev bool_eq : Bool → Bool → Bool
bool_eq true b = b
bool_eq false b = not b

-- Python's `==` on JSON scalars
unfoldable pub value_eq : Value → Value → Bool
value_eq null null = true
value_eq (typed s) (typed t) = text_eq s t
value_eq (member s) (member t) = str_eq s t
value_eq (number a) (number b) = a == b
value_eq (flag a) (flag b) = bool_eq a b
value_eq (listed s) (listed t) = texts_eq s t
value_eq _ _ = false

abbrev pub Dict : Type 0
Dict = List (String × Value)

-- `d.get(key)`
unfoldable pub get : Dict → String → Value
get [] key = null
get ((k, v) ∷ d) key = if str_eq k key then v else get d key

unfoldable pub keys : Dict → List String
keys [] = []
keys ((k, v) ∷ d) = k ∷ keys d

-- `before.keys() | after.keys()`
unfoldable pub union_keys : List String → List String → List String
union_keys before [] = before
union_keys before (k ∷ after) =
    let rest = union_keys before after in if contains str_eq k before then rest else k ∷ rest

-- the comprehension over the union of the keys
unfoldable pub changed : Dict → Dict → List String → List Change
changed before after [] = []
changed before after (key ∷ rest) =
    let tail = changed before after rest in
    if value_eq (get before key) (get after key)
    then tail
    else record { field = key; before = get before key; after = get after key } ∷ tail

-- `changed or None`
abbrev pub or_none : List Change → Option (List Change)
or_none [] = none
or_none (c ∷ cs) = some (c ∷ cs)

unfoldable pub field_changes : Dict → Dict → Option (List Change)
unfolding changed union_keys keys
field_changes before after = or_none (changed before after (union_keys (keys before) (keys after)))

created : Dict → List Change
created [] = []
created ((k, null) ∷ d) = created d
created ((k, v) ∷ d) = record { field = k; before = null; after = v } ∷ created d

unfoldable pub created_changes : Dict → Option (List Change)
unfolding created
created_changes values = or_none (created values)

deleted : Dict → List Change
deleted [] = []
deleted ((k, null) ∷ d) = deleted d
deleted ((k, v) ∷ d) = record { field = k; before = v; after = null } ∷ deleted d

unfoldable pub deleted_changes : Dict → Option (List Change)
unfolding deleted
deleted_changes values = or_none (deleted values)
