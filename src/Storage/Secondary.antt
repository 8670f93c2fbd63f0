-- ===== src/Storage/Secondary.antt =====
-- src/storage/secondary.rs: the postings of the secondary indexes, as the apply path and a build
-- maintain them. A `BTreeMap` of postings is a list with one entry a value.
use dewdb.Prelude.{
  Bool, true, false, not, List, [], ◌∷◌, Bytes, bytes_eq, if◌then◌else◌, is_empty, keep, any, map,
  Option, none, some,
}
use dewdb.Prelude.Assoc.{Assoc, lookup, insert, remove}
use dewdb.Storage.Entry.{IndexSpec, IndexChange, create_index, drop_index, Codec}

pub data BuildState : Type 0 where
  index_building : (touched : List Bytes) → BuildState
  index_ready : BuildState

pub record SecondaryIndex (Value : Type 0) : Type 0 where
  pub field : Bytes
  pub postings : List (Value × List Bytes)
  pub keys : Assoc Value
  pub state : BuildState

-- `HashSet::insert` and `BTreeSet::insert` on names.
unfoldable pub add_name : Bytes → List Bytes → List Bytes
add_name key names = if any (λ n. bytes_eq n key) names then names else key ∷ names

unfoldable pub building : {Value : Type 0} → Bytes → SecondaryIndex Value
building field = record { field = field; postings = []; keys = []; state = index_building [] }

unfoldable pub is_ready : {Value : Type 0} → SecondaryIndex Value → Bool
is_ready i = elim i.state [ index_building touched ↦ false | index_ready ↦ true ]

unfoldable pub note_touched : {Value : Type 0} → Bytes → SecondaryIndex Value → SecondaryIndex Value
unfolding add_name
note_touched key i = elim i.state [
  | index_building touched ↦ record i { state = index_building (add_name key touched) }
  | index_ready ↦ i
]

-- The value that a write staged for an index, `values.iter().find(|(n, _)| n == name)`.
unfoldable pub staged_value : {Value : Type 0} → Bytes → List (Bytes × Value) → Option Value
staged_value name [] = none
staged_value name ((n, v) ∷ values) = if bytes_eq n name then some v else staged_value name values

-- The indexed values of a document.
unfoldable pub index_values :
    {Value : Type 0} → Codec Value → List IndexSpec → Value → List (Bytes × Value)
index_values codec [] doc = []
index_values codec (s ∷ specs) doc = elim (codec.path_value doc s.field) [
  | none ↦ index_values codec specs doc
  | some v ↦ (s.name, v) ∷ index_values codec specs doc
]

module _ {Value : Type 0} (same_value : Value → Value → Bool) where
  -- The postings without `key` under `old`, and with it under `value`.
  unfoldable pub drop_posting :
      Bytes → Value → List (Value × List Bytes) → List (Value × List Bytes)
  drop_posting key old [] = []
  drop_posting key old ((v, holders) ∷ postings) =
      let left = keep (λ h. not (bytes_eq h key)) holders in
      if same_value v old
      then (if is_empty left then postings else (v, left) ∷ postings)
      else (v, holders) ∷ drop_posting key old postings

  unfoldable pub add_posting : Bytes → Value → List (Value × List Bytes) → List (Value × List Bytes)
  unfolding add_name
  add_posting key value [] = (value, key ∷ []) ∷ []
  add_posting key value ((v, holders) ∷ postings) =
      if same_value v value
      then (v, add_name key holders) ∷ postings
      else (v, holders) ∷ add_posting key value postings

  unfoldable pub unfile : Bytes → SecondaryIndex Value → SecondaryIndex Value
  unfolding drop_posting
  unfile key i = elim (lookup key i.keys) [
    | none ↦ i
    | some old ↦ record i { keys = remove key i.keys; postings = drop_posting key old i.postings }
  ]

  unfoldable pub file : Bytes → Value → SecondaryIndex Value → SecondaryIndex Value
  unfolding unfile add_posting
  file key value i =
      let u = unfile key i in
      record u { keys = insert key value u.keys; postings = add_posting key value u.postings }

  -- One index of the loop of `Indexes::put`.
  unfoldable pub put_one :
      Bytes → List (Bytes × Value) → Bytes → SecondaryIndex Value → SecondaryIndex Value
  unfolding file unfile note_touched staged_value
  put_one key values name i = elim (staged_value name values) [
    | some value ↦ file key value (note_touched key i)
    | none ↦ unfile key (note_touched key i)
  ]

abbrev pub Indexes : Type 0 → Type 0
Indexes Value = Assoc (SecondaryIndex Value)

module _ {Value : Type 0} (same_value : Value → Value → Bool) where
  unfoldable pub put : Bytes → List (Bytes × Value) → Indexes Value → Indexes Value
  unfolding put_one
  put key values m = map (λ e. (e.0, put_one same_value key values e.0 e.1)) m

  unfoldable pub remove_key : Bytes → Indexes Value → Indexes Value
  unfolding unfile note_touched
  remove_key key m = map (λ e. (e.0, unfile same_value key (note_touched key e.1))) m

-- `Indexes::seed`, a definition after those of `m`.
unfoldable pub seed_into : {Value : Type 0} → Indexes Value → List IndexSpec → Indexes Value
unfolding building
seed_into m [] = m
seed_into m (s ∷ specs) = seed_into (insert s.name (building s.field) m) specs

unfoldable pub seed : {Value : Type 0} → List IndexSpec → Indexes Value
unfolding seed_into
seed specs = seed_into [] specs

unfoldable pub apply_change : {Value : Type 0} → IndexChange → Indexes Value → Indexes Value
unfolding building
apply_change (create_index spec) m = insert spec.name (building spec.field) m
apply_change (drop_index name) m = remove name m

unfoldable pub clear_entries : {Value : Type 0} → Indexes Value → Indexes Value
unfolding building
clear_entries m = map (λ e. (e.0, building e.1.field)) m
