-- ===== src/Storage/Collection/Newest.antt =====
-- Committing (src/storage/collection.rs) moves staged frames into the index and changes nothing
-- that is read of the newest state.
use dewdb.Prelude.{
  ◌≡◌, refl, sym, ap, ◌∙◌, Bool, true, false, [], ◌∷◌, Bytes, bytes_eq, bytes_eq_iff, if◌then◌else◌,
  Option, none, some, arith,
}
use mathlib.Core.Path.{subst}
use dewdb.Prelude.Assoc.{Assoc, lookup, lookup-insert, lookup-remove}
use dewdb.Prelude.Positions.{Positions, find_last}
use dewdb.Storage.Entry.{IndexEntry}
use dewdb.Storage.Collection.{
  Collection, StagedApply, StagedEffect, put_key, remove_staged, nothing, clear, configure,
  record_handover, define_index, set_ttl, resolve, release_staged, apply_index_put,
  apply_index_remove, clear_index, bump_rich, swap_dropped, drop_definitions, drop_ttl,
}
use dewdb.Storage.Collection.Apply.{apply_effect, apply_one, apply_ready}

-- What an effect leaves under a key, over what was there.
abbrev pub over : Option (Option IndexEntry) → Option IndexEntry → Option IndexEntry
over none old = old
over (some new) old = new

module _ {Value : Type 0} where
  index-swap_dropped : (b : Bool) (c : Collection Value) → (swap_dropped b c).index ≡ c.index
  unfolding swap_dropped bump_rich
  index-swap_dropped true c = ground arith
  index-swap_dropped false c = ground arith

  index-drop_ttl : (c : Collection Value) → (drop_ttl c).index ≡ c.index
  unfolding drop_ttl bump_rich
  index-drop_ttl c = ground arith

  index-drop_definitions : (c : Collection Value) → (drop_definitions c).index ≡ c.index
  unfolding drop_definitions bump_rich
  index-drop_definitions c = ground arith

  index-release_staged :
      (e : StagedEffect Value) (c : Collection Value) → (release_staged e c).index ≡ c.index
  unfolding release_staged
  index-release_staged (put_key key entry indexed) c = refl
  index-release_staged (remove_staged key) c = refl
  index-release_staged nothing c = refl
  index-release_staged clear c = refl
  index-release_staged (configure x) c = refl
  index-release_staged (record_handover x) c = refl
  index-release_staged (define_index x) c = refl
  index-release_staged (set_ttl x) c = refl

  index-swap_lookup :
      (b : Bool) (k : Bytes) (c : Collection Value)
      → lookup k (swap_dropped b c).index ≡ lookup k c.index
  index-swap_lookup b k c = ap (lookup k) (index-swap_dropped b c)

  lookup-apply_index_remove :
      (key k : Bytes) (c : Collection Value)
      → lookup k (apply_index_remove key c).index
        ≡ (if bytes_eq key k then none else lookup k c.index)
  unfolding apply_index_remove
  lookup-apply_index_remove key k c =
      ground (arith, lookup-remove key k c.index, bytes_eq_iff key k)

module _ {Value : Type 0} (same_value : Value → Value → Bool) where
  cleared : (c : Collection Value) → (apply_effect same_value clear c).index ≡ []
  unfolding apply_effect clear_index
  cleared c = index-swap_dropped true _ ∙ index-drop_ttl _ ∙ index-drop_definitions _

  lookup_clear :
      (k : Bytes) (c : Collection Value) → lookup k (apply_effect same_value clear c).index ≡ none
  unfolding lookup
  lookup_clear k c = subst (λ (i : Assoc IndexEntry). lookup k i ≡ none) (sym (cleared c)) refl

  lookup-apply_effect :
      (e : StagedEffect Value) (k : Bytes) (c : Collection Value)
      → lookup k (apply_effect same_value e c).index ≡ over (resolve e k) (lookup k c.index)
  unfolding apply_effect resolve clear_index bump_rich apply_index_put
  lookup-apply_effect (put_key key entry indexed) k c =
      index-swap_lookup false k _ ∙ lookup-insert key k entry c.index ∙ ground arith
  lookup-apply_effect (remove_staged key) k c =
      index-swap_lookup false k _ ∙ lookup-apply_index_remove key k c ∙ ground arith
  lookup-apply_effect nothing k c = refl
  lookup-apply_effect clear k c = lookup_clear k c
  lookup-apply_effect (configure x) k c = refl
  lookup-apply_effect (record_handover x) k c = refl
  lookup-apply_effect (define_index x) k c = refl
  lookup-apply_effect (set_ttl x) k c = ground arith

  lookup-apply_one :
      (s : StagedApply Value) (k : Bytes) (c : Collection Value)
      → lookup k (apply_one same_value s c).index ≡ over (resolve s.effect k) (lookup k c.index)
  unfolding apply_one
  lookup-apply_one s k c =
      ap (lookup k) (index-release_staged s.effect _) ∙ lookup-apply_effect s.effect k c

  -- The index after a batch is what the newest frame of it that touches a key leaves.
  pub lookup-apply_ready :
      (ready : Positions (StagedApply Value)) (k : Bytes) (c : Collection Value)
      → lookup k (apply_ready same_value ready c).index
        ≡ over (find_last (λ s. resolve s.effect k) ready) (lookup k c.index)
  unfolding apply_ready find_last
  lookup-apply_ready [] k c = refl
  lookup-apply_ready ((lsn, s) ∷ ready) k c =
      lookup-apply_ready ready k (apply_one same_value s c)
      ∙ ap (over (find_last (λ t. resolve t.effect k) ready)) (lookup-apply_one s k c)
      ∙ ground arith

-- A map as the abstract view: what the collection holds under each key. An effect on it, and the
-- frames of a batch in their order.
abbrev pub replay_one :
    {Value : Type 0} → StagedEffect Value → (Bytes → Option IndexEntry) → Bytes → Option IndexEntry
replay_one (put_key key entry indexed) view k = if bytes_eq key k then some entry else view k
replay_one (remove_staged key) view k = if bytes_eq key k then none else view k
replay_one clear view k = none
replay_one e view k = view k

abbrev pub replay :
    {Value : Type 0}
    → Positions (StagedApply Value)
    → (Bytes → Option IndexEntry)
    → Bytes
    → Option IndexEntry
replay [] view = view
replay ((lsn, s) ∷ ready) view = replay ready (replay_one s.effect view)

module _ {Value : Type 0} where
  replay_one-over :
      (e : StagedEffect Value) (view : Bytes → Option IndexEntry) (k : Bytes)
      → replay_one e view k ≡ over (resolve e k) (view k)
  unfolding resolve
  replay_one-over (put_key key entry indexed) view k = ground arith
  replay_one-over (remove_staged key) view k = ground arith
  replay_one-over nothing view k = refl
  replay_one-over clear view k = refl
  replay_one-over (configure x) view k = refl
  replay_one-over (record_handover x) view k = refl
  replay_one-over (define_index x) view k = refl
  replay_one-over (set_ttl x) view k = refl

  pub replay-over :
      (ready : Positions (StagedApply Value)) (view : Bytes → Option IndexEntry) (k : Bytes)
      → replay ready view k ≡ over (find_last (λ s. resolve s.effect k) ready) (view k)
  unfolding find_last
  replay-over [] view k = refl
  replay-over ((lsn, s) ∷ ready) view k =
      replay-over ready (replay_one s.effect view) k
      ∙ ap (over (find_last (λ t. resolve t.effect k) ready)) (replay_one-over s.effect view k)
      ∙ ground arith
