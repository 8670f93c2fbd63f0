-- ===== src/Storage/Collection/Untouched.antt =====
-- The parts of a collection (src/storage/collection.rs) that applying frames leaves alone.
use dewdb.Prelude.Assoc.{lookup}
use dewdb.Prelude.{
  if◌then◌else◌, Option, ◌∙◌, Option-cases, ℕ, ◌≡◌, refl, Bool, true, false, [], ◌∷◌, Bytes,
  is_some, is_empty, inl, inr,
}
use dewdb.Prelude.Positions.{Positions}
use dewdb.Storage.AppliedPos.{PosSlots}
use dewdb.Storage.Collection.{
  Collection, AppliedMeta, StagedApply, StagedEffect, put_key, remove_staged, nothing, clear,
  configure, record_handover, define_index, set_ttl, release_staged, apply_index_put,
  apply_index_remove, clear_index, bump_rich, swap_dropped, same_ttl, drop_definitions, drop_ttl,
}
use dewdb.Storage.Collection.Apply.{apply_effect, apply_one, apply_ready}

-- The staged frames, the position, and the files.
pub record Outside (Value : Type 0) : Type 0 where
  pub pending : Positions (StagedApply Value)
  pub applied : ℕ
  pub saved : ℕ
  pub recorded : Bool
  pub meta : Option AppliedMeta
  pub pos : PosSlots

abbrev pub outside : {Value : Type 0} → Collection Value → Outside Value
outside c = record {
  pending = c.pending;
  applied = c.applied_lsn;
  saved = c.watermark_saved;
  recorded = c.watermark_recorded;
  meta = c.meta_file;
  pos = c.pos_file;
}

module _ {Value : Type 0} where
  outside-if :
      (b : Bool) (x y : Collection Value) (o : Outside Value)
      → outside x ≡ o
      → outside y ≡ o
      → outside (if b then x else y) ≡ o
  outside-if true x y o p q = p
  outside-if false x y o p q = q

  outside-swap_dropped : (b : Bool) (c : Collection Value) → outside (swap_dropped b c) ≡ outside c
  unfolding swap_dropped bump_rich
  outside-swap_dropped true c = outside-if c.dropped c _ (outside c) refl refl
  outside-swap_dropped false c = outside-if c.dropped _ c (outside c) refl refl

  outside-drop_ttl : (c : Collection Value) → outside (drop_ttl c) ≡ outside c
  unfolding drop_ttl bump_rich
  outside-drop_ttl c = outside-if (is_some c.committed_ttl) _ c (outside c) refl refl

  outside-drop_definitions : (c : Collection Value) → outside (drop_definitions c) ≡ outside c
  unfolding drop_definitions bump_rich
  outside-drop_definitions c = outside-if (is_empty c.committed_indexes) c _ (outside c) refl refl

  outside-release_staged :
      (e : StagedEffect Value) (c : Collection Value) → outside (release_staged e c) ≡ outside c
  unfolding release_staged
  outside-release_staged (put_key key entry indexed) c = refl
  outside-release_staged (remove_staged key) c = refl
  outside-release_staged nothing c = refl
  outside-release_staged clear c = refl
  outside-release_staged (configure x) c = refl
  outside-release_staged (record_handover x) c = refl
  outside-release_staged (define_index x) c = refl
  outside-release_staged (set_ttl x) c = refl

  outside-apply_index_remove :
      (key : Bytes) (c : Collection Value) → outside (apply_index_remove key c) ≡ outside c
  unfolding apply_index_remove
  outside-apply_index_remove key c = elim (Option-cases (lookup key c.index)) [
    | inl e ↦ rw (e, apply_index_remove) refl
    | inr (old, e) ↦ rw (e, apply_index_remove) refl
  ]

module _ {Value : Type 0} (same_value : Value → Value → Bool) where
  outside-apply_effect :
      (e : StagedEffect Value) (c : Collection Value)
      → outside (apply_effect same_value e c) ≡ outside c
  unfolding apply_effect clear_index bump_rich apply_index_put
  outside-apply_effect (put_key key entry indexed) c = outside-swap_dropped false _
  outside-apply_effect (remove_staged key) c =
      outside-swap_dropped false _ ∙ outside-apply_index_remove key c
  outside-apply_effect nothing c = refl
  outside-apply_effect clear c =
      outside-swap_dropped true _ ∙ outside-drop_ttl _ ∙ outside-drop_definitions _
  outside-apply_effect (configure x) c = refl
  outside-apply_effect (record_handover x) c = refl
  outside-apply_effect (define_index x) c = refl
  outside-apply_effect (set_ttl x) c =
      outside-if (same_ttl c.committed_ttl x) c _ (outside c) refl refl

  pub outside-apply_ready :
      (ready : Positions (StagedApply Value)) (c : Collection Value)
      → outside (apply_ready same_value ready c) ≡ outside c
  unfolding apply_ready apply_one
  outside-apply_ready [] c = refl
  outside-apply_ready ((lsn, s) ∷ ready) c =
      outside-apply_ready ready (apply_one same_value s c)
      ∙ outside-release_staged s.effect _
      ∙ outside-apply_effect s.effect c
