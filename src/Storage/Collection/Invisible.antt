-- ===== src/Storage/Collection/Invisible.antt =====
-- A reader of the newest state (src/storage/collection.rs) does not see a commit happen.
use dewdb.Prelude.{
  ℕ, ◌≡◌, refl, sym, ap, ◌∙◌, Bool, List, [], ◌∷◌, ◌++◌, Bytes, is_some, Option, none, some,
}
use dewdb.Prelude.Assoc.{lookup}
use dewdb.Prelude.Positions.{Positions, IsAsc, up_to, above, split, find_last, find_last-append}
use dewdb.Api.Precondition.{Version}
use dewdb.Consensus.Config.{Configuration}
use dewdb.Storage.Entry.{IndexEntry, IndexSpec, version}
use dewdb.Storage.Collection.{Collection, StagedApply, resolve}
use dewdb.Storage.Collection.Stage.{
  overlay_ttl, overlay_index_specs, config_of, active_ttl_secs, active_index_specs, latest_config,
  staged_entry, exists, exists_including_staged, version_including_staged,
  expire_at_including_staged,
}
use dewdb.Storage.Collection.Apply.{PosWrite, drain, apply_committed}
use dewdb.Storage.Collection.Newest.{over}
use dewdb.Storage.Collection.Commit.{View, view, view-committed, pending-drain, lookup-drain}
use dewdb.Storage.Collection.Overlay.{
  or_config, or_config_assoc, ttl-apply_ready, specs-apply_ready, config-apply_ready,
}

abbrev version_of : Option IndexEntry → Option Version
version_of o = elim o [ none ↦ none | some e ↦ some (version e) ]

abbrev expiry_of : Option IndexEntry → Option ℕ
expiry_of o = elim o [ none ↦ none | some e ↦ e.expire_at ]

module _ {Value : Type 0} where
  overlay_ttl-append :
      (xs ys : Positions (StagedApply Value)) (t : Option ℕ)
      → overlay_ttl t (xs ++ ys) ≡ overlay_ttl (overlay_ttl t xs) ys
  unfolding overlay_ttl
  overlay_ttl-append [] ys t = refl
  overlay_ttl-append ((lsn, s) ∷ xs) ys t = overlay_ttl-append xs ys _

  overlay_specs-append :
      (xs ys : Positions (StagedApply Value)) (l : List IndexSpec)
      → overlay_index_specs l (xs ++ ys) ≡ overlay_index_specs (overlay_index_specs l xs) ys
  unfolding overlay_index_specs
  overlay_specs-append [] ys l = refl
  overlay_specs-append ((lsn, s) ∷ xs) ys l = overlay_specs-append xs ys _

  over-append :
      (f : StagedApply Value → Option (Option IndexEntry)) (x : Option IndexEntry)
      (xs ys : Positions (StagedApply Value))
      → over (find_last f ys) (over (find_last f xs) x) ≡ over (find_last f (xs ++ ys)) x
  over-append f x xs ys = go (find_last f ys) ∙ ap (λ o. over o x) (sym (find_last-append f xs ys))
    where
      go :
          (o : Option (Option IndexEntry))
          → over o (over (find_last f xs) x)
            ≡ over (elim o [ some b ↦ some b | none ↦ find_last f xs ]) x
      go none = refl
      go (some b) = refl

  config-append :
      (x : Option Configuration) (xs ys : Positions (StagedApply Value))
      → or_config (find_last config_of ys) (or_config (find_last config_of xs) x)
        ≡ or_config (find_last config_of (xs ++ ys)) x
  config-append x xs ys =
      or_config_assoc (find_last config_of ys) (find_last config_of xs) x
      ∙ ap (λ o. or_config o x) (sym (find_last-append config_of xs ys))

  -- The newest state of a key, committed or not.
  abbrev newest_entry : Bytes → View Value → Option IndexEntry
  newest_entry k v = over (find_last (λ s. resolve s.effect k) v.pending) (lookup k v.index)

  exists-newest :
      (k : Bytes) (c : Collection Value)
      → exists_including_staged k c ≡ is_some (newest_entry k (view c))
  unfolding exists_including_staged staged_entry exists
  exists-newest k c = go (find_last (λ s. resolve s.effect k) c.pending)
    where
      go :
          (o : Option (Option IndexEntry))
          → (elim o [ some e ↦ is_some e | none ↦ is_some (lookup k c.index) ])
            ≡ is_some (over o (lookup k c.index))
      go none = refl
      go (some e) = refl

  version-newest :
      (k : Bytes) (c : Collection Value)
      → version_including_staged k c ≡ version_of (newest_entry k (view c))
  unfolding version_including_staged staged_entry
  version-newest k c = go (find_last (λ s. resolve s.effect k) c.pending)
    where
      go :
          (o : Option (Option IndexEntry))
          → (elim o [ some e ↦ version_of e | none ↦ version_of (lookup k c.index) ])
            ≡ version_of (over o (lookup k c.index))
      go none = refl
      go (some e) = refl

  expire_at-newest :
      (k : Bytes) (c : Collection Value)
      → expire_at_including_staged k c ≡ expiry_of (newest_entry k (view c))
  unfolding expire_at_including_staged staged_entry
  expire_at-newest k c = go (find_last (λ s. resolve s.effect k) c.pending)
    where
      go :
          (o : Option (Option IndexEntry))
          → (elim o [ some e ↦ expiry_of e | none ↦ expiry_of (lookup k c.index) ])
            ≡ expiry_of (over o (lookup k c.index))
      go none = refl
      go (some e) = refl

  config-view :
      (c : Collection Value)
      → latest_config c ≡ or_config (find_last config_of c.pending) c.committed_config
  unfolding latest_config
  config-view c = go (find_last config_of c.pending)
    where
      go :
          (o : Option Configuration)
          → (elim o [ some x ↦ some x | none ↦ c.committed_config ])
            ≡ or_config o c.committed_config
      go none = refl
      go (some e) = refl

module _ {Value : Type 0} (same_value : Value → Value → Bool) (committed : ℕ) (c : Collection Value)
    (asc : IsAsc c.pending) where
  newest-drain :
      (k : Bytes) → newest_entry k (view (drain same_value committed c)) ≡ newest_entry k (view c)
  newest-drain k =
      ap
        (λ p.
          over (find_last (λ s. resolve s.effect k) p)
            (lookup k (drain same_value committed c).index))
        (pending-drain same_value committed c)
      ∙ ap (over (find_last (λ s. resolve s.effect k) (above committed c.pending)))
          (lookup-drain same_value committed c k)
      ∙ over-append (λ s. resolve s.effect k) (lookup k c.index) (up_to committed c.pending)
          (above committed c.pending)
      ∙ ap (λ p. over (find_last (λ s. resolve s.effect k) p) (lookup k c.index))
          (sym (split committed c.pending asc))

  ttl-drain :
      overlay_ttl
        (drain same_value committed c).committed_ttl
        (drain same_value committed c).pending
      ≡ overlay_ttl c.committed_ttl c.pending
  unfolding drain
  ttl-drain =
      ap (overlay_ttl (drain same_value committed c).committed_ttl)
        (pending-drain same_value committed c)
      ∙ ap (λ t. overlay_ttl t (above committed c.pending))
          (ttl-apply_ready same_value (up_to committed c.pending)
            (record c { pending = above committed c.pending }))
      ∙ sym (
          overlay_ttl-append (up_to committed c.pending) (above committed c.pending)
            c.committed_ttl)
      ∙ ap (overlay_ttl c.committed_ttl) (sym (split committed c.pending asc))

  specs-drain :
      overlay_index_specs
        (drain same_value committed c).committed_indexes
        (drain same_value committed c).pending
      ≡ overlay_index_specs c.committed_indexes c.pending
  unfolding drain
  specs-drain =
      ap (overlay_index_specs (drain same_value committed c).committed_indexes)
        (pending-drain same_value committed c)
      ∙ ap (λ t. overlay_index_specs t (above committed c.pending))
          (specs-apply_ready same_value (up_to committed c.pending)
            (record c { pending = above committed c.pending }))
      ∙ sym (
          overlay_specs-append (up_to committed c.pending) (above committed c.pending)
            c.committed_indexes)
      ∙ ap (overlay_index_specs c.committed_indexes) (sym (split committed c.pending asc))

  config-drain :
      or_config
        (find_last config_of (drain same_value committed c).pending)
        (drain same_value committed c).committed_config
      ≡ or_config (find_last config_of c.pending) c.committed_config
  unfolding drain
  config-drain =
      ap (λ p. or_config (find_last config_of p) (drain same_value committed c).committed_config)
        (pending-drain same_value committed c)
      ∙ ap (or_config (find_last config_of (above committed c.pending))) (
          config-apply_ready same_value (up_to committed c.pending)
            (record c { pending = above committed c.pending }))
      ∙ config-append c.committed_config (up_to committed c.pending) (above committed c.pending)
      ∙ ap (λ p. or_config (find_last config_of p) c.committed_config)
          (sym (split committed c.pending asc))

module _ {Value : Type 0} (same_value : Value → Value → Bool) where
  -- Committing up to any position, however the save of it ends, changes nothing that is read of the
  -- newest state: whether a key exists, its version and its expiry, and the time to live, the index
  -- definitions and the configuration in force are what they were. The staged frames stand in the
  -- order of the log.
  pub committing_is_invisible :
      (committed : ℕ) (watched : Bool) (pos : PosWrite) (written : Bool) (c : Collection Value)
      (k : Bytes)
      → IsAsc c.pending
      → (exists_including_staged k
            (apply_committed same_value committed watched pos written c).collection
          ≡ exists_including_staged k c)
        × (version_including_staged k
              (apply_committed same_value committed watched pos written c).collection
            ≡ version_including_staged k c)
        × (expire_at_including_staged k
              (apply_committed same_value committed watched pos written c).collection
            ≡ expire_at_including_staged k c)
        × (active_ttl_secs (apply_committed same_value committed watched pos written c).collection
            ≡ active_ttl_secs c)
        × (active_index_specs
              (apply_committed same_value committed watched pos written c).collection
            ≡ active_index_specs c)
        × (latest_config (apply_committed same_value committed watched pos written c).collection
            ≡ latest_config c)
  unfolding active_ttl_secs active_index_specs
  committing_is_invisible committed watched pos written c k asc =
      let kept = view-committed same_value committed watched pos written c in
      let d = (apply_committed same_value committed watched pos written c).collection in
      let key : newest_entry k (view d) ≡ newest_entry k (view c) =
        ap (newest_entry k) kept ∙ newest-drain same_value committed c asc k in
      (
        exists-newest k d ∙ ap is_some key ∙ sym (exists-newest k c),
        version-newest k d ∙ ap version_of key ∙ sym (version-newest k c),
        expire_at-newest k d ∙ ap expiry_of key ∙ sym (expire_at-newest k c),
        ap (λ (v : View Value). overlay_ttl v.ttl v.pending) kept
            ∙ ttl-drain same_value committed c asc,
        ap (λ (v : View Value). overlay_index_specs v.specs v.pending) kept
            ∙ specs-drain same_value committed c asc,
        config-view d
            ∙ ap (λ (v : View Value). or_config (find_last config_of v.pending) v.config) kept
            ∙ config-drain same_value committed c asc
            ∙ sym (config-view c),
      )
