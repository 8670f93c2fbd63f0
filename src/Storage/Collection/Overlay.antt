-- ===== src/Storage/Collection/Overlay.antt =====
-- What applying frames (src/storage/collection.rs) does to the committed TTL, index definitions and
-- configuration: the same as laying the frames over them.
use dewdb.Prelude.{
  ℕ, ◌≡◌, refl, ap, ◌∙◌, inl, inr, Bool, true, false, List, [], ◌∷◌, Bytes, if◌then◌else◌, is_some,
  is_empty, Option, none, some, arith, Option-cases, Bool-cases,
}
use dewdb.Prelude.Assoc.{lookup}
use dewdb.Prelude.Positions.{Positions, find_last}
use dewdb.Consensus.Config.{Configuration}
use dewdb.Storage.Entry.{IndexSpec}
use dewdb.Storage.Collection.{
  Collection, StagedApply, StagedEffect, put_key, remove_staged, nothing, clear, configure,
  record_handover, define_index, set_ttl, release_staged, apply_index_put, apply_index_remove,
  clear_index, bump_rich, swap_dropped, same_ttl, drop_definitions, drop_ttl,
}
use dewdb.Storage.Collection.Stage.{
  overlay_one, overlay_index_specs, overlay_ttl_one, overlay_ttl, config_of,
}
use dewdb.Storage.Collection.Apply.{apply_effect, apply_one, apply_ready}

pub record Settings : Type 0 where
  pub ttl : Option ℕ
  pub specs : List IndexSpec
  pub config : Option Configuration

abbrev pub settings : {Value : Type 0} → Collection Value → Settings
settings c = record {
  ttl = c.committed_ttl;
  specs = c.committed_indexes;
  config = c.committed_config;
}

same_ttl→eq : (a b : Option ℕ) → same_ttl a b ≡ true → a ≡ b
unfolding same_ttl
same_ttl→eq none none h = refl
same_ttl→eq none (some b) h = ground arith
same_ttl→eq (some a) none h = ground arith
same_ttl→eq (some a) (some b) h = ground arith

abbrev pub or_config : Option Configuration → Option Configuration → Option Configuration
or_config (some c) old = some c
or_config none old = old

abbrev with_ttl : Option ℕ → Settings → Settings
with_ttl t s = record s { ttl = t }

abbrev with_specs : List IndexSpec → Settings → Settings
with_specs l s = record s { specs = l }

pub or_config_assoc :
    (a b old : Option Configuration)
    → or_config a (or_config b old) ≡ or_config (elim a [ some x ↦ some x | none ↦ b ]) old
or_config_assoc (some x) b old = refl
or_config_assoc none b old = refl

module _ {Value : Type 0} where
  settings-if :
      (b : Bool) (x y : Collection Value) (o : Settings)
      → settings x ≡ o
      → settings y ≡ o
      → settings (if b then x else y) ≡ o
  settings-if true x y o p q = p
  settings-if false x y o p q = q

  settings-swap_dropped :
      (b : Bool) (c : Collection Value) → settings (swap_dropped b c) ≡ settings c
  unfolding swap_dropped bump_rich
  settings-swap_dropped true c = settings-if c.dropped c _ (settings c) refl refl
  settings-swap_dropped false c = settings-if c.dropped _ c (settings c) refl refl

  settings-drop_ttl :
      (c : Collection Value) → settings (drop_ttl c) ≡ record (settings c) { ttl = none }
  unfolding drop_ttl bump_rich
  settings-drop_ttl c = go c.committed_ttl refl
    where
      go :
          (t : Option ℕ)
          → c.committed_ttl ≡ t
          → settings (if is_some t then bump_rich (record c { committed_ttl = none }) else c)
            ≡ record (settings c) { ttl = none }
      go (some t) e = refl
      go none e = ap (λ t. with_ttl t (settings c)) e

  settings-drop_definitions :
      (c : Collection Value) → settings (drop_definitions c) ≡ record (settings c) { specs = [] }
  unfolding drop_definitions bump_rich
  settings-drop_definitions c = go c.committed_indexes refl
    where
      go :
          (l : List IndexSpec)
          → c.committed_indexes ≡ l
          → settings (if is_empty l then c else bump_rich (record c { committed_indexes = [] }))
            ≡ record (settings c) { specs = [] }
      go (s ∷ l) e = refl
      go [] e = ap (λ l. with_specs l (settings c)) e

  settings-release_staged :
      (e : StagedEffect Value) (c : Collection Value) → settings (release_staged e c) ≡ settings c
  unfolding release_staged
  settings-release_staged (put_key key entry indexed) c = refl
  settings-release_staged (remove_staged key) c = refl
  settings-release_staged nothing c = refl
  settings-release_staged clear c = refl
  settings-release_staged (configure x) c = refl
  settings-release_staged (record_handover x) c = refl
  settings-release_staged (define_index x) c = refl
  settings-release_staged (set_ttl x) c = refl

  settings-apply_index_remove :
      (key : Bytes) (c : Collection Value) → settings (apply_index_remove key c) ≡ settings c
  unfolding apply_index_remove
  settings-apply_index_remove key c = elim (Option-cases (lookup key c.index)) [
    | inl e ↦ rw (e, apply_index_remove) refl
    | inr (old, e) ↦ rw (e, apply_index_remove) refl
  ]

  -- The settings with one effect laid over them.
  abbrev overlaid : StagedEffect Value → Settings → Settings
  overlaid e s = record {
    ttl = overlay_ttl_one e s.ttl;
    specs = overlay_one e s.specs;
    config = or_config (elim e [ configure config ↦ some config | _ ↦ none ]) s.config;
  }

module _ {Value : Type 0} (same_value : Value → Value → Bool) where
  settings-apply_effect :
      (e : StagedEffect Value) (c : Collection Value)
      → settings (apply_effect same_value e c) ≡ overlaid e (settings c)
  unfolding apply_effect clear_index bump_rich apply_index_put overlay_ttl_one overlay_one
  settings-apply_effect (put_key key entry indexed) c = settings-swap_dropped false _
  settings-apply_effect (remove_staged key) c =
      settings-swap_dropped false _ ∙ settings-apply_index_remove key c
  settings-apply_effect nothing c = refl
  settings-apply_effect clear c =
      settings-swap_dropped true _
      ∙ settings-drop_ttl _
      ∙ ap (with_ttl none) (settings-drop_definitions _)
  settings-apply_effect (configure x) c = refl
  settings-apply_effect (record_handover x) c = refl
  settings-apply_effect (define_index x) c = refl
  settings-apply_effect (set_ttl x) c = elim (Bool-cases (same_ttl c.committed_ttl x)) [
    | inl e ↦ rw (e, apply_effect) (ap (λ t. with_ttl t (settings c)) (same_ttl→eq _ x e))
    | inr e ↦ rw (e, apply_effect) refl
  ]

  settings-apply_one :
      (s : StagedApply Value) (c : Collection Value)
      → settings (apply_one same_value s c) ≡ overlaid s.effect (settings c)
  unfolding apply_one
  settings-apply_one s c = settings-release_staged s.effect _ ∙ settings-apply_effect s.effect c

  -- Applying frames and then laying the rest over the settings is laying all over them.
  pub ttl-apply_ready :
      (ready : Positions (StagedApply Value)) (c : Collection Value)
      → (apply_ready same_value ready c).committed_ttl ≡ overlay_ttl c.committed_ttl ready
  unfolding apply_ready overlay_ttl
  ttl-apply_ready [] c = refl
  ttl-apply_ready ((lsn, s) ∷ ready) c =
      ttl-apply_ready ready (apply_one same_value s c)
      ∙ ap (λ (v : Settings). overlay_ttl v.ttl ready) (settings-apply_one s c)

  pub specs-apply_ready :
      (ready : Positions (StagedApply Value)) (c : Collection Value)
      → (apply_ready same_value ready c).committed_indexes
        ≡ overlay_index_specs c.committed_indexes ready
  unfolding apply_ready overlay_index_specs
  specs-apply_ready [] c = refl
  specs-apply_ready ((lsn, s) ∷ ready) c =
      specs-apply_ready ready (apply_one same_value s c)
      ∙ ap (λ (v : Settings). overlay_index_specs v.specs ready) (settings-apply_one s c)

  pub config-apply_ready :
      (ready : Positions (StagedApply Value)) (c : Collection Value)
      → (apply_ready same_value ready c).committed_config
        ≡ or_config (find_last config_of ready) c.committed_config
  unfolding apply_ready find_last config_of
  config-apply_ready [] c = refl
  config-apply_ready ((lsn, s) ∷ ready) c =
      config-apply_ready ready (apply_one same_value s c)
      ∙ ap (λ (v : Settings). or_config (find_last config_of ready) v.config)
          (settings-apply_one s c)
      ∙ or_config_assoc (find_last config_of ready) (config_of s) c.committed_config
