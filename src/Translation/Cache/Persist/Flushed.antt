-- ===== src/Translation/Cache/Persist/Flushed.antt =====
-- crates/voicesub-translation/src/cache.rs: what a new process reads after an insertion that was flushed.
use stream_sub_translator.Common.{
  ℕ, ◌≤◌, ◌<◌, max, length, ◌≡◌, ◌≢◌, refl, sym, ap, ◌∙◌, Bool, true, false, some, Text,
  Text-discrete, codes, lookup, arith, pos_not_zero,
}
use stream_sub_translator.Translation.Cache.{CacheState, evict_locked, touch_locked, insert_locked}
use stream_sub_translator.Translation.Cache.Lru.{Entries, Holds, Holds-lookup, lru_insert}
use stream_sub_translator.Translation.Cache.Insert.{insert-Holds}
use stream_sub_translator.Translation.Cache.Persist.{
  Storage, new, write_atomic, flush_to, maybe_flush, ensure_loaded, get, insert,
}
use stream_sub_translator.Translation.Cache.Persist.Reload.{IsFaithful, get-reload}

-- An insertion leaves where the cache is kept.
insert_locked-frame :
    (key value : Text) (mark_dirty : Bool) (s : CacheState)
    → ((insert_locked key value mark_dirty s).persist ≡ s.persist)
      × ((insert_locked key value mark_dirty s).cache_file ≡ s.cache_file)
unfolding insert_locked evict_locked touch_locked
insert_locked-frame key value mark_dirty s = ground arith

-- A value that is new for its key makes the cache dirty.
insert_locked-dirty :
    (key value : Text) (s : CacheState)
    → 0 < s.max_entries
    → lookup Text-discrete key s.entries ≢ some value
    → (insert_locked key value true s).dirty ≡ true
unfolding insert_locked
insert_locked-dirty key value s pos other = ground (arith, pos_not_zero s.max_entries pos)

module _ (storage : Storage) where
  open storage use {Disk, join, to_string_pretty}

  -- A dirty cache that is clean after `maybe_flush` has been written.
  maybe_flush-written :
      (now : ℕ) (path : Text) (d : Disk) (s : CacheState)
      → s.persist ≡ true
      → s.dirty ≡ true
      → s.cache_file ≡ some path
      → (maybe_flush storage now (d, s)).1.dirty ≡ false
      → write_atomic storage path s.entries d ≡ ((maybe_flush storage now (d, s)).0, true)
  unfolding maybe_flush flush_to
  maybe_flush-written now path d s p e f clean = ground arith

  -- An insertion is the change of the loaded cache and then the flush.
  insert-flush :
      (now : ℕ) (key value : Text) (d : Disk) (s : CacheState)
      → s.loaded ≡ true
      → s.enabled ≡ true
      → 0 < s.max_entries
      → insert storage now key value (d, s)
        ≡ maybe_flush storage now (d, insert_locked key value true s)
  unfolding insert ensure_loaded
  insert-flush now key value d s l e pos = rw (l, e, pos_not_zero s.max_entries pos) refl

  -- On a storage that keeps its laws, a value that its key does not have yet is inserted into a loaded and
  -- enabled cache of a positive bound that is kept in a file, the entries can be printed, and the
  -- cache is clean after it, which it is only if the write went well. Then a new cache over the same
  -- file and what the disk is now, with room for the entries, answers every `get` as the ideal list
  -- does with the new value at its end and the oldest entries beyond the bound dropped.
  pub insert-reload :
      (laws : IsFaithful storage) (now bound : ℕ) (dir key value asked t : Text) (d : Disk)
      (s : CacheState) (l : Entries)
      → Holds s l
      → s.loaded ≡ true
      → s.enabled ≡ true
      → s.persist ≡ true
      → s.cache_file ≡ some (join dir (codes "translation_cache.json"))
      → 0 < s.max_entries
      → lookup Text-discrete key s.entries ≢ some value
      → length (lru_insert s.max_entries key value l) ≤ max bound 1
      → to_string_pretty (insert_locked key value true s).entries ≡ some t
      → (insert storage now key value (d, s)).1.dirty ≡ false
      → (get storage asked (new storage (some dir) bound (insert storage now key value (d, s)).0)).1
        ≡ lookup Text-discrete asked (lru_insert s.max_entries key value l)
  insert-reload laws now bound dir key value asked t d s l h loaded enabled persist file pos other
        room printed clean =
      let after = insert_locked key value true s in
      let holds = insert-Holds key value true s l pos h in
      let (same_persist, same_file) = insert_locked-frame key value true s in
      let e = insert-flush now key value d s loaded enabled pos in
      let written =
        maybe_flush-written now (join dir (codes "translation_cache.json")) d after
          (same_persist ∙ persist) (insert_locked-dirty key value s pos other) (same_file ∙ file)
          (sym (ap (λ (w : Disk × CacheState). w.1.dirty) e) ∙ clean) in
      ap (λ (w : Disk × CacheState). (get storage asked (new storage (some dir) bound w.0)).1) e
      ∙ get-reload storage laws dir t asked bound after (lru_insert s.max_entries key value l) d
          (maybe_flush storage now (d, after)).0 holds room printed written
      ∙ Holds-lookup asked holds
