-- ===== src/Translation/Cache/Persist/Reload.antt =====
-- crates/voicesub-translation/src/cache.rs: a flushed cache is found again by a new process.
use mathlib.Core.List.{append_assoc, append-nil, Nodup, Nodup-nil, Perm}
use mathlib.Core.List.Perm
use stream_sub_translator.Common.{
  ℕ, suc, ◌-◌, ◌≤◌, ◌<◌, ◌≡◌, refl, sym, ◌∙◌, Bool, true, false, if◌then◌else◌, none, some, [], ◌∷◌,
  ◌++◌, length, Text, Text-discrete, codes, max, keys, lookup, arith, length-append, length-perm,
  remove_absent, lookup-perm, keys-perm, fresh_of_Nodup, subst,
}
use stream_sub_translator.Translation.Cache.{CacheState, evict_locked, touch_locked, insert_locked}
use stream_sub_translator.Translation.Cache.Lru.{
  Entries, Holds, Holds-lookup, Option-set, lru_insert, lru_touch,
}
use stream_sub_translator.Translation.Cache.Insert.{insert-Holds}
use stream_sub_translator.Translation.Cache.Reads.{get-Holds}
use stream_sub_translator.Translation.Cache.Persist.{
  Storage, unwrap_or, new, write_atomic, load, ensure_loaded, get, read_file, read_payload,
}

max_entries-insert_locked :
    (key value : Text) (mark_dirty : Bool) (s : CacheState)
    → (insert_locked key value mark_dirty s).max_entries ≡ s.max_entries
unfolding insert_locked evict_locked touch_locked
max_entries-insert_locked key value mark_dirty s = ground arith

-- With room for a new key nothing is forgotten.
lru_insert_room :
    (bound : ℕ) (key value : Text) (l : Entries)
    → length l < bound
    → lookup Text-discrete key l ≡ none
    → lru_insert bound key value l ≡ l ++ (key, value) ∷ []
unfolding lru_insert lru_touch
lru_insert_room bound key value l room fresh =
    let e : length (l ++ (key, value) ∷ []) - bound ≡ 0 =
      omega (arith, length-append l ((key, value) ∷ [])) in
    rw (remove_absent Text-discrete key l fresh, e)

load-Holds :
    (payload : Entries) (s : CacheState) (l : Entries)
    → Holds s l
    → Nodup (keys (l ++ payload))
    → length (l ++ payload) ≤ s.max_entries
    → Holds (load payload s) (l ++ payload)
unfolding load
load-Holds [] s l h d room = rw append-nil h
load-Holds ((key, value) ∷ payload) s l h d room =
    let fits : suc (length l) ≤ s.max_entries =
      omega (arith, length-append l ((key, value) ∷ payload)) in
    let s' = insert_locked key value false s in
    let more : Holds s' (l ++ (key, value) ∷ []) =
      subst (Holds s')
        (lru_insert_room s.max_entries key value l fits
          (fresh_of_Nodup Text-discrete key value l payload d))
        (insert-Holds key value false s l (omega arith) h) in
    let e : (l ++ (key, value) ∷ []) ++ payload ≡ l ++ (key, value) ∷ payload =
      append_assoc l ((key, value) ∷ []) payload in
    subst (Holds (load payload s')) e (
      load-Holds payload s' (l ++ (key, value) ∷ []) more (rw e d)
        (rw (e, max_entries-insert_locked key value false s) room))

module _ (storage : Storage) where
  open storage use {
    Disk, read_to_string, write, rename, path_exists, create_parent, join, with_extension, from_str,
    to_string_pretty,
  }

  -- What the cache relies on: a write that succeeds is read back, a rename moves the content,
  -- making the parent folder touches no file, and the codec gives the entries back in some order.
  pub record IsFaithful : Type 0 where
    pub read-write :
        (p t : Text) (d d' : Disk) → write p t d ≡ (d', true) → read_to_string p d' ≡ some t
    pub read-rename :
        (p q : Text) (d d' : Disk)
        → rename p q d ≡ (d', true)
        → read_to_string q d' ≡ read_to_string p d
    pub read-create_parent :
        (p q : Text) (d : Disk) → read_to_string p (create_parent q d) ≡ read_to_string p d
    pub exists-read : (p t : Text) (d : Disk) → read_to_string p d ≡ some t → path_exists p d ≡ true
    pub from_str-to_string :
        (m : Entries) (t : Text)
        → to_string_pretty m ≡ some t
        → (m' : Entries) × (from_str t ≡ some m') × Perm m' m

  module _ (laws : IsFaithful) where
    -- After an atomic write that succeeds the file holds the printed entries.
    read_written :
        (temp path t : Text) (d d' : Disk) (r : Disk × Bool)
        → write temp t d ≡ r
        → (if r.1 then rename temp path r.0 else (r.0, false)) ≡ (d', true)
        → read_to_string path d' ≡ some t
    read_written temp path t d d' (d'', true) w e =
        laws.read-rename temp path d'' d' e ∙ laws.read-write temp t d d'' w
    read_written temp path t d d' (d'', false) w e = absurd (ground arith)

    read-write_atomic :
        (path t : Text) (m : Entries) (d d' : Disk)
        → to_string_pretty m ≡ some t
        → write_atomic storage path m d ≡ (d', true)
        → read_to_string path d' ≡ some t
    unfolding write_atomic
    read-write_atomic path t m d d' printed e =
        read_written (with_extension path (codes "tmp")) path t d d' _ refl (
          subst
            (λ o.
              (let r = write (with_extension path (codes "tmp")) (unwrap_or (codes "{}") o) d in
                if r.1 then rename (with_extension path (codes "tmp")) path r.0 else (r.0, false))
              ≡ (d', true))
            printed e)

    read_file-some :
        (path t : Text) (m : Entries) (s : CacheState) (d : Disk)
        → read_to_string path d ≡ some t
        → from_str t ≡ some m
        → read_file storage (some path) s d ≡ (d, record (load m s) { dirty = false })
    unfolding read_file read_payload
    read_file-some path t m s d r parsed = rw (r, read_payload, parsed)

    -- What a new cache over the file holds once it is loaded.
    loaded-Holds :
        (m l : Entries) (s : CacheState) (d : Disk) (path t : Text)
        → s.cache_file ≡ some path
        → s.loaded ≡ false
        → Holds s []
        → length l ≤ s.max_entries
        → Nodup (keys l)
        → Perm m l
        → read_to_string path d ≡ some t
        → to_string_pretty m ≡ some t
        → (m' : Entries) × Perm m' l × Holds (ensure_loaded storage (d, s)).1 m'
    unfolding ensure_loaded
    loaded-Holds m l s d path t file fresh h room distinct p r printed =
        let (m', parsed, q) = laws.from_str-to_string m t printed in
        let q' = Perm.trans q p in
        (
          m',
          q',
          loaded m' parsed (
              load-Holds m' s' [] started (Perm.nodup (Perm.symm (keys-perm q')) distinct)
                (omega (arith, length-perm q'))),
        )
      where
        s' : CacheState
        s' = record s { loaded = true }

        started : Holds s' []
        started = record {
          ordered = h.ordered;
          same_entries = h.same_entries;
          distinct = h.distinct;
          bounded = h.bounded;
        }

        loaded :
            (m' : Entries)
            → from_str t ≡ some m'
            → Holds (load m' s') m'
            → Holds (ensure_loaded storage (d, s)).1 m'
        loaded m' parsed k =
            subst (λ b. Holds (if b then (d, s) else read_file storage s.cache_file s' d).1 m')
              (sym fresh)
              (subst (λ f. Holds (read_file storage f s' d).1 m') (sym file)
                (rw (read_file-some path t m' s' d r parsed) (record {
                  ordered = k.ordered;
                  same_entries = k.same_entries;
                  distinct = k.distinct;
                  bounded = k.bounded;
                })))

    -- A cache that was flushed with success, started again over the same file with room for its
    -- entries, answers every `get` as the cache that was flushed.
    pub get-reload :
        (dir t key : Text) (bound : ℕ) (s : CacheState) (l : Entries) (d d' : Disk)
        → Holds s l
        → length l ≤ max bound 1
        → to_string_pretty s.entries ≡ some t
        → write_atomic storage (join dir (codes "translation_cache.json")) s.entries d ≡ (d', true)
        → (get storage key (new storage (some dir) bound d')).1 ≡ lookup Text-discrete key s.entries
    unfolding new get
    get-reload dir t key bound s l d d' h room printed flushed =
        let path = join dir (codes "translation_cache.json") in
        let d'' = create_parent path d' in
        let r : read_to_string path d'' ≡ some t =
          laws.read-create_parent path path d'
          ∙ read-write_atomic path t s.entries d d' printed flushed in
        let (m', p, k) =
          loaded-Holds s.entries l (new storage (some dir) bound d').1 d'' path t refl refl
            (record {
              ordered = refl;
              same_entries = Perm.nil;
              distinct = Nodup-nil;
              bounded = omega arith;
            })
            room h.distinct h.same_entries r printed in
        rw (laws.exists-read path t d'' r) (
          (get-Holds key _ m' k).0
          ∙ sym (lookup-perm Text-discrete key Option-set (Perm.symm p) h.distinct)
          ∙ sym (Holds-lookup key h))
