-- ===== src/Translation/Cache/Persist.antt =====
-- crates/voicesub-translation/src/cache.rs: the public operations, with the cache file. The file
-- system and the JSON codec are not the program's: they are a parameter, and a disk is a value
-- that each call passes on. Times are in milliseconds.
pub mod Reload
pub mod Flushed
use stream_sub_translator.Common.{
  ℕ, ◌-◌, Bool, true, false, not, ◌&&◌, ◌||◌, if◌then◌else◌, ltb, ◌==◌, Option, none, some, List,
  [], ◌∷◌, Text, codes, max,
}
use stream_sub_translator.Translation.Cache.{CacheState, evict_locked, insert_locked, get_locked}
use stream_sub_translator.Translation.Cache.Lru.{Entries}

-- `std::fs` and `serde_json`, as far as the cache calls them. `none` and `false` are errors.
pub record Storage : Type 1 where
  pub Disk : Type 0
  pub read_to_string : Text → Disk → Option Text
  pub write : Text → Text → Disk → Disk × Bool
  pub rename : Text → Text → Disk → Disk × Bool
  pub path_exists : Text → Disk → Bool
  pub create_parent : Text → Disk → Disk
  pub join : Text → Text → Text
  pub with_extension : Text → Text → Text
  pub from_str : Text → Option Entries
  pub to_string_pretty : Entries → Option Text

-- `FLUSH_INTERVAL`.
abbrev flush_interval : ℕ
flush_interval = 2000

abbrev pub unwrap_or {ℓ} : {A : Type ℓ} → A → Option A → A
unwrap_or d none = d
unwrap_or d (some a) = a

abbrev pub is_some {ℓ} : {A : Type ℓ} → Option A → Bool
is_some none = false
is_some (some a) = true

-- The loop `for (key, value) in payload` of `ensure_loaded`.
unfoldable pub load : Entries → CacheState → CacheState
load [] s = s
load ((key, value) ∷ payload) s = load payload (insert_locked key value false s)

module _ (storage : Storage) where
  open storage use {
    Disk, read_to_string, write, rename, path_exists, create_parent, join, with_extension, from_str,
    to_string_pretty,
  }

  abbrev World : Type 0
  World = Disk × CacheState

  -- `CacheState::new`.
  prepare_file : Option Text → Disk → Disk
  prepare_file none d = d
  prepare_file (some path) d =
      let d' = create_parent path d in
      if path_exists path d' then d' else (write path (codes "{}") d').0

  cache_path : Option Text → Option Text
  cache_path none = none
  cache_path (some dir) = some (join dir (codes "translation_cache.json"))

  unfoldable pub new : Option Text → ℕ → Disk → World
  unfolding prepare_file cache_path
  new cache_dir max_entries d =
      let cache_file = cache_path cache_dir in
      (
        prepare_file cache_file d,
        record {
          entries = [];
          order = [];
          max_entries = max max_entries 1;
          enabled = true;
          persist = is_some cache_file;
          dirty = false;
          loaded = false;
          cache_file = cache_file;
          last_flush_scheduled = none;
        },
      )

  unfoldable pub write_atomic : Text → Entries → Disk → Disk × Bool
  write_atomic path payload d =
      let temp = with_extension path (codes "tmp") in
      let body = unwrap_or (codes "{}") (to_string_pretty payload) in
      let (d', written) = write temp body d in if written then rename temp path d' else (d', false)

  -- `ensure_loaded` after `loaded` is set, by what the file holds.
  read_payload : Text → Option Text → CacheState → Disk → World
  unfolding load
  read_payload path none s d = (d, s)
  read_payload path (some raw) s d = elim (from_str raw) [
    | none ↦ ((write path (codes "{}") d).0, s)
    | some payload ↦ (d, record (load payload s) { dirty = false })
  ]

  read_file : Option Text → CacheState → Disk → World
  unfolding read_payload
  read_file none s d = (d, s)
  read_file (some path) s d = read_payload path (read_to_string path d) s d

  unfoldable pub ensure_loaded : World → World
  unfolding read_file
  ensure_loaded (d, s) =
      if s.loaded then (d, s) else read_file s.cache_file (record s { loaded = true }) d

  erase_file : Option Text → Disk → Disk
  unfolding write_atomic
  erase_file none d = d
  erase_file (some path) d = (write_atomic path [] d).0

  clear_locked : World → World
  unfolding erase_file
  clear_locked (d, s) = (
    (if s.persist then erase_file s.cache_file d else d),
    record s { entries = []; order = []; dirty = false },
  )

  -- `maybe_flush` once the interval is over: a failed write leaves the cache dirty.
  flush_to : Option Text → CacheState → Disk → World
  unfolding write_atomic
  flush_to none s d = (d, s)
  flush_to (some path) s d =
      let (d', written) = write_atomic path s.entries d in (d', record s { dirty = not written })

  too_soon : ℕ → Option ℕ → Bool
  too_soon now none = false
  too_soon now (some last) = ltb (now - last) flush_interval

  maybe_flush : ℕ → World → World
  unfolding flush_to too_soon
  maybe_flush now (d, s) =
      if not s.persist || not s.dirty
      then (d, s)
      else if too_soon now s.last_flush_scheduled
      then (d, s)
      else flush_to s.cache_file (record s { last_flush_scheduled = some now }) d

  -- `TranslationCache::clear`, `get`, `insert` and `update_settings`.
  clear : World → World
  unfolding clear_locked ensure_loaded
  clear w = clear_locked (ensure_loaded w)

  unfoldable pub get : Text → World → World × Option Text
  unfolding ensure_loaded
  get key (d, s) =
      let (d', s') = ensure_loaded (d, s) in
      let (s'', found) = get_locked key s' in
      if not s.enabled then ((d, s), none) else ((d', s''), found)

  unfoldable pub insert : ℕ → Text → Text → World → World
  unfolding ensure_loaded maybe_flush
  insert now key value (d, s) =
      let (d', s') = ensure_loaded (d, s) in
      if not s.enabled || s.max_entries == 0
      then (d, s)
      else maybe_flush now (d', insert_locked key value true s')

  resize : Option ℕ → CacheState → CacheState
  resize none s = s
  resize (some bound) s = evict_locked (record s { max_entries = max bound 1 })

  set_persist : Bool → CacheState → CacheState
  set_persist persist s =
      if not persist
      then record s { persist = false }
      else if is_some s.cache_file
      then record s { persist = true }
      else s

  update_settings : ℕ → Bool → Bool → Option ℕ → World → World
  unfolding clear_locked maybe_flush resize set_persist
  update_settings now enabled persist max_entries (d, s) =
      if not enabled
      then clear_locked (d, record s { enabled = false })
      else maybe_flush now
          (d, set_persist persist (resize max_entries (record s { enabled = true })))
