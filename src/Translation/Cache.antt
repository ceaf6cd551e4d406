-- ===== src/Translation/Cache.antt =====
-- crates/voicesub-translation/src/cache.rs: the LRU cache of translated texts, in memory.
-- Reading and writing the cache file is in Cache/Persist.
pub mod Lru
pub mod Insert
pub mod Reads
pub mod Persist
use mathlib.Core.List.{erase}
use stream_sub_translator.Common.{
  ℕ, ◌+◌, ◌≡◌, Bool, true, false, if◌then◌else◌, ltb, ◌==◌, Option, none, some, List, [], ◌∷◌, ◌++◌,
  length, Text, Text-discrete, keys, lookup, insert, remove, max, ite,
}

pub record CacheState : Type 0 where
  pub entries : List (Text × Text)
  pub order : List Text
  pub max_entries : ℕ
  pub enabled : Bool
  pub persist : Bool
  pub dirty : Bool
  pub loaded : Bool
  pub cache_file : Option Text
  pub last_flush_scheduled : Option ℕ

-- `order.position(key)`, `order.remove(pos)`, `order.push_back(key)`.
unfoldable pub touch_locked : Text → CacheState → CacheState
touch_locked key s = record s { order = erase Text-discrete s.order key ++ key ∷ [] }

-- The `while` loop of `evict_locked`, over the entries, the order and the dirty flag.
unfoldable pub evict_loop :
    ℕ → List (Text × Text) → List Text → Bool → List (Text × Text) × List Text × Bool
evict_loop bound entries [] dirty = (entries, [], dirty)
evict_loop bound entries (oldest ∷ order) dirty =
    let rest = evict_loop bound (remove Text-discrete oldest entries) order true in
    if ltb bound (length entries) then rest else (entries, oldest ∷ order, dirty)

unfoldable pub evict_locked : CacheState → CacheState
evict_locked s =
    let (entries', order', dirty') = evict_loop s.max_entries s.entries s.order s.dirty in
    if s.max_entries == 0
    then record s { entries = []; order = []; dirty = true }
    else record s { entries = entries'; order = order'; dirty = dirty' }

-- `if mark_dirty { self.dirty = true; }`.
mark : Bool → CacheState → CacheState
mark mark_dirty s = if mark_dirty then record s { dirty = true } else s

unfoldable pub insert_locked : Text → Text → Bool → CacheState → CacheState
unfolding mark
insert_locked key value mark_dirty s =
    if s.max_entries == 0 then s else elim (lookup Text-discrete key s.entries) [
      | some old ↦ ite (Text-discrete old value) (touch_locked key s) (
          mark mark_dirty
            (touch_locked key (record s { entries = insert Text-discrete key value s.entries })))
      | none ↦ mark mark_dirty (
          evict_locked (record s {
            entries = insert Text-discrete key value s.entries;
            order = s.order ++ key ∷ [];
          }))
    ]

pub get_locked : Text → CacheState → CacheState × Option Text
get_locked key s = elim (lookup Text-discrete key s.entries) [
  | none ↦ (s, none)
  | some value ↦ (touch_locked key s, some value)
]
