-- ===== src/Translation/Cache/Reads.antt =====
-- crates/voicesub-translation/src/cache.rs: what a lookup finds, and which entry is evicted.
use mathlib.Core.List.Perm
use mathlib.Core.List.{Nodup}
use stream_sub_translator.Common.{
  ℕ, ◌+◌, ◌-◌, ◌<◌, ◌≡◌, refl, ◌∙◌, Bool, none, some, [], ◌∷◌, ◌++◌, length, drop, Text,
  Text-discrete, lookup, lookup-remove_self, lookup-drop-none, lookup-append_none, drop-append,
  remove, arith, length-append, Option-cases, inl, inr, keys, remove_absent, subst, present-perm,
}
use stream_sub_translator.Translation.Cache.{CacheState, insert_locked, get_locked}
use stream_sub_translator.Translation.Cache.Lru.{
  Entries, Holds, Holds-lookup, lru_touch, lru_insert, lru_get,
}
use stream_sub_translator.Translation.Cache.Insert.{touch-Holds, insert-Holds}

-- `get_locked` finds what the ideal list holds, and moves it to the back.
pub get-Holds :
    (key : Text) (s : CacheState) (l : Entries)
    → Holds s l
    → ((get_locked key s).1 ≡ lookup Text-discrete key l)
      × Holds (get_locked key s).0 (lru_get key l)
unfolding get_locked lru_get
get-Holds key s l h = elim (Option-cases (lookup Text-discrete key l)) [
  | inl miss ↦ rw (Holds-lookup key h, get_locked, miss, lru_get) (refl, h)
  | inr (v, hit) ↦
      rw (Holds-lookup key h, get_locked, hit, lru_get)
        (
          refl,
          touch-Holds key v v s l s.entries hit h
              (Perm.trans h.same_entries (present-perm Text-discrete key v l hit)),
        )
]

-- The key that was inserted is in the list, whatever was forgotten.
lookup-lru_insert :
    (bound : ℕ) (key value : Text) (l : Entries)
    → 0 < bound
    → Nodup (keys l)
    → lookup Text-discrete key (lru_insert bound key value l) ≡ some value
unfolding lru_insert lru_touch
lookup-lru_insert bound key value l pos d =
    let m = remove Text-discrete key l in
    let n = length (m ++ (key, value) ∷ []) - bound in
    rw (drop-append n m ((key, value) ∷ []) (omega (arith, length-append m ((key, value) ∷ [])))) (
      lookup-append_none Text-discrete key value (drop n m)
        (lookup-drop-none Text-discrete key n m (lookup-remove_self Text-discrete key l d)))

-- Right after a text is stored under a key, reading the key returns that text.
pub get-insert :
    (key value : Text) (mark_dirty : Bool) (s : CacheState) (l : Entries)
    → 0 < s.max_entries
    → Holds s l
    → (get_locked key (insert_locked key value mark_dirty s)).1 ≡ some value
get-insert key value mark_dirty s l pos h =
    (get-Holds key _ _ (insert-Holds key value mark_dirty s l pos h)).0
    ∙ lookup-lru_insert s.max_entries key value l pos h.distinct

-- A new key in a full cache: exactly the least recently used entry goes.
pub insert_full :
    (key value oldest w : Text) (mark_dirty : Bool) (s : CacheState) (l : Entries)
    → Holds s ((oldest, w) ∷ l)
    → length l + 1 ≡ s.max_entries
    → lookup Text-discrete key ((oldest, w) ∷ l) ≡ none
    → Holds (insert_locked key value mark_dirty s) (l ++ (key, value) ∷ [])
unfolding lru_insert lru_touch
insert_full key value oldest w mark_dirty s l h full fresh =
    subst (Holds (insert_locked key value mark_dirty s)) forgotten
      (insert-Holds key value mark_dirty s ((oldest, w) ∷ l) (omega arith) h)
  where
    forgotten : lru_insert s.max_entries key value ((oldest, w) ∷ l) ≡ l ++ (key, value) ∷ []
    forgotten =
        let e : length ((oldest, w) ∷ l ++ (key, value) ∷ []) - s.max_entries ≡ 1 =
          omega (arith, length-append l ((key, value) ∷ [])) in
        rw (remove_absent Text-discrete key ((oldest, w) ∷ l) fresh, e)
