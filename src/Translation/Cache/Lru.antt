-- ===== src/Translation/Cache/Lru.antt =====
-- crates/voicesub-translation/src/cache.rs against an ideal LRU list: the entries with the least
-- recently used first, which forgets its head when it grows past the bound.
use mathlib.Core.List.{erase, Perm, Nodup, perm_append_singleton}
use mathlib.Core.List.Perm
use stream_sub_translator.Common.{
  ℕ, ◌-◌, ◌≤◌, ◌≡◌, sym, ap, ◌∙◌, Option, none, some, List, [], ◌∷◌, ◌++◌, length, Text,
  Text-discrete, keys, lookup, remove, arith, drop, length-perm, length-append, keys-append,
  keys-remove, present-perm, lookup-perm,
}
use stream_sub_translator.Translation.Cache.{CacheState}

abbrev pub Entries : Type 0
Entries = List (Text × Text)

-- The specification: a used entry moves to the back, and the front is forgotten.
unfoldable pub lru_touch : Text → Text → Entries → Entries
lru_touch key value l = remove Text-discrete key l ++ (key, value) ∷ []

unfoldable pub lru_insert : ℕ → Text → Text → Entries → Entries
unfolding lru_touch
lru_insert bound key value l = let l' = lru_touch key value l in drop (length l' - bound) l'

unfoldable pub lru_get : Text → Entries → Entries
unfolding lru_touch
lru_get key l = elim (lookup Text-discrete key l) [ none ↦ l | some value ↦ lru_touch key value l ]

-- The cache holds the list `l`: its order is the order of `l`, and its table has the entries of
-- `l` in some order, each key once, no more than the bound.
pub record Holds (s : CacheState) (l : Entries) : Type 0 where
  pub ordered : s.order ≡ keys l
  pub same_entries : Perm s.entries l
  pub distinct : Nodup (keys l)
  pub bounded : length l ≤ s.max_entries

pub Option-set : IsSet (Option Text)
Option-set = hlevel

pub Holds-lookup :
    {s : CacheState} {l : Entries} (key : Text)
    → Holds s l
    → lookup Text-discrete key s.entries ≡ lookup Text-discrete key l
Holds-lookup key h =
    sym (lookup-perm Text-discrete key Option-set (Perm.symm h.same_entries) h.distinct)

-- Moving a key that is there to the back.
pub lru_touch-perm :
    (key v w : Text) (l : Entries)
    → lookup Text-discrete key l ≡ some w
    → (m : Entries) → Perm m ((key, v) ∷ remove Text-discrete key l)
    → Perm m (lru_touch key v l)
unfolding lru_touch
lru_touch-perm key v w l h m p =
    Perm.trans p (Perm.symm (perm_append_singleton (key, v) (remove Text-discrete key l)))

pub keys-lru_touch :
    (key v : Text) (l : Entries)
    → keys (lru_touch key v l) ≡ erase Text-discrete (keys l) key ++ key ∷ []
unfolding lru_touch
keys-lru_touch key v l =
    keys-append (remove Text-discrete key l) ((key, v) ∷ [])
    ∙ ap (λ ks. ks ++ key ∷ []) (keys-remove Text-discrete key l)

pub length-lru_touch :
    (key v w : Text) (l : Entries)
    → lookup Text-discrete key l ≡ some w
    → length (lru_touch key v l) ≡ length l
unfolding lru_touch
length-lru_touch key v w l h = omega (
  arith,
  length-append (remove Text-discrete key l) ((key, v) ∷ []),
  length-perm (present-perm Text-discrete key w l h),
)
