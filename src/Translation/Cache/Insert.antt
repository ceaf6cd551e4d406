-- ===== src/Translation/Cache/Insert.antt =====
-- crates/voicesub-translation/src/cache.rs: `insert_locked` and `evict_locked` implement the
-- insertion of the ideal LRU list.
use mathlib.Core.List.{erase, Perm, Nodup, Nodup-cons}
use mathlib.Core.List.Perm
use stream_sub_translator.Common.{
  ℕ, suc, drop-nil, ◌-◌, ◌≤◌, ◌<◌, ◌≡◌, refl, sym, ap, ◌∙◌, Bool, true, false, ltb, ltb→lt, ltb→le,
  none, some, List, [], ◌∷◌, ◌++◌, length, Text, Text-discrete, keys, lookup, insert, remove, ite,
  arith, drop, length-perm, length-drop, drop-Nodup, pos_not_zero, subst, keys-append,
  remove_absent, insert_absent, present-perm, insert-perm, remove-Nodup, lookup-perm, lookup-head,
  remove-perm, Bool-cases, Option-cases, inl, inr, if_pos, if_neg,
}
use stream_sub_translator.Translation.Cache.{
  CacheState, touch_locked, evict_loop, evict_locked, insert_locked, mark,
}
use stream_sub_translator.Translation.Cache.Lru.{
  Entries, lru_touch, lru_insert, Holds, Holds-lookup, Option-set, lru_touch-perm, keys-lru_touch,
  length-lru_touch,
}

record Evicts (l : Entries) (r : Entries × List Text × Bool) : Type 0 where
  order_kept : r.1 ≡ keys l
  entries_kept : Perm r.0 l

-- The loop drops the front of the list until it fits.
evict_loop-Evicts :
    (bound : ℕ) (entries l : Entries) (dirty : Bool)
    → Perm entries l
    → Nodup (keys l)
    → Evicts (drop (length l - bound) l) (evict_loop bound entries (keys l) dirty)
unfolding evict_loop
evict_loop-Evicts bound entries [] dirty p d =
    rw (drop-nil (0 - bound)) (record { order_kept = refl; entries_kept = p })
evict_loop-Evicts bound entries ((o, w) ∷ r) dirty p d =
    let hit : lookup Text-discrete o entries ≡ some w =
      sym (lookup-perm Text-discrete o Option-set (Perm.symm p) d)
      ∙ lookup-head Text-discrete o w r in
    elim (Bool-cases (ltb bound (length entries))) [
      | inl over ↦
          let e : suc (length r) - bound ≡ suc (length r - bound) =
            omega (arith, length-perm p, ltb→lt bound (length entries) over) in
          rw (over, e)
            (evict_loop-Evicts bound (remove Text-discrete o entries) r true
              (Perm.cons_inv
                (Perm.trans (Perm.symm (present-perm Text-discrete o w entries hit)) p))
              (Nodup-cons.0 d).1)
      | inr fits ↦
          let e : suc (length r) - bound ≡ 0 =
            omega (arith, length-perm p, ltb→le bound (length entries) fits) in
          rw (fits, e) (record { order_kept = refl; entries_kept = p })
    ]

-- Touching a key that is there, after its entry was replaced by one with the value `v`.
pub touch-Holds :
    (key v old : Text) (s : CacheState) (l entries' : Entries)
    → lookup Text-discrete key l ≡ some old
    → Holds s l
    → Perm entries' ((key, v) ∷ remove Text-discrete key l)
    → Holds (touch_locked key (record s { entries = entries' })) (lru_touch key v l)
unfolding touch_locked lru_touch
touch-Holds key v old s l entries' hit h p = record {
  ordered =
      ap (λ o. erase Text-discrete o key ++ key ∷ []) h.ordered ∙ sym (keys-lru_touch key v l);
  same_entries = lru_touch-perm key v old l hit entries' p;
  distinct = remove-Nodup Text-discrete key v l h.distinct;
  bounded = omega (arith, length-lru_touch key v old l hit);
}

mark-Holds : (b : Bool) (s : CacheState) (l : Entries) → Holds s l → Holds (mark b s) l
unfolding mark
mark-Holds true s l h = record {
  ordered = h.ordered;
  same_entries = h.same_entries;
  distinct = h.distinct;
  bounded = h.bounded;
}
mark-Holds false s l h = h

length-drop_excess : (bound : ℕ) (l : Entries) → length (drop (length l - bound) l) ≤ bound
length-drop_excess bound l = omega (arith, length-drop (length l - bound) l)

evict-Holds :
    (s : CacheState) (l : Entries)
    → 0 < s.max_entries
    → s.order ≡ keys l
    → Perm s.entries l
    → Nodup (keys l)
    → Holds (evict_locked s) (drop (length l - s.max_entries) l)
unfolding evict_locked
evict-Holds s l pos o p d =
    let l' = drop (length l - s.max_entries) l in
    let e : Evicts l' (evict_loop s.max_entries s.entries s.order s.dirty) =
      subst (λ ks. Evicts l' (evict_loop s.max_entries s.entries ks s.dirty)) (sym o)
        (evict_loop-Evicts s.max_entries s.entries l s.dirty p d) in
    rw (pos_not_zero s.max_entries pos) (record {
      ordered = e.order_kept;
      same_entries = e.entries_kept;
      distinct = drop-Nodup (length l - s.max_entries) l d;
      bounded = length-drop_excess s.max_entries l;
    })

insert_fresh-Holds :
    (key value : Text) (s : CacheState) (l : Entries)
    → 0 < s.max_entries
    → lookup Text-discrete key l ≡ none
    → Holds s l
    → Holds
        (evict_locked (record s {
          entries = insert Text-discrete key value s.entries;
          order = s.order ++ key ∷ [];
        }))
        (lru_insert s.max_entries key value l)
unfolding lru_insert lru_touch
insert_fresh-Holds key value s l pos miss h =
    let gone : remove Text-discrete key l ≡ l = remove_absent Text-discrete key l miss in
    let o : s.order ++ key ∷ [] ≡ keys (lru_touch key value l) =
      rw (gone, keys-append l ((key, value) ∷ [])) (ap (λ ks. ks ++ key ∷ []) h.ordered) in
    let p : Perm (insert Text-discrete key value s.entries) (lru_touch key value l) =
      rw (gone, insert_absent Text-discrete key value s.entries (Holds-lookup key h ∙ miss))
        (Perm.append_right ((key, value) ∷ []) h.same_entries) in
    evict-Holds _ (lru_touch key value l) pos o p
      (remove-Nodup Text-discrete key value l h.distinct)

lru_insert_present :
    (bound : ℕ) (key value old : Text) (l : Entries)
    → lookup Text-discrete key l ≡ some old
    → length l ≤ bound
    → lru_insert bound key value l ≡ lru_touch key value l
unfolding lru_insert
lru_insert_present bound key value old l hit h =
    let e : length (lru_touch key value l) - bound ≡ 0 =
      omega (arith, length-lru_touch key value old l hit) in
    rw e

insert_present-Holds :
    (key value old : Text) (mark_dirty : Bool) (s : CacheState) (l : Entries)
    → lookup Text-discrete key l ≡ some old
    → Holds s l
    → Holds
        (ite (Text-discrete old value) (touch_locked key s) (
          mark mark_dirty
            (touch_locked key (record s { entries = insert Text-discrete key value s.entries }))))
        (lru_insert s.max_entries key value l)
insert_present-Holds key value old mark_dirty s l hit h =
    let there = Holds-lookup key h ∙ hit in
    let same = remove-perm Text-discrete key there hit h.same_entries in
    rw (lru_insert_present s.max_entries key value old l hit h.bounded)
      (elim (Text-discrete old value) [
        | yes e ↦ rw (if_pos _ e) (
            touch-Holds key value old s l s.entries hit h (
              Perm.trans h.same_entries (present-perm Text-discrete key value l (hit ∙ ap some e))))
        | no e ↦ rw (if_neg _ e) (
            mark-Holds mark_dirty _ _ (
              touch-Holds key value old s l _ hit h (
                Perm.trans (insert-perm Text-discrete key value old s.entries there)
                  (Perm.cons (key, value) same))))
      ])

-- An insertion into the hash map and the deque of keys, with its eviction and under a positive
-- bound, does what an insertion into the list in order of recency does: the key goes to the back
-- with its new value, and the front goes as long as the list is longer than the bound.
pub insert-Holds :
    (key value : Text) (mark_dirty : Bool) (s : CacheState) (l : Entries)
    → 0 < s.max_entries
    → Holds s l
    → Holds (insert_locked key value mark_dirty s) (lru_insert s.max_entries key value l)
unfolding insert_locked lru_insert
insert-Holds key value mark_dirty s l pos h = elim (Option-cases (lookup Text-discrete key l)) [
  | inl miss ↦
      rw (Holds-lookup key h ∙ miss, insert_locked, pos_not_zero s.max_entries pos)
        (mark-Holds mark_dirty _ _ (insert_fresh-Holds key value s l pos miss h))
  | inr (old, hit) ↦
      rw (Holds-lookup key h ∙ hit, insert_locked, pos_not_zero s.max_entries pos)
        (insert_present-Holds key value old mark_dirty s l hit h)
]
