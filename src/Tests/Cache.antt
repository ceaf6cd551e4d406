-- ===== src/Tests/Cache.antt =====
-- Runs of the translation cache, a disk and a codec for it, and its theorems at concrete inputs.
use mathlib.Core.List.{append_assoc, append-nil, Nodup-nil, Nodup-cons, not-mem-nil}
use mathlib.Core.List.Perm
use mathlib.Core.Option.{get_or}
use stream_sub_translator.Common.{
  zero, suc, ◌≡◌, ◌≢◌, refl, sym, ap, ◌∙◌, Bool, true, false, Option, none, some, List, [], ◌∷◌,
  ◌++◌, Text, Text-discrete, codes, lookup, insert, remove, lookup-insert_self, arith,
}
use stream_sub_translator.Translation.Cache.{
  CacheState, evict_locked, evict_loop, insert_locked, get_locked,
}
use stream_sub_translator.Translation.Cache.Lru.{Entries, Holds, lru_insert, lru_get}
use stream_sub_translator.Translation.Cache.Insert.{insert-Holds}
use stream_sub_translator.Translation.Cache.Reads.{get-Holds}
use stream_sub_translator.Translation.Cache.Persist.{
  Storage, is_some, new, get, insert as cache_insert,
}
use stream_sub_translator.Translation.Cache.Persist.Reload.{IsFaithful}
use stream_sub_translator.Translation.Cache.Persist.Flushed.{insert-reload}

abbrev one : Entries
one = (codes "a", codes "1") ∷ []

abbrev holding_one : CacheState
holding_one = record {
  entries = one;
  order = codes "a" ∷ [];
  max_entries = 1;
  enabled = true;
  persist = true;
  dirty = true;
  loaded = true;
  cache_file = some (codes "f");
  last_flush_scheduled = none;
}

holding_one-Holds : Holds holding_one one
holding_one-Holds = record {
  ordered = refl;
  same_entries = Perm.refl one;
  distinct = Nodup-cons.1 (not-mem-nil, Nodup-nil);
  bounded = omega arith;
}

insert-Holds_example :
    Holds
      (insert_locked (codes "b") (codes "2") true holding_one)
      (lru_insert 1 (codes "b") (codes "2") one)
insert-Holds_example =
    insert-Holds (codes "b") (codes "2") true holding_one one (omega arith) holding_one-Holds

get-Holds_example :
    ((get_locked (codes "a") holding_one).1 ≡ lookup Text-discrete (codes "a") one)
    × Holds (get_locked (codes "a") holding_one).0 (lru_get (codes "a") one)
get-Holds_example = get-Holds (codes "a") holding_one one holding_one-Holds

-- A codec: each code point is written as its successor, and zero ends a text.
encode : Text → Text → Text
encode [] rest = zero ∷ rest
encode (c ∷ s) rest = suc c ∷ encode s rest

print : Entries → Text
unfolding encode
print [] = []
print ((k, v) ∷ m) = encode k (encode v (print m))

tokens : Text → Text → List Text
tokens [] current = []
tokens (zero ∷ s) current = current ∷ tokens s []
tokens (suc c ∷ s) current = tokens s (current ++ c ∷ [])

pair_up : List Text → Entries
pair_up [] = []
pair_up (k ∷ []) = []
pair_up (k ∷ v ∷ ts) = (k, v) ∷ pair_up ts

parse : Text → Entries
unfolding tokens pair_up
parse t = pair_up (tokens t [])

tokens-encode :
    (s current rest : Text) → tokens (encode s rest) current ≡ (current ++ s) ∷ tokens rest []
unfolding tokens encode
tokens-encode [] current rest = rw append-nil
tokens-encode (c ∷ s) current rest =
    tokens-encode s (current ++ c ∷ []) rest
    ∙ ap (λ t. t ∷ tokens rest []) (append_assoc current (c ∷ []) s)

parse-print : (m : Entries) → parse (print m) ≡ m
unfolding parse print
parse-print [] = refl
parse-print ((k, v) ∷ m) =
    ap pair_up (tokens-encode k [] (encode v (print m)) ∙ ap (◌∷◌ k) (tokens-encode v [] (print m)))
    ∙ ap (◌∷◌ (k, v)) (parse-print m)

-- A disk in memory, on which no call fails but the rename of a file that is not there.
abbrev Files : Type 0
Files = List (Text × Text)

move_content : Text → Text → Option Text → Files → Files × Bool
move_content p q none d = (d, false)
move_content p q (some t) d = (insert Text-discrete q t (remove Text-discrete p d), true)

abbrev memory : Storage
memory = record {
  Disk = Files;
  read_to_string = lookup Text-discrete;
  write = λ p t d. (insert Text-discrete p t d, true);
  rename = λ p q d. move_content p q (lookup Text-discrete p d) d;
  path_exists = λ p d. is_some (lookup Text-discrete p d);
  create_parent = λ p d. d;
  join = λ dir name. dir ++ codes "/" ++ name;
  with_extension = λ p e. p ++ codes "." ++ e;
  from_str = λ t. some (parse t);
  to_string_pretty = λ m. some (print m);
}

move_content-read :
    (p q : Text) (o : Option Text) (d d' : Files)
    → move_content p q o d ≡ (d', true)
    → lookup Text-discrete q d' ≡ o
unfolding move_content
move_content-read p q none d d' e = absurd (ground arith)
move_content-read p q (some t) d d' e =
    ap (λ (r : Files × Bool). lookup Text-discrete q r.0) (sym e)
    ∙ lookup-insert_self Text-discrete q t (remove Text-discrete p d)

memory-IsFaithful : IsFaithful memory
memory-IsFaithful = record {
  read-write = λ p t d d' e.
      ap (λ (r : Files × Bool). lookup Text-discrete p r.0) (sym e)
      ∙ lookup-insert_self Text-discrete p t d;
  read-rename = λ p q d d' e. move_content-read p q (lookup Text-discrete p d) d d' e;
  read-create_parent = λ p q d. refl;
  exists-read = λ p t d e. ap is_some e;
  from_str-to_string = λ m t e.
      (m, ap (λ o. some (parse (get_or o []))) (sym e) ∙ ap some (parse-print m), Perm.refl m);
}

-- The full cache is kept in the file of the folder `d`.
abbrev kept : CacheState
kept = record holding_one { cache_file = some (codes "d/translation_cache.json") }

kept-Holds : Holds kept one
kept-Holds = record {
  ordered = refl;
  same_entries = Perm.refl one;
  distinct = Nodup-cons.1 (not-mem-nil, Nodup-nil);
  bounded = omega arith;
}

absent_b : lookup Text-discrete (codes "b") one ≢ some (codes "2")
unfolding lookup Text-discrete
absent_b e = ground arith

insert-reload_example :
    (get memory (codes "b") (
      new memory
        (some (codes "d"))
        5
        (cache_insert memory 0 (codes "b") (codes "2") ([], kept)).0)).1
    ≡ lookup Text-discrete (codes "b") (lru_insert 1 (codes "b") (codes "2") one)
unfolding cache_insert insert_locked evict_locked evict_loop lru_insert lookup remove Text-discrete
    move_content insert
insert-reload_example =
    insert-reload memory memory-IsFaithful 0 5 (codes "d") (codes "b") (codes "2") (codes "b")
      (print (insert_locked (codes "b") (codes "2") true kept).entries) [] kept one kept-Holds refl
      refl refl refl (omega arith) absent_b (omega arith) refl refl
