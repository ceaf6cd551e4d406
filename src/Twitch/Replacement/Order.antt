-- ===== src/Twitch/Replacement/Order.antt =====
-- The pairs to replace: the pair of a key, and the order of the pairs.
use mathlib.Core.List.Perm
use mathlib.Core.List.{Perm}
use stream_sub_translator.Common.{
  ℕ, ◌≤◌, ltb, ltb→lt, ltb→le, Bool-cases, inl, inr, ◌≡◌, refl, Bool, true, if◌then◌else◌, if_both,
  ite, Option, none, some, List, [], ◌∷◌, map, Text, Text-discrete, byte_len, is_empty, trim,
  lookup, lookup-insert, insert, arith, sym, ap, ◌∙◌,
}
use stream_sub_translator.Twitch.Replacement.{
  SourceTextReplacementPair, SourceTextReplacementSettings, take_pairs, max_pairs, Merged, key_for,
  add_custom, or_insert, add_builtin, merge_pairs, insert_longest, sort_longest, value_of,
  effective_replacement_pairs,
}

abbrev pub or_else {ℓ} : {A : Type ℓ} → Option A → Option A → Option A
or_else (some x) other = some x
or_else none other = other

-- What one pair gives to the key.
unfoldable pub given : Bool → Text → SourceTextReplacementPair → Option (Text × Text)
unfolding key_for trim
given case_insensitive key pair =
    let source = trim pair.source in
    if is_empty source
    then none
    else ite (Text-discrete (key_for case_insensitive source) key) (some (source, pair.target)) none

unfoldable pub first_of : Bool → Text → List SourceTextReplacementPair → Option (Text × Text)
unfolding given
first_of case_insensitive key [] = none
first_of case_insensitive key (pair ∷ pairs) =
    or_else (given case_insensitive key pair) (first_of case_insensitive key pairs)

unfoldable pub last_of : Bool → Text → List SourceTextReplacementPair → Option (Text × Text)
unfolding given
last_of case_insensitive key [] = none
last_of case_insensitive key (pair ∷ pairs) =
    or_else (last_of case_insensitive key pairs) (given case_insensitive key pair)

or_else_assoc {ℓ} :
    {A : Type ℓ} (a b c : Option A) → or_else a (or_else b c) ≡ or_else (or_else a b) c
or_else_assoc none b c = refl
or_else_assoc (some x) b c = refl

or_else-none {ℓ} : {A : Type ℓ} (a : Option A) → or_else a none ≡ a
or_else-none none = refl
or_else-none (some x) = refl

set_given :
    (case_insensitive : Bool) (key : Text) (pair : SourceTextReplacementPair) (m : Merged)
    → lookup Text-discrete key (
        if is_empty (trim pair.source)
        then m
        else insert Text-discrete
            (key_for case_insensitive (trim pair.source))
            (trim pair.source, pair.target)
            m)
      ≡ or_else (given case_insensitive key pair) (lookup Text-discrete key m)
unfolding given
set_given case_insensitive key pair m =
    let inserted =
      lookup-insert Text-discrete (key_for case_insensitive (trim pair.source)) key
        (trim pair.source, pair.target) m in
    ground (arith, inserted)

lookup-add_custom :
    (case_insensitive : Bool) (key : Text) (pairs : List SourceTextReplacementPair) (m : Merged)
    → lookup Text-discrete key (add_custom case_insensitive pairs m)
      ≡ or_else (last_of case_insensitive key pairs) (lookup Text-discrete key m)
unfolding add_custom last_of
lookup-add_custom case_insensitive key [] m = refl
lookup-add_custom case_insensitive key (pair ∷ pairs) m =
    lookup-add_custom case_insensitive key pairs _
    ∙ ap (or_else (last_of case_insensitive key pairs)) (set_given case_insensitive key pair m)
    ∙ or_else_assoc (last_of case_insensitive key pairs) (given case_insensitive key pair)
        (lookup Text-discrete key m)

lookup-or_insert :
    (k j : Text) (v : Text × Text) (m : Merged)
    → lookup Text-discrete j (or_insert k v m)
      ≡ or_else (lookup Text-discrete j m) (ite (Text-discrete k j) (some v) none)
unfolding or_insert
lookup-or_insert k j v m =
    let inserted = lookup-insert Text-discrete k j v m in
    let kept = or_else-none (lookup Text-discrete j m) in ground (arith, inserted, kept)

set_absent :
    (case_insensitive : Bool) (key : Text) (pair : SourceTextReplacementPair) (m : Merged)
    → lookup Text-discrete key (
        if is_empty (trim pair.source)
        then m
        else or_insert
            (key_for case_insensitive (trim pair.source))
            (trim pair.source, pair.target)
            m)
      ≡ or_else (lookup Text-discrete key m) (given case_insensitive key pair)
unfolding given
set_absent case_insensitive key pair m =
    let inserted =
      lookup-or_insert (key_for case_insensitive (trim pair.source)) key
        (trim pair.source, pair.target) m in
    let kept = or_else-none (lookup Text-discrete key m) in ground (arith, inserted, kept)

lookup-add_builtin :
    (case_insensitive : Bool) (key : Text) (pairs : List SourceTextReplacementPair) (m : Merged)
    → lookup Text-discrete key (add_builtin case_insensitive pairs m)
      ≡ or_else (lookup Text-discrete key m) (first_of case_insensitive key pairs)
unfolding add_builtin first_of
lookup-add_builtin case_insensitive key [] m = sym (or_else-none (lookup Text-discrete key m))
lookup-add_builtin case_insensitive key (pair ∷ pairs) m =
    lookup-add_builtin case_insensitive key pairs _
    ∙ ap (λ found. or_else found (first_of case_insensitive key pairs))
        (set_absent case_insensitive key pair m)
    ∙ sym (
        or_else_assoc (lookup Text-discrete key m) (given case_insensitive key pair)
          (first_of case_insensitive key pairs))

-- A key of the merged pairs has the last custom pair of that key among the first hundred, where there is one,
-- and otherwise the first built-in pair of that key, where the built-in pairs are included.
pub lookup-merge_pairs :
    (builtin : List SourceTextReplacementPair) (settings : SourceTextReplacementSettings)
    (key : Text)
    → lookup Text-discrete key (merge_pairs builtin settings)
      ≡ or_else (last_of settings.case_insensitive key (take_pairs max_pairs settings.pairs)) (
          if settings.include_builtin then first_of settings.case_insensitive key builtin else none)
unfolding merge_pairs lookup
lookup-merge_pairs builtin settings key =
    let custom =
      lookup-add_custom settings.case_insensitive key (take_pairs max_pairs settings.pairs) [] in
    let both =
      lookup-add_builtin settings.case_insensitive key builtin
        (add_custom settings.case_insensitive (take_pairs max_pairs settings.pairs) []) in
    let kept =
      or_else-none (last_of settings.case_insensitive key (take_pairs max_pairs settings.pairs)) in
    ground (arith, custom, both, kept)

-- No source is longer than the bound, and none than the one before it.
unfoldable pub IsBelow : ℕ → List (Text × Text) → Type 0
IsBelow bound [] = Unit
IsBelow bound (pair ∷ pairs) = (byte_len pair.0 ≤ bound) × IsBelow (byte_len pair.0) pairs

-- No pair has a longer source than the one before it.
unfoldable pub IsLongestFirst : List (Text × Text) → Type 0
unfolding IsBelow
IsLongestFirst [] = Unit
IsLongestFirst (pair ∷ pairs) = IsBelow (byte_len pair.0) pairs

insert_longest-IsBelow :
    (bound : ℕ) (pair : Text × Text) (pairs : List (Text × Text))
    → byte_len pair.0 ≤ bound
    → IsBelow bound pairs
    → IsBelow bound (insert_longest pair pairs)
unfolding insert_longest IsBelow
insert_longest-IsBelow bound pair [] h below = (h, tt)
insert_longest-IsBelow bound pair (other ∷ pairs) h below =
    elim (Bool-cases (ltb (byte_len pair.0) (byte_len other.0))) [
      | inl e ↦
          let lt = ltb→lt (byte_len pair.0) (byte_len other.0) e in
          rw e (below.0, insert_longest-IsBelow (byte_len other.0) pair pairs (omega arith) below.1)
      | inr e ↦ rw e (h, (ltb→le (byte_len pair.0) (byte_len other.0) e, below.1))
    ]

insert_longest-IsLongestFirst :
    (pair : Text × Text) (pairs : List (Text × Text))
    → IsLongestFirst pairs
    → IsLongestFirst (insert_longest pair pairs)
unfolding insert_longest IsLongestFirst
insert_longest-IsLongestFirst pair [] h = tt
insert_longest-IsLongestFirst pair (other ∷ pairs) h =
    elim (Bool-cases (ltb (byte_len pair.0) (byte_len other.0))) [
      | inl e ↦
          let lt = ltb→lt (byte_len pair.0) (byte_len other.0) e in
          rw e (insert_longest-IsBelow (byte_len other.0) pair pairs (omega arith) h)
      | inr e ↦ rw e (ltb→le (byte_len pair.0) (byte_len other.0) e, h)
    ]

sort_longest-IsLongestFirst : (pairs : List (Text × Text)) → IsLongestFirst (sort_longest pairs)
unfolding sort_longest IsLongestFirst
sort_longest-IsLongestFirst [] = tt
sort_longest-IsLongestFirst (pair ∷ pairs) =
    insert_longest-IsLongestFirst pair (sort_longest pairs) (sort_longest-IsLongestFirst pairs)

insert_longest-perm :
    (pair : Text × Text) (pairs : List (Text × Text))
    → Perm (pair ∷ pairs) (insert_longest pair pairs)
unfolding insert_longest
insert_longest-perm pair [] = Perm.refl (pair ∷ [])
insert_longest-perm pair (other ∷ pairs) =
    if_both (Perm (pair ∷ other ∷ pairs)) (ltb (byte_len pair.0) (byte_len other.0))
      (other ∷ insert_longest pair pairs) (pair ∷ other ∷ pairs)
      (Perm.trans (Perm.swap other pair pairs) (Perm.cons other (insert_longest-perm pair pairs)))
      (Perm.refl (pair ∷ other ∷ pairs))

sort_longest-perm : (pairs : List (Text × Text)) → Perm pairs (sort_longest pairs)
unfolding sort_longest
sort_longest-perm [] = Perm.nil
sort_longest-perm (pair ∷ pairs) =
    Perm.trans (Perm.cons pair (sort_longest-perm pairs))
      (insert_longest-perm pair (sort_longest pairs))

-- Where replacement is enabled, and the order of the values of the map gives all of them, the pairs to replace
-- are the pairs of the map, each as often as it is there, and the longest source first.
pub effective_replacement_pairs-IsLongestFirst :
    (value_order : List (Text × Text) → List (Text × Text))
    (builtin : List SourceTextReplacementPair) (settings : SourceTextReplacementSettings)
    (every : (pairs : List (Text × Text)) → Perm pairs (value_order pairs))
    → settings.enabled ≡ true
    → IsLongestFirst (effective_replacement_pairs value_order builtin settings)
      × Perm
          (map value_of (merge_pairs builtin settings))
          (effective_replacement_pairs value_order builtin settings)
unfolding effective_replacement_pairs
effective_replacement_pairs-IsLongestFirst value_order builtin settings every h =
    let values = map value_of (merge_pairs builtin settings) in
    rw h (
      sort_longest-IsLongestFirst (value_order values),
      Perm.trans (every values) (sort_longest-perm (value_order values)),
    )
