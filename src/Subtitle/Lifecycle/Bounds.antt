-- ===== src/Subtitle/Lifecycle/Bounds.antt =====
-- crates/voicesub-subtitle/src/lifecycle.rs: how many records pruning leaves.
use stream_sub_translator.Common.{
  ℕ, suc, ◌+◌, ◌-◌, ◌≤◌, ◌<◌, max, ltb, leb, ◌≡◌, refl, ap, Bool, false, not, ◌||◌, if◌then◌else◌,
  ◌==◌, length, keep, Option, none, some, List, [], ◌∷◌, ℕ_discrete, remove, keys, Bool-cases,
  arith, inl, inr,
}
use stream_sub_translator.Subtitle.Presentation.{SubtitleRecord}
use stream_sub_translator.Subtitle.Lifecycle.{SubtitleLifecycleCore, is_sequence}
use stream_sub_translator.Subtitle.Lifecycle.Promotion.{
  is_protected, sorted_insert, sort, prune_loop, prune_old_records, partial_sequence, records_max,
}

abbrev Records : Type 0
Records = List (ℕ × SubtitleRecord)

-- How often a sequence stands in a list.
abbrev count : ℕ → List ℕ → ℕ
count n [] = 0
count n (x ∷ xs) = (if x == n then 1 else 0) + count n xs

-- Each key stands once.
abbrev Distinct : List ℕ → Type 0
Distinct xs = (n : ℕ) → count n xs ≤ 1

length-remove :
    (n : ℕ) (rs : Records) → 0 < count n (keys rs) → length (remove ℕ_discrete n rs) + 1 ≡ length rs
unfolding remove
length-remove n [] h = absurd (omega arith)
length-remove n (r ∷ rs) h = ground (arith, length-remove n rs)

count-remove :
    (n m : ℕ) (rs : Records)
    → count m (keys (remove ℕ_discrete n rs)) ≡ count m (keys rs) - (if n == m then 1 else 0)
unfolding remove
count-remove n m [] = ground arith
count-remove n m (r ∷ rs) = ground (arith, count-remove n m rs)

-- Each element of the list is a key, as often as it stands there, so that all of them can go.
prune_loop-length :
    (xs : List ℕ) (rs : Records)
    → ((n : ℕ) → count n xs ≤ count n (keys rs))
    → length (prune_loop xs rs) ≤ max records_max (length rs - length xs)
unfolding prune_loop
prune_loop-length [] rs h = omega arith
prune_loop-length (x ∷ xs) rs h =
    let short : length (remove ℕ_discrete x rs) + 1 ≡ length rs =
      length-remove x rs (ground (arith, h x)) in
    let less =
      prune_loop-length xs (remove ℕ_discrete x rs)
        (λ n. ground (arith, h n, count-remove x n rs)) in
    elim (Bool-cases (ltb records_max (length rs))) [
      | inl e ↦ ground (arith, less, short)
      | inr e ↦ ground arith
    ]

count-sorted_insert : (n x : ℕ) (xs : List ℕ) → count n (sorted_insert x xs) ≡ count n (x ∷ xs)
unfolding sorted_insert
count-sorted_insert n x [] = refl
count-sorted_insert n x (y ∷ xs) = ground (arith, count-sorted_insert n x xs)

count-sort : (n : ℕ) (xs : List ℕ) → count n (sort xs) ≡ count n xs
unfolding sort
count-sort n [] = refl
count-sort n (x ∷ xs) = omega (arith, count-sorted_insert n x (sort xs), count-sort n xs)

length-sorted_insert : (x : ℕ) (xs : List ℕ) → length (sorted_insert x xs) ≡ length xs + 1
unfolding sorted_insert
length-sorted_insert x [] = refl
length-sorted_insert x (y ∷ xs) = ground (arith, length-sorted_insert x xs)

length-sort : (xs : List ℕ) → length (sort xs) ≡ length xs
unfolding sort
length-sort [] = refl
length-sort (x ∷ xs) = omega (arith, length-sorted_insert x (sort xs), length-sort xs)

count-keep-le : (p : ℕ → Bool) (n : ℕ) (xs : List ℕ) → count n (keep p xs) ≤ count n xs
count-keep-le p n [] = omega arith
count-keep-le p n (x ∷ xs) = ground (arith, count-keep-le p n xs)

length-keep-not :
    (p : ℕ → Bool) (xs : List ℕ)
    → length (keep p xs) + length (keep (λ n. not (p n)) xs) ≡ length xs
length-keep-not p [] = refl
length-keep-not p (x ∷ xs) = ground (arith, length-keep-not p xs)

length-keep-or :
    (p q : ℕ → Bool) (xs : List ℕ)
    → length (keep (λ n. p n || q n) xs) ≤ length (keep p xs) + length (keep q xs)
length-keep-or p q [] = omega arith
length-keep-or p q (x ∷ xs) = ground (arith, length-keep-or p q xs)

length-keep-none : (xs : List ℕ) → length (keep (λ n. false) xs) ≡ 0
length-keep-none [] = refl
length-keep-none (x ∷ xs) = length-keep-none xs

length-keep-count : (s : ℕ) (xs : List ℕ) → length (keep (λ n. s == n) xs) ≡ count s xs
length-keep-count s [] = refl
length-keep-count s (x ∷ xs) = ground (arith, length-keep-count s xs)

-- Of distinct sequences, one at most is a given one.
length-keep-is_sequence :
    (o : Option ℕ) (xs : List ℕ) → Distinct xs → length (keep (λ n. is_sequence n o) xs) ≤ 1
length-keep-is_sequence none xs d = omega (arith, length-keep-none xs)
length-keep-is_sequence (some s) xs d = omega (arith, length-keep-count s xs, d s)

protected-le :
    (c : SubtitleLifecycleCore) (xs : List ℕ) → Distinct xs → length (keep (is_protected c) xs) ≤ 4
unfolding is_protected
protected-le c xs d =
    let completed : ℕ → Bool = λ n. is_sequence n c.completed_sequence in
    let pending : ℕ → Bool = λ n. is_sequence n c.pending_final_sequence in
    let latest : ℕ → Bool = λ n. is_sequence n c.latest_final_sequence in
    let active : ℕ → Bool = λ n. is_sequence n (partial_sequence c.active_partial) in
    omega (
      arith,
      length-keep-or completed (λ n. pending n || (latest n || active n)) xs,
      length-keep-or pending (λ n. latest n || active n) xs,
      length-keep-or latest active xs,
      length-keep-is_sequence c.completed_sequence xs d,
      length-keep-is_sequence c.pending_final_sequence xs d,
      length-keep-is_sequence c.latest_final_sequence xs d,
      length-keep-is_sequence (partial_sequence c.active_partial) xs d,
    )

length-keys : (rs : Records) → length (keys rs) ≡ length rs
length-keys [] = refl
length-keys (r ∷ rs) = ap suc (length-keys rs)

-- Pruning leaves 512 records at most, however many there were: the four sequences that it may not
-- remove never keep it from its bound.
pub prune_old_records-bounded :
    (c : SubtitleLifecycleCore)
    → Distinct (keys c.records)
    → length (prune_old_records c).records ≤ records_max
unfolding prune_old_records
prune_old_records-bounded c d =
    let free = keep (λ s. not (is_protected c s)) (keys c.records) in
    let removable = sort free in
    let left = prune_loop-length removable c.records (λ n.
      omega (
        arith,
        count-sort n free,
        count-keep-le (λ s. not (is_protected c s)) n (keys c.records),
      )) in
    elim (Bool-cases (leb (length c.records) records_max)) [
      | inl e ↦ ground arith
      | inr e ↦ rw (e) (
          omega (
            arith,
            left,
            length-sort free,
            length-keep-not (is_protected c) (keys c.records),
            protected-le c (keys c.records) d,
            length-keys c.records,
          ))
    ]
