-- ===== src/Subtitle/Lifecycle/Invariant.antt =====
-- crates/voicesub-subtitle/src/lifecycle.rs: every sequence that the lifecycle names has its record.
use stream_sub_translator.Common.{
  ℕ, ◌≡◌, refl, ap, ◌∙◌, inl, inr, Bool, true, false, not, ◌||◌, ◌==◌, any, keep, Option, none,
  some, List, [], ◌∷◌, ℕ_discrete, lookup, insert, remove, keys, lookup-insert, lookup-remove_ne,
  Bool-cases, if_both, arith, eq_iff_ℕ,
}
use stream_sub_translator.Subtitle.Presentation.{SubtitleRecord}
use stream_sub_translator.Subtitle.Lifecycle.{SubtitleLifecycleCore, record_of, is_there}
use stream_sub_translator.Subtitle.Lifecycle.Promotion.{
  is_protected, sorted_insert, sort, prune_loop, prune_old_records, not_sequence,
}
use stream_sub_translator.Subtitle.Lifecycle.Tracking.{IsFramed, IsSettled}

abbrev pub Records : Type 0
Records = List (ℕ × SubtitleRecord)

-- A sequence, if there is one, has a record.
abbrev pub knows : Records → Option ℕ → Bool
knows rs none = true
knows rs (some s) = is_there (lookup ℕ_discrete s rs)

abbrev pub IsTracked : SubtitleLifecycleCore → Type 0
IsTracked c =
    (knows c.records c.completed_sequence ≡ true)
    × (knows c.records c.pending_final_sequence ≡ true)
    × (knows c.records c.latest_final_sequence ≡ true)

knows-not_sequence :
    (s : ℕ) (rs : Records) (o : Option ℕ) → knows rs o ≡ true → knows rs (not_sequence s o) ≡ true
knows-not_sequence s rs none h = refl
knows-not_sequence s rs (some p) h = if_both (λ o. knows rs o ≡ true) (p == s) none (some p) refl h

pub settled-IsTracked :
    (s : ℕ) (c d : SubtitleLifecycleCore)
    → IsSettled s c d
    → knows c.records (some s) ≡ true
    → IsTracked c
    → IsTracked d
unfolding record_of
settled-IsTracked s c d (same, latest, inl (p, q, there)) k t = (
  rw (same, p) k,
  rw (same, q) (knows-not_sequence s c.records c.pending_final_sequence t.1),
  rw (same, latest) t.2,
)
settled-IsTracked s c d (same, latest, inr (p, q)) k t =
    (rw (same, p) t.0, rw (same, q) k, rw (same, latest) t.2)

pub framed-IsTracked : (c d : SubtitleLifecycleCore) → IsFramed c d → IsTracked c → IsTracked d
framed-IsTracked c d (r, p, q, l) t = (rw (r, p) t.0, rw (r, q) t.1, rw (r, l) t.2)

pub knows-insert :
    (s : ℕ) (r : SubtitleRecord) (rs : Records) (o : Option ℕ)
    → knows rs o ≡ true
    → knows (insert ℕ_discrete s r rs) o ≡ true
knows-insert s r rs none h = refl
knows-insert s r rs (some j) h = ground (arith, lookup-insert ℕ_discrete s j r rs)

pub knows-insert_self :
    (s : ℕ) (r : SubtitleRecord) (rs : Records) → knows (insert ℕ_discrete s r rs) (some s) ≡ true
knows-insert_self s r rs = ground (arith, lookup-insert ℕ_discrete s s r rs)

-- Pruning leaves what it does not remove.
abbrev has_sequence : ℕ → List ℕ → Bool
has_sequence s xs = any (λ x. x == s) xs

has_sequence-sorted_insert :
    (s n : ℕ) (xs : List ℕ) → has_sequence s (sorted_insert n xs) ≡ (n == s) || has_sequence s xs
unfolding sorted_insert
has_sequence-sorted_insert s n [] = refl
has_sequence-sorted_insert s n (x ∷ xs) = ground (arith, has_sequence-sorted_insert s n xs)

has_sequence-sort : (s : ℕ) (xs : List ℕ) → has_sequence s (sort xs) ≡ has_sequence s xs
unfolding sort
has_sequence-sort s [] = refl
has_sequence-sort s (x ∷ xs) =
    has_sequence-sorted_insert s x (sort xs) ∙ ap (λ b. (x == s) || b) (has_sequence-sort s xs)

has_sequence-keep :
    (p : ℕ → Bool) (s : ℕ) (xs : List ℕ) → p s ≡ false → has_sequence s (keep p xs) ≡ false
has_sequence-keep p s [] h = refl
has_sequence-keep p s (x ∷ xs) h = elim (Bool-cases (x == s)) [
  | inl e ↦
      let px : p x ≡ false = ap p ((eq_iff_ℕ x s).0 e) ∙ h in
      ground (arith, has_sequence-keep p s xs h)
  | inr e ↦ ground (arith, has_sequence-keep p s xs h)
]

lookup-prune_loop :
    (s : ℕ) (xs : List ℕ) (rs : Records)
    → has_sequence s xs ≡ false
    → lookup ℕ_discrete s (prune_loop xs rs) ≡ lookup ℕ_discrete s rs
unfolding prune_loop
lookup-prune_loop s [] rs h = refl
lookup-prune_loop s (x ∷ xs) rs h =
    if_both (λ (m : Records). lookup ℕ_discrete s m ≡ lookup ℕ_discrete s rs) _ _ _
      (lookup-prune_loop s xs (remove ℕ_discrete x rs) (ground arith)
        ∙ lookup-remove_ne ℕ_discrete x s rs (ground (arith, eq_iff_ℕ x s)))
      refl

pub lookup-prune_old_records :
    (s : ℕ) (c : SubtitleLifecycleCore)
    → is_protected c s ≡ true
    → record_of s (prune_old_records c) ≡ record_of s c
unfolding prune_old_records record_of
lookup-prune_old_records s c h =
    if_both (λ (m : Records). lookup ℕ_discrete s m ≡ lookup ℕ_discrete s c.records) _ _ _ refl
      (lookup-prune_loop s _ c.records (
        has_sequence-sort s (keep (λ s. not (is_protected c s)) (keys c.records))
        ∙ has_sequence-keep (λ s. not (is_protected c s)) s (keys c.records) (ap not h)))
