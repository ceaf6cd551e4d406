-- ===== src/Common/MapLaws.antt =====
-- Maps up to the order of their entries: what a hash table's iteration order may change.
use Prim.Native.Nat.{ℕ, zero, suc}
use mathlib.Core.HLevel.{⊥_prop}
use mathlib.Core.Path.{◌≡◌, refl, ap, ◌∙◌}
use mathlib.Core.Logic.{◌≢◌, if_pos, if_neg, ∥∥₁_elim, ∥∥₁_map}
use mathlib.Core.Logic.Or
use mathlib.Core.List.Nodup
use mathlib.Core.List.Perm
use mathlib.Core.List.{
  List, [], ◌∷◌, ◌++◌, Mem, Perm, Permᴰ, Nodup, Nodup-cons, erase, erase-sublist, not-mem-nil,
  mem-cons_self, mem-cons_of_mem, eq-or-mem_of_mem-cons, perm_append_singleton, perm_middle,
}
use mathlib.Core.Option.{Option, none, some}
use native.Mathlib.Nat.{ℕ_set}
use native.Mathlib.Omega.{arith}
use stream_sub_translator.Common.Lists.{length, drop}
use stream_sub_translator.Common.Maps.{keys, lookup, insert, remove}

module _ {ℓ} {A : Type ℓ} where
  length-permᴰ : {xs ys : List A} → Permᴰ xs ys → length xs ≡ length ys
  length-permᴰ Permᴰ.nil = refl
  length-permᴰ (Permᴰ.cons e p) = ap suc (length-permᴰ p)
  length-permᴰ (Permᴰ.swap e f) = refl
  length-permᴰ (Permᴰ.trans p q) = length-permᴰ p ∙ length-permᴰ q

  pub length-perm : {xs ys : List A} → Perm xs ys → length xs ≡ length ys
  length-perm p = ∥∥₁_elim p (ℕ_set _ _) length-permᴰ

heads-ne {ℓ} : {K : Type ℓ} {a b : K} {l : List K} → Nodup (a ∷ b ∷ l) → a ≢ b
heads-ne d e = (Nodup-cons.0 d).0 (rw e mem-cons_self)

module _ {ℓ} {K V : Type ℓ} where
  pub keys-append : (m n : List (K × V)) → keys (m ++ n) ≡ keys m ++ keys n
  keys-append [] n = refl
  keys-append (e ∷ m) n = ap (◌∷◌ e.0) (keys-append m n)

  keys-permᴰ : {m n : List (K × V)} → Permᴰ m n → Permᴰ (keys m) (keys n)
  keys-permᴰ Permᴰ.nil = Permᴰ.nil
  keys-permᴰ (Permᴰ.cons e p) = Permᴰ.cons (ap (λ t. t.0) e) (keys-permᴰ p)
  keys-permᴰ (Permᴰ.swap e f) = Permᴰ.swap (ap (λ t. t.0) e) (ap (λ t. t.0) f)
  keys-permᴰ (Permᴰ.trans p q) = Permᴰ.trans (keys-permᴰ p) (keys-permᴰ q)

  pub keys-perm : {m n : List (K × V)} → Perm m n → Perm (keys m) (keys n)
  keys-perm p = ∥∥₁_map p keys-permᴰ

  pub drop-Nodup : (n : ℕ) (m : List (K × V)) → Nodup (keys m) → Nodup (keys (drop n m))
  drop-Nodup zero m d = d
  drop-Nodup (suc n) [] d = d
  drop-Nodup (suc n) (e ∷ m) d = drop-Nodup n m (Nodup-cons.0 d).1

module _ {ℓ} {K V : Type ℓ} (dec : Discrete K) where
  pub keys-remove : (k : K) (m : List (K × V)) → keys (remove dec k m) ≡ erase dec (keys m) k
  unfolding remove
  keys-remove k [] = refl
  keys-remove k (e ∷ m) = ground (arith, keys-remove k m)

  pub remove_absent : (k : K) (m : List (K × V)) → lookup dec k m ≡ none → remove dec k m ≡ m
  unfolding lookup remove
  remove_absent k [] h = refl
  remove_absent k (e ∷ m) h = ground (arith, remove_absent k m)

  pub insert_absent :
      (k : K) (v : V) (m : List (K × V))
      → lookup dec k m ≡ none
      → insert dec k v m ≡ m ++ (k, v) ∷ []
  unfolding lookup insert
  insert_absent k v [] h = refl
  insert_absent k v (e ∷ m) h = ground (arith, insert_absent k v m)

  pub lookup-head : (k : K) (v : V) (m : List (K × V)) → lookup dec k ((k, v) ∷ m) ≡ some v
  unfolding lookup
  lookup-head k v m = ground arith

  -- An entry that is there can be moved to the front, and `insert` replaces it.
  pub present-perm :
      (k : K) (w : V) (m : List (K × V))
      → lookup dec k m ≡ some w
      → Perm m ((k, w) ∷ remove dec k m)
  unfolding lookup remove
  present-perm k w [] h = absurd (ground arith)
  present-perm k w (e ∷ m) h = elim (dec e.0 k) [
    | yes p ↦ rw (if_pos _ p) (Perm.cons' (ground arith) (Perm.refl m))
    | no p ↦
        rw (if_neg _ p)
          (Perm.trans (Perm.cons e (present-perm k w m (ground arith))) (Perm.swap _ e _))
  ]

  pub insert-perm :
      (k : K) (v w : V) (m : List (K × V))
      → lookup dec k m ≡ some w
      → Perm (insert dec k v m) ((k, v) ∷ remove dec k m)
  unfolding lookup insert remove
  insert-perm k v w [] h = absurd (ground arith)
  insert-perm k v w (e ∷ m) h = elim (dec e.0 k) [
    | yes p ↦ rw (if_pos _ p, if_pos _ p) (Perm.refl _)
    | no p ↦
        rw (if_neg _ p, if_neg _ p)
          (Perm.trans (Perm.cons e (insert-perm k v w m (ground arith))) (Perm.swap _ e _))
  ]

  not-mem_of_lookup : (k : K) (m : List (K × V)) → lookup dec k m ≡ none → ¬ Mem k (keys m)
  unfolding lookup
  not-mem_of_lookup k [] h = not-mem-nil
  not-mem_of_lookup k (e ∷ m) h = λ i.
      Or.elim ⊥_prop (eq-or-mem_of_mem-cons i) (λ here. ground arith)
        (not-mem_of_lookup k m (ground arith))

  pub remove-Nodup :
      (k : K) (v : V) (m : List (K × V))
      → Nodup (keys m)
      → Nodup (keys (remove dec k m ++ (k, v) ∷ []))
  remove-Nodup k v m d =
      rw (keys-append (remove dec k m) ((k, v) ∷ []), keys-remove k m)
        (Perm.nodup (Perm.symm (perm_append_singleton k (erase dec (keys m) k))) (
          Nodup-cons.1
            (λ i. ((Nodup.mem-erase_iff dec d).0 i).0 refl, Nodup.sublist (erase-sublist dec k) d)))

  lookup-permᴰ :
      (k : K) {m n : List (K × V)} → Permᴰ m n → Nodup (keys m) → lookup dec k m ≡ lookup dec k n
  unfolding lookup
  lookup-permᴰ k Permᴰ.nil d = refl
  lookup-permᴰ k (Permᴰ.cons e p) d = ground (arith, lookup-permᴰ k p (Nodup-cons.0 d).1)
  lookup-permᴰ k (Permᴰ.swap e f) d = ground (arith, heads-ne d)
  lookup-permᴰ k (Permᴰ.trans p q) d =
      lookup-permᴰ k p d ∙ lookup-permᴰ k q (Perm.nodup ∣ keys-permᴰ p ∣₁ d)

  -- Where each key stands once, the order of the entries does not matter to a lookup.
  pub lookup-perm :
      (k : K) {m n : List (K × V)}
      → IsSet (Option V)
      → Perm m n
      → Nodup (keys m)
      → lookup dec k m ≡ lookup dec k n
  lookup-perm k s p d = ∥∥₁_elim p (s _ _) (λ q. lookup-permᴰ k q d)

  -- `remove` agrees on two orders of the same entries.
  pub remove-perm :
      (k : K) {w : V} {m n : List (K × V)}
      → lookup dec k m ≡ some w
      → lookup dec k n ≡ some w
      → Perm m n
      → Perm (remove dec k m) (remove dec k n)
  remove-perm k {w} {m} {n} hm hn p =
      Perm.cons_inv
        (Perm.trans (Perm.symm (present-perm k w m hm)) (Perm.trans p (present-perm k w n hn)))

  none_of_not-mem : (k : K) (m : List (K × V)) → ¬ Mem k (keys m) → lookup dec k m ≡ none
  unfolding lookup
  none_of_not-mem k [] h = refl
  none_of_not-mem k (e ∷ m) h = elim (dec e.0 k) [
    | yes p ↦ absurd (h (rw (← p) mem-cons_self))
    | no p ↦ rw (if_neg _ p) (none_of_not-mem k m (λ i. h (mem-cons_of_mem e.0 i)))
  ]

  pub lookup-remove_self :
      (k : K) (m : List (K × V)) → Nodup (keys m) → lookup dec k (remove dec k m) ≡ none
  lookup-remove_self k m d =
      none_of_not-mem k _ (rw (keys-remove k m) (λ i. ((Nodup.mem-erase_iff dec d).0 i).0 refl))

  pub lookup-drop-none :
      (k : K) (n : ℕ) (m : List (K × V)) → lookup dec k m ≡ none → lookup dec k (drop n m) ≡ none
  unfolding lookup
  lookup-drop-none k zero m h = h
  lookup-drop-none k (suc n) [] h = refl
  lookup-drop-none k (suc n) (e ∷ m) h = lookup-drop-none k n m (ground arith)

  pub lookup-append_none :
      (k : K) (v : V) (m : List (K × V))
      → lookup dec k m ≡ none
      → lookup dec k (m ++ (k, v) ∷ []) ≡ some v
  unfolding lookup
  lookup-append_none k v [] h = ground arith
  lookup-append_none k v (e ∷ m) h = ground (arith, lookup-append_none k v m)

  lookup-none-append :
      (k : K) (m n : List (K × V)) → lookup dec k (m ++ n) ≡ none → lookup dec k m ≡ none
  unfolding lookup
  lookup-none-append k [] n h = refl
  lookup-none-append k (e ∷ m) n h = ground (arith, lookup-none-append k m n)

  -- In a list where each key stands once, a key is not among those before it.
  pub fresh_of_Nodup :
      (k : K) (v : V) (m n : List (K × V)) → Nodup (keys (m ++ (k, v) ∷ n)) → lookup dec k m ≡ none
  fresh_of_Nodup k v m n d =
      lookup-none-append k m n
        (none_of_not-mem k (m ++ n) (Nodup-cons.0 (Perm.nodup (keys-perm (perm_middle m n)) d)).0)
