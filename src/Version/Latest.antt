-- ===== src/Version/Latest.antt =====
-- crates/voicesub-types/src/version.rs, `extract_latest_github_release`: which release it finds.
use stream_sub_translator.Common.{
  ℕ, ◌≡◌, refl, sym, subst, ◌∙◌, ◌⊎◌, inl, inr, Bool, true, false, Option, none, some, List, [],
  ◌∷◌, Text, All, Bool-cases, Option-cases, arith,
}
use stream_sub_translator.Version.{
  SemVer, Release, is_greater, is_prerelease_channel, usable, Best, beats, url_of, scan_one, scan,
  format_semver, report, scanned, extract_latest_github_release,
}

-- No version is newer than itself, and what is not newer than an older one is not newer.
is_greater_self : (v : SemVer) → is_greater v v ≡ false
unfolding is_greater
is_greater_self v = ground arith

is_greater_trans :
    (u v w : SemVer) → is_greater u v ≡ false → is_greater w v ≡ true → is_greater u w ≡ false
unfolding is_greater
is_greater_trans u v w h k = ground arith

-- A version that the best one so far covers.
abbrev Covers : Option Best → SemVer → Type 0
Covers none v = ⊥
Covers (some best) v = is_greater v best.version ≡ false

-- The same of what an entry has, if it has one.
abbrev Settles : Option Best → Option (SemVer × Text) → Type 0
Settles best none = Unit
Settles best (some (v, tag)) = Covers best v

-- An entry of the list from which the best one comes.
abbrev IsFoundIn : Bool → Best → List (Option Release) → Type 0
IsFoundIn all best [] = ⊥
IsFoundIn all best (item ∷ items) =
    (usable all item ≡ some (best.version, best.raw)) ⊎ IsFoundIn all best items

-- The best one comes from the list, or was there before.
abbrev ComesFrom : Bool → List (Option Release) → Option Best → Option Best → Type 0
ComesFrom all items before none = before ≡ none
ComesFrom all items before (some best) = (before ≡ some best) ⊎ IsFoundIn all best items

abbrev version_in : Option Best → Option (SemVer × Text)
version_in none = none
version_in (some best) = some (best.version, best.raw)

module _ (all : Bool) where
  scan_one-Covers :
      (item : Option Release) (best : Option Best) (v : SemVer)
      → Covers best v
      → Covers (scan_one all item best) v
  unfolding scan_one
  scan_one-Covers item none v h = absurd h
  scan_one-Covers item (some best) v h = elim (Option-cases (usable all item)) [
    | inl e ↦ rw (scan_one, e) h
    | inr ((w, tag), e) ↦ elim (Bool-cases (is_greater w best.version)) [
      | inl g ↦ rw (scan_one, e, g) (is_greater_trans v best.version w h g)
      | inr g ↦ rw (scan_one, e, g) h
    ]
  ]

  scan-Covers :
      (items : List (Option Release)) (best : Option Best) (v : SemVer)
      → Covers best v
      → Covers (scan all items best) v
  unfolding scan
  scan-Covers [] best v h = h
  scan-Covers (item ∷ items) best v h =
      scan-Covers items (scan_one all item best) v (scan_one-Covers item best v h)

  scan_one-Settles :
      (item : Option Release) (best : Option Best) (v : SemVer) (tag : Text)
      → usable all item ≡ some (v, tag)
      → Covers (scan_one all item best) v
  unfolding scan_one
  scan_one-Settles item none v tag e = rw (scan_one, e) (is_greater_self v)
  scan_one-Settles item (some best) v tag e = elim (Bool-cases (is_greater v best.version)) [
    | inl g ↦ rw (scan_one, e, g) (is_greater_self v)
    | inr g ↦ rw (scan_one, e, g) g
  ]

  scan-Settles :
      (items : List (Option Release)) (best : Option Best)
      → All (λ item. Settles (scan all items best) (usable all item)) items
  unfolding scan
  scan-Settles [] best = tt
  scan-Settles (item ∷ items) best =
      let rest = scan-Settles items (scan_one all item best) in
      elim (Option-cases (usable all item)) [
        | inl e ↦ (rw (e) tt, rest)
        | inr ((v, tag), e) ↦ (
          rw (e)
              (scan-Covers items (scan_one all item best) v (scan_one-Settles item best v tag e)),
          rest,
        )
      ]

  scan_one-cases :
      (item : Option Release) (best : Option Best)
      → (scan_one all item best ≡ best)
        ⊎ ((found : Best) × (usable all item ≡ some (found.version, found.raw))
            × (scan_one all item best ≡ some found))
  unfolding scan_one
  scan_one-cases item best = elim (Option-cases (usable all item)) [
    | inl e ↦ rw (scan_one, e) (inl refl)
    | inr ((v, tag), e) ↦ elim (Bool-cases (beats v best)) [
      | inl b ↦
          inr (record { version = v; raw = tag; url = url_of item }, e, rw (scan_one, e, b) refl)
      | inr b ↦ rw (scan_one, e, b) (inl refl)
    ]
  ]

  -- What a scan of the rest finds comes from the whole list.
  step-ComesFrom :
      (item : Option Release) (items : List (Option Release)) (best : Option Best)
      (found : Option Best)
      → ComesFrom all items (scan_one all item best) found
      → ComesFrom all (item ∷ items) best found
  step-ComesFrom item items best none h = elim (scan_one-cases item best) [
    | inl e ↦ sym e ∙ h
    | inr (b, u, e) ↦ absurd (grind (arith, e, h))
  ]
  step-ComesFrom item items best (some found) (inr h) = inr (inr h)
  step-ComesFrom item items best (some found) (inl h) = elim (scan_one-cases item best) [
    | inl e ↦ inl (sym e ∙ h)
    | inr (b, u, e) ↦
        inr (inl (subst (λ (c : Option Best). usable all item ≡ version_in c) (sym e ∙ h) u))
  ]

  scan-ComesFrom :
      (items : List (Option Release)) (best : Option Best)
      → ComesFrom all items best (scan all items best)
  unfolding scan
  scan-ComesFrom [] none = refl
  scan-ComesFrom [] (some best) = inl refl
  scan-ComesFrom (item ∷ items) best =
      step-ComesFrom item items best (scan all items (scan_one all item best))
        (scan-ComesFrom items (scan_one all item best))

-- What the answer says of the entries: none of them is usable, and there is no version, or the
-- version is that of one of them, and none of them is newer.
abbrev pub IsLatest : Bool → List (Option Release) → Option Text → Type 0
IsLatest all items version =
    ((version ≡ none) × All (λ item. usable all item ≡ none) items)
    ⊎ ((best : Best) × (version ≡ some (format_semver best.version))
        × IsFoundIn all best items
        × All (λ item. Settles (some best) (usable all item)) items)

Settles-none :
    (all : Bool) (items : List (Option Release))
    → All (λ item. Settles none (usable all item)) items
    → All (λ item. usable all item ≡ none) items
Settles-none all [] h = tt
Settles-none all (item ∷ items) (h, hs) = elim (Option-cases (usable all item)) [
  | inl e ↦ (e, Settles-none all items hs)
  | inr ((v, tag), e) ↦ absurd (subst (λ (o : Option (SemVer × Text)). Settles none o) e h)
]

scan-IsLatest :
    (all : Bool) (items : List (Option Release)) (found : Option Best) (n : ℕ)
    → ComesFrom all items none found
    → All (λ item. Settles found (usable all item)) items
    → IsLatest all items (report n found).0
unfolding report
scan-IsLatest all items none n c h = inl (refl, Settles-none all items h)
scan-IsLatest all items (some best) n (inl c) h = absurd (grind (arith, c))
scan-IsLatest all items (some best) n (inr c) h = inr (best, refl, c, h)

-- Of a list of releases, the answer has no version exactly where none of them is usable in the
-- channel; otherwise it is the version of a usable release, written out, and no usable release of
-- the list is newer.
pub extract-IsLatest :
    (items : List (Option Release)) (release_channel : Text)
    → IsLatest
        (is_prerelease_channel release_channel)
        items
        (extract_latest_github_release (some items) release_channel).0
unfolding extract_latest_github_release
extract-IsLatest items release_channel =
    let all = is_prerelease_channel release_channel in
    scan-IsLatest all items (scan all items none) (scanned items) (scan-ComesFrom all items none)
      (scan-Settles all items none)
