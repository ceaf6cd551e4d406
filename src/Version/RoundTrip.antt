-- ===== src/Version/RoundTrip.antt =====
-- crates/voicesub-types/src/version.rs: a version that is written out is read as it was.
use stream_sub_translator.Common.{
  ℕ, ◌^◌, ◌<◌, ltb, ◌==◌, ◌≡◌, refl, ap, ◌∙◌, inl, inr, Bool, true, false, ◌||◌, if◌then◌else◌,
  none, some, List, [], ◌∷◌, ◌++◌, Text, codes, is_empty, join, split, decimal, parse-decimal,
  decimal-AreDigits, is_digit, AreDigits, IsFree, is_whitespace, trim-solid, split-join, All,
  All-append, All-weaken, Bool-cases, arith,
}
use stream_sub_translator.Subtitle.Settings.{or_default}
use stream_sub_translator.Version.{
  SemVer, trim_v, core_of, build_of, from_parts, parse_semver, format_semver, u32_bound,
}

abbrev is_plain : ℕ → Bool
is_plain c = is_digit c || (c == b'.')

abbrev IsPlain : Text → Type 0
IsPlain s = All (λ c. is_plain c ≡ true) s

plain-not_space : (c : ℕ) → is_plain c ≡ true → is_whitespace c ≡ false
unfolding is_whitespace
plain-not_space c h = ground arith

digit-plain : (c : ℕ) → is_digit c ≡ true → is_plain c ≡ true
digit-plain c h = ground arith

digit-not_dot : (c : ℕ) → is_digit c ≡ true → (c == b'.') ≡ false
digit-not_dot c h = ground arith

digits-IsPlain : (s : Text) → AreDigits s → IsPlain s
digits-IsPlain s h = All-weaken (λ c. is_digit c ≡ true) (λ c. is_plain c ≡ true) digit-plain s h

free : (parts : List Text) → All AreDigits parts → All (IsFree b'.') parts
free parts h =
    All-weaken AreDigits (IsFree b'.')
      (λ s k. All-weaken (λ c. is_digit c ≡ true) (λ c. (c == b'.') ≡ false) digit-not_dot s k)
      parts h

plain-not_cut : (c : ℕ) → is_plain c ≡ true → ((c == b'-') || (c == b'+')) ≡ false
plain-not_cut c h = ground arith

plain-not_v : (c : ℕ) → is_plain c ≡ true → (c == b'v') ≡ false
plain-not_v c h = ground arith

join-IsPlain : (parts : List Text) → All AreDigits parts → IsPlain (join (codes ".") parts)
unfolding join
join-IsPlain [] h = tt
join-IsPlain (w ∷ []) (hw, h) = digits-IsPlain w hw
join-IsPlain (w ∷ v ∷ parts) (hw, h) =
    All-append (λ c. is_plain c ≡ true) (w ++ codes ".") (join (codes ".") (v ∷ parts))
      (All-append (λ c. is_plain c ≡ true) w (codes ".") (digits-IsPlain w hw) (refl, tt))
      (join-IsPlain (v ∷ parts) h)

core_of-plain : (s : Text) → IsPlain s → core_of s ≡ s
unfolding core_of
core_of-plain [] h = refl
core_of-plain (c ∷ s) (hc, h) = rw (core_of, plain-not_cut c hc) (ap (◌∷◌ c) (core_of-plain s h))

trim_v-plain : (s : Text) → IsPlain s → trim_v s ≡ s
unfolding trim_v
trim_v-plain [] h = refl
trim_v-plain (c ∷ s) (hc, h) = rw (trim_v, plain-not_v c hc) refl

dot_not_empty : (w s : Text) → is_empty (w ++ codes "." ++ s) ≡ false
dot_not_empty [] s = refl
dot_not_empty (c ∷ w) s = refl

-- What is read of two parts or more, joined by dots.
parse-join :
    (w v : Text) (parts : List Text)
    → All AreDigits (w ∷ v ∷ parts)
    → parse_semver (join (codes ".") (w ∷ v ∷ parts)) ≡ from_parts (w ∷ v ∷ parts)
unfolding parse_semver join
parse-join w v parts h =
    let text = join (codes ".") (w ∷ v ∷ parts) in
    let p = join-IsPlain (w ∷ v ∷ parts) h in
    let t =
      ap trim_v (
        trim-solid text (
          All-weaken (λ c. is_plain c ≡ true) (λ c. is_whitespace c ≡ false) plain-not_space text
            p))
      ∙ trim_v-plain text p in
    ap (λ s. if is_empty s then none else from_parts (split b'.' (core_of s))) t
    ∙ ap (λ b. if b then none else from_parts (split b'.' (core_of text)))
        (dot_not_empty w (join (codes ".") (v ∷ parts)))
    ∙ ap (λ s. from_parts (split b'.' s)) (core_of-plain text p)
    ∙ ap from_parts (split-join b'.' w (v ∷ parts) (free (w ∷ v ∷ parts) h))

read_parts :
    (a b c d : ℕ) (parts : List Text)
    → a < 2 ^ 32
    → b < 2 ^ 32
    → c < 2 ^ 32
    → build_of parts ≡ d
    → from_parts (decimal a ∷ decimal b ∷ decimal c ∷ parts)
      ≡ some (record { major = a; minor = b; patch = c; build = d })
unfolding from_parts
read_parts a b c d parts ha hb hc hd =
    rw
      (
        from_parts,
        parse-decimal u32_bound a ha,
        parse-decimal u32_bound b hb,
        parse-decimal u32_bound c hc,
        hd,
      )
      refl

no_build : (n : ℕ) → ltb 0 n ≡ false → 0 ≡ n
no_build n e = ground arith

numerals :
    (v : SemVer)
    → AreDigits (decimal v.major) × AreDigits (decimal v.minor) × AreDigits (decimal v.patch)
numerals v = (decimal-AreDigits v.major, decimal-AreDigits v.minor, decimal-AreDigits v.patch)

-- A version whose parts are of 32 bits is read as it was written, with a build or without one.
pub parse-format :
    (v : SemVer)
    → v.major < 2 ^ 32
    → v.minor < 2 ^ 32
    → v.patch < 2 ^ 32
    → v.build < 2 ^ 32
    → parse_semver (format_semver v) ≡ some v
unfolding format_semver
parse-format v a b c d =
    let three = decimal v.major ∷ decimal v.minor ∷ decimal v.patch ∷ [] in
    let (i, j, k) = numerals v in
    elim (Bool-cases (ltb 0 v.build)) [
      | inl e ↦
          ap
            (λ b.
              parse_semver (join (codes ".") (if b then three ++ decimal v.build ∷ [] else three)))
            e
          ∙ parse-join (decimal v.major) (decimal v.minor) (decimal v.patch ∷ decimal v.build ∷ [])
              (i, (j, (k, (decimal-AreDigits v.build, tt))))
          ∙ read_parts v.major v.minor v.patch v.build (decimal v.build ∷ []) a b c
              (ap (or_default 0) (parse-decimal u32_bound v.build d))
      | inr e ↦
          ap
            (λ b.
              parse_semver (join (codes ".") (if b then three ++ decimal v.build ∷ [] else three)))
            e
          ∙ parse-join (decimal v.major) (decimal v.minor) (decimal v.patch ∷ []) (i, (j, (k, tt)))
          ∙ read_parts v.major v.minor v.patch v.build [] a b c (no_build v.build e)
    ]
