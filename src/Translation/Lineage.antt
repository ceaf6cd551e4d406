-- ===== src/Translation/Lineage.antt =====
-- crates/voicesub-translation/src/preview_lineage.rs: generations of a segment's previews. A
-- `u64` is a natural number here: a counter that starts at zero and only grows by one does not
-- reach 2 ^ 64.
use stream_sub_translator.Common.{
  ℕ, ◌+◌, ◌≤◌, ◌≡◌, refl, ite, Option, none, some, List, [], ◌∷◌, ◌++◌, Text, Text-discrete, codes,
  trim, lookup, insert, lookup-insert, arith,
}

abbrev pub Generations : Type 0
Generations = List (Text × ℕ)

-- `generation`: 0 for a key that is not there.
unfoldable pub generation : Text → Generations → ℕ
generation key g = elim (lookup Text-discrete key g) [ none ↦ 0 | some n ↦ n ]

-- `supersede`, for the key that the filter leaves: the entry is made at 0 and then counted up.
bump : Text → Generations → Generations × ℕ
unfolding generation
bump key g = let n = generation key g + 1 in (insert Text-discrete key n g, n)

unfoldable pub supersede : Option Text → Generations → Generations × ℕ
unfolding bump
supersede none g = (g, 0)
supersede (some []) g = (g, 0)
supersede (some (c ∷ key)) g = bump (c ∷ key) g

-- `format!("{segment}:{revision}")`, with the digits of the revision handed in.
lineage_of : Text → Text → Option Text
lineage_of [] digits = none
lineage_of (c ∷ segment) digits = some ((c ∷ segment) ++ codes ":" ++ digits)

unfoldable pub lineage_key : Option Text → Option Text → Option Text
unfolding lineage_of
lineage_key none revision = none
lineage_key (some segment_id) none = none
lineage_key (some segment_id) (some digits) = lineage_of (trim segment_id) digits

-- A supersession counts its own key up by one, leaves every other key alone, and returns the new
-- count.
pub generation-supersede :
    (c : ℕ) (key other : Text) (g : Generations)
    → (generation other (supersede (some (c ∷ key)) g).0
        ≡ ite (Text-discrete (c ∷ key) other) (generation (c ∷ key) g + 1) (generation other g))
      × ((supersede (some (c ∷ key)) g).1 ≡ generation (c ∷ key) g + 1)
unfolding supersede generation
generation-supersede c key other g = (
  ground (arith, lookup-insert Text-discrete (c ∷ key) other (generation (c ∷ key) g + 1) g),
  refl,
)

-- No supersession lowers a generation.
generation_mono :
    (key : Option Text) (other : Text) (g : Generations)
    → generation other g ≤ generation other (supersede key g).0
unfolding supersede generation
generation_mono none other g = omega arith
generation_mono (some []) other g = omega arith
generation_mono (some (c ∷ key)) other g =
    ground (arith, lookup-insert Text-discrete (c ∷ key) other (generation (c ∷ key) g + 1) g)
