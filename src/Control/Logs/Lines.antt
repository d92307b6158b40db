-- ===== src/Control/Logs/Lines.antt =====
-- The lines of a text, and the loop over the lines of one block.
use kid_pc_monitor.Base.{
  ℕ, suc, ◌≤◌, ◌≡◌, refl, sym, ap, ◌∙◌, false, List, [], ◌∷◌, ◌++◌, take, length, reverse,
  take-length_append, length-append, append-nil, append_assoc, take-length_le, take-take_append,
  arith,
}
use kid_pc_monitor.Base.Text.{Bytes}
use kid_pc_monitor.Control.Logs.{
  onto, split_lines, first_part, later_parts, is_empty, keep, collect,
}

-- The parts without the empty ones in front.
unfoldable pub without_empty : List Bytes → List Bytes
without_empty [] = []
without_empty ([] ∷ parts) = without_empty parts
without_empty ((c ∷ part) ∷ parts) = (c ∷ part) ∷ parts

-- The lines of a file, the last one first, without empty ones at the end of the file.
abbrev pub lines_from_end : Bytes → List Bytes
lines_from_end file = without_empty (reverse (split_lines file))

-- Lines, the last one first, before the parts of what precedes them.
abbrev pub join : List Bytes → List Bytes → List Bytes
join [] parts = without_empty parts
join (l ∷ lines) parts = (l ∷ lines) ++ parts

pub join-nil : (lines : List Bytes) → join lines [] ≡ lines
unfolding without_empty
join-nil [] = refl
join-nil (l ∷ lines) = append-nil (l ∷ lines)

pub join-append : (lines ps qs : List Bytes) → join lines (ps ++ qs) ≡ join (join lines ps) qs
unfolding without_empty
join-append [] [] qs = refl
join-append [] ([] ∷ ps) qs = join-append [] ps qs
join-append [] ((c ∷ p) ∷ ps) qs = refl
join-append (l ∷ lines) ps qs = sym (append_assoc (l ∷ lines) ps qs)

pub join-keep :
    (lines : List Bytes) (p : Bytes) (ps : List Bytes)
    → join (keep p lines) ps ≡ join lines (p ∷ ps)
unfolding without_empty
join-keep [] [] ps = refl
join-keep [] (c ∷ p) ps = refl
join-keep (l ∷ lines) [] ps = append_assoc (l ∷ lines) ([] ∷ []) ps
join-keep (l ∷ lines) (c ∷ p) ps = append_assoc (l ∷ lines) ((c ∷ p) ∷ []) ps

-- Only as many lines as are wanted matter, if any are.
pub take-join :
    (n : ℕ) (lines ps : List Bytes)
    → take (suc n) (join (take (suc n) lines) ps) ≡ take (suc n) (join lines ps)
take-join n [] ps = refl
take-join n (l ∷ lines) ps = take-take_append (suc n) (l ∷ lines) ps

-- Enough lines are kept as they are.
pub take-join_full :
    (n : ℕ) (lines ps : List Bytes) → length lines ≡ suc n → take (suc n) (join lines ps) ≡ lines
take-join_full n [] ps h = absurd (omega arith)
take-join_full n (l ∷ lines) ps h =
    ap (λ k. take k ((l ∷ lines) ++ ps)) (sym h) ∙ take-length_append (l ∷ lines) ps

pub length-keep : (p : Bytes) (lines : List Bytes) → length (keep p lines) ≤ suc (length lines)
length-keep p lines = ground (arith, length-append lines (p ∷ []))

pub collect_lem :
    (tail : ℕ) (lines ps : List Bytes)
    → length lines ≤ tail
    → collect tail lines ps ≡ take (suc tail) (join lines ps)
unfolding collect
collect_lem tail lines [] h =
    sym (ap (take (suc tail)) (join-nil lines) ∙ take-length_le (suc tail) lines (omega arith))
collect_lem tail lines (p ∷ ps) h = ground (
  arith,
  collect_lem tail (keep p lines) ps,
  join-keep lines p ps,
  length-keep p lines,
  take-join_full tail (keep p lines) ps,
)

-- The lines of a text that continues another one's last line.
pub onto-append :
    (c : ℕ) (ps qs : List Bytes) → is_empty ps ≡ false → onto c ps ++ qs ≡ onto c (ps ++ qs)
onto-append c [] qs h = cc
onto-append c (p ∷ ps) qs h = refl

pub first_part-onto : (c : ℕ) (ps : List Bytes) → first_part (onto c ps) ≡ c ∷ first_part ps
first_part-onto c [] = refl
first_part-onto c (p ∷ ps) = refl

pub later_parts-onto : (c : ℕ) (ps : List Bytes) → later_parts (onto c ps) ≡ later_parts ps
later_parts-onto c [] = refl
later_parts-onto c (p ∷ ps) = refl

pub is_empty-onto : (c : ℕ) (ps : List Bytes) → is_empty (onto c ps) ≡ false
is_empty-onto c [] = refl
is_empty-onto c (p ∷ ps) = refl

pub is_empty-split_lines : (s : Bytes) → is_empty (split_lines s) ≡ false
unfolding split_lines
is_empty-split_lines [] = refl
is_empty-split_lines (c ∷ s) = ground (arith, is_empty-onto c (split_lines s))

pub split_lines-cons :
    (c : ℕ) (s t : Bytes) (ps : List Bytes)
    → split_lines s ≡ split_lines t ++ ps
    → split_lines (c ∷ s) ≡ split_lines (c ∷ t) ++ ps
unfolding split_lines
split_lines-cons c s t ps h =
    ground (arith, onto-append c (split_lines t) ps (is_empty-split_lines t))

pub split_lines-first :
    (t : Bytes)
    → split_lines t ≡ split_lines (first_part (split_lines t)) ++ later_parts (split_lines t)
unfolding split_lines
split_lines-first [] = refl
split_lines-first (c ∷ t) = ground (
  arith,
  split_lines-cons c t (first_part (split_lines t)) _ (split_lines-first t),
  first_part-onto c (split_lines t),
  later_parts-onto c (split_lines t),
)

pub split_lines-append :
    (s t : Bytes)
    → split_lines (s ++ t)
      ≡ split_lines (s ++ first_part (split_lines t)) ++ later_parts (split_lines t)
split_lines-append [] t = split_lines-first t
split_lines-append (c ∷ s) t =
    split_lines-cons c (s ++ t) (s ++ first_part (split_lines t)) _ (split_lines-append s t)
