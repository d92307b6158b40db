-- ===== src/Control/Logs/Tail.antt =====
-- What `read_log_tail` reads, against the lines of the whole file.
use kid_pc_monitor.Base.{
  ℕ, zero, suc, ◌-◌, ◌≤◌, ◌<◌, ◌≡◌, refl, sym, ap, ◌∙◌, Bool, true, false, ◌&&◌, ◌||◌, some, List,
  [], ◌∷◌, ◌++◌, map, leb, ltb, lt→ltb, if◌then◌else◌, take, drop, length, reverse, reverse-append,
  append-nil, append_assoc, take-length_le, take-take, take-take-suc, length-take, take-drop,
  more-take, arith,
}
use kid_pc_monitor.Base.Text.{Text, Bytes}
use kid_pc_monitor.Control.Logs.{
  split_lines, first_part, later_parts, collect, block_of, Scan, parts_at, after_block, read_block,
  scan_blocks, decoded, at_end, read_log_tail,
}
use kid_pc_monitor.Control.Logs.Lines.{
  without_empty, lines_from_end, join, join-append, take-join, take-join_full, collect_lem,
  split_lines-append,
}

module _ (file : Bytes) (tail : ℕ) where
  -- The lines when the loop is done, as many as are wanted and one more.
  abbrev wanted : Scan → List Bytes
  wanted s =
      if ltb 0 s.remaining
      then join s.raw_lines (reverse (split_lines (take s.remaining file ++ s.fragment)))
      else s.raw_lines

  first_block :
      (lines : List Bytes) (t : Bytes)
      → length lines ≤ tail
      → take (suc tail) (collect tail lines (reverse (split_lines t)))
        ≡ take (suc tail) (join lines (reverse (split_lines t)))
  first_block lines t h =
      ap (take (suc tail)) (collect_lem tail lines _ h)
      ∙ take-take (suc tail) (join lines (reverse (split_lines t)))

  earlier_block :
      (lines : List Bytes) (s t : Bytes)
      → length lines ≤ tail
      → take (suc tail) (
          join
            (collect tail lines (reverse (later_parts (split_lines t))))
            (reverse (split_lines (s ++ first_part (split_lines t)))))
        ≡ take (suc tail) (join lines (reverse (split_lines (s ++ t))))
  earlier_block lines s t h =
      ap (λ l. take (suc tail) (join l (reverse (split_lines (s ++ first_part (split_lines t))))))
        (collect_lem tail lines _ h)
      ∙ take-join tail (join lines (reverse (later_parts (split_lines t)))) _
      ∙ ap (take (suc tail)) (sym (join-append lines (reverse (later_parts (split_lines t))) _))
      ∙ ap (λ l. take (suc tail) (join lines l))
          (sym (reverse-append (split_lines (s ++ first_part (split_lines t))) _))
      ∙ ap (λ l. take (suc tail) (join lines (reverse l))) (sym (split_lines-append s t))

  after_block-wanted :
      (n : ℕ) (lines : List Bytes) (t : Bytes)
      → length lines ≤ tail
      → take (suc tail) (wanted (after_block file tail (split_lines t) n lines))
        ≡ take (suc tail) (join lines (reverse (split_lines (take n file ++ t))))
  after_block-wanted zero lines t h = first_block lines t h
  after_block-wanted (suc n) lines t h = ground (arith, earlier_block lines (take (suc n) file) t h)

  block_lem :
      (n : ℕ) (t : Bytes)
      → take (n - block_of n) file ++ (take (block_of n) (drop (n - block_of n) file) ++ t)
        ≡ take n file ++ t
  block_lem n t =
      sym (append_assoc (take (n - block_of n) file) _ t)
      ∙ ap (λ l. l ++ t) (take-drop (n - block_of n) (block_of n) n file (ground arith))

  read_block-wanted :
      (s : Scan)
      → 0 < s.remaining
      → length s.raw_lines ≤ tail
      → take (suc tail) (wanted (read_block file tail s)) ≡ take (suc tail) (wanted s)
  unfolding read_block
  read_block-wanted s r h =
      after_block-wanted (s.remaining - block_of s.remaining) s.raw_lines _ h
      ∙ ap (λ l. take (suc tail) (join s.raw_lines (reverse (split_lines l))))
          (block_lem s.remaining s.fragment)
      ∙ ap
          (λ b. take (suc tail) (
            if b
            then join s.raw_lines (reverse (split_lines (take s.remaining file ++ s.fragment)))
            else s.raw_lines))
          (sym (lt→ltb 0 s.remaining r))

  read_block-less : (s : Scan) → 0 < s.remaining → (read_block file tail s).remaining < s.remaining
  unfolding read_block
  read_block-less s r = ground arith

  collect-length :
      (lines ps : List Bytes) → length lines ≤ tail → length (collect tail lines ps) ≤ suc tail
  collect-length lines ps h =
      ground
        (arith, ap length (collect_lem tail lines ps h), length-take (suc tail) (join lines ps))

  read_block-length :
      (s : Scan) → length s.raw_lines ≤ tail → length (read_block file tail s).raw_lines ≤ suc tail
  unfolding read_block
  read_block-length s h = ground (
    arith,
    collect-length s.raw_lines (reverse (parts_at file tail s.remaining s.fragment)) h,
    collect-length s.raw_lines (reverse (later_parts (parts_at file tail s.remaining s.fragment)))
        h,
  )

  -- What the loop leaves when it ends.
  abbrev Done : Scan → Scan → Type 0
  Done s done =
      (done.raw_lines ≡ take (suc tail) (wanted s))
      × ((ltb 0 done.remaining || ltb tail (length done.raw_lines))
          ≡ ltb tail (length done.raw_lines))

  stopped-Done :
      (s : Scan)
      → length s.raw_lines ≤ suc tail
      → (ltb 0 s.remaining && leb (length s.raw_lines) tail) ≡ false
      → Done s s
  stopped-Done s l h = ground (
    arith,
    take-length_le (suc tail) s.raw_lines l,
    take-join_full tail s.raw_lines (reverse (split_lines (take s.remaining file ++ s.fragment))),
  )

  scan_blocks-Done :
      (fuel : ℕ) (s : Scan)
      → s.remaining ≤ fuel
      → length s.raw_lines ≤ suc tail
      → Done s (scan_blocks file tail fuel s)
  unfolding scan_blocks
  scan_blocks-Done zero s h l = stopped-Done s l (ground arith)
  scan_blocks-Done (suc fuel) s h l =
      by_test (ltb 0 s.remaining && leb (length s.raw_lines) tail) refl
        (scan_blocks-Done fuel (read_block file tail s))
    where
      by_test :
          (b : Bool)
          → (ltb 0 s.remaining && leb (length s.raw_lines) tail) ≡ b
          → ((read_block file tail s).remaining ≤ fuel
              → length (read_block file tail s).raw_lines ≤ suc tail
              → Done (read_block file tail s) (scan_blocks file tail fuel (read_block file tail s)))
          → Done s (if b then scan_blocks file tail fuel (read_block file tail s) else s)
      by_test false p rest = stopped-Done s l p
      by_test true p rest =
          let r : 0 < s.remaining = ground arith in
          let k : length s.raw_lines ≤ tail = ground arith in
          let less : (read_block file tail s).remaining ≤ fuel =
            omega (arith, read_block-less s r) in
          let (e, t) = rest less (read_block-length s k) in (e ∙ read_block-wanted s r k, t)

wanted-at_end :
    (c : ℕ) (s : Bytes) (tail : ℕ) → wanted (c ∷ s) tail (at_end (c ∷ s)) ≡ lines_from_end (c ∷ s)
wanted-at_end c s tail =
    ap
      (λ b.
        if b
        then without_empty (reverse (split_lines (take (length (c ∷ s)) (c ∷ s) ++ [])))
        else [])
      (lt→ltb 0 (length (c ∷ s)) (omega arith))
    ∙ ap (λ l. without_empty (reverse (split_lines l)))
        (append-nil _ ∙ take-length_le (length (c ∷ s)) (c ∷ s) (omega arith))

module _ (decode : Bytes → Text) where
  decoded_lem :
      (tail : ℕ) (lines : List Bytes) (done : Scan)
      → done.raw_lines ≡ take (suc tail) lines
      → (ltb 0 done.remaining || ltb tail (length done.raw_lines))
        ≡ ltb tail (length done.raw_lines)
      → decoded decode tail done ≡ (map decode (reverse (take tail lines)), ltb tail (length lines))
  decoded_lem tail lines done e t = rw (t, e, take-take-suc tail lines, more-take tail lines) refl

  -- For every file and tail, reading the log by blocks gives what reading the whole file gives: the
  -- last lines, as many as are asked for, in the order of the file and without the empty lines at its
  -- end, and whether there are more.
  pub read_log_tail-lines_from_end :
      (file : Bytes) (tail : ℕ)
      → read_log_tail decode (some file) tail ≡ (
        map decode (reverse (take tail (lines_from_end file))),
        ltb tail (length (lines_from_end file)),
      )
  unfolding read_log_tail split_lines without_empty
  read_log_tail-lines_from_end [] zero = refl
  read_log_tail-lines_from_end [] (suc tail) = ground arith
  read_log_tail-lines_from_end (c ∷ s) tail =
      let (e, t) =
        scan_blocks-Done (c ∷ s) tail (length (c ∷ s)) (at_end (c ∷ s)) (omega arith)
          (omega arith) in
      decoded_lem tail (lines_from_end (c ∷ s))
        (scan_blocks (c ∷ s) tail (length (c ∷ s)) (at_end (c ∷ s)))
        (e ∙ ap (take (suc tail)) (wanted-at_end c s tail)) t
