-- ===== src/Snapshots/Dashboard/Loop.antt =====
-- The dictionary of the best entries after the loop of `_dedupe_by_hostname`.
use kid_pc_monitor.Base.{
  ℕ, ◌≡◌, ◌⊎◌, inl, inr, refl, sym, ap, ◌∙◌, false, Option, none, some, List, [], ◌∷◌, All, IsIn,
}
use kid_pc_monitor.Base.Text.{Text}
use kid_pc_monitor.Scans.{Values}
use kid_pc_monitor.Snapshots.Dashboard.{Entry, dedupe_hostname, improve_known, best_of}
use kid_pc_monitor.Snapshots.Dashboard.Best.{
  Item, below, Sound, Covers, BestFor, Also, improve-BestFor,
}

module _ (values : Values) (casefold : Text → Text) (contact_times : Text → Option ℕ) where
  abbrev pub Best :
      (Item values casefold contact_times → Type 0)
      → List (Text × Item values casefold contact_times)
      → Type 0
  Best S best = BestFor values casefold contact_times S best

  abbrev pub Card : Type 0
  Card = Entry values casefold

  abbrev host_of : Card → Option Text
  host_of x = dedupe_hostname values casefold x

  All-map :
      {P Q : Text × Card → Type 0} (best : List (Text × Card))
      → ((p : Text × Card) → P p → Q p)
      → All P best
      → All Q best
  All-map [] f a = tt
  All-map (p ∷ best) f a = (f p a.0, All-map best f a.1)

  -- The entries seen may be described in another way.
  BestFor-iff :
      (S T : Card → Type 0) (best : List (Text × Card))
      → ((x : Card) → S x → T x)
      → ((x : Card) → T x → S x)
      → Best S best
      → Best T best
  BestFor-iff S T best to from (s, c, u) = (
    All-map best (λ p q. (to p.1 q.0, q.1, λ x t. q.2 x (from x t))) s,
    (λ x h t. c x h (from x t)),
    u,
  )

  unknown-BestFor :
      (S : Card → Type 0) (e : Card) (best : List (Text × Card))
      → dedupe_hostname values casefold e ≡ none
      → Best S best
      → Best (Also values casefold contact_times e S) best
  unknown-BestFor S e best n (s, c, u) = (All-map best sound s, covers, u)
    where
      refused : (x : Card) (h : Text) → x ≡ e → dedupe_hostname values casefold x ≡ some h → ⊥
      refused x h q t =
          let w : none ≡ some h = sym n ∙ ap (dedupe_hostname values casefold) (sym q) ∙ t in cc

      sound :
          (p : Text × Card)
          → Sound values casefold contact_times S p
          → Sound values casefold contact_times (Also values casefold contact_times e S) p
      sound (h, f) (a, d, m) = (inr a, d, above)
        where
          above :
              (x : Card)
              → Also values casefold contact_times e S x
              → dedupe_hostname values casefold x ≡ some h
              → below values casefold contact_times f x ≡ false
          above x (inl q) t = absurd (refused x h q t)
          above x (inr q) t = m x q t

      covers : Covers values casefold contact_times (Also values casefold contact_times e S) best
      covers x h (inl q) t = absurd (refused x h q t)
      covers x h (inr q) t = c x h q t

  step-BestFor :
      (S : Card → Type 0) (e : Card) (best : List (Text × Card)) (o : Option Text)
      → dedupe_hostname values casefold e ≡ o
      → Best S best
      → Best
          (Also values casefold contact_times e S)
          (improve_known values casefold contact_times o e best)
  step-BestFor S e best none d b = unknown-BestFor S e best d b
  step-BestFor S e best (some host) d b =
      improve-BestFor values casefold contact_times S host e d best b

  pub best_of-BestFor :
      (S : Card → Type 0) (entries : List Card) (best : List (Text × Card))
      → Best S best
      → Best (λ x. IsIn x entries ⊎ S x) (best_of values casefold contact_times entries best)
  unfolding best_of
  best_of-BestFor S [] best b =
      BestFor-iff S _ best (λ x s. inr s) (λ x s. elim s [ inl i ↦ absurd i | inr s' ↦ s' ]) b
  best_of-BestFor S (e ∷ entries) best b =
      BestFor-iff (λ x. IsIn x entries ⊎ Also values casefold contact_times e S x)
        (λ x. IsIn x (e ∷ entries) ⊎ S x) _ to from
        (best_of-BestFor (Also values casefold contact_times e S) entries _
          (step-BestFor S e best (dedupe_hostname values casefold e) refl b))
    where
      to :
          (x : Card)
          → IsIn x entries ⊎ Also values casefold contact_times e S x
          → IsIn x (e ∷ entries) ⊎ S x
      to x (inl i) = inl (inr i)
      to x (inr (inl q)) = inl (inl q)
      to x (inr (inr s)) = inr s

      from :
          (x : Card)
          → IsIn x (e ∷ entries) ⊎ S x
          → IsIn x entries ⊎ Also values casefold contact_times e S x
      from x (inl (inl q)) = inr (inl q)
      from x (inl (inr i)) = inl i
      from x (inr s) = inr (inr s)
