-- ===== src/Snapshots/Dashboard/Kept.antt =====
-- The entries that `_dedupe_by_hostname` keeps, given its dictionary.
use kid_pc_monitor.Base.{
  ℕ, ◌≡◌, ◌≢◌, inl, inr, refl, sym, ap, subst, ◌∙◌, Bool, true, false, ◌||◌, Option, List, [], ◌∷◌,
  if◌then◌else◌, arith, All, IsIn,
}
use kid_pc_monitor.Base.Text.{Text, text_eq, text_eq_iff, text_eq_refl}
use kid_pc_monitor.Scans.{Values}
use kid_pc_monitor.Snapshots.Dashboard.{dedupe_hostname, keeps, is_unknown, kept_entries}
use kid_pc_monitor.Snapshots.Dashboard.Loop.{Card}

module _ (values : Values) (casefold : Text → Text) (contact_times : Text → Option ℕ) where
  abbrev pub Shown : Type 0
  Shown = Card values casefold contact_times

  abbrev pub Items : Type 0
  Items = List (Text × Shown)

  -- The addresses differ.
  abbrev pub IsDistinct : List Shown → Type 0
  IsDistinct [] = Unit
  IsDistinct (e ∷ entries) =
      All (λ (x : Shown). text_eq x.0 e.0 ≡ false) entries × IsDistinct entries

  pub all-IsIn :
      (P : Text × Shown → Type 0) (best : Items) (p : Text × Shown) → All P best → IsIn p best → P p
  all-IsIn P [] p a i = absurd i
  all-IsIn P (q ∷ best) p a (inl e) = subst P (sym e) a.0
  all-IsIn P (q ∷ best) p a (inr i) = all-IsIn P best p a.1 i

  distinct-head :
      (e f : Shown) (entries : List Shown)
      → All (λ (x : Shown). text_eq x.0 e.0 ≡ false) entries
      → IsIn f entries
      → f.0 ≢ e.0
  distinct-head e f [] a i same = absurd i
  distinct-head e f (x ∷ entries) a (inl q) same =
      ground (arith, a.0, (text_eq_iff x.0 e.0).1 (ap (λ (y : Shown). y.0) (sym q) ∙ same))
  distinct-head e f (x ∷ entries) a (inr i) same = distinct-head e f entries a.1 i same

  pub same_entry :
      (e f : Shown) (entries : List Shown)
      → IsDistinct entries
      → IsIn e entries
      → IsIn f entries
      → e.0 ≡ f.0
      → e ≡ f
  same_entry e f [] d i j same = absurd i
  same_entry e f (x ∷ entries) d (inl p) (inl q) same = p ∙ sym q
  same_entry e f (x ∷ entries) d (inl p) (inr j) same =
      absurd (distinct-head x f entries d.0 j (sym same ∙ ap (λ (y : Shown). y.0) p))
  same_entry e f (x ∷ entries) d (inr i) (inl q) same =
      absurd (distinct-head x e entries d.0 i (same ∙ ap (λ (y : Shown). y.0) q))
  same_entry e f (x ∷ entries) d (inr i) (inr j) same = same_entry e f entries d.1 i j same

  abbrev pub test : Items → Shown → Bool
  test best e =
      is_unknown values casefold contact_times (dedupe_hostname values casefold e)
      || keeps values casefold contact_times e.0 best

  abbrev kept : Items → List Shown → List Shown
  kept best entries = kept_entries values casefold contact_times best entries

  pub kept_entries_inv :
      (best : Items) (entries : List Shown) (e : Shown)
      → IsIn e (kept best entries)
      → IsIn e entries × (test best e ≡ true)
  unfolding kept_entries
  kept_entries_inv best [] e = λ i. absurd i
  kept_entries_inv best (x ∷ entries) e =
      by_test (test best x) refl (kept_entries_inv best entries e)
    where
      by_test :
          (b : Bool)
          → test best x ≡ b
          → (IsIn e (kept best entries) → IsIn e entries × (test best e ≡ true))
          → IsIn e (if b then x ∷ kept best entries else kept best entries)
          → IsIn e (x ∷ entries) × (test best e ≡ true)
      by_test true t ih (inl q) = (inl q, ap (test best) q ∙ t)
      by_test true t ih (inr i) = (inr (ih i).0, (ih i).1)
      by_test false t ih i = (inr (ih i).0, (ih i).1)

  pub kept_entries-IsIn :
      (best : Items) (entries : List Shown) (e : Shown)
      → IsIn e entries
      → test best e ≡ true
      → IsIn e (kept best entries)
  unfolding kept_entries
  kept_entries-IsIn best [] e i t = absurd i
  kept_entries-IsIn best (x ∷ entries) e (inl q) t =
      subst (λ b. IsIn e (if b then x ∷ kept best entries else kept best entries))
        (sym t ∙ ap (test best) q) (inl q)
  kept_entries-IsIn best (x ∷ entries) e (inr i) t =
      let ih = kept_entries-IsIn best entries e i t in
      elim (test best x) as (λ b. IsIn e (if b then x ∷ kept best entries else kept best entries)) [
        | true ↦ inr ih
        | false ↦ ih
      ]

  pub keeps_inv :
      (ip : Text) (best : Items)
      → keeps values casefold contact_times ip best ≡ true
      → (p : Text × Shown) × IsIn p best × (p.1.0 ≡ ip)
  unfolding keeps
  keeps_inv ip [] h = cc
  keeps_inv ip ((k, f) ∷ best) h = by_test (text_eq f.0 ip) refl h (keeps_inv ip best)
    where
      by_test :
          (b : Bool)
          → text_eq f.0 ip ≡ b
          → (b || keeps values casefold contact_times ip best) ≡ true
          → (keeps values casefold contact_times ip best ≡ true
              → (p : Text × Shown) × IsIn p best × (p.1.0 ≡ ip))
          → (p : Text × Shown) × IsIn p ((k, f) ∷ best) × (p.1.0 ≡ ip)
      by_test true t u ih = ((k, f), inl refl, (text_eq_iff f.0 ip).0 t)
      by_test false t u ih = let (p, i, e) = ih u in (p, inr i, e)

  pub keeps-IsIn :
      (p : Text × Shown) (best : Items)
      → IsIn p best
      → keeps values casefold contact_times p.1.0 best ≡ true
  unfolding keeps
  keeps-IsIn p [] i = absurd i
  keeps-IsIn p (q ∷ best) (inl e) =
      rw (ap (λ (r : Text × Shown). text_eq q.1.0 r.1.0) e ∙ text_eq_refl q.1.0) refl
  keeps-IsIn p (q ∷ best) (inr i) = ground (arith, keeps-IsIn p best i)
