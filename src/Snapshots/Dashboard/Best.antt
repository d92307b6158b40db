-- ===== src/Snapshots/Dashboard/Best.antt =====
-- The entry that the loop of `_dedupe_by_hostname` keeps for a host.
use kid_pc_monitor.Base.{
  ℕ, ◌≡◌, ◌⊎◌, inl, inr, refl, sym, ap, subst, ◌∙◌, Bool, true, false, Option, some, List, [], ◌∷◌,
  if◌then◌else◌, arith, All, IsIn,
}
use kid_pc_monitor.Base.Text.{Text, text_eq, text_eq_iff}
use kid_pc_monitor.Scans.{Values}
use kid_pc_monitor.Snapshots.Dashboard.{key_lt, Entry, dedupe_hostname, sort_key, better, improve}
use kid_pc_monitor.Snapshots.Dashboard.Order.{key_lt_irreflexive, key_lt_transitive}

some_injective : {A : Type 0} {a b : A} → some a ≡ some b → a ≡ b
some_injective e = cc

module _ (values : Values) (casefold : Text → Text) (contact_times : Text → Option ℕ) where
  abbrev pub Item : Type 0
  Item = Entry values casefold

  abbrev host_of : Item → Option Text
  host_of x = dedupe_hostname values casefold x

  abbrev pub below : Item → Item → Bool
  below x y =
      key_lt (sort_key values casefold contact_times x) (sort_key values casefold contact_times y)

  -- The entry is one of those seen, of this host, and none seen of this host is above it.
  abbrev pub Sound : (Item → Type 0) → Text × Item → Type 0
  Sound S (h, f) =
      S f
      × (dedupe_hostname values casefold f ≡ some h)
      × ((x : Item) → S x → dedupe_hostname values casefold x ≡ some h → below f x ≡ false)

  -- The dictionary has an entry for every host seen.
  abbrev pub Covers : (Item → Type 0) → List (Text × Item) → Type 0
  Covers S best =
      (x : Item) (h : Text)
      → S x
      → dedupe_hostname values casefold x ≡ some h
      → (f : Item) × IsIn (h, f) best

  abbrev pub Unique : List (Text × Item) → Type 0
  Unique [] = Unit
  Unique ((h, f) ∷ best) = All (λ (p : Text × Item). text_eq p.0 h ≡ false) best × Unique best

  abbrev pub BestFor : (Item → Type 0) → List (Text × Item) → Type 0
  BestFor S best = All (Sound S) best × Covers S best × Unique best

  abbrev pub Also : Item → (Item → Type 0) → Item → Type 0
  Also e S x = (x ≡ e) ⊎ S x

  below_irreflexive : (x : Item) → below x x ≡ false
  below_irreflexive x = key_lt_irreflexive (sort_key values casefold contact_times x)

  below_transitive : (x y z : Item) → below x y ≡ true → below y z ≡ true → below x z ≡ true
  below_transitive x y z =
      key_lt_transitive (sort_key values casefold contact_times x)
        (sort_key values casefold contact_times y) (sort_key values casefold contact_times z)

  module _ (S : Item → Type 0) (host : Text) (e : Item)
      (known : dedupe_hostname values casefold e ≡ some host) where
    other-Sound : (p : Text × Item) → text_eq p.0 host ≡ false → Sound S p → Sound (Also e S) p
    other-Sound (h, f) o (s, d, m) = (inr s, d, above)
      where
        above :
            (x : Item) → Also e S x → dedupe_hostname values casefold x ≡ some h → below f x ≡ false
        above x (inl q) t =
            let same : h ≡ host =
              some_injective (sym t ∙ ap (dedupe_hostname values casefold) q ∙ known) in
            absurd (ground (arith, o, (text_eq_iff h host).1 same))
        above x (inr q) t = m x q t

    better-Sound :
        (h : Text) (f : Item)
        → h ≡ host
        → Sound S (h, f)
        → Sound (Also e S) (h, better values casefold contact_times f e)
    better-Sound h f same (s, d, m) = by_order (below f e) refl
      where
        replaced :
            below f e ≡ true
            → (x : Item) → Also e S x
            → dedupe_hostname values casefold x ≡ some h
            → below e x ≡ false
        replaced o x (inl q) t = subst (λ y. below e y ≡ false) (sym q) (below_irreflexive e)
        replaced o x (inr q) t = ground (arith, o, m x q t, below_transitive f e x)

        kept :
            below f e ≡ false
            → (x : Item) → Also e S x
            → dedupe_hostname values casefold x ≡ some h
            → below f x ≡ false
        kept o x (inl q) t = subst (λ y. below f y ≡ false) (sym q) o
        kept o x (inr q) t = m x q t

        by_order : (b : Bool) → below f e ≡ b → Sound (Also e S) (h, (if b then e else f))
        by_order true o = (inl refl, known ∙ ap some (sym same), replaced o)
        by_order false o = (inr s, d, kept o)

    abbrev improved : List (Text × Item) → List (Text × Item)
    improved best = improve values casefold contact_times host e best

    others-Sound :
        (h : Text) (best : List (Text × Item))
        → h ≡ host
        → All (λ (p : Text × Item). text_eq p.0 h ≡ false) best
        → All (Sound S) best
        → All (Sound (Also e S)) best
    others-Sound h [] same u s = tt
    others-Sound h (p ∷ best) same u s = (
      other-Sound p (subst (λ k. text_eq p.0 k ≡ false) same u.0) s.0,
      others-Sound h best same u.1 s.1,
    )

    tail-Covers :
        (h : Text) (f : Item) (best : List (Text × Item))
        → text_eq h host ≡ false
        → ((x : Item)
            → S x
            → dedupe_hostname values casefold x ≡ some host
            → (g : Item) × IsIn (host, g) ((h, f) ∷ best))
        → (x : Item) → S x
        → dedupe_hostname values casefold x ≡ some host
        → (g : Item) × IsIn (host, g) best
    tail-Covers h f best o c x s d = by_place (c x s d)
      where
        by_place : (g : Item) × IsIn (host, g) ((h, f) ∷ best) → (g : Item) × IsIn (host, g) best
        by_place (g, inl q) =
            absurd
              (ground (arith, o, (text_eq_iff h host).1 (sym (ap (λ (p : Text × Item). p.0) q))))
        by_place (g, inr q) = (g, q)

    improve-Sound :
        (best : List (Text × Item))
        → All (Sound S) best
        → Unique best
        → ((x : Item)
            → S x
            → dedupe_hostname values casefold x ≡ some host
            → (g : Item) × IsIn (host, g) best)
        → All (Sound (Also e S)) (improved best)
    unfolding improve
    improve-Sound [] s u c = ((inl refl, known, alone), tt)
      where
        alone :
            (x : Item)
            → Also e S x
            → dedupe_hostname values casefold x ≡ some host
            → below e x ≡ false
        alone x (inl q) t = subst (λ y. below e y ≡ false) (sym q) (below_irreflexive e)
        alone x (inr q) t = absurd ((c x q t).1)
    improve-Sound ((h, f) ∷ best) s u c =
        let ih =
          λ (o : text_eq h host ≡ false). improve-Sound best s.1 u.1 (tail-Covers h f best o c) in
        by_host (text_eq h host) refl ih
      where
        by_host :
            (b : Bool)
            → text_eq h host ≡ b
            → (text_eq h host ≡ false → All (Sound (Also e S)) (improved best))
            → All (Sound (Also e S)) (
                if b
                then (h, better values casefold contact_times f e) ∷ best
                else (h, f) ∷ improved best)
        by_host true o ih =
            let same = (text_eq_iff h host).0 o in
            (better-Sound h f same s.0, others-Sound h best same u.0 s.1)
        by_host false o ih = (other-Sound (h, f) o s.0, ih o)

    improve-fresh :
        (h : Text) (best : List (Text × Item))
        → text_eq host h ≡ false
        → All (λ (p : Text × Item). text_eq p.0 h ≡ false) best
        → All (λ (p : Text × Item). text_eq p.0 h ≡ false) (improved best)
    unfolding improve
    improve-fresh h [] o u = (o, tt)
    improve-fresh h ((k, f) ∷ best) o u =
        elim (text_eq k host)
          as (λ b.
            All (λ (p : Text × Item). text_eq p.0 h ≡ false)
              (if b
                then (k, better values casefold contact_times f e) ∷ best
                else (k, f) ∷ improved best)) [
                  | true ↦ u
                  | false ↦ (u.0, improve-fresh h best o u.1)
                ]

    improve-Unique : (best : List (Text × Item)) → Unique best → Unique (improved best)
    unfolding improve
    improve-Unique [] u = (tt, tt)
    improve-Unique ((h, f) ∷ best) u = by_host (text_eq h host) refl (improve-Unique best u.1)
      where
        by_host :
            (b : Bool)
            → text_eq h host ≡ b
            → Unique (improved best)
            → Unique (
                if b
                then (h, better values casefold contact_times f e) ∷ best
                else (h, f) ∷ improved best)
        by_host true o ih = u
        by_host false o ih = (
          improve-fresh h best (ground (arith, o, text_eq_iff h host, text_eq_iff host h)) u.0,
          ih,
        )

    improve-has : (best : List (Text × Item)) → (g : Item) × IsIn (host, g) (improved best)
    unfolding improve
    improve-has [] = (e, inl refl)
    improve-has ((h, f) ∷ best) = by_host (text_eq h host) refl (improve-has best)
      where
        by_host :
            (b : Bool)
            → text_eq h host ≡ b
            → (g : Item) × IsIn (host, g) (improved best)
            → (g : Item) × IsIn
                (host, g)
                (if b
                  then (h, better values casefold contact_times f e) ∷ best
                  else (h, f) ∷ improved best)
        by_host true o ih =
            let g = better values casefold contact_times f e in
            (g, inl (ap (λ (k : Text). (k, g)) (sym ((text_eq_iff h host).0 o))))
        by_host false o ih = (ih.0, inr ih.1)

    improve-keeps :
        (k : Text) (g : Item) (best : List (Text × Item))
        → IsIn (k, g) best
        → (g' : Item) × IsIn (k, g') (improved best)
    unfolding improve
    improve-keeps k g [] i = absurd i
    improve-keeps k g ((h, f) ∷ best) (inl q) =
        elim (text_eq h host)
          as (λ b.
            (g' : Item) × IsIn (k, g')
              (if b
                then (h, better values casefold contact_times f e) ∷ best
                else (h, f) ∷ improved best)) [
                  | true ↦ (
                    better values casefold contact_times f e,
                    inl (
                        ap (λ (p : Text × Item). (p.0, better values casefold contact_times f e))
                          q),
                  )
                  | false ↦ (g, inl q)
                ]
    improve-keeps k g ((h, f) ∷ best) (inr q) =
        let (g', i) = improve-keeps k g best q in
        elim (text_eq h host)
          as (λ b.
            (g' : Item) × IsIn (k, g')
              (if b
                then (h, better values casefold contact_times f e) ∷ best
                else (h, f) ∷ improved best)) [ true ↦ (g, inr q) | false ↦ (g', inr i) ]

    pub improve-BestFor :
        (best : List (Text × Item)) → BestFor S best → BestFor (Also e S) (improved best)
    improve-BestFor best (s, c, u) =
        (improve-Sound best s u (λ x. c x host), covers, improve-Unique best u)
      where
        covers : Covers (Also e S) (improved best)
        covers x h (inl q) t =
            let same : host ≡ h =
              some_injective (sym known ∙ ap (dedupe_hostname values casefold) (sym q) ∙ t) in
            subst (λ k. (g : Item) × IsIn (k, g) (improved best)) same (improve-has best)
        covers x h (inr q) t = let (g, i) = c x h q t in improve-keeps h g best i
